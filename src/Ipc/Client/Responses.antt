-- ===== src/Ipc/Client/Responses.antt =====
-- What a response, an error response and the end of the connection do to the requests that wait.
use vpn_passthrough.Prelude.{
  ℕ, String, string_eq, nat_eq, Eq, ◌==◌, ◌≡◌, ◌≢◌, refl, Bool, true, Option, none, some, [], ◌∷◌,
  or_else, ◌∙◌, ap, eq_of_beq, Bool-cases, inl, inr, if◌then◌else◌, arith, All,
}
use vpn_passthrough.Prelude.Dict.{Dict, lookup, erase, lookup-insert, lookup-erase}
use vpn_passthrough.Ipc.Protocol.{Protocol, accepted, type_error, validate_response}
use vpn_passthrough.Ipc.Client.{
  Messages, response, error_response, Outcome, result, connection_error, request_failed, Entry,
  Client, settle, respond, accept_response, settle_all, receive_message, connection_closed,
}

-- Whether a callback that is there returns.
abbrev pub returns {ℓ} : {M : Type ℓ} → Option (M → Bool) → M → Bool
returns none message = true
returns (some f) message = f message

module _ {C M : Type 0} where
  -- A future keeps its first outcome.
  lookup-settle :
      (f g : ℕ) (outcome : Outcome) (s : Client C M)
      → lookup g (settle f outcome s).futures
        ≡ (if f == g then some (or_else (lookup f s.futures) outcome) else lookup g s.futures)
  unfolding settle
  lookup-settle f g outcome s = ground (arith, lookup-insert f g outcome s.futures)

  settle_only_futures :
      (f : ℕ) (outcome : Outcome) (s : Client C M)
      → ((settle f outcome s).pending ≡ s.pending)
        × ((settle f outcome s).calls ≡ s.calls)
        × ((settle f outcome s).event_routing ≡ s.event_routing)
  unfolding settle
  settle_only_futures f outcome s = ground arith

  lookup-settle_all_ne :
      (g : ℕ) (outcome : Outcome) (entries : Dict String (Entry C M)) (s : Client C M)
      → All (λ p. p.1.future ≢ g) entries
      → lookup g (settle_all outcome entries s).futures ≡ lookup g s.futures
  unfolding settle_all
  lookup-settle_all_ne g outcome [] s h = refl
  lookup-settle_all_ne g outcome ((id, entry) ∷ entries) s h = ground (
    arith,
    lookup-settle_all_ne g outcome entries (settle entry.future outcome s) h.1,
    lookup-settle entry.future g outcome s,
    h.0,
  )

  settle_keeps :
      (f g : ℕ) (outcome o : Outcome) (s : Client C M)
      → lookup g s.futures ≡ some o
      → lookup g (settle f outcome s).futures ≡ some o
  settle_keeps f g outcome o s h = grind (arith, lookup-settle f g outcome s)

  settled :
      (f : ℕ) (outcome : Outcome) (s : Client C M)
      → lookup f (settle f outcome s).futures ≡ some (or_else (lookup f s.futures) outcome)
  settled f outcome s = ground (arith, lookup-settle f f outcome s)

  settle_same :
      (f g : ℕ) (outcome : Outcome) (s : Client C M)
      → or_else (lookup g (settle f outcome s).futures) outcome
        ≡ or_else (lookup g s.futures) outcome
  settle_same f g outcome s = elim (Bool-cases (f == g)) [
    | inl e ↦ grind (arith, lookup-settle f g outcome s, eq_of_beq f g e)
    | inr e ↦ grind (arith, lookup-settle f g outcome s)
  ]

  settle_all_keeps :
      (g : ℕ) (outcome o : Outcome) (entries : Dict String (Entry C M)) (s : Client C M)
      → lookup g s.futures ≡ some o
      → lookup g (settle_all outcome entries s).futures ≡ some o
  unfolding settle_all
  settle_all_keeps g outcome o [] s h = h
  settle_all_keeps g outcome o ((id, entry) ∷ entries) s h =
      settle_all_keeps g outcome o entries (settle entry.future outcome s)
        (settle_keeps entry.future g outcome o s h)

  -- `s` has come from `s0` by futures that were given the outcome.
  settle_all_settles :
      (outcome : Outcome) (entries : Dict String (Entry C M)) (s0 s : Client C M)
      → ((g : ℕ) → or_else (lookup g s.futures) outcome ≡ or_else (lookup g s0.futures) outcome)
      → All
          (λ p.
            lookup p.1.future (settle_all outcome entries s).futures
            ≡ some (or_else (lookup p.1.future s0.futures) outcome))
          entries
  unfolding settle_all
  settle_all_settles outcome [] s0 s same = tt
  settle_all_settles outcome ((id, entry) ∷ entries) s0 s same = (
    settle_all_keeps entry.future outcome (or_else (lookup entry.future s0.futures) outcome) entries
        (settle entry.future outcome s)
        (settled entry.future outcome s ∙ ap some (same entry.future)),
    settle_all_settles outcome entries s0 (settle entry.future outcome s)
        (λ g. settle_same entry.future g outcome s ∙ same g),
  )

  -- When the connection closes, no request waits any more: each pending request's future is done,
  -- with the error of the connection unless it was done before; a future that was done keeps its
  -- outcome; and both tables are empty.
  pub connection_closed_settles :
      (s : Client C M)
      → All
          (λ p.
            lookup p.1.future (connection_closed s).futures
            ≡ some (or_else (lookup p.1.future s.futures) connection_error))
          s.pending
        × ((g : ℕ) (o : Outcome)
            → lookup g s.futures ≡ some o
            → lookup g (connection_closed s).futures ≡ some o)
        × ((connection_closed s).pending ≡ [])
        × ((connection_closed s).event_routing ≡ [])
  unfolding connection_closed
  connection_closed_settles s = (
    settle_all_settles connection_error s.pending s s (λ g. refl),
    λ g o. settle_all_keeps g connection_error o s.pending s,
    refl,
    refl,
  )

module _ {C M : Type 0} ⦃e : Eq C⦄ (P : Protocol C) (K : Messages C M) where
  popped : String → Client C M → Client C M
  popped id s = record s { pending = erase id s.pending }

  receive_valid :
      (m : M) (s : Client C M) (id : String) (entry : Entry C M)
      → K.shape m ≡ response id
      → lookup id s.pending ≡ some entry
      → validate_response P entry.class (K.class_of m) ≡ accepted
      → receive_message P K m s ≡ respond id m entry (popped id s)
  unfolding receive_message popped
  receive_valid m s id entry shape found valid =
      rw (shape, receive_message) (rw (found, valid, accept_response))

  receive_invalid :
      (m : M) (s : Client C M) (id : String) (entry : Entry C M)
      → K.shape m ≡ response id
      → lookup id s.pending ≡ some entry
      → validate_response P entry.class (K.class_of m) ≡ type_error
      → receive_message P K m s ≡ popped id s
  unfolding receive_message popped
  receive_invalid m s id entry shape found invalid =
      rw (shape, receive_message) (rw (found, invalid, accept_response))

  receive_error :
      (m : M) (s : Client C M) (id error_type text : String) (entry : Entry C M)
      → K.shape m ≡ error_response id error_type text
      → lookup id s.pending ≡ some entry
      → receive_message P K m s ≡ settle entry.future (request_failed error_type text) (popped id s)
  unfolding receive_message popped
  receive_error m s id error_type text entry shape found = rw (shape, receive_message) (rw found)

  -- A callback that returns, or none, leaves the settled future and a record of the call.
  respond-returns :
      (id : String) (m : M) (entry : Entry C M) (s : Client C M)
      → returns entry.on_response m ≡ true
      → ((respond id m entry s).futures ≡ (settle entry.future result s).futures)
        × ((respond id m entry s).pending ≡ s.pending)
        × ((respond id m entry s).event_routing ≡ s.event_routing)
  unfolding respond
  respond-returns id m entry s runs = ground arith

  -- A response that passes the validation of its pending request, and whose callback, if any,
  -- returns, completes that request's future, unless it is done, takes the request and no other off
  -- the table, and changes no other future and no routing.
  pub response_completes :
      (m : M) (s : Client C M) (id : String) (entry : Entry C M)
      → K.shape m ≡ response id
      → lookup id s.pending ≡ some entry
      → validate_response P entry.class (K.class_of m) ≡ accepted
      → returns entry.on_response m ≡ true
      → let s' = receive_message P K m s in
        (lookup entry.future s'.futures ≡ some (or_else (lookup entry.future s.futures) result))
        × ((g : ℕ) → entry.future ≢ g → lookup g s'.futures ≡ lookup g s.futures)
        × ((j : String) → lookup j s'.pending ≡ (if id == j then none else lookup j s.pending))
        × (s'.event_routing ≡ s.event_routing)
  unfolding popped
  response_completes m s id entry shape found valid runs =
      let (futures, pending, routing) = respond-returns id m entry (popped id s) runs in
      rw (receive_valid m s id entry shape found valid) (
        rw (futures, pending, routing)
          (
            ground (arith, lookup-settle entry.future entry.future result (popped id s)),
            λ g ne. ground (arith, lookup-settle entry.future g result (popped id s)),
            λ j. lookup-erase id j s.pending,
            refl,
          ))

  -- A response that fails the validation of its pending request takes the request off the table and
  -- leaves its future as it is, so that not even the end of the connection completes a future that
  -- no other pending request waits on: the request never returns.
  pub invalid_response_strands :
      (m : M) (s : Client C M) (id : String) (entry : Entry C M)
      → K.shape m ≡ response id
      → lookup id s.pending ≡ some entry
      → validate_response P entry.class (K.class_of m) ≡ type_error
      → lookup entry.future s.futures ≡ none
      → All (λ p. p.1.future ≢ entry.future) (erase id s.pending)
      → lookup entry.future (connection_closed (receive_message P K m s)).futures ≡ none
  unfolding connection_closed popped
  invalid_response_strands m s id entry shape found invalid waiting alone =
      rw (receive_invalid m s id entry shape found invalid) (
        lookup-settle_all_ne entry.future connection_error (erase id s.pending) (popped id s) alone
        ∙ waiting)

  -- A response to a request that is not pending changes nothing.
  pub response_unknown :
      (m : M) (s : Client C M) (id : String)
      → K.shape m ≡ response id
      → lookup id s.pending ≡ none
      → receive_message P K m s ≡ s
  unfolding receive_message
  response_unknown m s id shape unknown = rw (shape, receive_message) (rw unknown)

  -- An error response fails the future of its pending request with the error that it carries,
  -- unless that future is done, takes the request and no other off the table, calls no callback,
  -- and changes no other future and no routing.
  pub error_response_fails :
      (m : M) (s : Client C M) (id error_type text : String) (entry : Entry C M)
      → K.shape m ≡ error_response id error_type text
      → lookup id s.pending ≡ some entry
      → let s' = receive_message P K m s in
        (lookup entry.future s'.futures
          ≡ some (or_else (lookup entry.future s.futures) (request_failed error_type text)))
        × ((g : ℕ) → entry.future ≢ g → lookup g s'.futures ≡ lookup g s.futures)
        × ((j : String) → lookup j s'.pending ≡ (if id == j then none else lookup j s.pending))
        × (s'.calls ≡ s.calls)
        × (s'.event_routing ≡ s.event_routing)
  unfolding popped
  error_response_fails m s id error_type text entry shape found =
      let outcome = request_failed error_type text in
      let (pending, calls, routing) = settle_only_futures entry.future outcome (popped id s) in
      rw (receive_error m s id error_type text entry shape found) (
        ground (arith, lookup-settle entry.future entry.future outcome (popped id s)),
        λ g ne. ground (arith, lookup-settle entry.future g outcome (popped id s)),
        λ j. rw pending (lookup-erase id j s.pending),
        calls,
        routing,
      )
