-- ===== src/Ipc/Client/Events.antt =====
-- Which requests an event reaches, and what a request leaves behind.
use text.Mathlib.TextEquality.{eq_iff}
use vpn_passthrough.Prelude.{
  String, string_eq, nat_eq, ◌+◌, Eq, ◌==◌, ◌≡◌, ◌≢◌, ◌⊎◌, inl, inr, refl, sym, ap, ◌∙◌, Bool, true,
  false, Option, none, some, List, [], ◌∷◌, ◌++◌, append_assoc, append-nil, or_else, elem, arith,
  All, beq_refl, eq_of_beq,
}
use vpn_passthrough.Prelude.Dict.{Dict, lookup, insert, lookup-insert}
use vpn_passthrough.Ipc.Protocol.{Protocol}
use vpn_passthrough.Ipc.Client.Responses.{returns}
use vpn_passthrough.Ipc.Client.{
  Messages, other, Entry, Client, register_classes, event_classes, register_event_routing,
  begin_request, end_request, call, deliver, deliver_event, receive_message,
}
use vpn_passthrough.Ipc.Client.Routing.{IsFresh, lookup-register_absent, unregister-register}

-- A class that a union lists exactly once.
abbrev pub Once {ℓ} : {C : Type ℓ} ⦃e : Eq C⦄ → C → List C → Type 0
Once d [] = ⊥
Once d (c ∷ cs) = (((c == d) ≡ true) × (elem d cs ≡ false)) ⊎ (((c == d) ≡ false) × Once d cs)

module _ {ℓ} {C : Type ℓ} ⦃e : Eq C⦄ where
  lookup-register-Once :
      (id : String) (cs : List C) (d : C) (routing : Dict C (List String))
      → Once d cs
      → lookup d (register_classes id cs routing) ≡ some (or_else (lookup d routing) [] ++ id ∷ [])
  unfolding register_classes
  lookup-register-Once id [] d routing h = absurd h
  lookup-register-Once id (c ∷ cs) d routing (inl (same, absent)) =
      let added = or_else (lookup c routing) [] ++ id ∷ [] in
      lookup-register_absent id cs d (insert c added routing) absent
      ∙ ground (arith, lookup-insert c d added routing, eq_of_beq c d same)
  lookup-register-Once id (c ∷ cs) d routing (inr (differs, once)) =
      let added = or_else (lookup c routing) [] ++ id ∷ [] in
      lookup-register-Once id cs d (insert c added routing) once
      ∙ ground (arith, lookup-insert c d added routing)

module _ {C M : Type 0} where
  -- The calls that a list of request identifiers leads to.
  unfoldable pub calls_for : M → List String → Dict String (Entry C M) → List (String × M)
  calls_for m [] pending = []
  calls_for m (id ∷ ids) pending =
      let rest = calls_for m ids pending in
      elim (lookup id pending) [
        | none ↦ rest
        | some entry ↦ elim entry.on_event [ none ↦ rest | some f ↦ (id, m) ∷ rest ]
      ]

  abbrev event_returns : M → Option (Entry C M) → Bool
  event_returns m none = true
  event_returns m (some entry) = returns entry.on_event m

  calls-deliver :
      (m : M) (ids : List String) (s : Client C M)
      → All (λ id. event_returns m (lookup id s.pending) ≡ true) ids
      → deliver m ids s ≡ record s { calls = s.calls ++ calls_for m ids s.pending }
  unfolding deliver calls_for
  calls-deliver m [] s h = ap (λ cs. record s { calls = cs }) (sym (append-nil s.calls))
  calls-deliver m (id ∷ ids) s h = ground (
    arith,
    calls-deliver m ids s h.1,
    calls-deliver m ids (call id m s) h.1,
    append_assoc s.calls ((id, m) ∷ []) (calls_for m ids s.pending),
  )

module _ {C M : Type 0} ⦃e : Eq C⦄ (P : Protocol C) (K : Messages C M) where
  -- If the callbacks that are routed an event all return, the event changes nothing but the record
  -- of calls: each pending request that its class is routed to, and that has a callback, gets it,
  -- in the order of the routing.
  pub event_delivered :
      (m : M) (s : Client C M) (ids : List String)
      → K.shape m ≡ other
      → lookup (K.class_of m) s.event_routing ≡ some ids
      → All (λ id. event_returns m (lookup id s.pending) ≡ true) ids
      → receive_message P K m s ≡ record s { calls = s.calls ++ calls_for m ids s.pending }
  unfolding receive_message deliver_event
  event_delivered m s ids shape routed runs =
      rw (shape, receive_message) (rw routed (calls-deliver m ids s runs))

  begun_both :
      (s : Client C M) (a b : String) (c : C) (f g : M → Bool) (fr gr : Option (M → Bool))
      → a ≢ b
      → let s' = begin_request P K b c (some g) gr (begin_request P K a c (some f) fr s) in
        (lookup a s'.pending
          ≡ some
              (record { future = s.next_future; class = c; on_event = some f; on_response = fr }))
        × (lookup b s'.pending
            ≡ some (record {
              future = s.next_future + 1;
              class = c;
              on_event = some g;
              on_response = gr;
            }))
  unfolding begin_request
  begun_both s a b c f g fr gr ne =
      let apart : (b == a) ≡ false = ground (arith, eq_iff b a) in
      (simp (lookup-insert, beq_refl, apart), simp (lookup-insert, beq_refl))

  -- Two requests of one class are pending, with callbacks that return, and nothing else is routed
  -- the event's class, which the requests' declared union lists once: an event of that class is
  -- delivered to both requests, whichever of them it was emitted for.
  pub event_reaches_both :
      (m : M) (s : Client C M) (a b : String) (c : C) (f g : M → Bool) (fr gr : Option (M → Bool))
      → a ≢ b
      → K.shape m ≡ other
      → Once (K.class_of m) (event_classes (P.event_type c))
      → lookup (K.class_of m) s.event_routing ≡ none
      → f m ≡ true
      → g m ≡ true
      → let s' = begin_request P K b c (some g) gr (begin_request P K a c (some f) fr s) in
        (receive_message P K m s').calls ≡ s.calls ++ (a, m) ∷ (b, m) ∷ []
  unfolding begin_request register_event_routing calls_for
  event_reaches_both m s a b c f g fr gr ne shape once fresh fm gm =
      let s' = begin_request P K b c (some g) gr (begin_request P K a c (some f) fr s) in
      let cs = event_classes (P.event_type c) in
      let routed : lookup (K.class_of m) s'.event_routing ≡ some (a ∷ b ∷ []) =
        lookup-register-Once b cs (K.class_of m) (register_classes a cs s.event_routing) once
        ∙ rw (lookup-register-Once a cs (K.class_of m) s.event_routing once) (rw fresh) in
      let (at_a, at_b) = begun_both s a b c f g fr gr ne in
      rw (event_delivered m s' (a ∷ b ∷ []) shape routed (rw at_a fm, (rw at_b gm, tt)))
        (rw (at_a, calls_for) (rw (at_b, calls_for)))

  -- A request whose frame could not be sent stays in the table of pending requests, with its
  -- callbacks, while its events are routed as before.
  pub unsent_request_stays :
      (s : Client C M) (id : String) (c d : C) (f g : Option (M → Bool))
      → IsFresh id (lookup d s.event_routing)
      → let s' = end_request P K id c (begin_request P K id c f g s) in
        (lookup id s'.pending
          ≡ some (record { future = s.next_future; class = c; on_event = f; on_response = g }))
        × (lookup s.next_future s'.futures ≡ lookup s.next_future s.futures)
        × (lookup d s'.event_routing ≡ lookup d s.event_routing)
  unfolding begin_request end_request
  unsent_request_stays s id c d f g fresh =
      (simp (lookup-insert, beq_refl), refl, unregister-register P id c d s.event_routing fresh)
