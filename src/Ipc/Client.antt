-- ===== src/Ipc/Client.antt =====
-- `Client` of app/packages/ipc/src/radium226/vpn_passthrough/ipc/client.py: the requests that wait
-- for a response, the routing of events by class, and the receive loop. A future is a number; it is
-- done when `futures` holds its outcome. A callback is a function that tells whether it returns or
-- raises, and its calls are recorded in order. What a message is comes from the codec's side.
pub mod Routing
pub mod Responses
pub mod Events
use vpn_passthrough.Prelude.{
  ℕ, suc, ◌+◌, String, string_eq, nat_eq, Eq, ◌==◌, not, Bool, true, false, Option, none, some,
  List, [], ◌∷◌, ◌++◌, or_else, if◌then◌else◌, any,
}
use vpn_passthrough.Prelude.Dict.{Dict, lookup, contains, insert, erase}
use vpn_passthrough.Ipc.Protocol.{
  TypeExpr, flatten_event_types, resolve_type, Protocol, Validation, accepted, type_error,
  validate_response,
}

-- How the protocol's structural types see a message: `Request`, a `Response` that is no
-- `ErrorResponse`, an `ErrorResponse`, or neither.
pub data Shape : Type 0 where
  request response : String → Shape
  error_response : String → String → String → Shape
  other : Shape

pub record Messages (C M : Type 0) : Type 0 where
  pub class_of : M → C
  pub shape : M → Shape

-- The end of a request's future.
pub data Outcome : Type 0 where
  result connection_error cancelled : Outcome
  request_failed : String → String → Outcome

-- A value of `_pending`, with its `ResponseHandler`.
pub record Entry (C M : Type 0) : Type 0 where
  pub future : ℕ
  pub class : C
  pub on_event : Option (M → Bool)
  pub on_response : Option (M → Bool)

pub record Client (C M : Type 0) : Type 0 where
  pub pending : Dict String (Entry C M)
  pub event_routing : Dict C (List String)
  pub futures : Dict ℕ Outcome
  pub next_future : ℕ
  pub calls : List (String × M)

-- `[rid for rid in lst if rid != request_id]`
unfoldable pub without : String → List String → List String
without id [] = []
without id (i ∷ ids) = let rest = without id ids in if i == id then rest else i ∷ rest

-- `lst[:] = …` and `del` of a list that is left empty.
unfoldable pub keep_nonempty {ℓ} :
    {C : Type ℓ} ⦃e : Eq C⦄ → C → List String → Dict C (List String) → Dict C (List String)
keep_nonempty c [] routing = erase c routing
keep_nonempty c (i ∷ ids) routing = insert c (i ∷ ids) routing

module _ {ℓ} {C : Type ℓ} ⦃e : Eq C⦄ where
  -- The loop of `_register_event_routing`.
  unfoldable pub register_classes : String → List C → Dict C (List String) → Dict C (List String)
  register_classes id [] routing = routing
  register_classes id (c ∷ cs) routing =
      register_classes id cs (insert c (or_else (lookup c routing) [] ++ id ∷ []) routing)

  -- One round of `_unregister_event_routing`, with what the table holds for the class.
  unfoldable pub unregister_class :
      String → C → Option (List String) → Dict C (List String) → Dict C (List String)
  unfolding without keep_nonempty
  unregister_class id c none routing = routing
  unregister_class id c (some ids) routing = keep_nonempty c (without id ids) routing

  -- The loop of `_unregister_event_routing`.
  unfoldable pub unregister_classes : String → List C → Dict C (List String) → Dict C (List String)
  unfolding unregister_class
  unregister_classes id [] routing = routing
  unregister_classes id (c ∷ cs) routing =
      unregister_classes id cs (unregister_class id c (lookup c routing) routing)

-- The classes of the events of a request; a class that declares none is routed nothing.
unfoldable pub event_classes {ℓ} : {C : Type ℓ} → Option (TypeExpr C) → List C
unfolding flatten_event_types resolve_type
event_classes none = []
event_classes (some t) = flatten_event_types (resolve_type t)

module _ {ℓ} {C : Type ℓ} ⦃e : Eq C⦄ (P : Protocol C) where
  unfoldable pub register_event_routing : String → C → Dict C (List String) → Dict C (List String)
  unfolding register_classes event_classes
  register_event_routing id c = register_classes id (event_classes (P.event_type c))

  unfoldable pub unregister_event_routing : String → C → Dict C (List String) → Dict C (List String)
  unfolding unregister_classes event_classes
  unregister_event_routing id c = unregister_classes id (event_classes (P.event_type c))

module _ {C M : Type 0} where
  -- `if not future.done(): future.set_…`
  unfoldable pub settle : ℕ → Outcome → Client C M → Client C M
  settle future outcome s =
      if contains future s.futures
      then s
      else record s { futures = insert future outcome s.futures }

  abbrev pub call : String → M → Client C M → Client C M
  call id message s = record s { calls = s.calls ++ (id, message) ∷ [] }

  abbrev pub clear : Client C M → Client C M
  clear s = record s { pending = []; event_routing = [] }

  -- `on_response`, if there is one, and then the result; a callback that raises ends the round.
  unfoldable pub respond : String → M → Entry C M → Client C M → Client C M
  unfolding settle
  respond id message entry s = elim entry.on_response [
    | none ↦ settle entry.future result s
    | some f ↦
        if f message then settle entry.future result (call id message s) else call id message s
  ]

  -- The loop over `list(request_ids)`; a callback that raises ends it.
  unfoldable pub deliver : M → List String → Client C M → Client C M
  deliver message [] s = s
  deliver message (id ∷ ids) s = elim (lookup id s.pending) [
    | none ↦ deliver message ids s
    | some entry ↦ elim entry.on_event [
      | none ↦ deliver message ids s
      | some f ↦ elim (f message) [
        | true ↦ deliver message ids (call id message s)
        | false ↦ call id message s
      ]
    ]
  ]

  -- The loops over `self._pending.items()`.
  unfoldable pub settle_all : Outcome → Dict String (Entry C M) → Client C M → Client C M
  unfolding settle
  settle_all outcome [] s = s
  settle_all outcome ((id, entry) ∷ entries) s =
      settle_all outcome entries (settle entry.future outcome s)

  -- The `finally` of `_receive_loop`: the connection has closed.
  unfoldable pub connection_closed : Client C M → Client C M
  unfolding settle_all
  connection_closed s = clear (settle_all connection_error s.pending s)

  -- `aclose`: the receive task is cancelled, and its `finally` runs before the rest.
  unfoldable pub aclose : Client C M → Client C M
  unfolding connection_closed settle_all
  aclose s = let s' = connection_closed s in clear (settle_all cancelled s'.pending s')

module _ {C M : Type 0} ⦃e : Eq C⦄ (P : Protocol C) (K : Messages C M) where
  -- `request` up to its `send_frame`.
  unfoldable pub begin_request :
      String → C → Option (M → Bool) → Option (M → Bool) → Client C M → Client C M
  unfolding register_event_routing
  begin_request id c on_event on_response s =
      let entry : Entry C M = record {
        future = s.next_future;
        class = c;
        on_event = on_event;
        on_response = on_response;
      } in
      record s {
        next_future = s.next_future + 1;
        pending = insert id entry s.pending;
        event_routing = register_event_routing P id c s.event_routing;
      }

  -- The `finally` of `request`, after the future is done or the frame could not be sent.
  unfoldable pub end_request : String → C → Client C M → Client C M
  unfolding unregister_event_routing
  end_request id c s = record s { event_routing = unregister_event_routing P id c s.event_routing }

  -- A response that is no error for a request that was pending: `validate_response` may raise.
  unfoldable pub accept_response : String → M → Entry C M → Client C M → Client C M
  unfolding respond
  accept_response id message entry s = elim (validate_response P entry.class (K.class_of message)) [
    | accepted ↦ respond id message entry s
    | type_error ↦ s
  ]

  unfoldable pub deliver_event : M → Client C M → Client C M
  unfolding deliver
  deliver_event message s =
      deliver message (or_else (lookup (K.class_of message) s.event_routing) []) s

  -- One decoded message of `_receive_loop`; an exception is logged and the loop goes on.
  unfoldable pub receive_message : M → Client C M → Client C M
  unfolding accept_response settle deliver_event
  receive_message message s = elim (K.shape message) [
    | response id ↦ elim (lookup id s.pending) [
      | none ↦ s
      | some entry ↦ accept_response id message entry (record s { pending = erase id s.pending })
    ]
    | error_response id error_type text ↦ elim (lookup id s.pending) [
      | none ↦ s
      | some entry ↦
          settle entry.future (request_failed error_type text)
            (record s { pending = erase id s.pending })
    ]
    | request id ↦ deliver_event message s
    | other ↦ deliver_event message s
  ]
