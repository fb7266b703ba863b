-- ===== src/Ipc/Protocol/Laws.antt =====
-- Validation and routing read a declared type alike.
use vpn_passthrough.Prelude.{
  Eq, ◌==◌, ◌≡◌, refl, Bool, ◌||◌, some, List, [], ◌∷◌, ◌++◌, any, elem, arith,
}
use vpn_passthrough.Ipc.Protocol.{
  TypeExpr, never, other, cls, union, forward_ref, is_instance, resolve_type, flatten_event_types,
  Protocol, type_error, verdict, validate, validate_event,
}

-- A union of classes, quoted as a whole or not.
abbrev IsUnion {ℓ} : {C : Type ℓ} → TypeExpr C → Type 0
IsUnion never = ⊥
IsUnion other = ⊥
IsUnion (cls c) = Unit
IsUnion (union s t) = IsUnion s × IsUnion t
IsUnion (forward_ref t) = ⊥

abbrev pub IsClassUnion {ℓ} : {C : Type ℓ} → TypeExpr C → Type 0
IsClassUnion t = IsUnion (resolve_type t)

module _ {ℓ} {C : Type ℓ} ⦃e : Eq C⦄ where
  any-append : (p : C → Bool) (xs ys : List C) → any p (xs ++ ys) ≡ (any p xs || any p ys)
  any-append p [] ys = refl
  any-append p (x ∷ xs) ys = ground (arith, any-append p xs ys)

  is_instance-flatten :
      (c : C) (t : TypeExpr C) → IsUnion t → is_instance c t ≡ some (elem c (flatten_event_types t))
  unfolding is_instance flatten_event_types
  is_instance-flatten c never h = absurd h
  is_instance-flatten c other h = absurd h
  is_instance-flatten c (cls d) h = ground arith
  is_instance-flatten c (union s t) h = ground (
    arith,
    is_instance-flatten c s h.0,
    is_instance-flatten c t h.1,
    any-append (λ x. x == c) (flatten_event_types s) (flatten_event_types t),
  )
  is_instance-flatten c (forward_ref t) h = absurd h

  -- For a request whose events are a union of classes, an event passes the server's validation
  -- exactly when its class is among those under which the client routes the request's events.
  pub validate_event-routes :
      (P : Protocol C) (request event : C) (t : TypeExpr C)
      → P.event_type request ≡ some t
      → IsUnion (resolve_type t)
      → validate_event P request event
        ≡ verdict (some (elem event (flatten_event_types (resolve_type t))))
  unfolding validate_event validate
  validate_event-routes P request event t p h =
      rw (p, validate, is_instance-flatten event (resolve_type t) h)

  -- A request that declares `Never` for its events lets no event pass.
  pub validate_event-never :
      (P : Protocol C) (request event : C)
      → P.event_type request ≡ some never
      → validate_event P request event ≡ type_error
  unfolding validate_event
  validate_event-never P request event p = rw (p, validate)
