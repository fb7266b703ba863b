-- ===== src/Ipc/Protocol.antt =====
-- app/packages/ipc/src/radium226/vpn_passthrough/ipc/protocol.py, and `_flatten_event_types` of
-- client.py: which classes a request declares for its response and its events, and the validation
-- of a message against them. `C` is the type of the message classes; no message class derives from
-- another, so `isinstance` compares classes.
pub mod Laws
use vpn_passthrough.Prelude.{
  Eq, ◌==◌, ◌≡◌, ◌⊎◌, inl, inr, refl, Bool, true, false, Option, none, some, List, [], ◌∷◌, ◌++◌,
}

-- An argument of `Request[…, …]`: `Never`, a class, a union, a `ForwardRef` to what its text stands
-- for, or something that is no type for `isinstance`.
pub data TypeExpr {ℓ} (C : Type ℓ) : Type ℓ where
  never other : TypeExpr C
  cls : C → TypeExpr C
  union : TypeExpr C → TypeExpr C → TypeExpr C
  forward_ref : TypeExpr C → TypeExpr C

-- What a validation does: it returns, or it raises a `TypeError`.
pub data Validation : Type 0 where
  accepted type_error : Validation

pub Validation-cases : (v : Validation) → (v ≡ accepted) ⊎ (v ≡ type_error)
Validation-cases accepted = inl refl
Validation-cases type_error = inr refl

-- `isinstance(message, t)`, with none where it raises a `TypeError`.
unfoldable pub is_instance {ℓ} : {C : Type ℓ} ⦃e : Eq C⦄ → C → TypeExpr C → Option Bool
is_instance c never = none
is_instance c other = none
is_instance c (cls d) = some (d == c)
is_instance c (union s t) =
    let right = is_instance c t in
    elim (is_instance c s) [
      | none ↦ none
      | some found ↦ elim found [ true ↦ some true | false ↦ right ]
    ]
is_instance c (forward_ref t) = none

-- `_resolve_type`
unfoldable pub resolve_type {ℓ} : {C : Type ℓ} → TypeExpr C → TypeExpr C
resolve_type (forward_ref t) = t
resolve_type never = never
resolve_type other = other
resolve_type (cls c) = cls c
resolve_type (union s t) = union s t

-- `_flatten_event_types`
unfoldable pub flatten_event_types {ℓ} : {C : Type ℓ} → TypeExpr C → List C
flatten_event_types never = []
flatten_event_types (union s t) = flatten_event_types s ++ flatten_event_types t
flatten_event_types (cls c) = c ∷ []
flatten_event_types other = []
flatten_event_types (forward_ref t) = []

-- What a request class declares; none where it does not inherit from `Request[…, …]`.
pub record Protocol {ℓ} (C : Type ℓ) : Type ℓ where
  pub response_type : C → Option (TypeExpr C)
  pub event_type : C → Option (TypeExpr C)

-- The end of `validate_response` and of `validate_event`.
unfoldable pub verdict : Option Bool → Validation
verdict none = type_error
verdict (some false) = type_error
verdict (some true) = accepted

unfoldable pub validate {ℓ} : {C : Type ℓ} ⦃e : Eq C⦄ → Option (TypeExpr C) → C → Validation
unfolding verdict is_instance resolve_type
validate none c = type_error
validate (some expected) c = verdict (is_instance c (resolve_type expected))

module _ {ℓ} {C : Type ℓ} ⦃e : Eq C⦄ (P : Protocol C) where
  unfoldable pub validate_response : C → C → Validation
  unfolding validate
  validate_response request response = validate (P.response_type request) response

  unfoldable pub validate_event : C → C → Validation
  unfolding validate
  validate_event request event = validate (P.event_type request) event
