-- ===== src/Prelude/Equality.antt =====
-- Python's `==` on keys: an interface with the instances that the program needs.
use Prim.Native.Nat.{ℕ}
use Prim.Native.String.{String, ◌++◌ as append}
use text.Mathlib.Text.{◌==◌ as str_beq}
use text.Mathlib.TextEquality.{eq_iff}
use mathlib.Core.Path.{◌≡◌, refl}
use mathlib.Core.Logic.{◌↔◌}
use mathlib.Core.Bool.{Bool, true}
use mathlib.Core.List.{List}
use vpn_passthrough.Prelude.Tests.{nat_beq, nat_beq_iff}
use vpn_passthrough.Prelude.Lists.{any}

-- A Boolean test that decides equality.
pub record Eq {ℓ} (A : Type ℓ) : Type ℓ where
  pub beq : A → A → Bool
  -- The test answers true on equal arguments, and on no others.
  pub beq_iff : (x y : A) → (beq x y ≡ true) ↔ (x ≡ y)

-- Texts are compared by their characters.
instance abbrev pub string_eq : Eq String
string_eq = record { beq = str_beq; beq_iff = eq_iff }

-- Natural numbers are compared as such.
instance abbrev pub nat_eq : Eq ℕ
nat_eq = record { beq = nat_beq; beq_iff = nat_beq_iff }

-- The instance's test.
infix 50 ◌==◌
abbrev pub ◌==◌ {ℓ} : {A : Type ℓ} ⦃e : Eq A⦄ → A → A → Bool
◌==◌ ⦃e⦄ = e.beq

module _ {ℓ} {A : Type ℓ} ⦃e : Eq A⦄ where
  pub eq_of_beq : (x y : A) → (x == y) ≡ true → x ≡ y
  eq_of_beq x y = (e.beq_iff x y).0

  pub beq_refl : (x : A) → (x == x) ≡ true
  beq_refl x = (e.beq_iff x x).1 refl

-- `a in xs`
abbrev pub elem {ℓ} : {A : Type ℓ} ⦃e : Eq A⦄ → A → List A → Bool
elem a xs = any (λ x. x == a) xs

-- The concatenation of two strings.
infixr 60 ◌<>◌
abbrev pub ◌<>◌ : String → String → String
s <> t = append s t
