-- ===== src/Service/Ledger/Conservation.antt =====
-- Nothing that was entered is lost, and nothing is left that was not entered.
use mathlib.Core.List.{reverse, reverse-cons}
use vpn_passthrough.Prelude.{
  ℕ, suc, ◌+◌, String, string_eq, ◌==◌, ◌≡◌, refl, Bool, false, List, [], ◌∷◌, ◌++◌, map, or_else,
  if◌then◌else◌, beq_refl, Bool-cases, inl, inr, arith,
}
use vpn_passthrough.Prelude.Dict.{
  Dict, lookup, contains, insert, erase, lookup-insert, lookup-erase,
}
use vpn_passthrough.Service.State.{Resource, Action, acquire, release}
use vpn_passthrough.Service.Ledger.{Ledger, Move, fails, opens, extends, closes, Moves, rest, next}

-- How many of the context managers pass the test.
abbrev pub count : (Resource → Bool) → List Resource → ℕ
count test [] = 0
count test (r ∷ rs) = let later = count test rs in if test r then suc later else later

abbrev pub count_acquired : (Resource → Bool) → List Action → ℕ
count_acquired test [] = 0
count_acquired test (acquire r ∷ trace) =
    let later = count_acquired test trace in if test r then suc later else later
count_acquired test (release r ∷ trace) = count_acquired test trace

abbrev pub count_released : (Resource → Bool) → List Action → ℕ
count_released test [] = 0
count_released test (acquire r ∷ trace) = count_released test trace
count_released test (release r ∷ trace) =
    let later = count_released test trace in if test r then suc later else later

-- How many of those that the tunnels hold pass the test.
abbrev pub count_held : (Resource → Bool) → Dict String (List Resource) → ℕ
count_held test [] = 0
count_held test ((name, stack) ∷ d) = count test stack + count_held test d

-- No key is there twice.
abbrev pub Unique : {V : Type 0} → Dict String V → Type 0
Unique [] = Unit
Unique ((k, v) ∷ d) = (contains k d ≡ false) × Unique d

module _ {V : Type 0} where
  contains-insert-false :
      (k j : String) (v : V) (d : Dict String V)
      → (k == j) ≡ false
      → contains j d ≡ false
      → contains j (insert k v d) ≡ false
  contains-insert-false k j v d ne h = rw lookup-insert (ground arith)

  contains-erase-false :
      (k j : String) (d : Dict String V) → contains j d ≡ false → contains j (erase k d) ≡ false
  contains-erase-false k j d h = rw lookup-erase (ground arith)

  insert-Unique : (k : String) (v : V) (d : Dict String V) → Unique d → Unique (insert k v d)
  unfolding insert lookup
  insert-Unique k v [] u = (refl, tt)
  insert-Unique k v ((j, w) ∷ d) (a, u) = elim (Bool-cases (j == k)) [
    | inl e ↦ rw e (ground (arith, string_eq.beq_iff j k))
    | inr e ↦ rw e (
      contains-insert-false k j v d (ground (arith, string_eq.beq_iff j k, string_eq.beq_iff k j))
          a,
      insert-Unique k v d u,
    )
  ]

  erase-Unique : (k : String) (d : Dict String V) → Unique d → Unique (erase k d)
  unfolding erase
  erase-Unique k [] u = tt
  erase-Unique k ((j, w) ∷ d) (a, u) = elim (Bool-cases (j == k)) [
    | inl e ↦ rw e (erase-Unique k d u)
    | inr e ↦ rw e (contains-erase-false k j d a, erase-Unique k d u)
  ]

module _ (test : Resource → Bool) where
  count-append : (rs qs : List Resource) → count test (rs ++ qs) ≡ count test rs + count test qs
  count-append [] qs = omega arith
  count-append (r ∷ rs) qs = ground (arith, count-append rs qs)

  count-reverse : (rs : List Resource) → count test (reverse rs) ≡ count test rs
  count-reverse [] = refl
  count-reverse (r ∷ rs) = rw (reverse-cons r rs, count-append) (ground (arith, count-reverse rs))

  acquired-append :
      (xs ys : List Action)
      → count_acquired test (xs ++ ys) ≡ count_acquired test xs + count_acquired test ys
  acquired-append [] ys = omega arith
  acquired-append (acquire r ∷ xs) ys = ground (arith, acquired-append xs ys)
  acquired-append (release r ∷ xs) ys = acquired-append xs ys

  released-append :
      (xs ys : List Action)
      → count_released test (xs ++ ys) ≡ count_released test xs + count_released test ys
  released-append [] ys = omega arith
  released-append (acquire r ∷ xs) ys = released-append xs ys
  released-append (release r ∷ xs) ys = ground (arith, released-append xs ys)

  acquired-acquire : (rs : List Resource) → count_acquired test (map acquire rs) ≡ count test rs
  acquired-acquire [] = refl
  acquired-acquire (r ∷ rs) = ground (arith, acquired-acquire rs)

  released-acquire : (rs : List Resource) → count_released test (map acquire rs) ≡ 0
  released-acquire [] = refl
  released-acquire (r ∷ rs) = released-acquire rs

  acquired-release : (rs : List Resource) → count_acquired test (map release rs) ≡ 0
  acquired-release [] = refl
  acquired-release (r ∷ rs) = acquired-release rs

  released-release : (rs : List Resource) → count_released test (map release rs) ≡ count test rs
  released-release [] = refl
  released-release (r ∷ rs) = ground (arith, released-release rs)

  ruleset counts = (
    count-append, count-reverse, acquired-append, released-append, acquired-acquire,
    released-acquire, acquired-release, released-release,
  )

  held-insert :
      (name : String) (stack : List Resource) (d : Dict String (List Resource))
      → count_held test (insert name stack d) + count test (or_else (lookup name d) [])
        ≡ count_held test d + count test stack
  unfolding insert lookup
  held-insert name stack [] = omega arith
  held-insert name stack ((j, w) ∷ d) = ground (arith, held-insert name stack d)

  held-absent :
      (name : String) (d : Dict String (List Resource))
      → contains name d ≡ false
      → count_held test (erase name d) ≡ count_held test d
  unfolding erase lookup
  held-absent name [] h = refl
  held-absent name ((j, w) ∷ d) h = ground (arith, held-absent name d)

  held-erase :
      (name : String) (d : Dict String (List Resource))
      → Unique d
      → count_held test (erase name d) + count test (or_else (lookup name d) []) ≡ count_held test d
  unfolding erase lookup
  held-erase name [] u = refl
  held-erase name ((j, w) ∷ d) (a, u) =
      ground (
        arith,
        string_eq.beq_iff j name,
        held-erase name d u,
        held-absent j d a,
        held-absent name d,
      )

  abbrev pub Balanced : Ledger → Type 0
  Balanced l = count_acquired test l.trace ≡ count_released test l.trace + count_held test l.stacks

  count_absent :
      (name : String) (d : Dict String (List Resource))
      → contains name d ≡ false
      → count test (or_else (lookup name d) []) ≡ 0
  count_absent name d h = ground arith

  Move-Balanced : {l m : Ledger} → Move l m → Unique l.stacks → Balanced l → Balanced m
  Move-Balanced (fails rs l) u b = simp counts (omega arith)
  Move-Balanced (opens name rs l free) u b =
      let h = held-insert name (reverse rs) l.stacks in
      let k = count_absent name l.stacks free in simp counts (omega (arith, count-reverse rs))
  Move-Balanced (extends name r stack l there) u b =
      let h = held-insert name (r ∷ stack) l.stacks in simp counts (ground (arith, test r))
  Move-Balanced (closes name l) u b =
      let h = held-erase name l.stacks u in simp counts (omega arith)

-- What a ledger with unique keys keeps.
pub record Conserved (l : Ledger) : Type 0 where
  pub unique : Unique l.stacks
  pub balanced : (test : Resource → Bool) → Balanced test l

Move-Unique : {l m : Ledger} → Move l m → Unique l.stacks → Unique m.stacks
Move-Unique (fails rs l) u = u
Move-Unique (opens name rs l free) u = insert-Unique name (reverse rs) l.stacks u
Move-Unique (extends name r stack l there) u = insert-Unique name (r ∷ stack) l.stacks u
Move-Unique (closes name l) u = erase-Unique name l.stacks u

pub Moves-Conserved : {l m : Ledger} → Moves l m → Conserved l → Conserved m
Moves-Conserved rest c = c
Moves-Conserved (next p move) c =
    let k = Moves-Conserved p c in
    record {
      unique = Move-Unique move k.unique;
      balanced = λ test. Move-Balanced test move k.unique (k.balanced test);
    }

-- A table without keys holds nothing.
pub held-empty :
    (test : Resource → Bool) (d : Dict String (List Resource))
    → ((j : String) → contains j d ≡ false)
    → count_held test d ≡ 0
unfolding lookup
held-empty test [] h = refl
held-empty test ((j, w) ∷ d) h = let k = h j in absurd (ground (arith, beq_refl j))
