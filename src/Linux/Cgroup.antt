-- ===== src/Linux/Cgroup.antt =====
-- `_parse_cgroupv2_path` of linux.py. A line is the list of its code points; the lines of the file
-- are what `splitlines` gives, none where the file cannot be read.
use vpn_passthrough.Prelude.{
  ℕ, zero, suc, nat_eq, ◌==◌, if◌then◌else◌, ◌≡◌, ◌≢◌, ◌↔◌, refl, ap, ap₂, eq_of_beq, ◌∙◌, Option,
  none, some, List, [], ◌∷◌, Bool-cases, Option-cases, inl, inr, arith,
}

abbrev add_to_first : ℕ → List (List ℕ) → List (List ℕ)
add_to_first c [] = (c ∷ []) ∷ []
add_to_first c (w ∷ ws) = (c ∷ w) ∷ ws

-- `line.split(":", n)`
unfoldable pub split_at_colons : ℕ → List ℕ → List (List ℕ)
split_at_colons zero line = line ∷ []
split_at_colons (suc n) [] = [] ∷ []
split_at_colons (suc n) (c ∷ line) =
    let inside = split_at_colons (suc n) line in
    let after = split_at_colons n line in if c == 58 then [] ∷ after else add_to_first c inside

-- `parts[2]`, where there are three parts, the first is "0" and the second is empty.
unfoldable pub unified : List (List ℕ) → Option (List ℕ)
unified ((c ∷ []) ∷ [] ∷ path ∷ []) = if c == 48 then some path else none
unified _ = none

abbrev first_of : Option (List ℕ) → Option (List ℕ) → Option (List ℕ)
first_of (some path) later = some path
first_of none later = later

-- The loop over the lines.
unfoldable pub find_unified : List (List ℕ) → Option (List ℕ)
unfolding split_at_colons unified
find_unified [] = none
find_unified (line ∷ lines) = first_of (unified (split_at_colons 2 line)) (find_unified lines)

unfoldable pub parse_cgroupv2_path : Option (List (List ℕ)) → Option (List ℕ)
unfolding find_unified
parse_cgroupv2_path none = none
parse_cgroupv2_path (some lines) = find_unified lines

-- "0::" with a path behind it
abbrev pub unified_line : List ℕ → List ℕ
unified_line path = 48 ∷ 58 ∷ 58 ∷ path

-- The first of the lines that begins with "0::" has this path.
pub data FirstUnified : List (List ℕ) → List ℕ → Type 0 where
  here : (path : List ℕ) (lines : List (List ℕ)) → FirstUnified (unified_line path ∷ lines) path
  later :
      (line path : List ℕ) (lines : List (List ℕ))
      → ((other : List ℕ) → line ≢ unified_line other)
      → FirstUnified lines path
      → FirstUnified (line ∷ lines) path

none_first :
    (c d : ℕ) (parts : List (List ℕ)) → unified (add_to_first c (add_to_first d parts)) ≡ none
unfolding unified
none_first c d [] = refl
none_first c d (w ∷ ws) = refl

none_second : (c e : ℕ) (parts : List (List ℕ)) → unified ((c ∷ []) ∷ add_to_first e parts) ≡ none
unfolding unified
none_second c e [] = refl
none_second c e (w ∷ ws) = refl

none_not_some : {A : Type 0} (o : Option A) (a : A) {B : Type 0} → o ≡ none → o ≡ some a → B
none_not_some o a p q = absurd cc

-- A line whose first character is followed by a colon.
after_colon :
    (c e : ℕ) (line path : List ℕ)
    → unified ((c ∷ []) ∷ split_at_colons 1 (e ∷ line)) ≡ some path
    → (c ≡ 48) × (e ≡ 58) × (line ≡ path)
unfolding unified split_at_colons
after_colon c e line path h = elim (Bool-cases (e == 58)) [
  | inl q ↦ ground (arith)
  | inr q ↦ none_not_some _ path (none_second c e (split_at_colons 1 line)) (rw q at h)
]

unified-line :
    (line path : List ℕ) → unified (split_at_colons 2 line) ≡ some path → line ≡ unified_line path
unfolding unified split_at_colons
unified-line [] path h = cc
unified-line (c ∷ []) path h = ground arith
unified-line (c ∷ d ∷ []) path h = ground arith
unified-line (c ∷ d ∷ e ∷ line) path h = elim (Bool-cases (c == 58)) [
  | inl p ↦ none_not_some none path refl (rw p at h)
  | inr p ↦ elim (Bool-cases (d == 58)) [
    | inl q ↦
        let k = after_colon c e line path (rw (p, q) at h) in
        ap₂ (λ a d. a ∷ d ∷ e ∷ line) k.0 (eq_of_beq d 58 q) ∙ ap₂ (λ b l. 48 ∷ 58 ∷ b ∷ l) k.1 k.2
    | inr q ↦ none_not_some _ path (none_first c d (split_at_colons 2 (e ∷ line))) (rw (p, q) at h)
  ]
]

line-unified : (path : List ℕ) → unified (split_at_colons 2 (unified_line path)) ≡ some path
unfolding unified split_at_colons
line-unified path = refl

find-FirstUnified :
    (lines : List (List ℕ)) (path : List ℕ)
    → find_unified lines ≡ some path
    → FirstUnified lines path
unfolding find_unified
find-FirstUnified [] path h = cc
find-FirstUnified (line ∷ lines) path h = elim (Option-cases (unified (split_at_colons 2 line))) [
  | inl e ↦
      later line path lines
        (λ other k.
          none_not_some _ other e (ap (λ l. unified (split_at_colons 2 l)) k ∙ line-unified other))
        (find-FirstUnified lines path (rw e at h))
  | inr (p, e) ↦ rw (unified-line line path (e ∙ (rw e at h))) (here path lines)
]

FirstUnified-find :
    (lines : List (List ℕ)) (path : List ℕ)
    → FirstUnified lines path
    → find_unified lines ≡ some path
unfolding find_unified
FirstUnified-find _ _ (here path lines) = rw (line-unified path) refl
FirstUnified-find _ _ (later line path lines other first) =
    elim (Option-cases (unified (split_at_colons 2 line))) [
      | inl e ↦ rw e (FirstUnified-find lines path first)
      | inr (p, e) ↦ absurd (other p (unified-line line p e))
    ]

-- A path is found exactly where a line of the file begins with "0::", and then it is what stands
-- behind it in the first such line, colons included.
pub parse_cgroupv2_path_iff :
    (lines : List (List ℕ)) (path : List ℕ)
    → (parse_cgroupv2_path (some lines) ≡ some path) ↔ FirstUnified lines path
unfolding parse_cgroupv2_path
parse_cgroupv2_path_iff lines path = (find-FirstUnified lines path, FirstUnified-find lines path)
