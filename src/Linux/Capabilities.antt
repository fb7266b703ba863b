-- ===== src/Linux/Capabilities.antt =====
-- The mask has the bits of the capabilities, and no others.
use vpn_passthrough.Prelude.{
  ℕ, zero, suc, ◌^◌, ◌/◌, ◌%◌, ◌<◌, ◌≤◌, ltb, ◌≡◌, ◌⊎◌, inl, inr, refl, ap, ◌∙◌, none, some, List,
  [], ◌∷◌, if◌then◌else◌, nat_eq, ◌==◌, elem, All, arith, Bool-cases,
}
use Prim.Native.Nat.{bit_or}
use vpn_passthrough.Linux.{add_cap, cap_mask}
use vpn_passthrough.Linux.Bits.{bit, bit-zero, bit-set, bit_or_bound}

-- The digit for a capability in the two words.
abbrev pub has : ℕ × ℕ → ℕ → ℕ
has (low, high) cap = if ltb cap 32 then bit low cap else bit high (cap % 32)

abbrev pub Fits : ℕ × ℕ → Type 0
Fits (low, high) = (low < 2 ^ 32) × (high < 2 ^ 32)

power_bound : (n k : ℕ) → k < n → 2 ^ k < 2 ^ n
power_bound zero k h = absurd (omega arith)
power_bound (suc n) zero h = omega (arith, one_le n)
  where
    one_le : (n : ℕ) → 1 ≤ 2 ^ n
    one_le zero = omega arith
    one_le (suc n) = omega (arith, one_le n)
power_bound (suc n) (suc k) h = omega (arith, power_bound n k (omega arith))

-- Which word gets the bit.
add_cap-cases :
    (cap low high : ℕ) (mask : ℕ × ℕ)
    → add_cap cap (low, high) ≡ some mask
    → ((cap < 32) × (mask ≡ (bit_or low (2 ^ (cap % 32)), high)))
      ⊎ ((32 ≤ cap) × (cap < 64) × (mask ≡ (low, bit_or high (2 ^ (cap % 32)))))
unfolding add_cap
add_cap-cases cap low high mask e = grind arith

add_cap-ok : (cap low high : ℕ) → cap < 64 → (mask : ℕ × ℕ) × (add_cap cap (low, high) ≡ some mask)
unfolding add_cap
add_cap-ok cap low high h = elim (Bool-cases (cap / 32 == 0)) [
  | inl e ↦ ((bit_or low (2 ^ (cap % 32)), high), rw e refl)
  | inr e ↦ ((low, bit_or high (2 ^ (cap % 32))), ground arith)
]

add_cap-bit :
    (cap c : ℕ) (mask mask' : ℕ × ℕ)
    → c < 64
    → add_cap cap mask ≡ some mask'
    → has mask' c ≡ (if cap == c then 1 else has mask c)
unfolding add_cap
add_cap-bit cap c (low, high) mask' h e = elim (add_cap-cases cap low high mask' e) [
  | inl p ↦ rw p.1 (grind (arith, bit-set low (cap % 32) c))
  | inr p ↦ rw p.2 (grind (arith, bit-set high (cap % 32) (c % 32)))
]

add_cap-Fits :
    (cap : ℕ) (mask mask' : ℕ × ℕ) → Fits mask → add_cap cap mask ≡ some mask' → Fits mask'
unfolding add_cap
add_cap-Fits cap (low, high) mask' f e = elim (add_cap-cases cap low high mask' e) [
  | inl p ↦
      rw p.1
        (bit_or_bound 32 low (2 ^ (cap % 32)) f.0 (power_bound 32 (cap % 32) (omega arith)), f.1)
  | inr p ↦
      rw p.2
        (f.0, bit_or_bound 32 high (2 ^ (cap % 32)) f.1 (power_bound 32 (cap % 32) (omega arith)))
]

-- The two words after the loop, from those before it.
Masked : List ℕ → ℕ × ℕ → ℕ × ℕ → Type 0
Masked caps mask mask' =
    (cap_mask caps mask ≡ some mask')
    × Fits mask'
    × ((c : ℕ) → c < 64 → has mask' c ≡ (if elem c caps then 1 else has mask c))

mask_cons :
    (cap : ℕ) (caps : List ℕ) (mask mask1 : ℕ × ℕ)
    → add_cap cap mask ≡ some mask1
    → cap_mask (cap ∷ caps) mask ≡ cap_mask caps mask1
unfolding cap_mask
mask_cons cap caps (low, high) mask1 e =
    ap (λ o. elim o [ none ↦ none | some m ↦ cap_mask caps m ]) e

Masked-cons :
    (cap : ℕ) (caps : List ℕ) (mask mask1 mask2 : ℕ × ℕ)
    → add_cap cap mask ≡ some mask1
    → Masked caps mask1 mask2
    → Masked (cap ∷ caps) mask mask2
unfolding Masked cap_mask
Masked-cons cap caps mask mask1 mask2 e m = (
  mask_cons cap caps mask mask1 e ∙ m.0,
  m.1,
  λ c small. m.2 c small ∙ ground (arith, add_cap-bit cap c mask mask1 small e),
)

cap_mask-Masked :
    (caps : List ℕ) (mask : ℕ × ℕ)
    → All (λ c. c < 64) caps
    → Fits mask
    → (mask' : ℕ × ℕ) × Masked caps mask mask'
unfolding Masked cap_mask
cap_mask-Masked [] mask small f = (mask, (refl, f, λ c lt. refl))
cap_mask-Masked (cap ∷ caps) mask (lt, small) f =
    let (mask1, e) = add_cap-ok cap mask.0 mask.1 lt in
    let (mask2, m) = cap_mask-Masked caps mask1 small (add_cap-Fits cap mask mask1 f e) in
    (mask2, Masked-cons cap caps mask mask1 mask2 e m)

-- The mask for `capset`: where all capabilities are below 64, the loop gives two words of 32 bits,
-- in which the bit of a capability is set exactly where the capability is among those given, in
-- whatever order and however often they are given.
pub cap_mask_exact :
    (caps : List ℕ)
    → All (λ c. c < 64) caps
    → (mask : ℕ × ℕ) × (cap_mask caps (0, 0) ≡ some mask)
      × (mask.0 < 2 ^ 32)
      × (mask.1 < 2 ^ 32)
      × ((c : ℕ) → c < 64 → has mask c ≡ (if elem c caps then 1 else 0))
unfolding Masked
cap_mask_exact caps small =
    let (mask, (e, f, bits)) = cap_mask-Masked caps (0, 0) small (omega arith, omega arith) in
    (mask, e, f.0, f.1, λ c lt. bits c lt ∙ ground (arith, bit-zero c, bit-zero (c % 32)))
