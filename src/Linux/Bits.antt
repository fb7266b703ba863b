-- ===== src/Linux/Bits.antt =====
-- The binary digits of `|` and of `1 << k`.
use Prim.Native.Nat.{max, bit_or, digits, bit_or-bitwise}
use vpn_passthrough.Prelude.{
  ℕ, zero, suc, ◌+◌, ◌*◌, ◌/◌, ◌%◌, ◌^◌, ◌≤◌, ◌<◌, nat_beq, if◌then◌else◌, ◌≡◌, refl, ◌∙◌, arith,
}

-- The binary digit of a number at a place, the lowest at 0.
unfoldable pub bit : ℕ → ℕ → ℕ
bit w zero = w % 2
bit w (suc i) = bit (w / 2) i

abbrev or_digits : ℕ → ℕ → ℕ → ℕ
or_digits n a b = digits (λ b. b) max n a b

-- More steps than there are digits change nothing.
or_digits_enough : (n m a b : ℕ) → a ≤ n → a ≤ m → or_digits n a b ≡ or_digits m a b
or_digits_enough zero zero a b p q = refl
or_digits_enough zero (suc m) zero b p q = refl
or_digits_enough zero (suc m) (suc a) b p q = absurd (omega arith)
or_digits_enough (suc n) zero zero b p q = refl
or_digits_enough (suc n) zero (suc a) b p q = absurd (omega arith)
or_digits_enough (suc n) (suc m) zero b p q = refl
or_digits_enough (suc n) (suc m) (suc a) b p q =
    omega (arith, or_digits_enough n m (suc a / 2) (b / 2) (omega arith) (omega arith))

zero-bit_or : (b : ℕ) → bit_or 0 b ≡ b
zero-bit_or b = bit_or-bitwise 0 b

-- The lowest digit, and the others.
bit_or_step : (a b : ℕ) → bit_or a b ≡ bit_or (a / 2) (b / 2) * 2 + max (a % 2) (b % 2)
bit_or_step zero b = omega (arith, zero-bit_or b, zero-bit_or (b / 2))
bit_or_step (suc a) b = omega (
  arith,
  bit_or-bitwise (suc a) b,
  bit_or-bitwise (suc a / 2) (b / 2),
  or_digits_enough a (suc a / 2) (suc a / 2) (b / 2) (omega arith) (omega arith),
)

bit-bit_or : (i a b : ℕ) → bit (bit_or a b) i ≡ max (bit a i) (bit b i)
unfolding bit
bit-bit_or zero a b = omega (arith, bit_or_step a b)
bit-bit_or (suc i) a b = rw (half a b) (bit-bit_or i (a / 2) (b / 2))
  where
    half : (a b : ℕ) → bit_or a b / 2 ≡ bit_or (a / 2) (b / 2)
    half a b = omega (arith, bit_or_step a b)

pub bit-zero : (i : ℕ) → bit 0 i ≡ 0
unfolding bit
bit-zero zero = refl
bit-zero (suc i) = bit-zero i

bit-power : (k i : ℕ) → bit (2 ^ k) i ≡ (if nat_beq k i then 1 else 0)
unfolding bit
bit-power zero zero = refl
bit-power zero (suc i) = ground (arith, bit-zero i)
bit-power (suc k) zero = ground arith
bit-power (suc k) (suc i) = rw (half k) (bit-power k i ∙ ground arith)
  where
    half : (k : ℕ) → 2 ^ suc k / 2 ≡ 2 ^ k
    half k = omega arith

pub bit_or_bound : (n a b : ℕ) → a < 2 ^ n → b < 2 ^ n → bit_or a b < 2 ^ n
bit_or_bound zero zero zero p q = omega (arith, zero-bit_or 0)
bit_or_bound zero zero (suc b) p q = absurd (omega arith)
bit_or_bound zero (suc a) b p q = absurd (omega arith)
bit_or_bound (suc n) a b p q =
    omega (arith, bit_or_step a b, bit_or_bound n (a / 2) (b / 2) (omega arith) (omega arith))

bit_le : (w i : ℕ) → bit w i ≤ 1
unfolding bit
bit_le w zero = omega arith
bit_le w (suc i) = bit_le (w / 2) i

-- One bit is set, and the others stay.
pub bit-set : (w k i : ℕ) → bit (bit_or w (2 ^ k)) i ≡ (if nat_beq k i then 1 else bit w i)
bit-set w k i = grind (arith, bit-bit_or i w (2 ^ k), bit-power k i, bit_le w i)
