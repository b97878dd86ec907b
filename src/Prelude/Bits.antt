-- ===== src/Prelude/Bits.antt =====
-- `a << k | b` with `b` below `2 ^ k` is a sum, at every width.
use Prim.Native.Nat.{
  ℕ, zero, suc, ◌+◌, ◌*◌, ◌/◌, ◌%◌, ◌^◌, ◌≤◌, ◌<◌, max, bit_or, digits, bit_or-bitwise,
}
use mathlib.Core.Path.{◌≡◌, refl, ap}
use native.Mathlib.Nat.{pow-suc}
use native.Mathlib.Omega.{arith}

or_digits : ℕ → ℕ → ℕ → ℕ
or_digits n a b = digits (λ y. y) max n a b

-- The number of rounds does not matter, once it is enough.
or_digits_rounds : (n m a b : ℕ) → a ≤ n → a ≤ m → or_digits n a b ≡ or_digits m a b
unfolding or_digits
or_digits_rounds zero zero a b p q = refl
or_digits_rounds zero (suc m) zero b p q = refl
or_digits_rounds zero (suc m) (suc a) b p q = absurd (omega arith)
or_digits_rounds (suc n) zero zero b p q = refl
or_digits_rounds (suc n) zero (suc a) b p q = absurd (omega arith)
or_digits_rounds (suc n) (suc m) zero b p q = refl
or_digits_rounds (suc n) (suc m) (suc a) b p q =
    omega (arith, or_digits_rounds n m (suc a / 2) (b / 2) (omega arith) (omega arith))

pub zero-bit_or : (b : ℕ) → bit_or 0 b ≡ b
zero-bit_or b = bit_or-bitwise 0 b

bit_or_step : (a b : ℕ) → bit_or a b ≡ bit_or (a / 2) (b / 2) * 2 + max (a % 2) (b % 2)
unfolding or_digits
bit_or_step zero b = omega (arith, zero-bit_or b, zero-bit_or (b / 2))
bit_or_step (suc a) b = omega (
  arith,
  bit_or-bitwise (suc a) b,
  bit_or-bitwise (suc a / 2) (b / 2),
  or_digits_rounds a (suc a / 2) (suc a / 2) (b / 2) (omega arith) (omega arith),
)

bit_or-zero_rounds : (n a : ℕ) → a ≤ n → bit_or a 0 ≡ a
bit_or-zero_rounds n zero h = refl
bit_or-zero_rounds zero (suc a) h = absurd (omega arith)
bit_or-zero_rounds (suc n) (suc a) h =
    omega (arith, bit_or_step (suc a) 0, bit_or-zero_rounds n (suc a / 2) (omega arith))

double_pow : (q k : ℕ) → q * 2 ^ suc k ≡ 2 * (q * 2 ^ k)
double_pow q k = omega (arith, ap (λ (t : ℕ). q * t) (pow-suc 2 k))

pub bit_or_low : (k q r : ℕ) → r < 2 ^ k → bit_or (q * 2 ^ k) r ≡ q * 2 ^ k + r
bit_or_low zero q r h = ground (arith, bit_or-zero_rounds q q)
bit_or_low (suc k) q r h = ground (
  arith,
  bit_or_step (q * 2 ^ suc k) r,
  double_pow q k,
  bit_or_low k q (r / 2) (omega (arith, pow-suc 2 k)),
)

pub bit_or_byte : (q r : ℕ) → r < 256 → bit_or (q * 256) r ≡ q * 256 + r
bit_or_byte q r h = bit_or_low 8 q r h

pub bit_or_nibble : (q r : ℕ) → r < 16 → bit_or (q * 16) r ≡ q * 16 + r
bit_or_nibble q r h = bit_or_low 4 q r h
