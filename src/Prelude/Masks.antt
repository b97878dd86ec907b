-- ===== src/Prelude/Masks.antt =====
-- `a & (2 ^ k - 1)` is a remainder, and `a | b` is a sum where the bits of the two stand apart.
use Prim.Native.Nat.{
  ℕ, zero, suc, ◌+◌, ◌*◌, ◌/◌, ◌%◌, ◌^◌, ◌≤◌, ◌<◌, min, bit_and, bit_or, digits, bit_and-bitwise,
}
use mathlib.Core.Path.{◌≡◌, ap, sym, ◌∙◌}
use native.Mathlib.Nat.{pow-suc, div-add-mod, mul_comm, mod-lt, mod-eq_of_lt, add-mul-mod_self_left}
use native.Mathlib.Omega.{arith}
use bytev.Prelude.Bits.{bit_or_low}

-- The numbers whose binary digits are `k` ones.
abbrev ones : ℕ → ℕ
ones zero = 0
ones (suc k) = 2 * ones k + 1

-- The remainder of a double of the modulus, from that of the half.
mod_double : (p a : ℕ) → 0 < p → a % (2 * p) ≡ a / 2 % p * 2 + a % 2
mod_double p a h =
    let q = a / 2 / p in
    let r = a / 2 % p * 2 + a % 2 in
    let less : a / 2 % p < p = mod-lt (a / 2) h in
    let low : r < 2 * p = omega arith in
    let whole : a ≡ r + 2 * p * q = omega (arith, ap (λ (t : ℕ). 2 * t) (div-add-mod (a / 2) p)) in
    ap (λ n. n % (2 * p)) whole ∙ add-mul-mod_self_left r (2 * p) q ∙ mod-eq_of_lt low

half : (m : ℕ) → (2 * m + 1) / 2 ≡ m
half m = omega arith

pow-pos : (k : ℕ) → 0 < 2 ^ k
pow-pos zero = omega arith
pow-pos (suc k) = omega (arith, pow-suc 2 k, pow-pos k)

-- The recursion that bit_and means, where one side is ones: each round takes a digit of the other.
masked : (rounds k x : ℕ) → x ≤ rounds → digits (λ bit. 0) min rounds x (ones k) ≡ x % 2 ^ k
masked zero k zero h = sym (mod-eq_of_lt (pow-pos k))
masked zero k (suc x) h = absurd (omega arith)
masked (suc rounds) k zero h = sym (mod-eq_of_lt (pow-pos k))
masked (suc rounds) zero (suc x) h = omega (arith, masked rounds zero (suc x / 2) (omega arith))
masked (suc rounds) (suc k) (suc x) h = omega (
  arith,
  ap (digits (λ bit. 0) min rounds (suc x / 2)) (half (ones k)),
  masked rounds k (suc x / 2) (omega arith),
  mod_double (2 ^ k) (suc x) (pow-pos k),
  ap (λ modulus. suc x % modulus) (pow-suc 2 k ∙ mul_comm (2 ^ k) 2),
)

bit_and-ones : (k x : ℕ) → bit_and x (ones k) ≡ x % 2 ^ k
bit_and-ones k x = bit_and-bitwise x (ones k) ∙ masked x k x (omega arith)

pub bit_and_two : (a : ℕ) → bit_and a 3 ≡ a % 4
bit_and_two a = bit_and-ones 2 a

pub bit_and_eleven : (a : ℕ) → bit_and a 2047 ≡ a % 2048
bit_and_eleven a = bit_and-ones 11 a

pub bit_or_apart : (k a b : ℕ) → a % 2 ^ k ≡ 0 → b < 2 ^ k → bit_or a b ≡ a + b
bit_or_apart k a b h l =
    let e : a ≡ a / 2 ^ k * 2 ^ k =
      omega (arith, div-add-mod a (2 ^ k), mul_comm (2 ^ k) (a / 2 ^ k)) in
    ap (λ n. bit_or n b) e ∙ bit_or_low k (a / 2 ^ k) b l ∙ ap (λ (n : ℕ). n + b) (sym e)
