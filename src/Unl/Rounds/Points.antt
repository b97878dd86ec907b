-- ===== src/Unl/Rounds/Points.antt =====
-- What one node gives away in a round of src/UniqueNodeList/UniqueNodeList.cpp.
use bytev.Prelude.{ℕ, zero, suc, ◌+◌, ◌*◌, ◌/◌, ◌%◌, ◌≤◌, ◌<◌, ◌≡◌, refl, ap, arith}
use native.Mathlib.Nat.{mul-div-le, div-mul-le_self}
use bytev.Unl.Rounds.{total, base}

-- (n + 1) * n is even, so iTotal is not rounded.
even : (n : ℕ) → (n + 1) * n % 2 ≡ 0
even zero = refl
even (suc n) = omega (arith, even n)

twice_total : (n : ℕ) → 2 * total n ≡ (n + 1) * n
unfolding total
twice_total n = omega (arith, even n)

-- The points of the last `k` of `n` entries.
unfoldable pub points : ℕ → ℕ → ℕ → ℕ
points b n zero = 0
points b n (suc k) = b * suc k / n + points b n k

points-le : (b n k : ℕ) → 2 * (n * points b n k) ≤ b * ((k + 1) * k)
unfolding points
points-le b n zero = omega arith
points-le b n (suc k) = omega (arith, points-le b n k, mul-div-le (b * suc k) n)

base-le : (seed n : ℕ) → base seed n * total n ≤ seed * n
unfolding base
base-le seed n = div-mul-le_self (seed * n) (total n)

le_of_mul : (n a b : ℕ) → 0 < n → n * a ≤ n * b → a ≤ b
le_of_mul n a b h e = grind arith

-- All the points that a node gives are at most its seed.
pub points-le-seed : (seed n : ℕ) → points (base seed n) n n ≤ seed
points-le-seed seed zero = unfold points in omega arith
points-le-seed seed (suc n) =
    le_of_mul (suc n) (points (base seed (suc n)) (suc n) (suc n)) seed (omega arith) (
      omega (
        arith,
        points-le (base seed (suc n)) (suc n) (suc n),
        base-le seed (suc n),
        ap (λ (t : ℕ). base seed (suc n) * t) (twice_total (suc n)),
      ))
