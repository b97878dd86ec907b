-- ===== src/Base58/Digits.antt =====
-- The digits of a number in a base, and the number that digits stand for, for the two bases of
-- shared/base58.h.
use native.Mathlib.Nat.{
  div-add-mod, div-lt_self, add-mul-div_left, add-mul-mod_self_left, mod-lt, div-eq_of_lt,
  mod-eq_of_lt,
}
use bytev.Prelude.{
  ℕ, zero, suc, ◌+◌, ◌*◌, ◌/◌, ◌%◌, ◌<◌, ◌≤◌, ◌≡◌, refl, ap, ap₂, ◌∙◌, true, false, List, [], ◌∷◌,
  ◌++◌, ◌==◌, arith,
}

-- The number of the digits in base `b`, the first one the least.
unfoldable pub value : ℕ → List ℕ → ℕ
value b [] = 0
value b (d ∷ ds) = d + b * value b ds

-- The digits that dividing by `b` until nothing is left gives, on fuel that is at least the number.
unfoldable pub digits : ℕ → ℕ → ℕ → List ℕ
digits b zero n = []
digits b (suc f) n = elim (n == 0) [ true ↦ [] | false ↦ (n % b) ∷ digits b f (n / b) ]

-- Digits below the base, none of whose ends is all 0.
abbrev pub IsReduced : ℕ → List ℕ → Type 0
IsReduced b [] = Unit {0}
IsReduced b (d ∷ ds) = (d < b) × (0 < value b (d ∷ ds)) × IsReduced b ds

pub digits-zero : (b f : ℕ) → digits b f 0 ≡ []
unfolding digits
digits-zero b zero = refl
digits-zero b (suc f) = refl

pub digits-suc : (b f n : ℕ) → digits b (suc f) (suc n) ≡ (suc n % b) ∷ digits b f (suc n / b)
unfolding digits
digits-suc b f n = ground arith

pub digits-pos : (b f n : ℕ) → 0 < n → digits b (suc f) n ≡ (n % b) ∷ digits b f (n / b)
digits-pos b f zero h = absurd (omega arith)
digits-pos b f (suc n) h = digits-suc b f n

pub value-nil : (b : ℕ) → value b [] ≡ 0
unfolding value
value-nil b = refl

pub value-cons : (b d : ℕ) (ds : List ℕ) → value b (d ∷ ds) ≡ d + b * value b ds
unfolding value
value-cons b d ds = refl

pub value-append : (b : ℕ) (ds : List ℕ) (d : ℕ) → 0 < d → 0 < b → 0 < value b (ds ++ (d ∷ []))
unfolding value
value-append b [] d h k = omega arith
value-append b (e ∷ ds) d h k = grind (arith, value-append b ds d h k)

module _ (b : ℕ) (big : 1 < b) where
  pub value-digits : (f n : ℕ) → n ≤ f → value b (digits b f n) ≡ n
  unfolding value digits
  value-digits zero n h = omega arith
  value-digits (suc f) zero h = refl
  value-digits (suc f) (suc n) h =
      let less = div-lt_self {n = suc n} {k = b} (omega arith) big in
      omega (
        arith,
        ap (value b) (digits-suc b f n),
        value-cons b (suc n % b) (digits b f (suc n / b)),
        ap (λ (t : ℕ). b * t) (value-digits f (suc n / b) (omega arith)),
        div-add-mod (suc n) b,
      )

  pub digits-IsReduced : (f n : ℕ) → n ≤ f → IsReduced b (digits b f n)
  unfolding digits
  digits-IsReduced zero n h = tt
  digits-IsReduced (suc f) zero h = tt
  digits-IsReduced (suc f) (suc n) h =
      let less = div-lt_self {n = suc n} {k = b} (omega arith) big in
      let positive : 0 < value b ((suc n % b) ∷ digits b f (suc n / b)) =
        ground (arith, value-digits (suc f) (suc n) h, ap (value b) (digits-suc b f n)) in
      rw (digits-suc b f n)
        (mod-lt (suc n) (omega arith), positive, digits-IsReduced f (suc n / b) (omega arith))

  pub digits-value :
      (f : ℕ) (ds : List ℕ) → IsReduced b ds → value b ds ≤ f → digits b f (value b ds) ≡ ds
  digits-value f [] r h = rw (ap (digits b f) (value-nil b)) (digits-zero b f)
  digits-value zero (d ∷ ds) r h = absurd (omega arith)
  digits-value (suc f) (d ∷ ds) r h =
      let v = value b ds in
      let low : (d + b * v) % b ≡ d = add-mul-mod_self_left d b v ∙ mod-eq_of_lt r.0 in
      let quotient : (d + b * v) / b ≡ d / b + v = add-mul-div_left d v (omega arith) in
      let high : (d + b * v) / b ≡ v = omega (arith, quotient, div-eq_of_lt r.0) in
      let split = value-cons b d ds in
      let smaller : v ≤ f = omega (arith, div-lt_self {n = d + b * v} {k = b} (omega arith) big) in
      rw split (
        digits-pos b f (d + b * v) (omega arith)
        ∙ ap₂ ◌∷◌ low (rw high (digits-value f ds r.2 smaller)))
