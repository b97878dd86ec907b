-- ===== src/Uint/Order.antt =====
-- compare in shared/uint256.h, and the number that bytes stand for.
use bytev.Prelude.{
  ℕ, zero, suc, ◌+◌, ◌*◌, ◌<◌, ◌≡◌, ◌↔◌, refl, ap, sym, subst, ◌∙◌, if_of_true, if_of_false, [],
  ◌∷◌, length, All, arith, ltb, ◌==◌, Bool-cases, inl, inr, if◌then◌else◌,
}
use bytev.Prelude.Int.{ℤ, pos, negsuc}
use bytev.Serializer.Buffer.{Bytes}
use bytev.Uint.{compare}
use bytev.Uint.Count.{next_multiple, multiple-le}

abbrev pub IsByte : ℕ → Type 0
IsByte b = b < 256

-- The number of the texts of so many bytes, and the number that bytes stand for, the first the most.
abbrev pub byte_range : ℕ → ℕ
byte_range zero = 1
byte_range (suc n) = 256 * byte_range n

abbrev pub number : Bytes → ℕ
number [] = 0
number (b ∷ u) = b * byte_range (length u) + number u

number-lt : (u : Bytes) → All IsByte u → number u < byte_range (length u)
number-lt [] h = omega arith
number-lt (b ∷ u) h = omega (
  arith,
  number-lt u h.1,
  next_multiple b (byte_range (length u)),
  multiple-le (byte_range (length u)) (suc b) 256 h.0,
)

-- Of two numbers of one length, the first byte decides if it differs.
first_byte : (a b x y r : ℕ) → a < b → x < r → a * r + x < b * r + y
first_byte a b x y r h hx = omega (arith, next_multiple a r, multiple-le r (suc a) b h)

-- What compare says of two numbers.
abbrev Says : ℤ → ℕ → ℕ → Type 0
Says (pos zero) x y = x ≡ y
Says (pos (suc zero)) x y = y < x
Says (pos (suc (suc n))) x y = ⊥
Says (negsuc zero) x y = x < y
Says (negsuc (suc n)) x y = ⊥

Says-shift : (z : ℤ) (c x y : ℕ) → Says z x y → Says z (c + x) (c + y)
Says-shift (pos zero) c x y h = ap (λ n. c + n) h
Says-shift (pos (suc zero)) c x y h = omega (arith, h)
Says-shift (pos (suc (suc n))) c x y h = h
Says-shift (negsuc zero) c x y h = omega (arith, h)
Says-shift (negsuc (suc n)) c x y h = h

Says-byte :
    (a b x y r : ℕ) (z : ℤ)
    → x < r
    → y < r
    → Says z x y
    → Says
        (if a == b then z else if ltb a b then negsuc 0 else if ltb b a then pos 1 else pos 0)
        (a * r + x)
        (b * r + y)
Says-byte a b x y r z hx hy h = elim (Bool-cases (a == b)) [
  | inl e ↦
      let same : b ≡ a = ground arith in
      subst (λ i. Says i (a * r + x) (b * r + y)) (sym (if_of_true z _ e))
        (subst (λ c. Says z (a * r + x) (c * r + y)) (sym same) (Says-shift z (a * r) x y h))
  | inr e ↦
      subst (λ i. Says i (a * r + x) (b * r + y)) (sym (if_of_false z _ e))
        (elim (Bool-cases (ltb a b)) [
          | inl less ↦
              subst (λ i. Says i (a * r + x) (b * r + y)) (sym (if_of_true (negsuc 0) _ less))
                (first_byte a b x y r (ground arith) hx)
          | inr more ↦
              let less : b < a = ground arith in
              subst (λ i. Says i (a * r + x) (b * r + y))
                (sym (if_of_false (negsuc 0) _ more ∙ if_of_true (pos 1) (pos 0) (ground arith)))
                (first_byte b a y x r less hy)
        ])
]

compare-Says :
    (u v : Bytes)
    → length u ≡ length v
    → All IsByte u
    → All IsByte v
    → Says (compare u v) (number u) (number v)
unfolding compare
compare-Says [] [] e h k = refl
compare-Says [] (b ∷ v) e h k = absurd (omega (arith, e))
compare-Says (a ∷ u) [] e h k = absurd (omega (arith, e))
compare-Says (a ∷ u) (b ∷ v) e h k =
    let same : length u ≡ length v = omega (arith, e) in
    let ih = compare-Says u v same h.1 k.1 in
    let shorter = number-lt v k.1 in
    subst
      (λ n.
        Says (compare (a ∷ u) (b ∷ v)) (a * byte_range (length u) + number u)
          (b * byte_range n + number v))
      same
      (Says-byte a b (number u) (number v) (byte_range (length u)) (compare u v) (number-lt u h.1)
        (subst (λ n. number v < byte_range n) (sym same) shorter) ih)

-- The three outcomes exclude each other.
Says-one :
    (z : ℤ) (x y : ℕ)
    → Says z x y
    → ((z ≡ negsuc 0) ↔ (x < y)) × ((z ≡ pos 0) ↔ (x ≡ y)) × ((z ≡ pos 1) ↔ (y < x))
Says-one (pos zero) x y h = ground arith
Says-one (pos (suc zero)) x y h = ground arith
Says-one (pos (suc (suc n))) x y h = absurd h
Says-one (negsuc zero) x y h = ground arith
Says-one (negsuc (suc n)) x y h = absurd h

-- For two texts of the same number of bytes, compare gives -1, 0 or 1 exactly where the number that
-- the first stands for, its first byte the most, is less than the second's, equal to it or greater.
pub compare_iff :
    (u v : Bytes)
    → length u ≡ length v
    → All IsByte u
    → All IsByte v
    → ((compare u v ≡ negsuc 0) ↔ (number u < number v))
      × ((compare u v ≡ pos 0) ↔ (number u ≡ number v))
      × ((compare u v ≡ pos 1) ↔ (number v < number u))
compare_iff u v e h k = Says-one (compare u v) (number u) (number v) (compare-Says u v e h k)
