-- ===== src/Uint/Small.antt =====
-- shared/uint256.h: a number of 64 bits in a wider one, and the complement.
use bytev.Prelude.{
  ℕ, zero, suc, ◌+◌, ◌-◌, ◌*◌, ◌^◌, ◌<◌, ◌≡◌, ◌↔◌, refl, sym, ap, ◌∙◌, [], ◌∷◌, ◌++◌, length,
  replicate, All, All-append, All-replicate, length-append, length-replicate, arith,
}
use bytev.Prelude.Int.{pos, negsuc}
use bytev.Serializer.Buffer.{Bytes}
use bytev.Uint.{Words, compare, complement, assign}
use bytev.Uint.Count.{IsWord, range, value}
use bytev.Uint.Order.{IsByte, number, compare_iff}

number-zeros : (k : ℕ) (bytes : Bytes) → number (replicate k 0 ++ bytes) ≡ number bytes
number-zeros zero bytes = refl
number-zeros (suc k) bytes = omega (arith, number-zeros k bytes)

-- The assigned number is the one that the bytes stand for, in at least eight bytes.
pub number-assign : (n b : ℕ) → b < 2 ^ 64 → number (assign n b) ≡ b
unfolding assign
number-assign n b h = number-zeros (n - 8) _ ∙ omega arith

length-complement : (ws : Words) → length (complement ws) ≡ length ws
unfolding complement
length-complement [] = refl
length-complement (w ∷ ws) = ap suc (length-complement ws)

shared_factor : (u w r : ℕ) → (u + w) * r ≡ u * r + w * r
shared_factor u w r = grind arith

-- All ones less the number.
pub value-complement :
    (ws : Words) → All IsWord ws → value (complement ws) + value ws + 1 ≡ range (length ws)
unfolding complement
value-complement [] h = omega arith
value-complement (w ∷ ws) h =
    let r = range (length ws) in
    let u = 2 ^ 32 - 1 - w in
    let full : u + w ≡ 2 ^ 32 - 1 = omega arith in
    let top : u * r + w * r ≡ (2 ^ 32 - 1) * r =
      sym (shared_factor u w r) ∙ ap (λ (t : ℕ). t * r) full in
    let rest : (2 ^ 32 - 1 - w) * range (length (complement ws)) ≡ u * r =
      ap (λ n. u * range n) (length-complement ws) in
    omega (arith, top, rest, value-complement ws h.1)

length-assign : (n b : ℕ) → length (assign n b) ≡ n - 8 + 8
unfolding assign
length-assign n b =
    length-append (replicate (n - 8) 0) _ ∙ omega (arith, length-replicate {A = ℕ} (n - 8) 0)

assign-IsByte : (n b : ℕ) → All IsByte (assign n b)
unfolding assign
assign-IsByte n b =
    All-append IsByte (replicate (n - 8) 0) _ (All-replicate IsByte (n - 8) 0 (omega arith)) (
      omega arith,
      (
        omega arith,
        (
          omega arith,
          (omega arith, (omega arith, (omega arith, (omega arith, (omega arith, tt))))),
        ),
      ),
    )

-- A comparison of two numbers that were assigned, in at least eight bytes, is that of the numbers.
pub compare-assign :
    (n a b : ℕ)
    → a < 2 ^ 64
    → b < 2 ^ 64
    → ((compare (assign n a) (assign n b) ≡ negsuc 0) ↔ (a < b))
      × ((compare (assign n a) (assign n b) ≡ pos 0) ↔ (a ≡ b))
      × ((compare (assign n a) (assign n b) ≡ pos 1) ↔ (b < a))
compare-assign n a b h k =
    let r =
      compare_iff (assign n a) (assign n b) (length-assign n a ∙ sym (length-assign n b))
        (assign-IsByte n a) (assign-IsByte n b) in
    rw (number-assign n a h, number-assign n b k) at r
