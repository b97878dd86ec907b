-- ===== src/Words/Keys/Accepted.antt =====
-- What the loop of etob in shared/rfc1751.cpp accepts: words of the dictionary, whose numbers the nine
-- bytes hold.

use bytev.Prelude.{
  ℕ, ◌+◌, ◌*◌, ◌/◌, ◌%◌, ◌<◌, ◌≡◌, refl, sym, ap, ap₂, ◌∙◌, subst, true, false, ◌||◌, some, List,
  [], ◌∷◌, ◌++◌, ◌⊎◌, All, map, length, take, ltb, inl, inr, arith, Bool-cases, Option-cases,
  bit_and,
}
use bytev.Prelude.Int.{ℤ, negsuc}
use bytev.Prelude.Masks.{bit_and_two}
use bytev.Serializer.Buffer.{Bytes}
use bytev.Words.{search_word}
use bytev.Words.Search.{search-some_iff}
use bytev.Words.Buffer.{extract, insert, parity}
use bytev.Words.Buffer.Numbers.{six_numbers, six_numbers_lem, numbers, insert_all, packed}
use bytev.Words.Buffer.Parity.{parity_same, extract_last}
use bytev.Words.Dictionary.{dictionary}
use bytev.Words.Dictionary.Sorted.{short-IsSorted, long-IsSorted}
use bytev.Words.Keys.{with_parity, fill, is_one}
use bytev.Words.Keys.Halves.{IsBytes, with_parity_lem, fill-none, fill-some}

-- What the search finds is the word.
search_word-some :
    (word : Bytes) (v : ℕ)
    → search_word dictionary word ≡ some v
    → (v < 2048) × (dictionary v ≡ word)
unfolding search_word
search_word-some word v h = elim (Bool-cases (ltb (length word) 4)) [
  | inl e ↦
      let (low, high, same) =
        (search-some_iff dictionary word 0 570 v (omega arith)
            (λ i j a b c. short-IsSorted i j a b (omega arith))).0
          (rw e at h) in
      (omega (arith, high), same)
  | inr e ↦
      let (low, high, same) =
        (search-some_iff dictionary word 571 2048 v (omega arith) long-IsSorted).0 (rw e at h) in
      (omega (arith, high), same)
]

Sum-cases : {A B : Type 0} (r : A ⊎ B) → ((a : A) × (r ≡ inl a)) ⊎ ((b : B) × (r ≡ inr b))
Sum-cases (inl a) = inl (a, refl)
Sum-cases (inr b) = inr (b, refl)

fill_bad :
    (word : Bytes) (words : List Bytes) (b : Bytes) (p : ℕ)
    → (ltb 4 (length word) || ltb (length word) 1) ≡ true
    → fill (word ∷ words) b p ≡ inl (negsuc 0)
unfolding fill
fill_bad word words b p h = rw (fill, h) refl

-- What the loop gives: a result that is not 1, or the bytes of the numbers of the words.
abbrev pub Filled : List Bytes → Bytes → ℕ → ℤ ⊎ Bytes → Type 0
Filled words b p (inl rc) = is_one rc ≡ false
Filled words b p (inr b') =
    (vs : List ℕ) × (All (λ (v : ℕ). v < 2048) vs
      × (map dictionary vs ≡ words)
      × (insert_all b p vs ≡ b'))

Filled-cons :
    (word : Bytes) (words : List Bytes) (b : Bytes) (p v : ℕ)
    → v < 2048
    → dictionary v ≡ word
    → (r : ℤ ⊎ Bytes) → Filled words (insert b v p 11) (p + 11) r
    → Filled (word ∷ words) b p r
Filled-cons word words b p v l e (inl rc) h = h
Filled-cons word words b p v l e (inr b') (vs, (low, same, end)) =
    (v ∷ vs, ((l, low), ap₂ ◌∷◌ e same, end))

pub fill-Filled : (words : List Bytes) (b : Bytes) (p : ℕ) → Filled words b p (fill words b p)
unfolding fill
fill-Filled [] b p = ([], (tt, refl, refl))
fill-Filled (word ∷ words) b p = elim (Bool-cases (ltb 4 (length word) || ltb (length word) 1)) [
  | inl e ↦ subst (Filled (word ∷ words) b p) (sym (fill_bad word words b p e)) refl
  | inr e ↦ elim (Option-cases (search_word dictionary word)) [
    | inl f ↦ subst (Filled (word ∷ words) b p) (sym (fill-none word words b p e f)) refl
    | inr (v, f) ↦
        let (l, same) = search_word-some word v f in
        subst (Filled (word ∷ words) b p) (sym (fill-some word words b p v e f)) (
          Filled-cons word words b p v l same (fill words (insert b v p 11) (p + 11))
            (fill-Filled words (insert b v p 11) (p + 11)))
  ]
]

-- The numbers of the bytes that six numbers fill.
module _ (u v w x y z : ℕ) (lu : u < 2048) (lv : v < 2048) (lw : w < 2048) (lx : x < 2048)
    (ly : y < 2048) (lz : z < 2048) where
  packed-IsBytes : IsBytes (packed u v w x y z)
  packed-IsBytes = (
    omega arith,
    (
      omega arith,
      (
        omega arith,
        (
          omega arith,
          (omega arith, (omega arith, (omega arith, (omega arith, (omega arith, tt))))),
        ),
      ),
    ),
  )

  numbers-packed : numbers (packed u v w x y z) ≡ u ∷ v ∷ w ∷ x ∷ y ∷ z ∷ []
  unfolding numbers
  numbers-packed = ap₂ ◌∷◌ (omega arith) (
      ap₂ ◌∷◌ (omega arith) (
        ap₂ ◌∷◌ (omega arith)
          (ap₂ ◌∷◌ (omega arith) (ap₂ ◌∷◌ (omega arith) (ap₂ ◌∷◌ (omega arith) refl)))))

  -- The bytes are those that btoe makes of the first eight, where the parity is right.
  pub packed-with_parity :
      (stray : ℕ)
      → stray < 256
      → bit_and (parity stray (packed u v w x y z)) 3 ≡ extract stray (packed u v w x y z) 64 2
      → with_parity stray (take 8 (packed u v w x y z)) ≡ packed u v w x y z
  packed-with_parity stray small e =
      let first = take 8 (packed u v w x y z) in
      let low : IsBytes first = (
        omega arith,
        (
          omega arith,
          (
            omega arith,
            (omega arith, (omega arith, (omega arith, (omega arith, (omega arith, tt))))),
          ),
        ),
      ) in
      let p = parity stray (packed u v w x y z) in
      let sum : parity stray (first ++ (stray ∷ [])) ≡ p =
        parity_same stray first stray (z % 4 * 64) refl low small (omega arith) small in
      let last = extract_last stray first (z % 4 * 64) refl low (omega arith) small in
      let read : p % 4 ≡ z % 4 = omega (arith, bit_and_two p, e, last) in
      with_parity_lem stray first
      ∙ ap (λ (n : ℕ). first ++ ((n * 64) ∷ [])) (ap (λ (n : ℕ). n % 4) sum ∙ read)

  pub six_numbers-packed :
      (stray : ℕ) → six_numbers stray (packed u v w x y z) ≡ u ∷ v ∷ w ∷ x ∷ y ∷ z ∷ []
  six_numbers-packed stray =
      six_numbers_lem (u / 8) (u % 8 * 32 + v / 64) (v % 64 * 4 + w / 512) (w / 2 % 256)
        (w % 2 * 128 + x / 16) (x % 16 * 16 + y / 128) (y % 128 * 2 + z / 1024) (z / 4 % 256)
        (z % 4 * 64) packed-IsBytes stray
      ∙ numbers-packed
