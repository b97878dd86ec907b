-- ===== src/Words/Keys/Halves.antt =====
-- The words of eight bytes in shared/rfc1751.cpp: how the loop of etob reads them and fills the bytes again.
use bytev.Prelude.{
  ℕ, ◌+◌, ◌*◌, ◌/◌, ◌%◌, ◌<◌, ◌≤◌, ◌≡◌, refl, sym, ap, ◌∙◌, Bool, true, false, ◌||◌, none, some,
  List, [], ◌∷◌, ◌++◌, All, All-append, map, length, take, replicate, ltb, ◌==◌, ◌⊎◌, inl, inr,
  if◌then◌else◌, arith, lt→ltb, le→ltb, Bool-cases, take-append, bit_and,
}
use bytev.Prelude.Int.{pos}
use bytev.Prelude.Masks.{bit_and_two}
use bytev.Serializer.Buffer.{Bytes}
use bytev.Words.{search_word}
use bytev.Words.Search.{search-some_iff, search_word-none}
use bytev.Words.Buffer.{extract, insert, parity}
use bytev.Words.Buffer.Numbers.{
  six_numbers, insert_all, numbers, window, six_numbers_lem, insert_all_lem, packed_lem,
}
use bytev.Words.Buffer.Parity.{parity_same, extract_last}
use bytev.Words.Dictionary.{dictionary}
use bytev.Words.Dictionary.Sorted.{
  short-IsSorted, long-IsSorted, length-dictionary_short, length-dictionary_long, dictionary-IsWord,
}
use bytev.Words.Keys.{with_parity, fill, accept}

abbrev pub IsBytes : Bytes → Type 0
IsBytes s = All (λ (b : ℕ). b < 256) s

side : (v : ℕ) → (v < 571) ⊎ (571 ≤ v)
side v = omega arith

-- The search finds every word of the dictionary but the last short one.
search_word-dictionary :
    (v : ℕ) → v < 2048 → (v == 570) ≡ false → search_word dictionary (dictionary v) ≡ some v
unfolding search_word
search_word-dictionary v h k = elim (side v) [
  | inl low ↦
      let short : ltb (length (dictionary v)) 4 ≡ true =
        lt→ltb (length (dictionary v)) 4 (length-dictionary_short v low) in
      rw (search_word, short)
        ((search-some_iff dictionary (dictionary v) 0 570 v (omega arith)
            (λ i j a b c. short-IsSorted i j a b (omega arith))).1
          (omega arith, ground arith, refl))
  | inr high ↦
      let long : ltb (length (dictionary v)) 4 ≡ false =
        le→ltb (length (dictionary v)) 4 (omega (arith, length-dictionary_long v high h)) in
      rw (search_word, long)
        ((search-some_iff dictionary (dictionary v) 571 2048 v (omega arith) long-IsSorted).1
          (high, h, refl))
]

search_word-last : search_word dictionary (dictionary 570) ≡ none
search_word-last =
    search_word-none dictionary short-IsSorted (length-dictionary_short 570 (omega arith))

-- One of the numbers is that of the last short word.
abbrev pub has_last : List ℕ → Bool
has_last [] = false
has_last (v ∷ vs) = (v == 570) || has_last vs

short_enough :
    (v : ℕ) → v < 2048 → (ltb 4 (length (dictionary v)) || ltb (length (dictionary v)) 1) ≡ false
short_enough v h =
    let positive = (dictionary-IsWord v h).0 in
    elim (side v) [
      | inl low ↦ ground (arith, length-dictionary_short v low)
      | inr high ↦ ground (arith, length-dictionary_long v high h)
    ]

pub fill-none :
    (word : Bytes) (words : List Bytes) (b : Bytes) (p : ℕ)
    → (ltb 4 (length word) || ltb (length word) 1) ≡ false
    → search_word dictionary word ≡ none
    → fill (word ∷ words) b p ≡ inl (pos 0)
unfolding fill
fill-none word words b p h k = rw (fill, h) (rw (fill, k) refl)

pub fill-some :
    (word : Bytes) (words : List Bytes) (b : Bytes) (p v : ℕ)
    → (ltb 4 (length word) || ltb (length word) 1) ≡ false
    → search_word dictionary word ≡ some v
    → fill (word ∷ words) b p ≡ fill words (insert b v p 11) (p + 11)
unfolding fill
fill-some word words b p v h k = rw (fill, h) (rw (fill, k) refl)

pub fill-dictionary :
    (vs : List ℕ) (b : Bytes) (p : ℕ)
    → All (λ (v : ℕ). v < 2048) vs
    → fill (map dictionary vs) b p ≡ (if has_last vs then inl (pos 0) else inr (insert_all b p vs))
unfolding fill
fill-dictionary [] b p h = refl
fill-dictionary (v ∷ vs) b p h = elim (Bool-cases (v == 570)) [
  | inl e ↦
      let last : v ≡ 570 = ground arith in
      let missing : search_word dictionary (dictionary v) ≡ none =
        ap (λ n. search_word dictionary (dictionary n)) last ∙ search_word-last in
      rw e (fill-none (dictionary v) (map dictionary vs) b p (short_enough v h.0) missing)
  | inr e ↦ rw e (
      fill-some (dictionary v) (map dictionary vs) b p v (short_enough v h.0)
        (search_word-dictionary v h.0 e)
      ∙ fill-dictionary vs (insert b v p 11) (p + 11) h.1)
]

module _ (stray a b c d e f g h : ℕ) (low : IsBytes (a ∷ b ∷ c ∷ d ∷ e ∷ f ∷ g ∷ h ∷ [])) where
  refill :
      (q : ℕ)
      → q < 4
      → insert_all
          (replicate 9 0)
          0
          (six_numbers stray (a ∷ b ∷ c ∷ d ∷ e ∷ f ∷ g ∷ h ∷ (q * 64) ∷ []))
        ≡ a ∷ b ∷ c ∷ d ∷ e ∷ f ∷ g ∷ h ∷ (q * 64) ∷ []
  unfolding numbers
  refill q s =
      let bytes =
        All-append (λ (x : ℕ). x < 256) (a ∷ b ∷ c ∷ d ∷ e ∷ f ∷ g ∷ h ∷ []) ((q * 64) ∷ []) low
          (omega arith, tt) in
      ap (insert_all (replicate 9 0) 0) (six_numbers_lem a b c d e f g h (q * 64) bytes stray)
      ∙ insert_all_lem (window a b c / 8192 % 2048) (window b c d / 1024 % 2048)
          (window c d e / 128 % 2048) (window e f g / 4096 % 2048) (window f g h / 512 % 2048)
          (window g h (q * 64) / 64 % 2048) (omega arith) (omega arith) (omega arith) (omega arith)
          (omega arith) (omega arith)
      ∙ packed_lem a b c d e f g h q low s

-- A list of eight bytes, taken apart.
pub eight :
    (P : Bytes → Type 0)
    → ((a b c d e f g h : ℕ) → P (a ∷ b ∷ c ∷ d ∷ e ∷ f ∷ g ∷ h ∷ []))
    → (bytes : Bytes) → length bytes ≡ 8
    → P bytes
eight P k [] l = absurd (omega (arith, l))
eight P k (a ∷ []) l = absurd (omega (arith, l))
eight P k (a ∷ b ∷ []) l = absurd (omega (arith, l))
eight P k (a ∷ b ∷ c ∷ []) l = absurd (omega (arith, l))
eight P k (a ∷ b ∷ c ∷ d ∷ []) l = absurd (omega (arith, l))
eight P k (a ∷ b ∷ c ∷ d ∷ e ∷ []) l = absurd (omega (arith, l))
eight P k (a ∷ b ∷ c ∷ d ∷ e ∷ f ∷ []) l = absurd (omega (arith, l))
eight P k (a ∷ b ∷ c ∷ d ∷ e ∷ f ∷ g ∷ []) l = absurd (omega (arith, l))
eight P k (a ∷ b ∷ c ∷ d ∷ e ∷ f ∷ g ∷ h ∷ []) l = k a b c d e f g h
eight P k (a ∷ b ∷ c ∷ d ∷ e ∷ f ∷ g ∷ h ∷ i ∷ bytes) l = absurd (omega (arith, l))

-- The parity stands in the first two bits of the last byte.
abbrev sum_of : ℕ → Bytes → ℕ
sum_of stray bytes = parity stray (bytes ++ (stray ∷ [])) % 4

pub with_parity_lem :
    (stray : ℕ) (bytes : Bytes)
    → with_parity stray bytes ≡ bytes ++ ((sum_of stray bytes * 64) ∷ [])
unfolding with_parity
with_parity_lem stray bytes = ap (λ (x : ℕ). bytes ++ (x ∷ [])) (omega arith)

module _ (stray : ℕ) (small : stray < 256) where
  pub refill-with_parity :
      (bytes : Bytes)
      → length bytes ≡ 8
      → IsBytes bytes
      → insert_all (replicate 9 0) 0 (six_numbers stray (with_parity stray bytes))
        ≡ with_parity stray bytes
  refill-with_parity bytes l =
      eight
        (λ bs.
          IsBytes bs
          → insert_all (replicate 9 0) 0 (six_numbers stray (with_parity stray bs))
            ≡ with_parity stray bs)
        (λ a b c d e f g h low.
          let q = sum_of stray (a ∷ b ∷ c ∷ d ∷ e ∷ f ∷ g ∷ h ∷ []) in
          rw (with_parity_lem stray (a ∷ b ∷ c ∷ d ∷ e ∷ f ∷ g ∷ h ∷ []))
            (refill stray a b c d e f g h low q (omega arith)))
        bytes l

  pub accept-with_parity :
      (old bytes : Bytes)
      → length bytes ≡ 8
      → IsBytes bytes
      → accept stray old (with_parity stray bytes) ≡ (pos 1, bytes)
  unfolding accept
  accept-with_parity old bytes l low =
      let q = sum_of stray bytes in
      let p = parity stray (bytes ++ ((q * 64) ∷ [])) in
      let same : bit_and p 3 ≡ q =
        bit_and_two p
        ∙ ap (λ n. n % 4)
            (parity_same stray bytes (q * 64) stray l low (omega arith) small small) in
      let read : extract stray (bytes ++ ((q * 64) ∷ [])) 64 2 ≡ q =
        extract_last stray bytes (q * 64) l low (omega arith) small ∙ omega arith in
      let equal : (bit_and p 3 == extract stray (bytes ++ ((q * 64) ∷ [])) 64 2) ≡ true =
        ground (arith, same, read) in
      let cut : take 8 (bytes ++ ((q * 64) ∷ [])) ≡ bytes =
        ap (λ n. take n (bytes ++ ((q * 64) ∷ []))) (sym l) ∙ take-append bytes ((q * 64) ∷ []) in
      ap (accept stray old) (with_parity_lem stray bytes) ∙ rw (accept, equal) (rw cut refl)
