-- ===== src/Words/Keys/RoundTrip.antt =====
-- What eng2key of shared/rfc1751.cpp reads in the words that key2eng writes.
use bytev.Prelude.{
  ℕ, zero, suc, ◌<◌, ◌≡◌, refl, sym, ap, ap₂, ◌∙◌, Bool, true, false, ◌||◌, List, [], ◌∷◌, ◌++◌,
  ◌⊎◌, All, All-append, map, length, take, drop, replicate, ◌==◌, inl, inr, if◌then◌else◌, arith,
  append_assoc, length-append, length-take, take-append, drop-append, take-append-drop, length-drop,
}
use bytev.Prelude.Int.{ℤ, pos}
use bytev.Prelude.Masks.{bit_and_eleven}
use bytev.Serializer.Buffer.{Bytes}
use bytev.Words.Buffer.{extract}
use bytev.Words.Buffer.Numbers.{six_numbers, insert_all}
use bytev.Words.Dictionary.{dictionary}
use bytev.Words.Dictionary.Sorted.{IsWord, dictionary-IsWord}
use bytev.Words.Keys.{
  spaced, with_parity, btoe, accept, etob, read_second, read_words, eng2key, key2eng,
}
use bytev.Words.Keys.Halves.{
  IsBytes, has_last, fill-dictionary, refill-with_parity, accept-with_parity,
}

-- The numbers of the words for eight bytes.
unfoldable pub half_numbers : ℕ → Bytes → List ℕ
half_numbers stray bytes = six_numbers stray (with_parity stray bytes)

-- The numbers of the twelve words for a key.
unfoldable pub key_numbers : ℕ → Bytes → List ℕ
key_numbers stray key = half_numbers stray (take 8 key) ++ half_numbers stray (drop 8 key)

-- Splitting words of capital letters with a space between two gives the words.
abbrev pub IsSplit : (Bytes → List Bytes) → Type 0
IsSplit split =
    (words : List Bytes) → All IsWord words → 0 < length words → split (spaced words) ≡ words

pub spaced-append :
    (vs words : List Bytes)
    → 0 < length vs
    → 0 < length words
    → spaced (vs ++ words) ≡ spaced vs ++ (32 ∷ spaced words)
spaced-append [] words h k = absurd (omega arith)
spaced-append (v ∷ []) [] h k = absurd (omega arith)
spaced-append (v ∷ []) (w ∷ words) h k = refl
spaced-append (v ∷ u ∷ vs) words h k =
    ap (λ s. v ++ (32 ∷ s)) (spaced-append (u ∷ vs) words (omega arith) k)
    ∙ sym (append_assoc v (32 ∷ spaced (u ∷ vs)) (32 ∷ spaced words))

pub take-length : {A : Type 0} (bytes : List A) (n : ℕ) → length bytes ≡ n → take n bytes ≡ bytes
take-length [] zero h = refl
take-length [] (suc n) h = refl
take-length (b ∷ bytes) zero h = absurd (omega (arith, h))
take-length (b ∷ bytes) (suc n) h = ap (◌∷◌ b) (take-length bytes n (omega (arith, h)))

take-IsBytes : (n : ℕ) (bytes : Bytes) → IsBytes bytes → IsBytes (take n bytes)
take-IsBytes zero bytes h = tt
take-IsBytes (suc n) [] h = tt
take-IsBytes (suc n) (b ∷ bytes) h = (h.0, take-IsBytes n bytes h.1)

drop-IsBytes : (n : ℕ) (bytes : Bytes) → IsBytes bytes → IsBytes (drop n bytes)
drop-IsBytes zero bytes h = h
drop-IsBytes (suc n) [] h = tt
drop-IsBytes (suc n) (b ∷ bytes) h = drop-IsBytes n bytes h.1

pub words-IsWord : (vs : List ℕ) → All (λ (v : ℕ). v < 2048) vs → All IsWord (map dictionary vs)
words-IsWord [] h = tt
words-IsWord (v ∷ vs) h = (dictionary-IsWord v h.0, words-IsWord vs h.1)

has_last-append : (us vs : List ℕ) → has_last (us ++ vs) ≡ (has_last us || has_last vs)
has_last-append [] vs = refl
has_last-append (u ∷ us) vs = ground (arith, has_last-append us vs)

pub extract-low : (stray : ℕ) (s : Bytes) (start : ℕ) → extract stray s start 11 < 2048
unfolding extract
extract-low stray s start = let masked = bit_and_eleven in omega (arith, masked _)

abbrev pub outcome_of : ℕ → Bytes → ℤ ⊎ Bytes → ℤ × Bytes
outcome_of stray old r = elim r [ inl rc ↦ (rc, old) | inr b ↦ accept stray old b ]

abbrev outcome : Bool → Bytes → Bytes → ℤ × Bytes
outcome last old bytes = if last then (pos 0, old) else (pos 1, bytes)

outcome_cases :
    (stray : ℕ) (old bytes b : Bytes) (last : Bool)
    → accept stray old b ≡ (pos 1, bytes)
    → outcome_of stray old (if last then inl (pos 0) else inr b) ≡ outcome last old bytes
outcome_cases stray old bytes b true h = refl
outcome_cases stray old bytes b false h = h

half_numbers-low :
    (stray : ℕ) (bytes : Bytes) → All (λ (v : ℕ). v < 2048) (half_numbers stray bytes)
unfolding half_numbers
half_numbers-low stray bytes =
    let low = extract-low stray (with_parity stray bytes) in
    (low 0, (low 11, (low 22, (low 33, (low 44, (low 55, tt))))))

module _ (stray : ℕ) (small : stray < 256) where
  etob-half_numbers :
      (old bytes : Bytes)
      → length bytes ≡ 8
      → IsBytes bytes
      → etob stray old (map dictionary (half_numbers stray bytes))
        ≡ outcome (has_last (half_numbers stray bytes)) old bytes
  unfolding etob half_numbers
  etob-half_numbers old bytes l low =
      let s = with_parity stray bytes in
      let vs = six_numbers stray s in
      ap (outcome_of stray old)
        (fill-dictionary vs (replicate 9 0) 0 (half_numbers-low stray bytes))
      ∙ outcome_cases stray old bytes (insert_all (replicate 9 0) 0 vs) (has_last vs) (
          ap (accept stray old) (refill-with_parity stray small bytes l low)
          ∙ accept-with_parity stray small old bytes l low)

read_second_cases :
    (stray : ℕ) (old f s : Bytes) (p q : Bool) (words : List Bytes)
    → etob stray [] (take 6 (drop 6 words)) ≡ outcome q [] s
    → read_second stray old words (outcome p [] f) ≡ outcome (p || q) old (f ++ s)
unfolding read_second
read_second_cases stray old f s true q words h = refl
read_second_cases stray old f s false true words h = rw (read_second, h) refl
read_second_cases stray old f s false false words h = rw (read_second, h) refl

read_words_halves :
    (stray : ℕ) (old f s : Bytes) (p q : Bool) (us vs : List Bytes)
    → length us ≡ 6
    → length vs ≡ 6
    → etob stray [] us ≡ outcome p [] f
    → etob stray [] vs ≡ outcome q [] s
    → read_words stray old (us ++ vs) ≡ outcome (p || q) old (f ++ s)
unfolding read_words
read_words_halves stray old f s p q us vs l m h k =
    let twelve : (length (us ++ vs) == 12) ≡ true = ground (arith, length-append us vs) in
    let first : take 6 (us ++ vs) ≡ us = ap (λ n. take n (us ++ vs)) (sym l) ∙ take-append us vs in
    let rest : drop 6 (us ++ vs) ≡ vs = ap (λ n. drop n (us ++ vs)) (sym l) ∙ drop-append us vs in
    rw (read_words, twelve)
      (ap (read_second stray old (us ++ vs)) (ap (etob stray []) first ∙ h)
        ∙ read_second_cases stray old f s p q (us ++ vs) (
            ap (λ ws. etob stray [] (take 6 ws)) rest
            ∙ ap (etob stray []) (take-length vs 6 m)
            ∙ k))

module _ (split : Bytes → List Bytes) (splits : IsSplit split) (stray : ℕ)
    (small : stray < 256) where
  split-btoe :
      (first second : Bytes)
      → length first ≡ 8
      → length second ≡ 8
      → split (btoe stray first ++ (32 ∷ btoe stray second))
        ≡ map dictionary (half_numbers stray first) ++ map dictionary (half_numbers stray second)
  unfolding btoe half_numbers
  split-btoe first second l l' =
      let us = map dictionary (half_numbers stray first) in
      let vs = map dictionary (half_numbers stray second) in
      let whole = take-length first 8 l in
      let whole' = take-length second 8 l' in
      rw (whole, whole')
        (ap split (sym (spaced-append us vs (omega arith) (omega arith)))
          ∙ splits (us ++ vs)
              (All-append IsWord us vs
                (words-IsWord (half_numbers stray first) (half_numbers-low stray first))
                (words-IsWord (half_numbers stray second) (half_numbers-low stray second)))
              (omega arith))

  -- A key of sixteen bytes is read back from its words, and it is refused with 0 exactly where one of
  -- the words is the last of the 571 short ones; the key at hand then stays. The split is taken to give
  -- the words of a text with one space between two, and `stray` is a byte.
  pub eng2key-key2eng :
      (old key : Bytes)
      → length key ≡ 16
      → IsBytes key
      → eng2key split stray old (key2eng stray key)
        ≡ (if has_last (key_numbers stray key) then (pos 0, old) else (pos 1, key))
  unfolding eng2key key2eng key_numbers half_numbers
  eng2key-key2eng old key l low =
      let f = take 8 key in
      let s = drop 8 key in
      let lf : length f ≡ 8 = omega (arith, length-take 8 key) in
      let ls : length s ≡ 8 = omega (arith, length-drop 8 key) in
      let us = half_numbers stray f in
      let vs = half_numbers stray s in
      ap (λ t. eng2key split stray old (btoe stray f ++ (32 ∷ btoe stray t))) (take-length s 8 ls)
      ∙ ap (read_words stray old) (split-btoe f s lf ls)
      ∙ read_words_halves stray old f s (has_last us) (has_last vs) (map dictionary us)
          (map dictionary vs) refl refl
          (etob-half_numbers stray small [] f lf (take-IsBytes 8 key low))
          (etob-half_numbers stray small [] s ls (drop-IsBytes 8 key low))
      ∙ ap₂ (λ b k. outcome b old k) (sym (has_last-append us vs)) (take-append-drop 8 key)
