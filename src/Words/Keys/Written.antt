-- ===== src/Words/Keys/Written.antt =====
-- A text that eng2key of shared/rfc1751.cpp accepts is the one that key2eng writes for its key, up to
-- the white space.
use mathlib.Core.Bool.{false≢true}
use bytev.Prelude.{
  ℕ, suc, ◌<◌, ◌≡◌, refl, sym, ap, ap₂, ◌∙◌, subst, true, List, [], ◌∷◌, ◌++◌, ◌⊎◌, All, map,
  length, take, drop, replicate, ◌==◌, inl, inr, arith, Bool-cases, bit_and, take-append,
  drop-append, take-append-drop, All-append, length-append, length-take, length-drop,
}
use bytev.Prelude.Int.{ℤ, pos, negsuc}
use bytev.Serializer.Buffer.{Bytes}
use bytev.Words.Buffer.{extract, parity}
use bytev.Words.Buffer.Numbers.{six_numbers, insert_all, insert_all_lem, packed}
use bytev.Words.Dictionary.{dictionary}
use bytev.Words.Keys.{
  spaced, btoe, fill, accept, etob, is_one, read_second, read_words, eng2key, key2eng,
}
use bytev.Words.Dictionary.Sorted.{IsWord}
use bytev.Words.Keys.RoundTrip.{outcome_of, words-IsWord, spaced-append, take-length}
use bytev.Words.Keys.Accepted.{Filled, fill-Filled, packed-with_parity, six_numbers-packed}

is_one_lem : (n : ℤ) → is_one n ≡ true → n ≡ pos 1
is_one_lem (pos n) h = ap pos (ground arith)
is_one_lem (negsuc n) h = absurd (false≢true h)

length-map : (vs : List ℕ) → length (map dictionary vs) ≡ length vs
length-map [] = refl
length-map (v ∷ vs) = ap suc (length-map vs)

-- What an accepted half says of its words and of the key's bytes.
abbrev Written : ℕ → List Bytes → Bytes → Type 0
Written stray words bytes =
    (spaced words ≡ btoe stray bytes) × (length bytes ≡ 8) × All IsWord words

module _ (stray : ℕ) (small : stray < 256) where
  accept_key :
      (old b bytes : Bytes)
      → accept stray old b ≡ (pos 1, bytes)
      → (bit_and (parity stray b) 3 ≡ extract stray b 64 2) × (take 8 b ≡ bytes)
  unfolding accept
  accept_key old b bytes h =
      elim (Bool-cases (bit_and (parity stray b) 3 == extract stray b 64 2)) [
        | inl e ↦ (ground arith, ap (λ r. r.1) (rw e at h))
        | inr e ↦ absurd (false≢true (ap (λ r. is_one r.0) (rw e at h)))
      ]

  packed-Written :
      (u v w x y z : ℕ) (words : List Bytes) (old bytes : Bytes)
      → All (λ (n : ℕ). n < 2048) (u ∷ v ∷ w ∷ x ∷ y ∷ z ∷ [])
      → map dictionary (u ∷ v ∷ w ∷ x ∷ y ∷ z ∷ []) ≡ words
      → accept stray old (packed u v w x y z) ≡ (pos 1, bytes)
      → Written stray words bytes
  unfolding btoe
  packed-Written u v w x y z words old bytes (lu, (lv, (lw, (lx, (ly, (lz, t)))))) e h =
      let (right, cut) = accept_key old (packed u v w x y z) bytes h in
      let whole = packed-with_parity u v w x y z lu lv lw lx ly lz stray small right in
      subst (Written stray words) cut (
        sym (
            ap (λ s. spaced (map dictionary (six_numbers stray s))) whole
            ∙ ap (λ vs. spaced (map dictionary vs))
                (six_numbers-packed u v w x y z lu lv lw lx ly lz stray)
            ∙ ap spaced e),
        refl,
        subst (All IsWord) e
            (words-IsWord (u ∷ v ∷ w ∷ x ∷ y ∷ z ∷ []) (lu, (lv, (lw, (lx, (ly, (lz, t))))))),
      )

  six-Written :
      (vs : List ℕ) (words : List Bytes) (old bytes : Bytes)
      → All (λ (n : ℕ). n < 2048) vs
      → map dictionary vs ≡ words
      → length vs ≡ 6
      → accept stray old (insert_all (replicate 9 0) 0 vs) ≡ (pos 1, bytes)
      → Written stray words bytes
  six-Written [] words old bytes low e l h = absurd (omega (arith, l))
  six-Written (u ∷ []) words old bytes low e l h = absurd (omega (arith, l))
  six-Written (u ∷ v ∷ []) words old bytes low e l h = absurd (omega (arith, l))
  six-Written (u ∷ v ∷ w ∷ []) words old bytes low e l h = absurd (omega (arith, l))
  six-Written (u ∷ v ∷ w ∷ x ∷ []) words old bytes low e l h = absurd (omega (arith, l))
  six-Written (u ∷ v ∷ w ∷ x ∷ y ∷ []) words old bytes low e l h = absurd (omega (arith, l))
  six-Written (u ∷ v ∷ w ∷ x ∷ y ∷ z ∷ []) words old bytes low e l h =
      packed-Written u v w x y z words old bytes low e (
        ap (accept stray old) (
          sym (
            insert_all_lem u v w x y z low.0 low.1.0 low.1.1.0 low.1.1.1.0 low.1.1.1.1.0
              low.1.1.1.1.1.0))
        ∙ h)
  six-Written (u ∷ v ∷ w ∷ x ∷ y ∷ z ∷ n ∷ vs) words old bytes low e l h = absurd (omega (arith, l))

  outcome_of-Written :
      (old bytes : Bytes) (words : List Bytes) (r : ℤ ⊎ Bytes)
      → length words ≡ 6
      → Filled words (replicate 9 0) 0 r
      → outcome_of stray old r ≡ (pos 1, bytes)
      → Written stray words bytes
  outcome_of-Written old bytes words (inl rc) l f h =
      absurd (false≢true (sym f ∙ ap (λ r. is_one r.0) h))
  outcome_of-Written old bytes words (inr b) l (vs, (low, same, end)) h =
      let six : length vs ≡ 6 = sym (length-map vs) ∙ ap length same ∙ l in
      six-Written vs words old bytes low same six (ap (accept stray old) end ∙ h)

  -- An accepted half is made of the words of the bytes that it gives.
  etob-Written :
      (old bytes : Bytes) (words : List Bytes)
      → etob stray old words ≡ (pos 1, bytes)
      → Written stray words bytes
  unfolding etob
  etob-Written old bytes words h = elim (Bool-cases (length words == 6)) [
    | inl e ↦
        outcome_of-Written old bytes words (fill words (replicate 9 0) 0) (ground arith)
          (fill-Filled words (replicate 9 0) 0) (rw e at h)
    | inr e ↦ absurd (false≢true (ap (λ r. is_one r.0) (rw e at h)))
  ]

  -- The second half is read where the first one is accepted.
  read_second-Written :
      (old key : Bytes) (words : List Bytes) (r : ℤ × Bytes)
      → read_second stray old words r ≡ (pos 1, key)
      → (r.0 ≡ pos 1)
        × ((second : Bytes) × ((etob stray [] (take 6 (drop 6 words)) ≡ (pos 1, second))
              × (r.1 ++ second ≡ key)))
  unfolding read_second
  read_second-Written old key words (rc, first) h =
      let (rc', second) = etob stray [] (take 6 (drop 6 words)) in
      elim (Bool-cases (is_one rc)) [
        | inl e ↦ elim (Bool-cases (is_one rc')) [
          | inl f ↦ (
            is_one_lem rc e,
            (second, (ap (λ n. (n, second)) (is_one_lem rc' f), ap (λ r. r.1) (rw (e, f) at h))),
          )
          | inr f ↦ absurd (false≢true (sym f ∙ ap (λ r. is_one r.0) (rw (e, f) at h)))
        ]
        | inr e ↦ absurd (false≢true (sym e ∙ ap (λ r. is_one r.0) (rw e at h)))
      ]

  key2eng_halves :
      (first second : Bytes)
      → length first ≡ 8
      → length second ≡ 8
      → key2eng stray (first ++ second) ≡ btoe stray first ++ (32 ∷ btoe stray second)
  unfolding key2eng
  key2eng_halves first second l m =
      let f : take 8 (first ++ second) ≡ first =
        ap (λ n. take n (first ++ second)) (sym l) ∙ take-append first second in
      let s : drop 8 (first ++ second) ≡ second =
        ap (λ n. drop n (first ++ second)) (sym l) ∙ drop-append first second in
      ap₂ (λ a b. btoe stray a ++ (32 ∷ btoe stray b)) f (ap (take 8) s ∙ take-length second 8 m)

  joined_halves :
      (words : List Bytes) → length words ≡ 12 → take 6 words ++ take 6 (drop 6 words) ≡ words
  joined_halves words l =
      ap (λ ws. take 6 words ++ ws)
        (take-length (drop 6 words) 6 (omega (arith, length-drop 6 words)))
      ∙ take-append-drop 6 words

  two_halves :
      (words : List Bytes)
      → length words ≡ 12
      → spaced (take 6 words) ++ (32 ∷ spaced (take 6 (drop 6 words))) ≡ spaced words
  two_halves words l =
      sym (
        spaced-append (take 6 words) (take 6 (drop 6 words)) (omega (arith, length-take 6 words))
          (omega (arith, length-take 6 (drop 6 words), length-drop 6 words)))
      ∙ ap spaced (joined_halves words l)

  read_words-Written :
      (old key : Bytes) (words : List Bytes)
      → read_words stray old words ≡ (pos 1, key)
      → (length key ≡ 16) × (key2eng stray key ≡ spaced words) × All IsWord words
  unfolding read_words
  read_words-Written old key words h = elim (Bool-cases (length words == 12)) [
    | inl e ↦
        let (first_rc, first) = etob stray [] (take 6 words) in
        let (one, (second, (read, joined))) =
          read_second-Written old key words (etob stray [] (take 6 words)) (rw e at h) in
        let (text, eight, all) = etob-Written [] first (take 6 words) (ap (λ n. (n, first)) one) in
        let (text', eight', all') = etob-Written [] second (take 6 (drop 6 words)) read in
        (
          omega (arith, ap length joined, length-append first second, eight, eight'),
          ap (key2eng stray) (sym joined)
              ∙ key2eng_halves first second eight eight'
              ∙ ap₂ (λ a b. a ++ (32 ∷ b)) (sym text) (sym text')
              ∙ two_halves words (ground arith),
          subst (All IsWord) (joined_halves words (ground arith))
              (All-append IsWord (take 6 words) (take 6 (drop 6 words)) all all'),
        )
    | inr e ↦ absurd (false≢true (ap (λ r. is_one r.0) (rw e at h)))
  ]

  -- A text that is read as a key is the text of that key's words, up to the white space, the key has
  -- sixteen bytes, and every word has capital letters only, so a word with a small letter is refused;
  -- the split may be any function, and `stray` is a byte.
  pub key2eng-eng2key :
      (split : Bytes → List Bytes) (old key text : Bytes)
      → eng2key split stray old text ≡ (pos 1, key)
      → (length key ≡ 16) × (key2eng stray key ≡ spaced (split text)) × All IsWord (split text)
  unfolding eng2key
  key2eng-eng2key split old key text h = read_words-Written old key (split text) h
