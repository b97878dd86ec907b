-- ===== src/Words/Search.antt =====
-- The binary search of shared/rfc1751.cpp finds exactly the words of the range.
use Prim.Native.Nat.{Ordering}
use bytev.Prelude.{
  ℕ, zero, suc, ◌+◌, ◌-◌, ◌/◌, ◌<◌, ◌≤◌, ◌≡◌, ◌⊎◌, inl, inr, refl, sym, subst, ap, false, Option,
  none, some, [], ◌∷◌, ◌==◌, length, ◌↔◌, ◌≢◌, ◌∙◌, lt→ltb, arith, Bool-cases, Option-cases,
}
use mathlib.Core.Option.{some-injective, some-ne-none}
use bytev.Serializer.Buffer.{Bytes}
use bytev.Words.{compare_words, search_loop, search, search_word}

compare_words_refl : (w : Bytes) → compare_words w w ≡ Ordering.eq
compare_words_refl [] = refl
compare_words_refl (x ∷ w) = ground (arith, compare_words_refl w)

compare_words-eq : (v w : Bytes) → compare_words v w ≡ Ordering.eq → v ≡ w
compare_words-eq [] [] h = refl
compare_words-eq [] (y ∷ w) h = absurd (ground (arith, h))
compare_words-eq (x ∷ v) [] h = absurd (ground (arith, h))
compare_words-eq (x ∷ v) (y ∷ w) h = ground (arith, compare_words-eq v w)

compare_words-lt : (v w : Bytes) → compare_words v w ≡ Ordering.lt → compare_words w v ≡ Ordering.gt
compare_words-lt [] [] h = absurd (ground (arith, h))
compare_words-lt [] (y ∷ w) h = refl
compare_words-lt (x ∷ v) [] h = absurd (ground (arith, h))
compare_words-lt (x ∷ v) (y ∷ w) h = ground (arith, compare_words-lt v w)

Ordering-cases : (o : Ordering) → (o ≡ Ordering.eq) ⊎ ((o ≡ Ordering.lt) ⊎ (o ≡ Ordering.gt))
Ordering-cases Ordering.eq = inl refl
Ordering-cases Ordering.lt = inr (inl refl)
Ordering-cases Ordering.gt = inr (inr refl)

order_cases : (i j : ℕ) → (i ≡ j) ⊎ ((i < j) ⊎ (j < i))
order_cases i j = omega arith

mid_inside :
    (low high : ℕ)
    → low ≤ high
    → (low == high) ≡ false
    → (low < high) × (low + (high - low) / 2 < high)
mid_inside low high h e = ground arith

apart : (low high : ℕ) → low < high → (low == high) ≡ false
apart low high h = ground arith

lt≢eq : ¬ (Ordering.lt ≡ Ordering.eq)
lt≢eq e = ground (arith, e)

module _ (dictionary : ℕ → Bytes) where
  -- The words of the range grow.
  abbrev pub IsSorted : ℕ → ℕ → Type 0
  IsSorted low high =
      (i j : ℕ)
      → low ≤ i
      → i < j
      → j < high
      → compare_words (dictionary i) (dictionary j) ≡ Ordering.lt

  -- The loop ends, with fuel for the numbers of the range, whatever the dictionary.
  search_loop-ends :
      (word : Bytes) (n low high : ℕ)
      → low ≤ high
      → high - low < n
      → (r : Option ℕ) × (search_loop dictionary word n low high ≡ some r)
  unfolding search_loop
  search_loop-ends word zero low high h fuel = absurd (omega (arith, fuel))
  search_loop-ends word (suc n) low high h fuel = elim (Bool-cases (low == high)) [
    | inl stop ↦ (none, rw stop refl)
    | inr more ↦
        let mid = low + (high - low) / 2 in
        let inside = mid_inside low high h more in
        elim (Ordering-cases (compare_words word (dictionary mid))) [
          | inl o ↦ (some mid, rw (more, o) refl)
          | inr (inl o) ↦
              let (r, e) = search_loop-ends word n low mid (omega arith) (omega (arith, inside)) in
              (r, rw (more, o) e)
          | inr (inr o) ↦
              let (r, e) =
                search_loop-ends word n (suc mid) high (omega (arith, inside))
                  (omega (arith, inside)) in
              (r, rw (more, o) e)
        ]
  ]

  -- What the loop finds is the word, at a number of the range.
  search_loop-some :
      (word : Bytes) (n low high i : ℕ)
      → low ≤ high
      → search_loop dictionary word n low high ≡ some (some i)
      → (low ≤ i) × (i < high) × (dictionary i ≡ word)
  unfolding search_loop
  search_loop-some word zero low high i h e = absurd (some-ne-none (some i) (sym e))
  search_loop-some word (suc n) low high i h e = elim (Bool-cases (low == high)) [
    | inl stop ↦ absurd (some-ne-none i (sym (some-injective none (some i) (rw stop at e))))
    | inr more ↦
        let mid = low + (high - low) / 2 in
        let inside = mid_inside low high h more in
        elim (Ordering-cases (compare_words word (dictionary mid))) [
          | inl o ↦
              subst (λ j. (low ≤ j) × (j < high) × (dictionary j ≡ word))
                (some-injective mid i (some-injective (some mid) (some i) (rw (more, o) at e)))
                (omega arith, inside.1, sym (compare_words-eq word (dictionary mid) o))
          | inr (inl o) ↦
              let (from, to, found) =
                search_loop-some word n low mid i (omega arith) (rw (more, o) at e) in
              (from, omega (arith, to, inside), found)
          | inr (inr o) ↦
              let (from, to, found) =
                search_loop-some word n (suc mid) high i (omega (arith, inside))
                  (rw (more, o) at e) in
              (omega (arith, from), to, found)
        ]
  ]

  -- The loop finds every word of a sorted range.
  search_loop-finds :
      (n low high k : ℕ)
      → IsSorted low high
      → high - low < n
      → low ≤ k
      → k < high
      → search_loop dictionary (dictionary k) n low high ≡ some (some k)
  unfolding search_loop
  search_loop-finds zero low high k sorted fuel h h' = absurd (omega (arith, fuel))
  search_loop-finds (suc n) low high k sorted fuel h h' =
      let mid = low + (high - low) / 2 in
      let more = apart low high (omega arith) in
      let inside = mid_inside low high (omega arith) more in
      elim (order_cases k mid) [
        | inl e ↦
            let same =
              subst (λ j. compare_words (dictionary k) (dictionary j) ≡ Ordering.eq) e
                (compare_words_refl (dictionary k)) in
            rw (more, same) (ap (λ (j : ℕ). some (some j)) (sym e))
        | inr (inl e) ↦
            rw (more, sorted k mid h e inside.1)
              (search_loop-finds n low mid k
                (λ i j a b c. sorted i j a b (omega (arith, c, inside))) (omega (arith, inside)) h
                e)
        | inr (inr e) ↦
            rw
              (
                more,
                compare_words-lt (dictionary mid) (dictionary k) (sorted mid k (omega arith) e h'),
              )
              (search_loop-finds n (suc mid) high k (λ i j a b c. sorted i j (omega (arith, a)) b c)
                (omega arith) e h')
      ]

  search-ended :
      (word : Bytes) (low high : ℕ) (r : Option ℕ)
      → search_loop dictionary word (suc (high - low)) low high ≡ some r
      → search dictionary word low high ≡ r
  unfolding search
  search-ended word low high r e = rw (search, e) refl

  -- The search of a range of a sorted dictionary ends, with fuel for one round more than there are
  -- numbers in the range. Its result is the number of the word when the word is in the range, and
  -- else -1.
  pub search_iff :
      (word : Bytes) (low high : ℕ)
      → low ≤ high
      → IsSorted low high
      → (r : Option ℕ) × (search_loop dictionary word (suc (high - low)) low high ≡ some r)
        × (search dictionary word low high ≡ r)
        × ((i : ℕ) → (r ≡ some i) ↔ ((low ≤ i) × (i < high) × (dictionary i ≡ word)))
  search_iff word low high h sorted =
      let n = suc (high - low) in
      let (r, ends) = search_loop-ends word n low high h (omega arith) in
      (
        r,
        ends,
        search-ended word low high r ends,
        λ i. (
          λ e. search_loop-some word n low high i h (ends ∙ ap some e),
          λ (from, to, e). some-injective r (some i) (
              sym ends
              ∙ subst (λ w. search_loop dictionary w n low high ≡ some (some i)) e
                  (search_loop-finds n low high i sorted (omega arith) from to)),
        ),
      )

  -- The same of the result of wsrch alone.
  pub search-some_iff :
      (word : Bytes) (low high i : ℕ)
      → low ≤ high
      → IsSorted low high
      → (search dictionary word low high ≡ some i)
        ↔ ((low ≤ i) × (i < high) × (dictionary i ≡ word))
  search-some_iff word low high i h sorted =
      let (r, ends, same, iff) = search_iff word low high h sorted in
      (λ e. (iff i).0 (sym same ∙ e), λ found. same ∙ (iff i).1 found)

  differ :
      (i j : ℕ) (low high : ℕ)
      → IsSorted low high
      → low ≤ i
      → i < j
      → j < high
      → dictionary i ≢ dictionary j
  differ i j low high sorted h h' h'' e = absurd (
      lt≢eq (
        sym (sorted i j h h' h'')
        ∙ (ap (compare_words (dictionary i)) (sym e) ∙ compare_words_refl (dictionary i))))

  -- The search that etob makes does not find the last of the 571 short words, which are sorted, so
  -- a text that key2eng makes with that word is refused by eng2key.
  pub search_word-none :
      IsSorted 0 571 → length (dictionary 570) < 4 → search_word dictionary (dictionary 570) ≡ none
  unfolding search_word
  search_word-none sorted short = elim (Option-cases (search dictionary (dictionary 570) 0 570)) [
    | inl e ↦ rw (lt→ltb (length (dictionary 570)) 4 short) e
    | inr (i, e) ↦
        let (from, to, same) =
          (search-some_iff (dictionary 570) 0 570 i (omega arith)
              (λ j k a b c. sorted j k a b (omega arith))).0
            e in
        absurd (differ i 570 0 571 sorted from to (omega arith) same)
  ]
