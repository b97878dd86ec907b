-- ===== src/Words/Dictionary/Sorted.antt =====
-- The order and the lengths of the words of pcDict of shared/rfc1751.cpp.
use Prim.Native.Nat.{Ordering}
use mathlib.Core.Bool.{false≢true}
use bytev.Prelude.{
  ℕ, zero, suc, ◌+◌, ◌-◌, ◌<◌, ◌≤◌, ◌≡◌, refl, sym, ap, ap₂, ◌∙◌, Bool, true, false, List, [], ◌∷◌,
  ◌++◌, ◌&&◌, All, length, leb, ltb, ◌==◌, get_or, arith, inl, inr, ◌⊎◌, get_or-append,
}
use bytev.Serializer.Buffer.{Bytes}
use bytev.Words.{compare_words}
use bytev.Words.Dictionary.{short, long, dictionary}
use bytev.Words.Search.{IsSorted}

get_or-low :
    {A : Type 0} (xs ys : List A) (i : ℕ) (d : A)
    → i < length xs
    → get_or (xs ++ ys) i d ≡ get_or xs i d
get_or-low [] ys i d h = absurd (omega arith)
get_or-low (x ∷ xs) ys zero d h = refl
get_or-low (x ∷ xs) ys (suc i) d h = get_or-low xs ys i d (omega arith)

compare_words_trans :
    (u v w : Bytes)
    → compare_words u v ≡ Ordering.lt
    → compare_words v w ≡ Ordering.lt
    → compare_words u w ≡ Ordering.lt
compare_words_trans [] [] w h k = k
compare_words_trans [] (y ∷ v) [] h k = absurd (ground (arith, k))
compare_words_trans [] (y ∷ v) (z ∷ w) h k = refl
compare_words_trans (x ∷ u) [] w h k = absurd (ground (arith, h))
compare_words_trans (x ∷ u) (y ∷ v) [] h k = absurd (ground (arith, k))
compare_words_trans (x ∷ u) (y ∷ v) (z ∷ w) h k = ground (arith, compare_words_trans u v w)

abbrev is_less : Ordering → Bool
is_less Ordering.lt = true
is_less o = false

unfoldable grows : List Bytes → Bool
grows [] = true
grows (v ∷ []) = true
grows (v ∷ w ∷ words) = is_less (compare_words v w) && grows (w ∷ words)

is_less_lem : (o : Ordering) → is_less o ≡ true → o ≡ Ordering.lt
is_less_lem Ordering.lt h = refl
is_less_lem Ordering.eq h = absurd (false≢true h)
is_less_lem Ordering.gt h = absurd (false≢true h)

and-true : (a b : Bool) → (a && b) ≡ true → (a ≡ true) × (b ≡ true)
and-true true b h = (refl, h)
and-true false b h = absurd (ground (arith, h))

grows-head :
    (v : Bytes) (words : List Bytes) (j : ℕ)
    → grows (v ∷ words) ≡ true
    → j < length words
    → compare_words v (get_or words j []) ≡ Ordering.lt
unfolding grows
grows-head v [] j h k = absurd (omega arith)
grows-head v (w ∷ words) zero h k =
    is_less_lem (compare_words v w) (and-true (is_less (compare_words v w)) (grows (w ∷ words)) h).0
grows-head v (w ∷ words) (suc j) h k =
    let parts = and-true (is_less (compare_words v w)) (grows (w ∷ words)) h in
    compare_words_trans v w (get_or words j []) (is_less_lem (compare_words v w) parts.0)
      (grows-head w words j parts.1 (omega arith))

grows-tail : (v : Bytes) (words : List Bytes) → grows (v ∷ words) ≡ true → grows words ≡ true
unfolding grows
grows-tail v [] h = refl
grows-tail v (w ∷ words) h = (and-true (is_less (compare_words v w)) (grows (w ∷ words)) h).1

grows-get_or :
    (words : List Bytes) (i j : ℕ)
    → grows words ≡ true
    → i < j
    → j < length words
    → compare_words (get_or words i []) (get_or words j []) ≡ Ordering.lt
grows-get_or [] i j h k l = absurd (omega arith)
grows-get_or (v ∷ words) i zero h k l = absurd (omega arith)
grows-get_or (v ∷ words) zero (suc j) h k l = grows-head v words j h (omega arith)
grows-get_or (v ∷ words) (suc i) (suc j) h k l =
    grows-get_or words i j (grows-tail v words h) (omega arith) (omega arith)

-- Every word of a list passes a test.
every : {A : Type 0} → (A → Bool) → List A → Bool
every p [] = true
every p (x ∷ xs) = p x && every p xs

every-get_or :
    {A : Type 0} (p : A → Bool) (xs : List A) (i : ℕ) (d : A)
    → every p xs ≡ true
    → i < length xs
    → p (get_or xs i d) ≡ true
unfolding every
every-get_or p [] i d h k = absurd (omega arith)
every-get_or p (x ∷ xs) zero d h k = (and-true (p x) (every p xs) h).0
every-get_or p (x ∷ xs) (suc i) d h k =
    every-get_or p xs i d (and-true (p x) (every p xs) h).1 (omega arith)

abbrev is_letter : ℕ → Bool
is_letter c = leb 65 c && leb c 90

abbrev is_short : Bytes → Bool
is_short w = leb 1 (length w) && (ltb (length w) 4 && every is_letter w)

abbrev is_long : Bytes → Bool
is_long w = (length w == 4) && every is_letter w

length-short : length short ≡ 571
unfolding short
length-short = refl

length-long : length long ≡ 1477
unfolding long
length-long = refl

-- The word of a number, in the part that it lies in.
dictionary-short : (i : ℕ) → i < 571 → dictionary i ≡ get_or short i []
unfolding dictionary
dictionary-short i h = get_or-low short long i [] (omega (arith, length-short))

dictionary-long : (i : ℕ) → dictionary (571 + i) ≡ get_or long i []
unfolding dictionary
dictionary-long i =
    ap (λ n. get_or (short ++ long) (n + i) []) (sym length-short) ∙ get_or-append short long i []

long_number : (i : ℕ) → 571 ≤ i → i ≡ 571 + (i - 571)
long_number i h = omega arith

pub short-IsSorted : IsSorted dictionary 0 571
unfolding short grows
short-IsSorted i j a b c =
    rw (dictionary-short i (omega arith), dictionary-short j c)
      (grows-get_or short i j refl b (omega (arith, length-short)))

pub long-IsSorted : IsSorted dictionary 571 2048
unfolding long grows
long-IsSorted i j a b c =
    ap₂ (λ m n. compare_words (dictionary m) (dictionary n)) (long_number i a)
      (long_number j (omega arith))
    ∙ rw (dictionary-long (i - 571), dictionary-long (j - 571))
        (grows-get_or long (i - 571) (j - 571) refl (omega arith) (omega (arith, length-long)))

-- A word is not empty and has capital letters.
abbrev pub IsWord : Bytes → Type 0
IsWord w = (0 < length w) × All (λ (c : ℕ). (65 ≤ c) × (c ≤ 90)) w

every-IsLetter : (w : Bytes) → every is_letter w ≡ true → All (λ (c : ℕ). (65 ≤ c) × (c ≤ 90)) w
unfolding every
every-IsLetter [] h = tt
every-IsLetter (c ∷ w) h =
    let parts = and-true (is_letter c) (every is_letter w) h in
    ((ground arith, ground arith), every-IsLetter w parts.1)

short_word : (i : ℕ) → i < 571 → is_short (dictionary i) ≡ true
unfolding short every
short_word i h =
    rw (dictionary-short i h) (every-get_or is_short short i [] refl (omega (arith, length-short)))

long_word : (i : ℕ) → 571 ≤ i → i < 2048 → is_long (dictionary i) ≡ true
unfolding long every
long_word i h k =
    let e = long_number i h in
    ap (λ n. is_long (dictionary n)) e
    ∙ ap is_long (dictionary-long (i - 571))
    ∙ every-get_or is_long long (i - 571) [] refl (omega (arith, length-long))

is_short-parts :
    (w : Bytes) → is_short w ≡ true → (1 ≤ length w) × (length w < 4) × (every is_letter w ≡ true)
is_short-parts w h =
    let (low, rest) = and-true (leb 1 (length w)) (ltb (length w) 4 && every is_letter w) h in
    let (high, letters) = and-true (ltb (length w) 4) (every is_letter w) rest in
    (ground arith, ground arith, letters)

is_long-parts : (w : Bytes) → is_long w ≡ true → (length w ≡ 4) × (every is_letter w ≡ true)
is_long-parts w h =
    let (four, letters) = and-true (length w == 4) (every is_letter w) h in (ground arith, letters)

pub length-dictionary_short : (i : ℕ) → i < 571 → length (dictionary i) < 4
length-dictionary_short i h = (is_short-parts (dictionary i) (short_word i h)).1

pub length-dictionary_long : (i : ℕ) → 571 ≤ i → i < 2048 → length (dictionary i) ≡ 4
length-dictionary_long i h k = (is_long-parts (dictionary i) (long_word i h k)).0

side : (i : ℕ) → (i < 571) ⊎ (571 ≤ i)
side i = omega arith

pub dictionary-IsWord : (i : ℕ) → i < 2048 → IsWord (dictionary i)
dictionary-IsWord i h = elim (side i) [
  | inl low ↦
      let (a, b, c) = is_short-parts (dictionary i) (short_word i low) in
      (a, every-IsLetter (dictionary i) c)
  | inr high ↦
      let (a, b) = is_long-parts (dictionary i) (long_word i high h) in
      (omega (arith, a), every-IsLetter (dictionary i) b)
]
