-- ===== src/Words.antt =====
-- shared/rfc1751.cpp: the search of a word in its dictionary. A word is the list of its letters'
-- codes, and the dictionary pcDict is a function from the numbers below 2048.
pub mod Buffer
pub mod Dictionary
pub mod Keys
pub mod Search
use Prim.Native.Nat.{compare, Ordering}
use bytev.Prelude.{
  ℕ, zero, suc, ◌+◌, ◌-◌, ◌/◌, Option, none, some, List, [], ◌∷◌, length, ltb, ◌==◌, if◌then◌else◌,
}
use bytev.Serializer.Buffer.{Bytes}

-- std::string::compare, which compares the letters as unsigned, then the lengths.
abbrev pub compare_words : Bytes → Bytes → Ordering
compare_words [] [] = Ordering.eq
compare_words [] (y ∷ ys) = Ordering.lt
compare_words (x ∷ xs) [] = Ordering.gt
compare_words (x ∷ xs) (y ∷ ys) = elim (compare x y) [
  | Ordering.lt ↦ Ordering.lt
  | Ordering.eq ↦ compare_words xs ys
  | Ordering.gt ↦ Ordering.gt
]

module _ (dictionary : ℕ → Bytes) where
  -- The loop of wsrch on fuel: none means that the fuel ran out, and `some none` is the result -1.
  unfoldable pub search_loop : Bytes → ℕ → ℕ → ℕ → Option (Option ℕ)
  search_loop word zero low high = none
  search_loop word (suc n) low high =
      if low == high
      then some none
      else elim (compare_words word (dictionary (low + (high - low) / 2))) [
        | Ordering.eq ↦ some (some (low + (high - low) / 2))
        | Ordering.lt ↦ search_loop word n low (low + (high - low) / 2)
        | Ordering.gt ↦ search_loop word n (suc (low + (high - low) / 2)) high
      ]

  -- wsrch; its -1 is none. Each round leaves less of the range, so this fuel does not run out.
  unfoldable pub search : Bytes → ℕ → ℕ → Option ℕ
  search word low high = elim (search_loop word (suc (high - low)) low high) [
    | none ↦ none
    | some result ↦ result
  ]

  -- The search of etob, which gives the range for the length of the word.
  unfoldable pub search_word : Bytes → Option ℕ
  search_word word = if ltb (length word) 4 then search word 0 570 else search word 571 2048
