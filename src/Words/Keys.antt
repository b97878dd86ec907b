-- ===== src/Words/Keys.antt =====
-- shared/rfc1751.cpp: the words of a key of sixteen bytes and the key of a text of words. `split` is
-- boost's trim and split at white space, and `stray` what a byte that was not written holds.
pub mod Accepted
pub mod Halves
pub mod RoundTrip
pub mod Written
use bytev.Prelude.{
  ℕ, zero, suc, ◌+◌, ◌-◌, ◌*◌, ◌/◌, ◌%◌, ◌^◌, bit_and, Bool, true, false, not, ◌&&◌, ◌||◌, Option,
  none, some, List, [], ◌∷◌, ◌++◌, map, length, take, drop, replicate, ltb, leb, ◌==◌, ◌⊎◌, inl,
  inr, if◌then◌else◌,
}
use bytev.Prelude.Int.{ℤ, pos, negsuc}
use bytev.Serializer.Buffer.{Bytes}
use bytev.Words.{search_word}
use bytev.Words.Buffer.{extract, insert, parity}
use bytev.Words.Dictionary.{dictionary}

-- Words with a space between two.
abbrev pub spaced : List Bytes → Bytes
spaced [] = []
spaced (w ∷ []) = w
spaced (w ∷ v ∷ words) = w ++ (32 ∷ spaced (v ∷ words))

-- The array with the parity that is computed before its last byte is written.
unfoldable pub with_parity : ℕ → Bytes → Bytes
with_parity stray bytes = bytes ++ ((parity stray (bytes ++ (stray ∷ [])) % 256 * 2 ^ 6 % 256) ∷ [])

-- memcpy takes eight bytes, which the calls give.
unfoldable pub btoe : ℕ → Bytes → Bytes
btoe stray bytes =
    let s = with_parity stray (take 8 bytes) in
    spaced (
      map dictionary (
        extract stray s 0 11
        ∷ extract stray s 11 11
        ∷ extract stray s 22 11
        ∷ extract stray s 33 11
        ∷ extract stray s 44 11
        ∷ extract stray s 55 11
        ∷ []))

-- What the loop of standard makes of a letter; it is given to a copy of the letter.
abbrev pub standard_letter : ℕ → ℕ
standard_letter c =
    if leb 128 c
    then c
    else if leb 97 c && leb c 122
    then c - 32
    else if c == 49
    then 76
    else if c == 48
    then 79
    else if c == 53
    then 83
    else c

abbrev pub standard : Bytes → Bytes
standard word = let copies = map standard_letter word in word

-- The loop of etob over the words: its early return, or the bytes that are filled.
unfoldable pub fill : List Bytes → Bytes → ℕ → ℤ ⊎ Bytes
fill [] b p = inr b
fill (word ∷ words) b p =
    if ltb 4 (length word) || ltb (length word) 1
    then inl (negsuc 0)
    else elim (search_word dictionary (standard word)) [
      | none ↦ inl (pos 0)
      | some v ↦ fill words (insert b v p 11) (p + 11)
    ]

-- The test of the parity, and what it leaves of strData.
unfoldable pub accept : ℕ → Bytes → Bytes → ℤ × Bytes
accept stray old b =
    if bit_and (parity stray b) 3 == extract stray b 64 2
    then (pos 1, take 8 b)
    else (negsuc 1, old)

unfoldable pub etob : ℕ → Bytes → List Bytes → ℤ × Bytes
etob stray old words =
    if length words == 6
    then elim (fill words (replicate 9 0) 0) [ inl rc ↦ (rc, old) | inr b ↦ accept stray old b ]
    else (negsuc 0, old)

abbrev pub is_one : ℤ → Bool
is_one (pos n) = n == 1
is_one (negsuc n) = false

-- The second half is read where the first gave 1, and the key is set where both did.
unfoldable pub read_second : ℕ → Bytes → List Bytes → ℤ × Bytes → ℤ × Bytes
read_second stray old words (rc, first) =
    if is_one rc
    then (let (rc', second) = etob stray [] (take 6 (drop 6 words)) in
        if is_one rc' then (rc', first ++ second) else (rc', old))
    else (rc, old)

unfoldable pub read_words : ℕ → Bytes → List Bytes → ℤ × Bytes
read_words stray old words =
    if length words == 12
    then read_second stray old words (etob stray [] (take 6 words))
    else (negsuc 0, old)

-- The result and the key.
unfoldable pub eng2key : (Bytes → List Bytes) → ℕ → Bytes → Bytes → ℤ × Bytes
eng2key split stray old text = read_words stray old (split text)

unfoldable pub key2eng : ℕ → Bytes → Bytes
key2eng stray key = btoe stray (take 8 key) ++ (32 ∷ btoe stray (take 8 (drop 8 key)))
