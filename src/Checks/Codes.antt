-- ===== src/Checks/Codes.antt =====
-- shared/base58.h and shared/rfc1751.cpp on a few bytes, with a split at single spaces.
use Prim.Native.String.{String}
use mathlib.Core.List.{reverse}
use bytev.Prelude.{
  ℕ, ◌<◌, ◌≤◌, ◌≡◌, refl, sym, ap, ◌∙◌, Bool, true, false, ltb, ◌&&◌, ◌%◌, none, some, List, [],
  ◌∷◌, ◌++◌, All, length, ◌==◌, arith, append_assoc, append-nil, if◌then◌else◌,
}
use bytev.Prelude.Int.{pos}
use bytev.Serializer.Buffer.{Bytes}
use bytev.Address.{
  Address, cleared, set_data, set_string, to_string, set_seed_generic, ver_family_seed,
}
use bytev.Address.Seeds.{seed_of_words}
use bytev.Address.Seeds.Generic.{set_seed_generic-key2eng}
use bytev.Base58.{
  encode_base58, decode_base58, encode_check, decode_check, decode_text, decode_loop, trim_sign,
  get_vch, with_sign,
}
use bytev.Base58.Digits.{value, digits}
use bytev.Base58.RoundTrip.{decode_base58-encode_base58}
use bytev.Base58.Checksum.{IsHash, set_string-to_string_check}
use bytev.Words.Buffer.{extract, insert, parity, parity_loop}
use bytev.Words.{search_word, search, search_loop}
use bytev.Words.Dictionary.{codes, dictionary, short, long}
use bytev.Words.Dictionary.Sorted.{IsWord}
use bytev.Words.Keys.{
  spaced, eng2key, key2eng, btoe, with_parity, read_words, read_second, etob, fill, accept,
}
use bytev.Words.Keys.Written.{key2eng-eng2key}
use bytev.Words.Keys.Halves.{has_last}
use bytev.Words.Keys.RoundTrip.{IsSplit, key_numbers, eng2key-key2eng}

-- The words of a text, the letters of the first one behind `word`.
abbrev split_from : Bytes → Bytes → List Bytes
split_from word [] = word ∷ []
split_from word (c ∷ text) = elim (c == 32) [
  | true ↦ word ∷ split_from [] text
  | false ↦ split_from (word ++ (c ∷ [])) text
]

split_from-end :
    (word w : Bytes) → All (λ (c : ℕ). (65 ≤ c) × (c ≤ 90)) w → split_from word w ≡ (word ++ w) ∷ []
split_from-end word [] h = ap (λ (x : Bytes). x ∷ []) (sym (append-nil word))
split_from-end word (c ∷ w) h =
    let other : (c == 32) ≡ false = ground arith in
    rw (split_from, other) (split_from-end (word ++ (c ∷ [])) w h.1)
    ∙ ap (λ (x : Bytes). x ∷ []) (append_assoc word (c ∷ []) w)

split_from-space :
    (word w text : Bytes)
    → All (λ (c : ℕ). (65 ≤ c) × (c ≤ 90)) w
    → split_from word (w ++ (32 ∷ text)) ≡ (word ++ w) ∷ split_from [] text
split_from-space word [] text h = ap (λ (x : Bytes). x ∷ split_from [] text) (sym (append-nil word))
split_from-space word (c ∷ w) text h =
    let other : (c == 32) ≡ false = ground arith in
    rw (split_from, other) (split_from-space (word ++ (c ∷ [])) w text h.1)
    ∙ ap (λ (x : Bytes). x ∷ split_from [] text) (append_assoc word (c ∷ []) w)

split_from-IsSplit : IsSplit (split_from [])
split_from-IsSplit [] h k = absurd (omega arith)
split_from-IsSplit (w ∷ []) h k = split_from-end [] w h.0.1
split_from-IsSplit (w ∷ v ∷ words) h k =
    split_from-space [] w (spaced (v ∷ words)) h.0.1
    ∙ ap (◌∷◌ w) (split_from-IsSplit (v ∷ words) h.1 (omega arith))

abbrev low_bytes : Bytes → Bool
low_bytes [] = true
low_bytes (b ∷ bytes) = ltb b 256 && low_bytes bytes

bytes_below : (bytes : Bytes) → low_bytes bytes ≡ true → All (λ (b : ℕ). b < 256) bytes
bytes_below [] h = tt
bytes_below (b ∷ bytes) h = (ground arith, bytes_below bytes (ground arith))

abbrev seed : Bytes
seed = 237 ∷ 42 ∷ 0 ∷ 255 ∷ 7 ∷ 128 ∷ 64 ∷ 19 ∷ 200 ∷ 3 ∷ 90 ∷ 11 ∷ 1 ∷ 254 ∷ 33 ∷ 77 ∷ []

seed-IsBytes : All (λ (b : ℕ). b < 256) seed
seed-IsBytes = bytes_below seed refl

abbrev seed_text : String
seed_text = "ANNE DUD FILM GEM JADE STUN FED AT AN WORN APE DRAW"

-- The words of the seed, and a key that is read from words.
seed_words : codes seed_text ≡ key2eng 0 (reverse seed)
unfolding key2eng btoe extract with_parity parity parity_loop dictionary short long
seed_words = refl

eng2key-key2eng_example :
    eng2key (split_from []) 7 [] (key2eng 7 seed)
    ≡ (if has_last (key_numbers 7 seed) then (pos 0, []) else (pos 1, seed))
eng2key-key2eng_example =
    eng2key-key2eng (split_from []) split_from-IsSplit 7 (omega arith) [] seed refl seed-IsBytes

-- The key that is read from the words of the seed.
read_seed : eng2key (split_from []) 0 [] (codes seed_text) ≡ (pos 1, reverse seed)
unfolding eng2key read_words read_second etob fill search_word search search_loop insert accept
    extract parity parity_loop dictionary short long
read_seed = refl

key2eng-eng2key_example :
    (length (reverse seed) ≡ 16)
    × (key2eng 0 (reverse seed) ≡ spaced (split_from [] (codes seed_text)))
    × All IsWord (split_from [] (codes seed_text))
key2eng-eng2key_example =
    key2eng-eng2key 0 (omega arith) (split_from []) [] (reverse seed) (codes seed_text) read_seed

abbrev four_bytes : Bytes → Bytes
four_bytes bytes = (length bytes % 256) ∷ 1 ∷ 2 ∷ 3 ∷ []

abbrev phrase : String → Bytes
phrase text = []

set_seed_generic-key2eng_example :
    set_seed_generic
      (decode_check four_bytes)
      (encode_check four_bytes)
      (seed_of_words (split_from []) 0)
      phrase
      cleared
      seed_text
    ≡ (
      set_data ver_family_seed
          (if has_last (key_numbers 0 (reverse seed)) then phrase seed_text else seed),
      true,
    )
set_seed_generic-key2eng_example =
    set_seed_generic-key2eng four_bytes (split_from []) split_from-IsSplit 0 (omega arith) phrase
      cleared seed seed_text refl seed-IsBytes seed_words

decode_base58-encode_base58_example :
    decode_base58 (encode_base58 (0 ∷ 0 ∷ 97 ∷ 255 ∷ [])) ≡ some (0 ∷ 0 ∷ 97 ∷ 255 ∷ [])
decode_base58-encode_base58_example =
    decode_base58-encode_base58 (0 ∷ 0 ∷ 97 ∷ 255 ∷ [])
      (omega arith, (omega arith, (omega arith, (omega arith, tt))))

four_bytes-IsHash : IsHash four_bytes
four_bytes-IsHash bytes =
    (omega arith, (omega arith, (omega arith, (omega arith, (omega arith, tt)))))

abbrev account : Address
account = set_data 0 (1 ∷ 200 ∷ 0 ∷ [])

set_string-to_string_check_example :
    set_string
      (decode_check four_bytes)
      (encode_check four_bytes)
      (to_string (decode_check four_bytes) (encode_check four_bytes) account)
      0
    ≡ (if account.version == 0 then (account, true) else (cleared, false))
unfolding set_data
set_string-to_string_check_example =
    set_string-to_string_check four_bytes four_bytes-IsHash account 0
      (omega arith, (omega arith, (omega arith, (omega arith, tt))))

-- The shortest texts, a text with leading zeros, and one that is refused.
encoded : encode_base58 [] ≡ ""
unfolding encode_base58 value digits
encoded = refl

with_zeros : encode_base58 (0 ∷ 0 ∷ 57 ∷ []) ≡ "iiz"
unfolding encode_base58 value digits
with_zeros = refl

refused : decode_base58 "ab0" ≡ none
unfolding decode_base58 decode_text decode_loop
refused = refl

spaces : decode_base58 "  iiz  " ≡ some (0 ∷ 0 ∷ 57 ∷ [])
unfolding decode_base58 decode_text decode_loop trim_sign get_vch with_sign digits
spaces = refl
