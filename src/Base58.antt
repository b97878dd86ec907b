-- ===== src/Base58.antt =====
-- The base 58 code of shared/base58.h. A CBigNum that is never negative is a natural number, and
-- a text ends at its first character of code 0, as a C string does. `sha256` is SHA256Hash.
pub mod Digits
pub mod Checksum
pub mod Parts
pub mod Refused
pub mod RoundTrip
use Prim.Native.Char.{Char, code}
use Prim.Native.String.{String}
use mathlib.Core.List.{reverse}
use bytev.Prelude.{
  ℕ, zero, suc, ◌+◌, ◌-◌, ◌*◌, ◌/◌, ◌%◌, Bool, true, false, Option, none, some, List, [], ◌∷◌, ◌++◌,
  length, take, drop, replicate, map, ltb, leb, ◌==◌, ◌&&◌, ◌||◌, if◌then◌else◌,
}
use bytev.Base58.Digits.{value, digits}
use bytev.Serializer.Buffer.{Bytes}

abbrev pub Text : Type 0
Text = List Char

abbrev pub chars : String → Text
chars String.[] = []
chars (String.◌∷◌ c s) = c ∷ chars s

abbrev pub string : Text → String
string [] = String.[]
string (c ∷ cs) = String.◌∷◌ c (string cs)

-- pszBase58
abbrev pub alphabet : Text
alphabet = chars "ipshnaf39wBUDNEGHJKLM4PQRST7VWXYZ2bcdeCg65jkm8oFqr1tuvAxyz"

-- `pszBase58[c]`; c is below 58.
abbrev pub letter_from : Text → ℕ → Char
letter_from [] c = "i"
letter_from (a ∷ letters) zero = a
letter_from (a ∷ letters) (suc c) = letter_from letters c

abbrev pub letter : ℕ → Char
letter c = letter_from alphabet c

-- The offset of a character that is not 0, as strchr finds it.
abbrev pub offset_from : ℕ → Text → Char → Option ℕ
offset_from i [] c = none
offset_from i (a ∷ letters) c = if code a == code c then some i else offset_from (suc i) letters c

abbrev pub offset : Char → Option ℕ
offset c = offset_from 0 alphabet c

-- isspace in the C locale
abbrev pub is_space : Char → Bool
is_space c = (leb 9 (code c) && leb (code c) 13) || (code c == 32)

-- The bytes of CBigNum::getvch, the least first: a byte 0 follows where the last one has the sign bit.
unfoldable pub with_sign : Bytes → Bytes
with_sign [] = []
with_sign (b ∷ []) = if leb 128 b then b ∷ 0 ∷ [] else b ∷ []
with_sign (b ∷ c ∷ bytes) = b ∷ with_sign (c ∷ bytes)

unfoldable pub get_vch : ℕ → Bytes
get_vch n = with_sign (digits 256 n n)

-- `vchTmp.erase(vchTmp.end() - 1)` under its test
unfoldable pub trim_sign : Bytes → Bytes
trim_sign [] = []
trim_sign (b ∷ []) = b ∷ []
trim_sign (b ∷ c ∷ []) = if (c == 0) && leb 128 b then b ∷ [] else b ∷ c ∷ []
trim_sign (b ∷ c ∷ d ∷ bytes) = b ∷ trim_sign (c ∷ d ∷ bytes)

-- How often the list begins with 0, and the text with pszBase58[0].
abbrev pub leading_zeros : Bytes → ℕ
leading_zeros [] = 0
leading_zeros (b ∷ bytes) = if b == 0 then suc (leading_zeros bytes) else 0

abbrev pub leading_letters : Text → ℕ
leading_letters [] = 0
leading_letters (c ∷ cs) = if code c == code "i" then suc (leading_letters cs) else 0

unfoldable pub encode_base58 : Bytes → String
encode_base58 bytes =
    let n = value 256 (reverse bytes ++ (0 ∷ [])) in
    string (reverse (map letter (digits 58 n n) ++ replicate (leading_zeros bytes) (letter 0)))

abbrev pub skip_spaces : Text → Text
skip_spaces [] = []
skip_spaces (c ∷ cs) = if is_space c then skip_spaces cs else c ∷ cs

abbrev pub at_end : Text → Bool
at_end [] = true
at_end (c ∷ cs) = code c == 0

-- The loop over the text; none is the return of false.
unfoldable pub decode_loop : ℕ → Text → Option ℕ
decode_loop n [] = some n
decode_loop n (c ∷ cs) = elim (code c == 0) [
  | true ↦ some n
  | false ↦ elim (offset c) [
    | none ↦ if at_end (skip_spaces (c ∷ cs)) then some n else none
    | some i ↦ decode_loop (n * 58 + i) cs
  ]
]

unfoldable pub decode_text : Text → Option Bytes
decode_text cs = elim (decode_loop 0 cs) [
  | none ↦ none
  | some n ↦ some (replicate (leading_letters cs) 0 ++ reverse (trim_sign (get_vch n)))
]

unfoldable pub decode_base58 : String → Option Bytes
decode_base58 s = decode_text (skip_spaces (chars s))

-- memcmp of two runs of bytes of one length
abbrev pub same_bytes : Bytes → Bytes → Bool
same_bytes [] [] = true
same_bytes (b ∷ bs) (c ∷ cs) = (b == c) && same_bytes bs cs
same_bytes bs cs = false

module _ (sha256 : Bytes → Bytes) where
  unfoldable pub encode_check : Bytes → String
  encode_check bytes = encode_base58 (bytes ++ take 4 (sha256 bytes))

  -- The tests that follow the decoding; each return of false has cleared the vector.
  unfoldable pub checked : Bytes → Bytes
  checked bytes =
      let n = length bytes - 4 in
      if ltb (length bytes) 4
      then []
      else if same_bytes (take 4 (sha256 (take n bytes))) (drop n bytes)
      then take n bytes
      else []

  -- The vector that is left, which is empty where the function returns false.
  unfoldable pub decode_check : String → Bytes
  decode_check s = elim (decode_base58 s) [ none ↦ [] | some bytes ↦ checked bytes ]
