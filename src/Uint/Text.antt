-- ===== src/Uint/Text.antt =====
-- shared/uint256.h: SetHex and GetHex of base_uint, on the bytes from begin() to end(), `n` of them. The
-- text is a list of characters' codes, and the character of code 0 ends it at the latest at its end.
pub mod RoundTrip
use bytev.Prelude.{
  ℕ, zero, suc, ◌+◌, ◌-◌, ◌*◌, ◌/◌, ◌%◌, ◌^◌, bit_or, Option, none, some, List, [], ◌∷◌, ◌++◌,
  length, drop, replicate, ltb, leb, ◌==◌, if◌then◌else◌, ◌&&◌, ◌||◌, Bool,
}
use bytev.Serializer.Buffer.{Bytes}
use bytev.Hex.{str_hex}

-- The entries of phexdigit, none for -1.
abbrev pub hex_digit : ℕ → Option ℕ
hex_digit c =
    if leb 48 c && leb c 57
    then some (c - 48)
    else if leb 65 c && leb c 70
    then some (c - 65 + 10)
    else if leb 97 c && leb c 102
    then some (c - 97 + 10)
    else none

-- isspace in the C locale
abbrev pub is_space : ℕ → Bool
is_space c = (leb 9 c && leb c 13) || (c == 32)

abbrev pub skip_spaces : Bytes → Bytes
skip_spaces [] = []
skip_spaces (c ∷ text) = if is_space c then skip_spaces text else c ∷ text

abbrev pub skip_prefix : Bytes → Bytes
skip_prefix [] = []
skip_prefix (c ∷ []) = c ∷ []
skip_prefix (c ∷ d ∷ text) = if (c == 48) && ((d == 120) || (d == 88)) then text else c ∷ d ∷ text

-- The values of the digits up to the first character that is none, at pEnd.
unfoldable pub hex_digits : Bytes → List ℕ
hex_digits [] = []
hex_digits (c ∷ text) = elim (hex_digit c) [ none ↦ [] | some v ↦ v ∷ hex_digits text ]

-- The loop that writes at pOut, two digits a round.
unfoldable pub pairs : List ℕ → Bytes
pairs [] = []
pairs (h ∷ []) = bit_or (h * 2 ^ 4 % 2 ^ 8) 0 ∷ []
pairs (h ∷ l ∷ digits) = bit_or (h * 2 ^ 4 % 2 ^ 8) l ∷ pairs digits

-- At most the last two digits for each byte are kept, and what is written ends at end().
unfoldable pub set_digits : ℕ → List ℕ → Bytes
set_digits n digits =
    let kept =
      if ltb (2 * n) (length digits) then drop (length digits - 2 * n) digits else digits in
    replicate (n - (length kept + 1) / 2) 0 ++ pairs kept

unfoldable pub set_hex : ℕ → Bytes → Bytes
set_hex n text = set_digits n (hex_digits (skip_prefix (skip_spaces text)))

unfoldable pub get_hex : Bytes → Bytes
get_hex bytes = str_hex bytes
