-- ===== src/Hex.antt =====
-- Hexadecimal text in shared/utils.cpp and shared/utils.h. Characters are their codes, and an int
-- is the number of its 32 bits, so -1 is 2 ^ 32 - 1.
pub mod RoundTrip
use bytev.Prelude.{
  ℕ, ◌+◌, ◌-◌, ◌*◌, ◌/◌, ◌%◌, ◌^◌, bit_or, List, [], ◌∷◌, ltb, leb, if◌then◌else◌, ◌&&◌,
}
use bytev.Serializer.Buffer.{Bytes, byte}

unfoldable pub char_hex : ℕ → ℕ
char_hex digit = if ltb digit 10 then byte (48 + digit) else byte (65 - 10 + digit)

unfoldable pub char_un_hex : ℕ → ℕ
char_un_hex c =
    if leb 48 c && leb c 57
    then c - 48
    else if leb 65 c && leb c 70
    then c - 65 + 10
    else if leb 97 c && leb c 102
    then c - 97 + 10
    else 2 ^ 32 - 1

-- The loop of strUnHex, two characters a round; a last single character is left out.
unfoldable pub str_un_hex : Bytes → Bytes
str_un_hex [] = []
str_un_hex (c ∷ []) = []
str_un_hex (c ∷ c' ∷ l) =
    byte (bit_or (char_un_hex c * 2 ^ 4 % 2 ^ 32) (char_un_hex c')) ∷ str_un_hex l

unfoldable pub str_hex : Bytes → Bytes
str_hex [] = []
str_hex (b ∷ l) = char_hex (b / 2 ^ 4) ∷ char_hex (b % 16) ∷ str_hex l
