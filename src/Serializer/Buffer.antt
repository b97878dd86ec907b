-- ===== src/Serializer/Buffer.antt =====
-- shared/Serializer.cpp and shared/Serializer.h: the byte buffer `mData` and the operations that
-- write and read fixed-width values. An operation that changes the buffer returns what the C++
-- function returns beside the new buffer; one that fills an out parameter returns an option.
-- An offset or a size is a C++ int that is not negative, so it is a number; `& 0xff` is `% 256`.
pub mod RoundTrip
use bytev.Prelude.{
  ℕ, ◌+◌, ◌-◌, ◌*◌, ◌/◌, ◌%◌, ◌^◌, bit_or, Option, none, some, List, [], ◌∷◌, ◌++◌, length, get_or,
  take, drop, replicate, ltb, leb, ◌==◌, if◌then◌else◌, Result, ok, throws, assertion,
}

abbrev pub Bytes : Type 0
Bytes = List ℕ

-- static_cast<unsigned char>
abbrev pub byte : ℕ → ℕ
byte x = x % 256

-- An unsigned integer of `w` bits after `o <<= 8; o |= b`.
unfoldable pub shift_in : ℕ → ℕ → ℕ → ℕ
shift_in w o b = bit_or (o * 256 % 2 ^ w) b

unfoldable pub add8 : Bytes → ℕ → ℕ × Bytes
add8 d b = (length d, d ++ (byte b ∷ []))

unfoldable pub add16 : Bytes → ℕ → ℕ × Bytes
add16 d i = (length d, d ++ (byte (i / 2 ^ 8) ∷ byte (i % 256) ∷ []))

unfoldable pub add32 : Bytes → ℕ → ℕ × Bytes
add32 d i = (
  length d,
  d ++ (byte (i / 2 ^ 24) ∷ byte (i / 2 ^ 16 % 256) ∷ byte (i / 2 ^ 8 % 256) ∷ byte (i % 256) ∷ []),
)

unfoldable pub add64 : Bytes → ℕ → ℕ × Bytes
add64 d i = (
  length d,
  d
      ++ (byte (i / 2 ^ 56)
          ∷ byte (i / 2 ^ 48 % 256)
          ∷ byte (i / 2 ^ 40 % 256)
          ∷ byte (i / 2 ^ 32 % 256)
          ∷ byte (i / 2 ^ 24 % 256)
          ∷ byte (i / 2 ^ 16 % 256)
          ∷ byte (i / 2 ^ 8 % 256)
          ∷ byte (i % 256)
          ∷ []),
)

-- A uint128, uint160 or uint256 is the list of its bytes from begin() to end().
unfoldable pub add128 : Bytes → Bytes → ℕ × Bytes
add128 d i = (length d, d ++ i)

unfoldable pub add160 : Bytes → Bytes → ℕ × Bytes
add160 d i = (length d, d ++ i)

unfoldable pub add256 : Bytes → Bytes → ℕ × Bytes
add256 d i = (length d, d ++ i)

unfoldable pub add_raw : Bytes → Bytes → ℕ × Bytes
add_raw d v = (length d, d ++ v)

unfoldable pub add_zeros : Bytes → ℕ → ℕ × Bytes
add_zeros d n = (length d, d ++ replicate n 0)

unfoldable pub get8 : Bytes → ℕ → Option ℕ
get8 d o = if leb (length d) o then none else some (get_or d o 0)

unfoldable pub get16 : Bytes → ℕ → Option ℕ
get16 d o =
    if ltb (length d) (o + 2) then none else some (shift_in 16 (get_or d o 0) (get_or d (o + 1) 0))

unfoldable pub get32 : Bytes → ℕ → Option ℕ
get32 d o =
    if ltb (length d) (o + 4)
    then none
    else some (
        shift_in 32
          (shift_in 32 (shift_in 32 (get_or d o 0) (get_or d (o + 1) 0)) (get_or d (o + 2) 0))
          (get_or d (o + 3) 0))

-- The first four bytes of the eight, as `get64` has them in `o`.
abbrev pub high_half : Bytes → ℕ → ℕ
high_half d o =
    shift_in 64 (shift_in 64 (shift_in 64 (get_or d o 0) (get_or d (o + 1) 0)) (get_or d (o + 2) 0))
      (get_or d (o + 3) 0)

unfoldable pub get64 : Bytes → ℕ → Option ℕ
get64 d o =
    if ltb (length d) (o + 8)
    then none
    else some (
        shift_in 64
          (shift_in 64
            (shift_in 64 (shift_in 64 (high_half d o) (get_or d (o + 4) 0)) (get_or d (o + 5) 0))
            (get_or d (o + 6) 0))
          (get_or d (o + 7) 0))

-- bool getRaw(o, offset, length)
unfoldable pub get_raw : Bytes → ℕ → ℕ → Option Bytes
get_raw d o n = if ltb (length d) (o + n) then none else some (take n (drop o d))

-- std::vector<unsigned char> getRaw(offset, length)
unfoldable pub get_raw_or_empty : Bytes → ℕ → ℕ → Bytes
get_raw_or_empty d o n = if ltb (length d) (o + n) then [] else take n (drop o d)

unfoldable pub get128 : Bytes → ℕ → Option Bytes
get128 d o = if ltb (length d) (o + 16) then none else some (take 16 (drop o d))

unfoldable pub get160 : Bytes → ℕ → Option Bytes
get160 d o = if ltb (length d) (o + 20) then none else some (take 20 (drop o d))

-- bool get256(o, offset)
unfoldable pub get256 : Bytes → ℕ → Option Bytes
get256 d o = if ltb (length d) (o + 32) then none else some (take 32 (drop o d))

-- uint256 get256(offset): zero out of range
unfoldable pub get256_or_zero : Bytes → ℕ → Bytes
get256_or_zero d o = if ltb (length d) (o + 32) then replicate 32 0 else take 32 (drop o d)

-- `mData.resize(n)` at a size that is not larger keeps the first `n` bytes.
unfoldable pub chop : Bytes → ℕ → Option Bytes
chop d n = if ltb (length d) n then none else some (take (length d - n) d)

unfoldable pub remove_last_byte : Bytes → Result (ℕ × Bytes)
remove_last_byte d =
    if length d == 0
    then throws assertion
    else ok (get_or d (length d - 1) 0, take (length d - 1) d)
