-- ===== src/Serializer/Vl.antt =====
-- shared/Serializer.cpp: variable-length values, a length of one to three bytes before the data.
-- A length is a C++ int that comes from a container's size, so it is a number.
pub mod Codes
pub mod RoundTrip
use bytev.Prelude.{
  ℕ, ◌+◌, ◌-◌, ◌*◌, ◌/◌, ◌%◌, ◌^◌, Bool, true, false, Option, none, some, List, [], ◌∷◌, ◌++◌,
  length, ltb, leb, ◌==◌, if◌then◌else◌, Result, ok, throws, Error, overflow, assertion, ◌>>=◌,
}
use bytev.Serializer.Buffer.{Bytes, byte, get8, get_raw, add_raw}

unfoldable pub encode_vl : ℕ → Result Bytes
encode_vl n =
    if leb n 192
    then ok (byte n ∷ [])
    else if leb n 12480
    then ok (byte (193 + byte ((n - 193) / 2 ^ 8)) ∷ byte ((n - 193) % 256) ∷ [])
    else if leb n 918744
    then ok (
        byte (241 + byte ((n - 12481) / 2 ^ 16))
        ∷ byte ((n - 12481) / 2 ^ 8 % 256)
        ∷ byte ((n - 12481) % 256)
        ∷ [])
    else throws overflow

-- The third test is `>=`, as in the source.
unfoldable pub encode_length_length : ℕ → Result ℕ
encode_length_length n =
    if leb n 192
    then ok 1
    else if leb n 12480
    then ok 2
    else if leb 918744 n
    then ok 3
    else throws overflow

-- int lengthVL(length)
unfoldable pub length_vl : ℕ → Result ℕ
length_vl n = do m ← encode_length_length n; ok (n + m)

unfoldable pub decode_length_length : ℕ → Result ℕ
decode_length_length b =
    if leb b 192
    then ok 1
    else if leb b 240
    then ok 2
    else if leb b 254
    then ok 3
    else throws overflow

-- The three overloads of decodeVLLength.
unfoldable pub decode_vl_length1 : ℕ → Result ℕ
decode_vl_length1 b = if ltb 254 b then throws overflow else ok b

unfoldable pub decode_vl_length2 : ℕ → ℕ → Result ℕ
decode_vl_length2 b c =
    if ltb b 193
    then throws overflow
    else if ltb 240 b
    then throws overflow
    else ok (193 + (b - 193) * 256 + c)

unfoldable pub decode_vl_length3 : ℕ → ℕ → ℕ → Result ℕ
decode_vl_length3 b c e =
    if ltb b 241
    then throws overflow
    else if ltb 254 b
    then throws overflow
    else ok (12481 + (b - 241) * 65536 + c * 256 + e)

-- The `try` of getVL and getVLLength: an exception becomes `false`.
abbrev pub caught : Result ℕ → Option ℕ
caught (ok n) = some n
caught (throws e) = none

-- The body of the `try`: the length that `m` length bytes from `b` at `o - 1` stand for.
unfoldable pub read_length : Bytes → ℕ → ℕ → ℕ → Option ℕ
read_length d b o m =
    if m == 1
    then caught (decode_vl_length1 b)
    else if m == 2
    then elim (get8 d o) [ none ↦ none | some c ↦ caught (decode_vl_length2 b c) ]
    else if m == 3
    then elim (get8 d o) [
      | none ↦ none
      | some c ↦ elim (get8 d (o + 1)) [ none ↦ none | some e ↦ caught (decode_vl_length3 b c e) ]
    ]
    else none

-- `decodeLengthLength` is called before the `try`, so what it throws leaves the function. The pair
-- is what goes out through `objectVL` and `length`.
unfoldable pub get_vl : Bytes → ℕ → Result (Option (Bytes × ℕ))
get_vl d o = elim (get8 d o) [
  | none ↦ ok none
  | some b ↦ do
    m ← decode_length_length b
    ok (elim (read_length d b (o + 1) m) [
      | none ↦ none
      | some n ↦ elim (get_raw d (o + m) n) [ none ↦ none | some v ↦ some (v, m + n) ]
    ])
]

unfoldable pub get_vl_length : Bytes → ℕ → Result (Option ℕ)
get_vl_length d o = elim (get8 d o) [
  | none ↦ ok none
  | some b ↦ do m ← decode_length_length b; ok (read_length d b (o + 1) m)
]

-- The assert of addVL, which evaluates encodeLengthLength: `d` is the buffer after both appends,
-- `ret` the offset returned and `n` the size of the value.
unfoldable pub check_size : Bytes → ℕ → ℕ → Result ℕ
check_size d ret n = do
  m ← encode_length_length n
  if length d == ret + n + m then ok ret else throws assertion

-- addVL of a vector, with assertions compiled in or not. The buffer is what is left in `mData`,
-- also when the call throws.
unfoldable pub add_vl : Bool → Bytes → Bytes → Bytes × Result ℕ
add_vl asserts d v = elim (encode_vl (length v)) [
  | throws e ↦ (d, throws e)
  | ok code ↦
      let (ret, d') = add_raw d code in
      let d'' = (add_raw d' v).1 in
      (d'', (if asserts then check_size d'' ret (length v) else ok ret))
]

-- addVL of a pointer and a length, which has no assert.
unfoldable pub add_vl_raw : Bytes → Bytes → Bytes × Result ℕ
add_vl_raw d v = elim (encode_vl (length v)) [
  | throws e ↦ (d, throws e)
  | ok code ↦
      let (ret, d') = add_raw d code in ((if length v == 0 then d' else (add_raw d' v).1), ok ret)
]
