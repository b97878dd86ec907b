-- ===== src/Checks/Serializing.antt =====
-- shared/Serializer.cpp, shared/PackedMessage.cpp and the hexadecimal text of shared/utils.cpp on
-- small buffers.
use bytev.Prelude.{
  assertion, ◌^◌, ℕ, ◌+◌, ◌≤◌, ◌<◌, ◌≡◌, refl, ◌≢◌, ◌↔◌, ◌⊎◌, inl, true, some, List, [], ◌∷◌, ◌++◌,
  length, map, take, drop, arith, ok, throws, overflow,
}
use bytev.Serializer.Buffer.{Bytes, add16, add32, add64, get8, get16, get32, get64}
use bytev.Serializer.Buffer.RoundTrip.{get-add}
use bytev.Serializer.Vl.{
  encode_vl, encode_length_length, decode_length_length, decode_vl_length2, read_length, get_vl,
  get_vl_length, add_vl,
}
use bytev.Serializer.Vl.Codes.{encode_length_length-eq_iff}
use bytev.Serializer.Vl.RoundTrip.{code_length, get_vl-add_vl, add_vl-asserts_iff}
use bytev.Serializer.Tagged.{TaggedListItem, add_tagged_list, get_tagged_list}
use bytev.Serializer.Tagged.Items.{items_length}
use bytev.Serializer.Tagged.RoundTrip.{get_tagged_list-add_tagged_list}
use bytev.Serializer.Iterator.Messages.{
  Field, u8, u16, vl, tagged, kind, put_all, next_all, next_all-put_all,
}
use bytev.Hex.{str_hex, str_un_hex}
use bytev.Hex.RoundTrip.{str_un_hex-str_hex}
use bytev.Packet.{header_size, pack, get_length, get_type}
use bytev.Packet.Header.{get-pack}

abbrev front : Bytes
front = 7 ∷ 8 ∷ []

abbrev five_hundred : ℕ
five_hundred = 500

abbrev value : Bytes
value = 1 ∷ 2 ∷ 3 ∷ []

abbrev items : List TaggedListItem
items = (5, value) ∷ (255, []) ∷ []

abbrev fields : List Field
fields = u8 200 ∷ vl value ∷ tagged items ∷ u16 513 ∷ []

get-add_example :
    (get16 ((add16 front 513).1 ++ value) (add16 front 513).0 ≡ some 513)
    × (get32 ((add32 front 70000).1 ++ value) (add32 front 70000).0 ≡ some 70000)
    × (get64 ((add64 front 9).1 ++ value) (add64 front 9).0 ≡ some 9)
get-add_example = get-add front value 513 70000 9 (omega arith) (omega arith) (omega arith)

code_of_500 : encode_vl 500 ≡ ok (194 ∷ 51 ∷ [])
unfolding encode_vl
code_of_500 = refl

length_of_code : get_vl_length (194 ∷ 51 ∷ 9 ∷ []) 0 ≡ ok (some 500)
unfolding get_vl_length get8 decode_length_length read_length decode_vl_length2
length_of_code = refl

get_vl-add_vl_example :
    let d' = (add_vl true front value).0 in
    (get_vl (d' ++ (9 ∷ [])) 2 ≡ ok (some (value, code_length 3 + 3)))
    × (length d' ≡ 2 + (code_length 3 + 3))
get_vl-add_vl_example = get_vl-add_vl true front value (9 ∷ []) (omega arith)

add_vl-asserts_iff_example :
    let r = (add_vl true front value).1 in
    ((r ≡ ok 2) ↔ ((length value ≤ 12480) ⊎ (length value ≡ 918744)))
    × ((r ≡ throws overflow) ↔ ((12480 < length value) × (length value ≢ 918744)))
add_vl-asserts_iff_example = add_vl-asserts_iff front value

get_tagged_list-add_tagged_list_example :
    let n = 1 + items_length items in
    let (d', r) = add_tagged_list true front items in
    (r ≡ ok (some 2))
    × (get_tagged_list (d' ++ value) 2 ≡ ok (some (items, n)))
    × (length d' ≡ 2 + n)
get_tagged_list-add_tagged_list_example =
    get_tagged_list-add_tagged_list true front value items (omega arith)
      ((omega arith, inl (omega arith)), ((omega arith, inl (omega arith)), tt))

next_all-put_all_example :
    let d' = put_all true front fields in
    next_all (map kind fields) (d' ++ value) 2 ≡ ok (fields, length d')
next_all-put_all_example = next_all-put_all true front value fields (
  omega arith,
  (
    omega arith,
    (
      (omega arith, ((omega arith, inl (omega arith)), ((omega arith, inl (omega arith)), tt))),
      (omega arith, tt),
    ),
  ),
)

get-pack_example :
    ((0 < 3)
      × (header_size + 3 < 2 ^ 32)
      × ((buf : Bytes) × (pack value 3 ≡ ok buf)
          × (get_length buf ≡ 3)
          × (get_type buf ≡ 3)
          × (get_length (take header_size buf) ≡ 3)
          × (drop header_size buf ≡ value)))
    ⊎ (((length value ≡ 0) ⊎ (2 ^ 32 ≤ header_size + 3)) × (pack value 3 ≡ throws assertion))
get-pack_example = get-pack value 3 (omega arith) (omega arith)

str_un_hex-str_hex_example : str_un_hex (str_hex (0 ∷ 171 ∷ [])) ≡ 0 ∷ 171 ∷ []
str_un_hex-str_hex_example = str_un_hex-str_hex (0 ∷ 171 ∷ []) (omega arith, (omega arith, tt))

encode_length_length-eq_iff_example :
    (encode_length_length 500 ≡ ok 2) ↔ ((500 ≤ 12480) ⊎ (◌≡◌ {A = ℕ} 500 918744))
encode_length_length-eq_iff_example = encode_length_length-eq_iff 500 code_of_500
