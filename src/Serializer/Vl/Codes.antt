-- ===== src/Serializer/Vl/Codes.antt =====
-- The length codes of shared/Serializer.cpp.
use bytev.Prelude.{
  ℕ, ◌+◌, ◌-◌, ◌*◌, ◌/◌, ◌%◌, ◌^◌, ◌≤◌, ◌<◌, ◌≡◌, refl, ◌∙◌, ◌↔◌, ◌⊎◌, inl, inr, some, [], ◌∷◌,
  ◌++◌, length, All, arith, ok, throws, overflow, Bool-cases, leb,
}
use bytev.Serializer.Buffer.{Bytes, get8}
use bytev.Serializer.Buffer.RoundTrip.{get8-append}
use bytev.Serializer.Vl.{
  encode_vl, encode_length_length, decode_length_length, decode_vl_length1, decode_vl_length2,
  decode_vl_length3, read_length, get_vl_length,
}

-- The form of a code, by the range of the length.
pub data Shape (n : ℕ) (code : Bytes) : Type 0 where
  one : n ≤ 192 → code ≡ n ∷ [] → Shape n code
  two :
      (b c : ℕ)
      → b < 48
      → c < 256
      → n ≡ 193 + b * 256 + c
      → code ≡ (193 + b) ∷ c ∷ []
      → Shape n code
  three :
      (b c e : ℕ)
      → b < 14
      → c < 256
      → e < 256
      → n ≡ 12481 + b * 65536 + c * 256 + e
      → n ≤ 918744
      → code ≡ (241 + b) ∷ c ∷ e ∷ []
      → Shape n code

pub encode_vl-Shape : (n : ℕ) {code : Bytes} → encode_vl n ≡ ok code → Shape n code
unfolding encode_vl
encode_vl-Shape n h = elim (Bool-cases (leb n 192)) [
  | inl small ↦ one (ground arith) (ground arith)
  | inr big ↦ elim (Bool-cases (leb n 12480)) [
    | inl mid ↦
        two ((n - 193) / 2 ^ 8) ((n - 193) % 256) (ground arith) (ground arith) (ground arith)
          (ground arith)
    | inr large ↦
        three ((n - 12481) / 2 ^ 16) ((n - 12481) / 2 ^ 8 % 256) ((n - 12481) % 256) (ground arith)
          (ground arith) (ground arith) (ground arith) (ground arith) (ground arith)
  ]
]

-- encodeVL throws exactly above 918744.
pub encode_vl-eq_throws_iff : (n : ℕ) → (encode_vl n ≡ throws overflow) ↔ (918744 < n)
unfolding encode_vl
encode_vl-eq_throws_iff n = ground arith

-- Each code decodes to its length and takes the bytes that decodeLengthLength tells.
pub decode-Shape :
    (n : ℕ) (code t : Bytes) → Shape n code → get_vl_length (code ++ t) 0 ≡ ok (some n)
unfolding get_vl_length get8 decode_length_length read_length decode_vl_length1 decode_vl_length2
    decode_vl_length3
decode-Shape n code t (one h e) = rw e (ground arith)
decode-Shape n code t (two b c hb hc hn e) = rw e (ground arith)
decode-Shape n code t (three b c d hb hc hd hn hm e) = rw e (ground arith)

-- A read at the end of a prefix does not look at the prefix.
pub read_length-append :
    (d t : Bytes) (b o m : ℕ) → read_length (d ++ t) b (length d + o) m ≡ read_length t b o m
unfolding read_length
read_length-append d t b o m = ground (arith, get8-append d t o, get8-append d t (o + 1))

pub get_vl_length-append : (d t : Bytes) → get_vl_length (d ++ t) (length d) ≡ get_vl_length t 0
unfolding get_vl_length
get_vl_length-append d t = grind (arith, get8-append d t 0, read_length-append)

-- The code of every length that encodeVL accepts reads back as that length, wherever it stands.
pub get_vl_length-encode_vl :
    (d t : Bytes) (n : ℕ) {code : Bytes}
    → encode_vl n ≡ ok code
    → get_vl_length (d ++ (code ++ t)) (length d) ≡ ok (some n)
get_vl_length-encode_vl d t n {code} h =
    get_vl_length-append d (code ++ t) ∙ decode-Shape n code t (encode_vl-Shape n h)

-- encodeLengthLength gives the number of bytes of the code up to 12480 and at 918744, and at no
-- other length that encodeVL accepts.
pub encode_length_length-eq_iff :
    (n : ℕ) {code : Bytes}
    → encode_vl n ≡ ok code
    → (encode_length_length n ≡ ok (length code)) ↔ ((n ≤ 12480) ⊎ (n ≡ 918744))
unfolding encode_vl encode_length_length
encode_length_length-eq_iff n h = ground arith

accepted_two :
    (b c : ℕ) (n : ℕ)
    → b < 256
    → c < 256
    → 192 < b
    → b ≤ 240
    → n ≡ 193 + (b - 193) * 256 + c
    → encode_vl n ≡ ok (b ∷ c ∷ [])
unfolding encode_vl
accepted_two b c n hb hc lo hi e = ground arith

accepted_three :
    (b c e : ℕ) (n : ℕ)
    → c < 256
    → e < 256
    → 240 < b
    → b ≤ 254
    → n ≤ 918744
    → n ≡ 12481 + (b - 241) * 65536 + c * 256 + e
    → encode_vl n ≡ ok (b ∷ c ∷ e ∷ [])
unfolding encode_vl
accepted_three b c e n hc he lo hi hn h = ground arith

module _ (b c n : ℕ) (hc : c < 256) (h : n ≤ 918744) (large : 240 < b) where
  after_two :
      (d : Bytes)
      → All (λ x. x < 256) d
      → get_vl_length (b ∷ c ∷ d) 0 ≡ ok (some n)
      → (code t : Bytes) × (encode_vl n ≡ ok code) × (b ∷ c ∷ d ≡ code ++ t)
  unfolding get_vl_length get8 decode_length_length read_length decode_vl_length1 decode_vl_length2
      decode_vl_length3
  after_two [] v e = absurd (ground arith)
  after_two (x ∷ d) v e =
      (b ∷ c ∷ x ∷ [], d, accepted_three b c x n hc v.0 large (ground arith) h (ground arith), refl)

module _ (b n : ℕ) (hb : b < 256) (h : n ≤ 918744) (big : 192 < b) where
  after_one :
      (d : Bytes)
      → All (λ x. x < 256) d
      → get_vl_length (b ∷ d) 0 ≡ ok (some n)
      → (code t : Bytes) × (encode_vl n ≡ ok code) × (b ∷ d ≡ code ++ t)
  unfolding get_vl_length get8 decode_length_length read_length decode_vl_length1 decode_vl_length2
      decode_vl_length3
  after_one [] v e = absurd (ground arith)
  after_one (c ∷ d) v e = elim (Bool-cases (leb b 240)) [
    | inl mid ↦ (b ∷ c ∷ [], d, accepted_two b c n hb v.0 big (ground arith) (ground arith), refl)
    | inr large ↦ after_two b c n v.0 h (ground arith) d v.1 e
  ]

-- Any code that getVLLength accepts at the front of a buffer of bytes is the one that encodeVL
-- writes for the length read, as long as encodeVL accepts that length.
pub encode_vl-get_vl_length :
    (d : Bytes) (n : ℕ)
    → All (λ b. b < 256) d
    → n ≤ 918744
    → get_vl_length d 0 ≡ ok (some n)
    → (code t : Bytes) × (encode_vl n ≡ ok code) × (d ≡ code ++ t)
unfolding get_vl_length get8 decode_length_length read_length decode_vl_length1 decode_vl_length2
    decode_vl_length3 encode_vl
encode_vl-get_vl_length [] n v h e = absurd (ground arith)
encode_vl-get_vl_length (b ∷ d) n v h e = elim (Bool-cases (leb b 192)) [
  | inl small ↦ (b ∷ [], d, ground arith, refl)
  | inr big ↦ after_one b n v.0 h (ground arith) d v.1 e
]
