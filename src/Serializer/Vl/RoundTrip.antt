-- ===== src/Serializer/Vl/RoundTrip.antt =====
-- addVL of shared/Serializer.cpp, with and without its assert, and getVL behind it.
use bytev.Prelude.{
  ℕ, suc, ◌+◌, ◌≤◌, ◌<◌, ◌≡◌, ◌∙◌, Bool, runtime, assertion, Result-cases, if◌then◌else◌, ◌↔◌, ◌⊎◌,
  ◌≢◌, ltb, ◌&&◌, ◌||◌, not, inl, inr, some, [], ◌∷◌, ◌++◌, append_assoc, append-nil, length, true,
  false, length-append, drop, ap, arith, Result, ok, throws, overflow, Bool-cases, leb, ◌==◌,
}
use bytev.Serializer.Buffer.{Bytes, get8, get_raw, add_raw}
use bytev.Serializer.Buffer.RoundTrip.{get8-append, get_raw-append}
use bytev.Serializer.Vl.{
  encode_vl, encode_length_length, decode_length_length, decode_vl_length1, decode_vl_length2,
  decode_vl_length3, read_length, get_vl, add_vl, check_size,
}
use bytev.Serializer.Vl.Codes.{
  Shape, one, two, three, encode_vl-Shape, read_length-append, encode_vl-eq_throws_iff,
}

drop-append_offset : (d t : Bytes) (k : ℕ) → drop (length d + k) (d ++ t) ≡ drop k t
drop-append_offset [] t k = ap (λ n. drop n t) (omega arith)
drop-append_offset (x ∷ d) t k =
    let e : length (x ∷ d) + k ≡ suc (length d + k) = omega arith in rw e (drop-append_offset d t k)

pub get_raw-append_offset :
    (d t : Bytes) (o n : ℕ) → get_raw (d ++ t) (length d + o) n ≡ get_raw t o n
unfolding get_raw
get_raw-append_offset d t o n = ground (arith, length-append d t, drop-append_offset d t o)

-- The same facts, with the sums as getVL forms them.
read_after :
    (d t : Bytes) (b o m : ℕ)
    → read_length (d ++ t) b (length d + o + 1) m ≡ read_length t b (o + 1) m
read_after d t b o m = regroup ∙ read_length-append d t b (o + 1) m
  where
    regroup :
        read_length (d ++ t) b (length d + o + 1) m ≡ read_length (d ++ t) b (length d + (o + 1)) m
    regroup = ap (λ k. read_length (d ++ t) b k m) (omega arith)

raw_after : (d t : Bytes) (o m n : ℕ) → get_raw (d ++ t) (length d + o + m) n ≡ get_raw t (o + m) n
raw_after d t o m n = regroup ∙ get_raw-append_offset d t (o + m) n
  where
    regroup : get_raw (d ++ t) (length d + o + m) n ≡ get_raw (d ++ t) (length d + (o + m)) n
    regroup = ap (λ k. get_raw (d ++ t) k n) (omega arith)

pub get_vl-append : (d t : Bytes) (o : ℕ) → get_vl (d ++ t) (length d + o) ≡ get_vl t o
unfolding get_vl
get_vl-append d t o = grind (arith, get8-append d t o, read_after, raw_after)

-- A value behind its code.
get_vl-Shape :
    (v code t : Bytes)
    → Shape (length v) code
    → get_vl (code ++ (v ++ t)) 0 ≡ ok (some (v, length code + length v))
unfolding get_vl get8 decode_length_length read_length decode_vl_length1 decode_vl_length2
    decode_vl_length3
get_vl-Shape v code t (one h e) = rw e (ground (arith, get_raw-append (length v ∷ []) v t))
get_vl-Shape v code t (two b c hb hc hn e) =
    rw e (ground (arith, get_raw-append ((193 + b) ∷ c ∷ []) v t))
get_vl-Shape v code t (three b c x hb hc hx hn hm e) =
    rw e (ground (arith, get_raw-append ((241 + b) ∷ c ∷ x ∷ []) v t))

-- The number of bytes of the code of a length.
abbrev pub code_length : ℕ → ℕ
code_length n = if leb n 192 then 1 else if leb n 12480 then 2 else 3

length-Shape : (n : ℕ) (code : Bytes) → Shape n code → length code ≡ code_length n
length-Shape n code (one h e) = rw e (ground arith)
length-Shape n code (two b c hb hc hn e) = rw e (ground arith)
length-Shape n code (three b c x hb hc hx hn hm e) = rw e (ground arith)

encode_vl-ok : (n : ℕ) → n ≤ 918744 → (code : Bytes) × (encode_vl n ≡ ok code)
encode_vl-ok n h = elim (Result-cases (encode_vl n)) [
  | inl r ↦ r
  | inr (overflow, e) ↦ absurd (ground (arith, (encode_vl-eq_throws_iff n).0 e))
  | inr (runtime, e) ↦ absurd (unfold encode_vl in ground arith)
  | inr (assertion, e) ↦ absurd (unfold encode_vl in ground arith)
]

-- What addVL leaves in the buffer: the code and the value behind what was there.
pub add_vl-buffer :
    (asserts : Bool) (d v code : Bytes)
    → encode_vl (length v) ≡ ok code
    → (add_vl asserts d v).0 ≡ d ++ (code ++ v)
unfolding add_vl add_raw
add_vl-buffer asserts d v code e = rw (e, add_vl) (append_assoc d code v)

-- A value of at most 918744 bytes that addVL has appended, with or without assertions and also when
-- its assert throws, is read back by getVL at the offset where the buffer ended before, with the
-- number of bytes that it takes, whatever stands before it and is appended later; the buffer has
-- grown by that number.
pub get_vl-add_vl :
    (asserts : Bool) (d v t : Bytes)
    → length v ≤ 918744
    → let n = code_length (length v) + length v in
      let d' = (add_vl asserts d v).0 in
      (get_vl (d' ++ t) (length d) ≡ ok (some (v, n))) × (length d' ≡ length d + n)
get_vl-add_vl asserts d v t h =
    let (code, e) = encode_vl-ok (length v) h in
    let shape = encode_vl-Shape (length v) e in
    rw (add_vl-buffer asserts d v code e, append_assoc, append_assoc)
      (
        ground (
          arith,
          get_vl-append d (code ++ (v ++ t)) 0,
          get_vl-Shape v code t shape,
          length-Shape (length v) code shape,
        ),
        ground (
          arith,
          length-append d (code ++ v),
          length-append code v,
          length-Shape (length v) code shape,
        ),
      )

-- The outcome of addVL, in closed form.
outcome : Bool → ℕ → ℕ → Result ℕ
outcome asserts ret n =
    if ltb 918744 n
    then throws overflow
    else if asserts && not (leb n 12480 || n == 918744)
    then throws overflow
    else ok ret

check_size-outcome :
    (d : Bytes) (ret n : ℕ)
    → n ≤ 918744
    → length d ≡ ret + (code_length n + n)
    → check_size d ret n ≡ outcome true ret n
unfolding check_size outcome encode_length_length
check_size-outcome d ret n h e = ground arith

add_vl-result :
    (asserts : Bool) (d v code : Bytes)
    → encode_vl (length v) ≡ ok code
    → (add_vl asserts d v).1
      ≡ (if asserts then check_size (add_vl asserts d v).0 (length d) (length v) else ok (length d))
unfolding add_vl add_raw
add_vl-result asserts d v code e = rw (e, add_vl)

add_vl-outcome_small :
    (asserts : Bool) (d v code : Bytes)
    → length v ≤ 918744
    → encode_vl (length v) ≡ ok code
    → (add_vl asserts d v).1 ≡ outcome asserts (length d) (length v)
add_vl-outcome_small true d v code h e =
    add_vl-result true d v code e
    ∙ check_size-outcome (add_vl true d v).0 (length d) (length v) h (get_vl-add_vl true d v [] h).1
add_vl-outcome_small false d v code h e =
    add_vl-result false d v code e ∙ (unfold outcome in ground arith)

add_vl-outcome :
    (asserts : Bool) (d v : Bytes) → (add_vl asserts d v).1 ≡ outcome asserts (length d) (length v)
unfolding add_vl outcome
add_vl-outcome asserts d v = elim (Bool-cases (ltb 918744 (length v))) [
  | inl big ↦ rw ((encode_vl-eq_throws_iff (length v)).1 (ground arith), add_vl) (ground arith)
  | inr small ↦
      let (code, e) = encode_vl-ok (length v) (ground arith) in
      add_vl-outcome_small asserts d v code (ground arith) e
]

-- With assertions compiled in, addVL returns the old size exactly for values of at most 12480
-- bytes and of 918744 bytes, and throws std::overflow_error for all others.
pub add_vl-asserts_iff :
    (d v : Bytes)
    → let n = length v in
      let r = (add_vl true d v).1 in
      ((r ≡ ok (length d)) ↔ ((n ≤ 12480) ⊎ (n ≡ 918744)))
      × ((r ≡ throws overflow) ↔ ((12480 < n) × (n ≢ 918744)))
unfolding outcome
add_vl-asserts_iff d v = ground (arith, add_vl-outcome true d v)

-- Without them, it returns the old size exactly for values of at most 918744 bytes.
pub add_vl-release_iff :
    (d v : Bytes) → ((add_vl false d v).1 ≡ ok (length d)) ↔ (length v ≤ 918744)
unfolding outcome
add_vl-release_iff d v = ground (arith, add_vl-outcome false d v)

-- A call only appends to the buffer, also when it throws.
pub add_vl-extends :
    (asserts : Bool) (d v : Bytes) → (s : Bytes) × ((add_vl asserts d v).0 ≡ d ++ s)
unfolding add_vl add_raw
add_vl-extends asserts d v = elim (Result-cases (encode_vl (length v))) [
  | inl (code, e) ↦ (code ++ v, add_vl-buffer asserts d v code e)
  | inr (x, e) ↦ ([], rw (e, add_vl) (rw append-nil))
]
