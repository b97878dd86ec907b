-- ===== src/Serializer/Buffer/RoundTrip.antt =====
-- The fixed-width writers of shared/Serializer.cpp and their readers.
use native.Mathlib.Nat.{mod-eq_of_lt}
use bytev.Prelude.{
  ℕ, ◌+◌, ◌*◌, ◌/◌, ◌%◌, ◌^◌, ◌<◌, ◌≡◌, some, [], ◌∷◌, ◌++◌, append_assoc, length, get_or-append,
  length-append, take, drop, drop-append, take-append, arith,
}
use bytev.Prelude.Bits.{bit_or_byte}
use bytev.Serializer.Buffer.{
  Bytes, byte, shift_in, add8, add16, add32, add64, get8, get16, add_raw, add128, add160, add256,
  get32, get64, get_raw, get128, get160, get256,
}

pub shift_in_lem : (w o b : ℕ) → b < 256 → o * 256 < 2 ^ w → shift_in w o b ≡ o * 256 + b
unfolding shift_in
shift_in_lem w o b hb ho = rw (mod-eq_of_lt ho) (bit_or_byte o b hb)

-- A read at or behind the end of a prefix does not look at the prefix.
module _ (d t : Bytes) (o : ℕ) where
  pub get8-append : get8 (d ++ t) (length d + o) ≡ get8 t o
  unfolding get8
  get8-append = ground (arith, length-append d t, get_or-append d t o 0)

  pub get16-append : get16 (d ++ t) (length d + o) ≡ get16 t o
  unfolding get16
  get16-append =
      ground (arith, length-append d t, get_or-append d t o 0, get_or-append d t (o + 1) 0)

  pub get32-append : get32 (d ++ t) (length d + o) ≡ get32 t o
  unfolding get32
  get32-append = ground (
    arith,
    length-append d t,
    get_or-append d t o 0,
    get_or-append d t (o + 1) 0,
    get_or-append d t (o + 2) 0,
    get_or-append d t (o + 3) 0,
  )

  pub get64-append : get64 (d ++ t) (length d + o) ≡ get64 t o
  unfolding get64
  get64-append = ground (
    arith,
    length-append d t,
    get_or-append d t o 0,
    get_or-append d t (o + 1) 0,
    get_or-append d t (o + 2) 0,
    get_or-append d t (o + 3) 0,
    get_or-append d t (o + 4) 0,
    get_or-append d t (o + 5) 0,
    get_or-append d t (o + 6) 0,
    get_or-append d t (o + 7) 0,
  )

get16-bytes :
    (i : ℕ) (t : Bytes) → i < 2 ^ 16 → get16 (byte (i / 2 ^ 8) ∷ byte (i % 256) ∷ t) 0 ≡ some i
unfolding get16
get16-bytes i t h = ground (arith, shift_in_lem 16 (byte (i / 2 ^ 8)) (byte (i % 256)))

-- Three bytes shifted in one after another, and the fourth.
pub shift_in_four :
    (w a b c e : ℕ)
    → a < 256
    → b < 256
    → c < 256
    → e < 256
    → ((a * 256 + b) * 256 + c) * 256 < 2 ^ w
    → shift_in w (shift_in w (shift_in w a b) c) e ≡ ((a * 256 + b) * 256 + c) * 256 + e
shift_in_four w a b c e ha hb hc he h = rw (shift_in_lem w a b hb (omega arith)) (
    rw (shift_in_lem w (a * 256 + b) c hc (omega arith))
      (shift_in_lem w ((a * 256 + b) * 256 + c) e he h))

get32-bytes :
    (i : ℕ) (t : Bytes)
    → i < 2 ^ 32
    → get32
        (byte (i / 2 ^ 24) ∷ byte (i / 2 ^ 16 % 256) ∷ byte (i / 2 ^ 8 % 256) ∷ byte (i % 256) ∷ t)
        0
      ≡ some i
unfolding get32
get32-bytes i t h = ground (
  arith,
  shift_in_four 32 (byte (i / 2 ^ 24)) (byte (i / 2 ^ 16 % 256)) (byte (i / 2 ^ 8 % 256))
      (byte (i % 256)),
)

-- The two halves of a 64-bit value are read one after the other.
shift_in_eight :
    (hi a b c e : ℕ)
    → hi < 2 ^ 32
    → a < 256
    → b < 256
    → c < 256
    → e < 256
    → shift_in 64 (shift_in 64 (shift_in 64 (shift_in 64 hi a) b) c) e
      ≡ hi * 2 ^ 32 + (((a * 256 + b) * 256 + c) * 256 + e)
shift_in_eight hi a b c e hh ha hb hc he = rw (shift_in_lem 64 hi a ha (omega arith)) (
    rw (shift_in_lem 64 (hi * 256 + a) b hb (omega arith)) (
      rw (shift_in_lem 64 ((hi * 256 + a) * 256 + b) c hc (omega arith)) (
        rw (shift_in_lem 64 (((hi * 256 + a) * 256 + b) * 256 + c) e he (omega arith))
          (omega arith))))

get64-bytes : (i : ℕ) (t : Bytes) → i < 2 ^ 64 → get64 ((add64 [] i).1 ++ t) 0 ≡ some i
unfolding get64 add64
get64-bytes i t h = ground (
  arith,
  shift_in_four 64 (byte (i / 2 ^ 56)) (byte (i / 2 ^ 48 % 256)) (byte (i / 2 ^ 40 % 256))
      (byte (i / 2 ^ 32 % 256)),
  shift_in_eight (i / 2 ^ 32) (byte (i / 2 ^ 24 % 256)) (byte (i / 2 ^ 16 % 256))
      (byte (i / 2 ^ 8 % 256)) (byte (i % 256)),
)

-- A cut of `length v` bytes behind a prefix.
pub cut-append : (d v t : Bytes) → take (length v) (drop (length d) (d ++ (v ++ t))) ≡ v
cut-append d v t = rw (drop-append d (v ++ t)) (take-append v t)

pub get_raw-append : (d v t : Bytes) → get_raw (d ++ (v ++ t)) (length d) (length v) ≡ some v
unfolding get_raw
get_raw-append d v t = ground (arith, length-append d (v ++ t), length-append v t, cut-append d v t)

module _ (d t : Bytes) where
  pub get8-add8 : (i : ℕ) → i < 256 → get8 ((add8 d i).1 ++ t) (length d) ≡ some i
  unfolding add8 get8
  get8-add8 i h =
      rw append_assoc
        (ground (arith, length-append d (byte i ∷ t), get_or-append d (byte i ∷ t) 0 0))

  pub get16-add16 : (i : ℕ) → i < 2 ^ 16 → get16 ((add16 d i).1 ++ t) (length d) ≡ some i
  unfolding add16
  get16-add16 i h =
      rw append_assoc (ground (arith, get16-append d ((add16 [] i).1 ++ t) 0, get16-bytes i t h))

  pub get32-add32 : (i : ℕ) → i < 2 ^ 32 → get32 ((add32 d i).1 ++ t) (length d) ≡ some i
  unfolding add32
  get32-add32 i h =
      rw append_assoc (ground (arith, get32-append d ((add32 [] i).1 ++ t) 0, get32-bytes i t h))

  pub get64-add64 : (i : ℕ) → i < 2 ^ 64 → get64 ((add64 d i).1 ++ t) (length d) ≡ some i
  unfolding add64
  get64-add64 i h =
      rw append_assoc (ground (arith, get64-append d ((add64 [] i).1 ++ t) 0, get64-bytes i t h))

  -- The wide values are copied byte for byte.
  pub get_raw-add_raw : (v : Bytes) → get_raw ((add_raw d v).1 ++ t) (length d) (length v) ≡ some v
  unfolding add_raw
  get_raw-add_raw v = rw append_assoc (get_raw-append d v t)

  pub get128-add128 : (v : Bytes) → length v ≡ 16 → get128 ((add128 d v).1 ++ t) (length d) ≡ some v
  unfolding add128 get128
  get128-add128 v h = rw (append_assoc, ← h) (unfold get_raw in get_raw-append d v t)

  pub get160-add160 : (v : Bytes) → length v ≡ 20 → get160 ((add160 d v).1 ++ t) (length d) ≡ some v
  unfolding add160 get160
  get160-add160 v h = rw (append_assoc, ← h) (unfold get_raw in get_raw-append d v t)

  pub get256-add256 : (v : Bytes) → length v ≡ 32 → get256 ((add256 d v).1 ++ t) (length d) ≡ some v
  unfolding add256 get256
  get256-add256 v h = rw (append_assoc, ← h) (unfold get_raw in get_raw-append d v t)

-- An integer that is appended by `add16`, `add32` or `add64` is read back by the reader of its
-- width at the offset that the writer returned, whatever stands before it and is appended later,
-- if it fits the width.
pub get-add :
    (d t : Bytes) (i j k : ℕ)
    → i < 2 ^ 16
    → j < 2 ^ 32
    → k < 2 ^ 64
    → (get16 ((add16 d i).1 ++ t) (add16 d i).0 ≡ some i)
      × (get32 ((add32 d j).1 ++ t) (add32 d j).0 ≡ some j)
      × (get64 ((add64 d k).1 ++ t) (add64 d k).0 ≡ some k)
unfolding add16 add32 add64
get-add d t i j k hi hj hk = (get16-add16 d t i hi, get32-add32 d t j hj, get64-add64 d t k hk)
