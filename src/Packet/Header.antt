-- ===== src/Packet/Header.antt =====
-- The header of shared/PackedMessage.cpp: the constructor, getLength and getType.
use bytev.Prelude.{
  ℕ, zero, suc, ◌+◌, ◌/◌, ◌%◌, ◌^◌, ◌<◌, ◌≤◌, ◌≡◌, ◌⊎◌, inl, inr, refl, true, false, [], ◌∷◌, ◌++◌,
  length, replicate, take, drop, ok, throws, assertion, ltb, lt→ltb, ◌==◌, arith, append-nil,
  length-replicate,
}
use bytev.Serializer.Buffer.{Bytes, byte}
use bytev.Serializer.Buffer.RoundTrip.{shift_in_lem, shift_in_four}
use bytev.Packet.{header_size, encode_header, write_at, pack, get_length, get_type}

-- The header of a message.
unfoldable pub header : ℕ → ℕ → Bytes
header size type =
    byte (size / 2 ^ 24)
    ∷ byte (size / 2 ^ 16)
    ∷ byte (size / 2 ^ 8)
    ∷ byte size
    ∷ byte (type / 2 ^ 8)
    ∷ byte type
    ∷ []

encode_header_lem :
    (size type n : ℕ)
    → encode_header (replicate (header_size + n) 0) size type
      ≡ ok (header size type ++ replicate n 0)
unfolding encode_header header
encode_header_lem size type n =
    let e : header_size + n ≡ suc (suc (suc (suc (suc (suc n))))) = omega arith in
    rw (e, encode_header) (ground arith)

drop-replicate : (n : ℕ) → drop n (replicate {A = ℕ} n 0) ≡ []
drop-replicate zero = refl
drop-replicate (suc n) = drop-replicate n

pub write_at-header :
    (size type : ℕ) (m : Bytes)
    → write_at (header size type ++ replicate (length m) 0) header_size m ≡ header size type ++ m
unfolding write_at header
write_at-header size type m =
    let e : header_size + length m ≡ suc (suc (suc (suc (suc (suc (length m)))))) = omega arith in
    rw e (rw (drop-replicate (length m), append-nil))

-- A message whose frame has fewer than 2 ^ 32 bytes is packed into its header and its bytes.
pub pack_lem :
    (message : Bytes) (type : ℕ)
    → 0 < length message
    → header_size + length message < 2 ^ 32
    → pack message type ≡ ok (header (length message) type ++ message)
unfolding pack
pack_lem message type h h' = ground (
  arith,
  encode_header_lem (length message) type (length message),
  write_at-header (length message) type message,
)

-- The size of the buffer wraps to less than a header.
pack-wrapped :
    (message : Bytes) (type : ℕ)
    → length message < 2 ^ 32
    → 2 ^ 32 ≤ header_size + length message
    → pack message type ≡ throws assertion
unfolding pack encode_header
pack-wrapped message type h h' =
    let e : length message % 2 ^ 32 ≡ length message = omega arith in
    let short : ltb ((header_size + length message) % 2 ^ 32) header_size ≡ true =
      lt→ltb ((header_size + length message) % 2 ^ 32) header_size (omega arith) in
    let full : (length message == 0) ≡ false = ground arith in
    rw (e, full, length-replicate {A = ℕ} ((header_size + length message) % 2 ^ 32) 0, short) refl

size_cases :
    (n : ℕ) → (n ≡ 0) ⊎ (((0 < n) × (header_size + n < 2 ^ 32)) ⊎ (2 ^ 32 ≤ header_size + n))
size_cases n = omega arith

pub get_length-header :
    (size type : ℕ) (t : Bytes) → size < 2 ^ 32 → get_length (header size type ++ t) ≡ size
unfolding get_length header
get_length-header size type t h = ground (
  arith,
  shift_in_four 32 (byte (size / 2 ^ 24)) (byte (size / 2 ^ 16)) (byte (size / 2 ^ 8)) (byte size),
)

pub get_type-header :
    (size type : ℕ) (t : Bytes) → type < 2 ^ 16 → get_type (header size type ++ t) ≡ type
unfolding get_type header
get_type-header size type t h = ground (arith, shift_in_lem 32 (byte (type / 2 ^ 8)) (byte type))

-- A message of fewer than 2 ^ 32 bytes with a type below 2 ^ 16: with 1 to 2 ^ 32 - 7 bytes packing
-- succeeds, and getLength and getType give the message's size and type, on the whole buffer and on
-- its first six bytes alone, behind which the message stands; with none, or with at least
-- 2 ^ 32 - 6, where the size of the buffer wraps, an assertion fails.
pub get-pack :
    (message : Bytes) (type : ℕ)
    → length message < 2 ^ 32
    → type < 2 ^ 16
    → ((0 < length message)
        × (header_size + length message < 2 ^ 32)
        × ((buf : Bytes) × (pack message type ≡ ok buf)
            × (get_length buf ≡ length message)
            × (get_type buf ≡ type)
            × (get_length (take header_size buf) ≡ length message)
            × (drop header_size buf ≡ message)))
      ⊎ (((length message ≡ 0) ⊎ (2 ^ 32 ≤ header_size + length message))
          × (pack message type ≡ throws assertion))
unfolding header pack
get-pack message type h ht = elim (size_cases (length message)) [
  | inl e ↦ inr (inl e, rw e refl)
  | inr (inr wraps) ↦ inr (inr wraps, pack-wrapped message type h wraps)
  | inr (inl (some_byte, fits)) ↦ inl (
    some_byte,
    fits,
    (
      header (length message) type ++ message,
      pack_lem message type some_byte fits,
      get_length-header (length message) type message h,
      get_type-header (length message) type message ht,
      get_length-header (length message) type [] h,
      refl,
    ),
  )
]
