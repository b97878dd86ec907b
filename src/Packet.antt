-- ===== src/Packet.antt =====
-- shared/PackedMessage.cpp and shared/PackedMessage.h: a message behind a header of its length and
-- type. The protocol buffer's bytes are an argument: ByteSize() is their number, and
-- SerializeToArray writes them. A type is a C++ int that is not negative; the words that the
-- readers shift bytes into are read as unsigned.
pub mod Header
use bytev.Prelude.{
  ℕ, ◌+◌, ◌/◌, ◌%◌, ◌^◌, List, [], ◌∷◌, ◌++◌, length, get_or, set, take, drop, replicate, ltb, ◌==◌,
  if◌then◌else◌, Result, ok, throws, assertion,
}
use bytev.Serializer.Buffer.{Bytes, byte, shift_in}

abbrev pub header_size : ℕ
header_size = 6

unfoldable pub encode_header : Bytes → ℕ → ℕ → Result Bytes
encode_header buf size type =
    if ltb (length buf) header_size
    then throws assertion
    else (let b0 = set buf 0 (byte (size / 2 ^ 24 % 256)) in
        let b1 = set b0 1 (byte (size / 2 ^ 16 % 256)) in
        let b2 = set b1 2 (byte (size / 2 ^ 8 % 256)) in
        let b3 = set b2 3 (byte (size % 256)) in
        let b4 = set b3 4 (byte (type / 2 ^ 8 % 256)) in ok (set b4 5 (byte (type % 256))))

-- SerializeToArray at an offset of the buffer.
unfoldable pub write_at : Bytes → ℕ → Bytes → Bytes
write_at buf o v = take o buf ++ (v ++ drop (o + length v) buf)

-- PackedMessage(message, type), with the assertion that the message is not empty. HEADER_SIZE +
-- msg_size is a sum of unsigned ints, which wraps.
unfoldable pub pack : Bytes → ℕ → Result Bytes
pack message type =
    let size = length message % 2 ^ 32 in
    if size == 0
    then throws assertion
    else elim (encode_header (replicate ((header_size + size) % 2 ^ 32) 0) size type) [
      | throws e ↦ throws e
      | ok buf ↦ ok (write_at buf header_size message)
    ]

unfoldable pub get_length : Bytes → ℕ
get_length buf =
    if ltb (length buf) header_size
    then 0
    else shift_in 32 (shift_in 32 (shift_in 32 (get_or buf 0 0) (get_or buf 1 0)) (get_or buf 2 0))
        (get_or buf 3 0)

unfoldable pub get_type : Bytes → ℕ
get_type buf =
    if ltb (length buf) header_size then 0 else shift_in 32 (get_or buf 4 0) (get_or buf 5 0)
