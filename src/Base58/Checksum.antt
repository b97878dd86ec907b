-- ===== src/Base58/Checksum.antt =====
-- The base 58 text with four bytes of a hash, EncodeBase58Check and DecodeBase58Check of
-- shared/base58.h, and the texts of addresses over them.

use bytev.Prelude.{
  ℕ, zero, suc, ◌-◌, ◌<◌, ◌≤◌, ◌≡◌, refl, true, false, [], ◌∷◌, ◌++◌, All, All-append, length, take,
  length-append, length-take, take-append, drop-append, ltb, ◌==◌, arith, if◌then◌else◌,
}
use bytev.Base58
use bytev.Base58.RoundTrip.{decode_base58-encode_base58}
use bytev.Address.{Address, cleared, set_string, to_string}
use bytev.Address.Texts.{set_string-to_string}
use bytev.Serializer.Buffer.{Bytes}

abbrev pub IsBytes : Bytes → Type 0
IsBytes bytes = All (λ (b : ℕ). b < 256) bytes

-- The hash gives at least four bytes.
abbrev pub IsHash : (Bytes → Bytes) → Type 0
IsHash sha256 = (bytes : Bytes) → (4 ≤ length (sha256 bytes)) × IsBytes (sha256 bytes)

take-IsBytes : (n : ℕ) (bytes : Bytes) → IsBytes bytes → IsBytes (take n bytes)
take-IsBytes zero bytes h = tt
take-IsBytes (suc n) [] h = tt
take-IsBytes (suc n) (b ∷ bytes) h = (h.0, take-IsBytes n bytes h.1)

same_bytes_refl : (bytes : Bytes) → Base58.same_bytes bytes bytes ≡ true
same_bytes_refl [] = refl
same_bytes_refl (b ∷ bytes) = ground (arith, same_bytes_refl bytes)

module _ (sha256 : Bytes → Bytes) where
  checked_lem :
      (bytes sum : Bytes)
      → length sum ≡ 4
      → take 4 (sha256 bytes) ≡ sum
      → Base58.checked sha256 (bytes ++ sum) ≡ bytes
  unfolding Base58.checked
  checked_lem bytes sum four e =
      let n : length (bytes ++ sum) - 4 ≡ length bytes = omega (arith, length-append bytes sum) in
      let long : ltb (length (bytes ++ sum)) 4 ≡ false = ground (arith, length-append bytes sum) in
      rw (Base58.checked, long)
        (rw (n, take-append bytes sum) (rw (drop-append bytes sum, e, same_bytes_refl sum) refl))

  module _ (hash : IsHash sha256) where
    -- Decoding with the hash gives the bytes of the encoding with it back, if the hash gives bytes, at
    -- least four.
    pub decode_check-encode_check :
        (bytes : Bytes)
        → IsBytes bytes
        → Base58.decode_check sha256 (Base58.encode_check sha256 bytes) ≡ bytes
    unfolding Base58.decode_check Base58.encode_check
    decode_check-encode_check bytes h =
        let sum = take 4 (sha256 bytes) in
        let four : length sum ≡ 4 = omega (arith, length-take 4 (sha256 bytes), (hash bytes).0) in
        let low =
          All-append (λ (b : ℕ). b < 256) bytes sum h
            (take-IsBytes 4 (sha256 bytes) (hash bytes).1) in
        rw (Base58.decode_check, decode_base58-encode_base58 (bytes ++ sum) low)
          (checked_lem bytes sum four refl)

    -- The text of an address is read back as that address where its own version is asked for, and
    -- refused where any other is, if its version and payload are bytes and the hash gives bytes, at
    -- least four.
    pub set_string-to_string_check :
        (a : Address) (version : ℕ)
        → IsBytes (a.version ∷ a.payload)
        → set_string
            (Base58.decode_check sha256)
            (Base58.encode_check sha256)
            (to_string (Base58.decode_check sha256) (Base58.encode_check sha256) a)
            version
          ≡ (if a.version == version then (a, true) else (cleared, false))
    set_string-to_string_check a version h =
        set_string-to_string (Base58.decode_check sha256) (Base58.encode_check sha256) a version
          (decode_check-encode_check (a.version ∷ a.payload) h)
