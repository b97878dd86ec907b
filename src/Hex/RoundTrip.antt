-- ===== src/Hex/RoundTrip.antt =====
-- Bytes written in hexadecimal by shared/utils.h and read by shared/utils.cpp.
use bytev.Prelude.{
  ℕ, ◌+◌, ◌*◌, ◌/◌, ◌%◌, ◌^◌, ◌<◌, ◌≤◌, ◌≡◌, ◌⊎◌, refl, bit_or, [], ◌∷◌, All, length, arith, ap,
  ap₂, ◌∙◌,
}
use bytev.Prelude.Bits.{bit_or_nibble}
use bytev.Serializer.Buffer.{Bytes, byte}
use bytev.Hex.{char_hex, char_un_hex, str_hex, str_un_hex}

char_un_hex-char_hex : (d : ℕ) → d < 16 → char_un_hex (char_hex d) ≡ d
unfolding char_hex char_un_hex
char_un_hex-char_hex d h = ground arith

-- The byte that two digits below 16 make.
pair_lem : (h l : ℕ) → h < 16 → l < 16 → byte (bit_or (h * 2 ^ 4 % 2 ^ 32) l) ≡ h * 16 + l
pair_lem h l hh hl =
    let small : h * 2 ^ 4 % 2 ^ 32 ≡ h * 16 = omega (arith, hh) in
    rw (small, bit_or_nibble h l hl) (omega (arith, hh, hl))

-- What strHex writes for any bytes, strUnHex reads back as those bytes.
pub str_un_hex-str_hex : (v : Bytes) → All (λ b. b < 256) v → str_un_hex (str_hex v) ≡ v
unfolding str_un_hex str_hex
str_un_hex-str_hex [] h = refl
str_un_hex-str_hex (b ∷ l) h =
    ap₂ (◌∷◌)
      (rw
        (
          char_un_hex-char_hex (b / 2 ^ 4) (omega (arith, h.0)),
          char_un_hex-char_hex (b % 16) (omega arith),
        )
        (pair_lem (b / 2 ^ 4) (b % 16) (omega (arith, h.0)) (omega arith) ∙ omega arith))
      (str_un_hex-str_hex l h.1)

-- A character of the kind that strHex writes: 0 to 9 or A to F.
abbrev pub IsDigit : ℕ → Type 0
IsDigit c = ((48 ≤ c) × (c ≤ 57)) ⊎ ((65 ≤ c) × (c ≤ 70))

char_hex-char_un_hex : (c : ℕ) → IsDigit c → (char_un_hex c < 16) × (char_hex (char_un_hex c) ≡ c)
unfolding char_hex char_un_hex
char_hex-char_un_hex c h = ground arith

-- A text of an even number of such characters is the one that strHex writes for the bytes that
-- strUnHex reads from it.
pub str_hex-str_un_hex : (t : Bytes) → All IsDigit t → length t % 2 ≡ 0 → str_hex (str_un_hex t) ≡ t
unfolding str_un_hex str_hex
str_hex-str_un_hex [] h even = refl
str_hex-str_un_hex (c ∷ []) h even = absurd (omega (arith, even))
str_hex-str_un_hex (c ∷ c' ∷ l) h even =
    let (small, one) = char_hex-char_un_hex c h.0 in
    let (small', two) = char_hex-char_un_hex c' h.1.0 in
    let x = char_un_hex c in
    let y = char_un_hex c' in
    let pair = pair_lem x y small small' in
    let high : byte (bit_or (x * 2 ^ 4 % 2 ^ 32) y) / 2 ^ 4 ≡ x = omega (arith, pair, small') in
    let low : byte (bit_or (x * 2 ^ 4 % 2 ^ 32) y) % 16 ≡ y = omega (arith, pair, small') in
    ap₂ (◌∷◌) (ap char_hex high ∙ one)
      (ap₂ (◌∷◌) (ap char_hex low ∙ two) (str_hex-str_un_hex l h.1.1 (omega (arith, even))))
