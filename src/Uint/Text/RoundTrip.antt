-- ===== src/Uint/Text/RoundTrip.antt =====
-- SetHex of shared/uint256.h reads what GetHex writes.
use bytev.Prelude.{
  ℕ, ◌+◌, ◌-◌, ◌*◌, ◌/◌, ◌%◌, ◌^◌, ◌<◌, ◌≤◌, ◌≡◌, refl, sym, ap, ap₂, ◌∙◌, bit_or, false, some,
  List, [], ◌∷◌, ◌++◌, All, length, replicate, ltb, ◌==◌, ◌&&◌, ◌||◌, Bool-cases, arith, inl, inr,
  length-append,
}
use bytev.Prelude.Bits.{bit_or_nibble}
use bytev.Serializer.Buffer.{Bytes}
use bytev.Hex.{char_hex, str_hex}
use bytev.Uint.Text.{
  hex_digit, is_space, skip_spaces, skip_prefix, hex_digits, pairs, set_digits, set_hex, get_hex,
}

char_hex_bounds : (d : ℕ) → d < 16 → (48 ≤ char_hex d) × (char_hex d ≤ 70)
unfolding char_hex
char_hex_bounds d h = ground arith

hex_digit-char_hex : (d : ℕ) → d < 16 → hex_digit (char_hex d) ≡ some d
unfolding char_hex
hex_digit-char_hex d h = elim (Bool-cases (ltb d 10)) [
  | inl e ↦ let c : char_hex d ≡ 48 + d = ground arith in ap hex_digit c ∙ ground arith
  | inr e ↦ let c : char_hex d ≡ 55 + d = ground arith in ap hex_digit c ∙ ground arith
]

-- The nibbles of bytes, the high one first.
abbrev nibbles : Bytes → List ℕ
nibbles [] = []
nibbles (b ∷ bytes) = (b / 16) ∷ (b % 16) ∷ nibbles bytes

hex_digits-cons :
    (c v : ℕ) (text : Bytes) → hex_digit c ≡ some v → hex_digits (c ∷ text) ≡ v ∷ hex_digits text
unfolding hex_digits
hex_digits-cons c v text e = rw (hex_digits, e) refl

hex_digits-str_hex :
    (bytes : Bytes) → All (λ (b : ℕ). b < 256) bytes → hex_digits (str_hex bytes) ≡ nibbles bytes
unfolding hex_digits str_hex
hex_digits-str_hex [] h = refl
hex_digits-str_hex (b ∷ bytes) h =
    hex_digits-cons (char_hex (b / 16)) (b / 16) (char_hex (b % 16) ∷ str_hex bytes)
      (hex_digit-char_hex (b / 16) (omega (arith, h.0)))
    ∙ ap (◌∷◌ (b / 16)) (
        hex_digits-cons (char_hex (b % 16)) (b % 16) (str_hex bytes)
          (hex_digit-char_hex (b % 16) (omega arith))
        ∙ ap (◌∷◌ (b % 16)) (hex_digits-str_hex bytes h.1))

pair_lem : (h l : ℕ) → h < 16 → l < 16 → bit_or (h * 2 ^ 4 % 2 ^ 8) l ≡ h * 16 + l
pair_lem h l hh hl =
    let small : h * 2 ^ 4 % 2 ^ 8 ≡ h * 16 = omega arith in rw small (bit_or_nibble h l hl)

pairs-nibbles : (bytes : Bytes) → All (λ (b : ℕ). b < 256) bytes → pairs (nibbles bytes) ≡ bytes
unfolding pairs
pairs-nibbles [] h = refl
pairs-nibbles (b ∷ bytes) h =
    ap₂ ◌∷◌ (pair_lem (b / 16) (b % 16) (omega (arith, h.0)) (omega arith) ∙ omega arith)
      (pairs-nibbles bytes h.1)

length-nibbles : (bytes : Bytes) → length (nibbles bytes) ≡ 2 * length bytes
length-nibbles [] = refl
length-nibbles (b ∷ bytes) = omega (arith, length-nibbles bytes)

skipped :
    (bytes : Bytes)
    → All (λ (b : ℕ). b < 256) bytes
    → skip_prefix (skip_spaces (str_hex bytes)) ≡ str_hex bytes
unfolding str_hex
skipped [] h = refl
skipped (b ∷ bytes) h =
    let (low, high) = char_hex_bounds (b / 16) (omega (arith, h.0)) in
    let (low', high') = char_hex_bounds (b % 16) (omega arith) in
    let space : is_space (char_hex (b / 16)) ≡ false = ground arith in
    let prefix : ((char_hex (b / 16) == 48)
          && ((char_hex (b % 16) == 120) || (char_hex (b % 16) == 88)))
        ≡ false =
      ground arith in
    rw space (rw prefix refl)

set_digits-nibbles :
    (bytes : Bytes)
    → All (λ (b : ℕ). b < 256) bytes
    → set_digits (length bytes) (nibbles bytes) ≡ bytes
unfolding set_digits
set_digits-nibbles bytes h =
    let n = length bytes in
    let fits : ltb (2 * n) (length (nibbles bytes)) ≡ false =
      ground (arith, length-nibbles bytes) in
    let full : n - (length (nibbles bytes) + 1) / 2 ≡ 0 = omega (arith, length-nibbles bytes) in
    rw (set_digits, fits) (rw full (pairs-nibbles bytes h))

-- SetHex reads back what GetHex writes, for a number of any width, as a list of bytes below 256.
pub set_hex-get_hex :
    (bytes : Bytes)
    → All (λ (b : ℕ). b < 256) bytes
    → set_hex (length bytes) (get_hex bytes) ≡ bytes
unfolding set_hex get_hex
set_hex-get_hex bytes h =
    ap (λ t. set_digits (length bytes) (hex_digits t)) (skipped bytes h)
    ∙ ap (set_digits (length bytes)) (hex_digits-str_hex bytes h)
    ∙ set_digits-nibbles bytes h

pairs-odd : (digits : List ℕ) → length digits % 2 ≡ 1 → pairs (digits ++ (0 ∷ [])) ≡ pairs digits
unfolding pairs
pairs-odd [] h = absurd (omega (arith, h))
pairs-odd (d ∷ []) h = refl
pairs-odd (d ∷ e ∷ digits) h =
    ap (◌∷◌ (bit_or (d * 2 ^ 4 % 2 ^ 8) e)) (pairs-odd digits (omega (arith, h)))

-- An odd number of digits, of fewer than the width takes, is read as if the digit 0 stood behind
-- them.
pub set_digits-odd :
    (n : ℕ) (digits : List ℕ)
    → length digits % 2 ≡ 1
    → length digits < 2 * n
    → set_digits n digits ≡ set_digits n (digits ++ (0 ∷ []))
unfolding set_digits
set_digits-odd n digits h l =
    let more = length-append digits (0 ∷ []) in
    let fits : ltb (2 * n) (length digits) ≡ false = ground arith in
    let fits' : ltb (2 * n) (length (digits ++ (0 ∷ []))) ≡ false = ground (arith, more) in
    let same : n - (length digits + 1) / 2 ≡ n - (length (digits ++ (0 ∷ [])) + 1) / 2 =
      omega (arith, more, h) in
    rw (set_digits, fits, fits') (ap₂ (λ k bs. replicate k 0 ++ bs) same (sym (pairs-odd digits h)))
