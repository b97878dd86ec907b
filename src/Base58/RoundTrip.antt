-- ===== src/Base58/RoundTrip.antt =====
-- The loops of shared/base58.h: decoding an encoded byte array gives it back.
use Prim.Native.Char.{Char, code}
use mathlib.Core.List.{reverse, reverse-cons, reverse-append, reverse-reverse, map-append}
use bytev.Prelude.{
  ℕ, zero, suc, ◌+◌, ◌*◌, ◌<◌, ◌≡◌, refl, sym, ap, ap₂, ◌∙◌, false, some, List, [], ◌∷◌, ◌++◌, All,
  All-append, All-reverse, All-replicate, reverse-replicate, map-reverse, map-replicate, subst,
  replicate, map, ◌==◌, arith,
}
use bytev.Base58
use bytev.Base58.Digits.{
  value, digits, IsReduced, value-nil, value-cons, value-append, value-digits, digits-IsReduced,
}
use bytev.Base58.Parts.{
  chars-string, trim_sign-get_vch, offset-letter, letter_ends, letter-is_space, letter_first,
}
use bytev.Serializer.Buffer.{Bytes}

-- The number of digits that are read with the highest one first.
unfoldable horner : ℕ → ℕ → List ℕ → ℕ
horner b n [] = n
horner b n (d ∷ ds) = horner b (n * b + d) ds

horner-append : (b n : ℕ) (ds es : List ℕ) → horner b n (ds ++ es) ≡ horner b (horner b n ds) es
unfolding horner
horner-append b n [] es = refl
horner-append b n (d ∷ ds) es = horner-append b (n * b + d) ds es

horner-reverse : (b : ℕ) (ds : List ℕ) → horner b 0 (reverse ds) ≡ value b ds
unfolding horner
horner-reverse b [] = sym (value-nil b)
horner-reverse b (d ∷ ds) =
    ap (horner b 0) (reverse-cons d ds)
    ∙ horner-append b 0 (reverse ds) (d ∷ [])
    ∙ omega (arith, ap (λ (t : ℕ). t * b) (horner-reverse b ds), value-cons b d ds)

value-reverse : (b : ℕ) (ds : List ℕ) → value b (reverse ds) ≡ horner b 0 ds
value-reverse b ds = sym (horner-reverse b (reverse ds)) ∙ ap (horner b 0) (reverse-reverse ds)

horner-zeros : (b z : ℕ) (ds : List ℕ) → horner b 0 (replicate z 0 ++ ds) ≡ horner b 0 ds
unfolding horner
horner-zeros b zero ds = refl
horner-zeros b (suc z) ds =
    ap (λ n. horner b n (replicate z 0 ++ ds)) (omega arith) ∙ horner-zeros b z ds

pub decode_loop_letter :
    (n i : ℕ) (c : Char) (cs : Base58.Text)
    → (code c == 0) ≡ false
    → Base58.offset c ≡ some i
    → Base58.decode_loop n (c ∷ cs) ≡ Base58.decode_loop (n * 58 + i) cs
unfolding Base58.decode_loop
decode_loop_letter n i c cs h k = rw (Base58.decode_loop, h) (rw (Base58.decode_loop, k) refl)

decode_loop-letters :
    (n : ℕ) (ds : List ℕ)
    → All (λ (d : ℕ). d < 58) ds
    → Base58.decode_loop n (map Base58.letter ds) ≡ some (horner 58 n ds)
unfolding horner Base58.decode_loop
decode_loop-letters n [] h = refl
decode_loop-letters n (d ∷ ds) h =
    decode_loop_letter n d (Base58.letter d) (map Base58.letter ds) (letter_ends d h.0)
      (offset-letter d h.0)
    ∙ decode_loop-letters (n * 58 + d) ds h.1

skip_spaces-letters :
    (ds : List ℕ)
    → All (λ (d : ℕ). d < 58) ds
    → Base58.skip_spaces (map Base58.letter ds) ≡ map Base58.letter ds
skip_spaces-letters [] h = refl
skip_spaces-letters (d ∷ ds) h = rw (letter-is_space d h.0) refl

leading_letters-zeros :
    (z : ℕ) (ds : List ℕ)
    → Base58.leading_letters (map Base58.letter ds) ≡ 0
    → Base58.leading_letters (map Base58.letter (replicate z 0 ++ ds)) ≡ z
leading_letters-zeros zero ds h = h
leading_letters-zeros (suc z) ds h = ap suc (leading_letters-zeros z ds h)

-- The bytes behind the leading zeros.
abbrev stripped : Bytes → Bytes
stripped [] = []
stripped (zero ∷ bytes) = stripped bytes
stripped (suc b ∷ bytes) = suc b ∷ bytes

zeros-stripped :
    (bytes : Bytes) → replicate (Base58.leading_zeros bytes) 0 ++ stripped bytes ≡ bytes
zeros-stripped [] = refl
zeros-stripped (zero ∷ bytes) = ap (◌∷◌ 0) (zeros-stripped bytes)
zeros-stripped (suc b ∷ bytes) =
    let z : Base58.leading_zeros (suc b ∷ bytes) ≡ 0 = ground arith in
    ap (λ (n : ℕ). replicate n 0 ++ (suc b ∷ bytes)) z

reverse-IsReduced :
    (b : ℕ)
    → 0 < b
    → (xs : List ℕ) (d : ℕ) → All (λ (x : ℕ). x < b) xs
    → 0 < d
    → d < b
    → IsReduced b (xs ++ (d ∷ []))
reverse-IsReduced b p [] d h k l = (l, omega (arith, value-cons b d []), tt)
reverse-IsReduced b p (x ∷ xs) d h k l =
    (h.0, value-append b (x ∷ xs) d k p, reverse-IsReduced b p xs d h.1 k l)

last-IsReduced : (b : ℕ) (xs : List ℕ) (d : ℕ) → IsReduced b (xs ++ (d ∷ [])) → (0 < d) × (d < b)
last-IsReduced b [] d r =
    (omega (arith, r.1, value-cons b d [], ap (λ (t : ℕ). b * t) (value-nil b)), r.0)
last-IsReduced b (x ∷ xs) d r = last-IsReduced b xs d r.2

stripped-IsReduced :
    (bytes : Bytes) → All (λ (b : ℕ). b < 256) bytes → IsReduced 256 (reverse (stripped bytes))
stripped-IsReduced [] h = tt
stripped-IsReduced (zero ∷ bytes) h = stripped-IsReduced bytes h.1
stripped-IsReduced (suc b ∷ bytes) h = subst (IsReduced 256) (sym (reverse-cons (suc b) bytes)) (
    reverse-IsReduced 256 (omega arith) (reverse bytes) (suc b)
      (All-reverse (λ (b : ℕ). b < 256) bytes h.1) (omega arith) h.0)

value-zero_end : (b : ℕ) (ds : List ℕ) → value b (ds ++ (0 ∷ [])) ≡ value b ds
unfolding value
value-zero_end b [] = omega arith
value-zero_end b (d ∷ ds) = ap (λ (t : ℕ). d + b * t) (value-zero_end b ds)

-- Leading zeros do not change the number that is encoded.
value-stripped :
    (bytes : Bytes) → value 256 (reverse bytes ++ (0 ∷ [])) ≡ value 256 (reverse (stripped bytes))
value-stripped bytes =
    let z = Base58.leading_zeros bytes in
    value-zero_end 256 (reverse bytes)
    ∙ value-reverse 256 bytes
    ∙ ap (horner 256 0) (sym (zeros-stripped bytes))
    ∙ horner-zeros 256 z (stripped bytes)
    ∙ sym (value-reverse 256 (stripped bytes))

reversed-All : (b : ℕ) (ds : List ℕ) → IsReduced b ds → All (λ (d : ℕ). d < b) ds
reversed-All b [] r = tt
reversed-All b (d ∷ ds) r = (r.0, reversed-All b ds r.2)

-- The highest digit is not 0, so the letters of a number do not begin with the letter of 0.
leading_letters-digits :
    (ds : List ℕ) → IsReduced 58 (reverse ds) → Base58.leading_letters (map Base58.letter ds) ≡ 0
leading_letters-digits [] r = refl
leading_letters-digits (d ∷ ds) r =
    let bounds = last-IsReduced 58 (reverse ds) d (subst (IsReduced 58) (reverse-cons d ds) r) in
    let first = letter_first d bounds.0 bounds.1 in ground arith

low_digits :
    (z : ℕ) (ds : List ℕ) → IsReduced 58 ds → All (λ (d : ℕ). d < 58) (replicate z 0 ++ reverse ds)
low_digits z ds r =
    let low = λ (d : ℕ). d < 58 in
    All-append low (replicate z 0) (reverse ds) (All-replicate low z 0 (omega arith))
      (All-reverse low ds (reversed-All 58 ds r))

decode_text-letters :
    (z : ℕ) (ds bytes : List ℕ)
    → IsReduced 58 ds
    → IsReduced 256 bytes
    → value 58 ds ≡ value 256 bytes
    → Base58.decode_text (map Base58.letter (replicate z 0 ++ reverse ds))
      ≡ some (replicate z 0 ++ reverse bytes)
unfolding Base58.decode_text
decode_text-letters z ds bytes r s e =
    let es = replicate z 0 ++ reverse ds in
    let number : Base58.decode_loop 0 (map Base58.letter es) ≡ some (value 256 bytes) =
      decode_loop-letters 0 es (low_digits z ds r)
      ∙ ap some (horner-zeros 58 z (reverse ds) ∙ horner-reverse 58 ds ∙ e) in
    let zeros : Base58.leading_letters (map Base58.letter es) ≡ z =
      leading_letters-zeros z (reverse ds)
        (leading_letters-digits (reverse ds) (subst (IsReduced 58) (sym (reverse-reverse ds)) r)) in
    rw (Base58.decode_text, number) (rw (zeros, trim_sign-get_vch bytes s) refl)

-- The digits of an encoding, the lowest first.
abbrev digits_of : Bytes → List ℕ
digits_of bytes = let n = value 256 (reverse bytes ++ (0 ∷ [])) in digits 58 n n

abbrev text_of : Bytes → Base58.Text
text_of bytes =
    map Base58.letter (replicate (Base58.leading_zeros bytes) 0 ++ reverse (digits_of bytes))

chars-encode_base58 : (bytes : Bytes) → Base58.chars (Base58.encode_base58 bytes) ≡ text_of bytes
unfolding Base58.encode_base58
chars-encode_base58 bytes =
    let z = Base58.leading_zeros bytes in
    let ds = digits_of bytes in
    chars-string (reverse (map Base58.letter ds ++ replicate z (Base58.letter 0)))
    ∙ reverse-append (map Base58.letter ds) (replicate z (Base58.letter 0))
    ∙ ap₂ ◌++◌ (reverse-replicate z (Base58.letter 0) ∙ map-replicate Base58.letter z 0)
        (map-reverse Base58.letter ds)
    ∙ sym (map-append Base58.letter (replicate z 0) (reverse ds))

digits_of-IsReduced : (bytes : Bytes) → IsReduced 58 (digits_of bytes)
digits_of-IsReduced bytes =
    let n = value 256 (reverse bytes ++ (0 ∷ [])) in
    digits-IsReduced 58 (omega arith) n n (omega arith)

skip_spaces-text_of : (bytes : Bytes) → Base58.skip_spaces (text_of bytes) ≡ text_of bytes
skip_spaces-text_of bytes =
    let z = Base58.leading_zeros bytes in
    skip_spaces-letters (replicate z 0 ++ reverse (digits_of bytes))
      (low_digits z (digits_of bytes) (digits_of-IsReduced bytes))

-- Decoding what was encoded gives the bytes back, for bytes below 256.
pub decode_base58-encode_base58 :
    (bytes : Bytes)
    → All (λ (b : ℕ). b < 256) bytes
    → Base58.decode_base58 (Base58.encode_base58 bytes) ≡ some bytes
unfolding Base58.decode_base58
decode_base58-encode_base58 bytes h =
    let z = Base58.leading_zeros bytes in
    let ds = digits_of bytes in
    let n = value 256 (reverse bytes ++ (0 ∷ [])) in
    let body = stripped bytes in
    ap (λ cs. Base58.decode_text (Base58.skip_spaces cs)) (chars-encode_base58 bytes)
    ∙ ap Base58.decode_text (skip_spaces-text_of bytes)
    ∙ decode_text-letters z ds (reverse body) (digits_of-IsReduced bytes)
        (stripped-IsReduced bytes h)
        (value-digits 58 (omega arith) n n (omega arith) ∙ value-stripped bytes)
    ∙ ap (λ (bs : Bytes). some (replicate z 0 ++ bs)) (reverse-reverse body)
    ∙ ap some (zeros-stripped bytes)
