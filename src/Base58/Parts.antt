-- ===== src/Base58/Parts.antt =====
-- The letters and the sign byte of shared/base58.h: what its two directions read is what they wrote.
use Prim.Native.Char.{code}
use bytev.Prelude.{
  ℕ, zero, suc, ◌<◌, ◌≡◌, refl, ap, ◌∙◌, Bool, true, false, not, Option, none, some, [], ◌∷◌,
  length, ◌==◌, ◌&&◌, ◌||◌, arith,
}
use bytev.Base58
use bytev.Base58.Digits.{value, IsReduced, value-nil, value-cons, digits-value}
use bytev.Serializer.Buffer.{Bytes}

pub chars-string : (cs : Base58.Text) → Base58.chars (Base58.string cs) ≡ cs
chars-string [] = refl
chars-string (c ∷ cs) = ap (◌∷◌ c) (chars-string cs)

with_sign-cons : (b : ℕ) (bytes : Bytes) → 0 < length (Base58.with_sign (b ∷ bytes))
unfolding Base58.with_sign
with_sign-cons b [] = ground arith
with_sign-cons b (c ∷ bytes) = ground arith

trim_sign-cons :
    (b c : ℕ) (bytes : Bytes)
    → 0 < length bytes
    → Base58.trim_sign (b ∷ c ∷ bytes) ≡ b ∷ Base58.trim_sign (c ∷ bytes)
unfolding Base58.trim_sign
trim_sign-cons b c [] h = absurd (omega arith)
trim_sign-cons b c (d ∷ bytes) h = refl

trim_sign-last : (b c : ℕ) → 0 < c → Base58.trim_sign (b ∷ c ∷ []) ≡ b ∷ c ∷ []
unfolding Base58.trim_sign
trim_sign-last b c h = ground arith

trim_sign-with_sign :
    (bytes : Bytes) → IsReduced 256 bytes → Base58.trim_sign (Base58.with_sign bytes) ≡ bytes
unfolding Base58.trim_sign Base58.with_sign
trim_sign-with_sign [] r = refl
trim_sign-with_sign (b ∷ []) r = ground arith
trim_sign-with_sign (b ∷ c ∷ []) r =
    ground (arith, value-cons 256 c [], value-nil 256, trim_sign-last b c)
trim_sign-with_sign (b ∷ c ∷ d ∷ bytes) r =
    trim_sign-cons b c (Base58.with_sign (d ∷ bytes)) (with_sign-cons d bytes)
    ∙ ap (◌∷◌ b) (trim_sign-with_sign (c ∷ d ∷ bytes) r.2)

pub trim_sign-get_vch :
    (bytes : Bytes)
    → IsReduced 256 bytes
    → Base58.trim_sign (Base58.get_vch (value 256 bytes)) ≡ bytes
unfolding Base58.get_vch
trim_sign-get_vch bytes r =
    ap (λ ds. Base58.trim_sign (Base58.with_sign ds))
      (digits-value 256 (omega arith) (value 256 bytes) bytes r (omega arith))
    ∙ trim_sign-with_sign bytes r

-- A test that holds at every number below a bound.
unfoldable all_below : (ℕ → Bool) → ℕ → Bool
all_below p zero = true
all_below p (suc n) = p n && all_below p n

all_below_lem : (p : ℕ → Bool) (n c : ℕ) → all_below p n ≡ true → c < n → p c ≡ true
unfolding all_below
all_below_lem p zero c h k = absurd (omega arith)
all_below_lem p (suc n) c h k = grind (arith, all_below_lem p n c)

abbrev finds : ℕ → Bool
finds c = elim (Base58.offset (Base58.letter c)) [ none ↦ false | some i ↦ i == c ]

abbrev pub ends : ℕ → Bool
ends c = code (Base58.letter c) == 0

abbrev is_first : ℕ → Bool
is_first c = (0 == c) || not (code (Base58.letter c) == code "i")

found_some :
    (o : Option ℕ) (c : ℕ) → (elim o [ none ↦ false | some i ↦ i == c ]) ≡ true → o ≡ some c
found_some none c h = ground arith
found_some (some i) c h = ground arith

pub offset-letter : (c : ℕ) → c < 58 → Base58.offset (Base58.letter c) ≡ some c
unfolding all_below
offset-letter c h = found_some (Base58.offset (Base58.letter c)) c (all_below_lem finds 58 c refl h)

pub letter_ends : (c : ℕ) → c < 58 → ends c ≡ false
unfolding all_below
letter_ends c h = let e = all_below_lem (λ d. not (ends d)) 58 c refl h in ground arith

pub letter-is_space : (c : ℕ) → c < 58 → Base58.is_space (Base58.letter c) ≡ false
unfolding all_below
letter-is_space c h =
    let e = all_below_lem (λ d. not (Base58.is_space (Base58.letter d))) 58 c refl h in ground arith

pub letter_first : (c : ℕ) → 0 < c → c < 58 → (code (Base58.letter c) == code "i") ≡ false
unfolding all_below
letter_first c k h = let e = all_below_lem is_first 58 c refl h in ground arith
