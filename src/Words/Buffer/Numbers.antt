-- ===== src/Words/Buffer/Numbers.antt =====
-- The six numbers of eleven bits in the nine bytes of shared/rfc1751.cpp, and the bytes that they
-- are put back into.
use bytev.Prelude.{
  ℕ, ◌+◌, ◌*◌, ◌/◌, ◌%◌, ◌^◌, ◌<◌, ◌≡◌, refl, ap, ap₂, ◌∙◌, bit_or, bit_and, List, [], ◌∷◌, All,
  replicate, arith,
}
use bytev.Prelude.Bits.{bit_or_byte, zero-bit_or}
use bytev.Prelude.Masks.{bit_and_eleven, bit_or_apart}
use bytev.Serializer.Buffer.{Bytes}
use bytev.Words.Buffer.{extract, insert}

-- The number that three bytes stand for.
abbrev pub window : ℕ → ℕ → ℕ → ℕ
window cl cc cr = cl * 65536 + cc * 256 + cr

pub joined :
    (cl cc cr : ℕ)
    → cc < 256
    → cr < 256
    → bit_or (bit_or (cl * 2 ^ 8) cc * 2 ^ 8) cr ≡ window cl cc cr
joined cl cc cr h k = omega (arith, bit_or_byte (bit_or (cl * 256) cc) cr k, bit_or_byte cl cc h)

eleven :
    (m cl cc cr : ℕ)
    → cc < 256
    → cr < 256
    → bit_and (bit_or (bit_or (cl * 2 ^ 8) cc * 2 ^ 8) cr / m) 2047 ≡ window cl cc cr / m % 2048
eleven m cl cc cr h k =
    ap (λ x. bit_and (x / m) 2047) (joined cl cc cr h k) ∙ bit_and_eleven (window cl cc cr / m)

-- The six numbers of nine bytes, as arithmetic.
unfoldable pub numbers : Bytes → List ℕ
numbers (a ∷ b ∷ c ∷ d ∷ e ∷ f ∷ g ∷ h ∷ i ∷ rest) =
    (window a b c / 8192 % 2048)
    ∷ (window b c d / 1024 % 2048)
    ∷ (window c d e / 128 % 2048)
    ∷ (window e f g / 4096 % 2048)
    ∷ (window f g h / 512 % 2048)
    ∷ (window g h i / 64 % 2048)
    ∷ []
numbers bytes = []

abbrev pub six_numbers : ℕ → Bytes → List ℕ
six_numbers stray s =
    extract stray s 0 11
    ∷ extract stray s 11 11
    ∷ extract stray s 22 11
    ∷ extract stray s 33 11
    ∷ extract stray s 44 11
    ∷ extract stray s 55 11
    ∷ []

-- The bytes after the six numbers are inserted into zeros.
abbrev pub insert_all : Bytes → ℕ → List ℕ → Bytes
insert_all s p [] = s
insert_all s p (v ∷ vs) = insert_all (insert s v p 11) (p + 11) vs

module _ (a b c d e f g h i : ℕ)
    (low : All (λ (x : ℕ). x < 256) (a ∷ b ∷ c ∷ d ∷ e ∷ f ∷ g ∷ h ∷ i ∷ [])) where
  pub six_numbers_lem :
      (stray : ℕ)
      → six_numbers stray (a ∷ b ∷ c ∷ d ∷ e ∷ f ∷ g ∷ h ∷ i ∷ [])
        ≡ numbers (a ∷ b ∷ c ∷ d ∷ e ∷ f ∷ g ∷ h ∷ i ∷ [])
  unfolding extract numbers
  six_numbers_lem stray =
      rw
        (
          eleven 8192 a b c (omega (arith, low)) (omega (arith, low)),
          eleven 1024 b c d (omega (arith, low)) (omega (arith, low)),
          eleven 128 c d e (omega (arith, low)) (omega (arith, low)),
          eleven 4096 e f g (omega (arith, low)) (omega (arith, low)),
          eleven 512 f g h (omega (arith, low)) (omega (arith, low)),
          eleven 64 g h i (omega (arith, low)) (omega (arith, low)),
        )
        refl

both : (k hi lo : ℕ) → hi % 2 ^ k ≡ 0 → lo < 2 ^ k → bit_or (bit_or 0 hi) lo ≡ hi + lo
both k hi lo h l = ap (λ n. bit_or n lo) (zero-bit_or hi) ∙ bit_or_apart k hi lo h l

nine :
    {a b c d e f g h i a' b' c' d' e' f' g' h' i' : ℕ}
    → a ≡ a'
    → b ≡ b'
    → c ≡ c'
    → d ≡ d'
    → e ≡ e'
    → f ≡ f'
    → g ≡ g'
    → h ≡ h'
    → i ≡ i'
    → a ∷ b ∷ c ∷ d ∷ e ∷ f ∷ g ∷ h ∷ i ∷ [] ≡ a' ∷ b' ∷ c' ∷ d' ∷ e' ∷ f' ∷ g' ∷ h' ∷ i' ∷ []
nine a b c d e f g h i = ap₂ ◌∷◌ a (
    ap₂ ◌∷◌ b (
      ap₂ ◌∷◌ c
        (ap₂ ◌∷◌ d (ap₂ ◌∷◌ e (ap₂ ◌∷◌ f (ap₂ ◌∷◌ g (ap₂ ◌∷◌ h (ap (λ (n : ℕ). n ∷ []) i))))))))

-- The nine bytes that six numbers of eleven bits fill, but for the last six bits.
abbrev pub packed : (u v w x y z : ℕ) → Bytes
packed u v w x y z =
    (u / 8)
    ∷ (u % 8 * 32 + v / 64)
    ∷ (v % 64 * 4 + w / 512)
    ∷ (w / 2 % 256)
    ∷ (w % 2 * 128 + x / 16)
    ∷ (x % 16 * 16 + y / 128)
    ∷ (y % 128 * 2 + z / 1024)
    ∷ (z / 4 % 256)
    ∷ (z % 4 * 64)
    ∷ []

pub insert_all_lem :
    (u v w x y z : ℕ)
    → u < 2048
    → v < 2048
    → w < 2048
    → x < 2048
    → y < 2048
    → z < 2048
    → insert_all (replicate 9 0) 0 (u ∷ v ∷ w ∷ x ∷ y ∷ z ∷ []) ≡ packed u v w x y z
unfolding insert
insert_all_lem u v w x y z lu lv lw lx ly lz =
    nine (zero-bit_or (u * 32 / 256 % 256) ∙ omega arith)
      (both 5 (u * 32 % 256) (v * 4 / 256 % 256) (omega arith) (omega arith) ∙ omega arith)
      (both 2 (v * 4 % 256) (w * 128 / 65536 % 256) (omega arith) (omega arith) ∙ omega arith)
      (zero-bit_or (w * 128 / 256 % 256) ∙ omega arith)
      (both 7 (w * 128 % 256) (x * 16 / 256 % 256) (omega arith) (omega arith) ∙ omega arith)
      (both 4 (x * 16 % 256) (y * 2 / 256 % 256) (omega arith) (omega arith) ∙ omega arith)
      (both 1 (y * 2 % 256) (z * 64 / 65536 % 256) (omega arith) (omega arith) ∙ omega arith)
      (zero-bit_or (z * 64 / 256 % 256) ∙ omega arith) (zero-bit_or (z * 64 % 256) ∙ omega arith)

module _ (a b c d e f g h q : ℕ)
    (low : All (λ (x : ℕ). x < 256) (a ∷ b ∷ c ∷ d ∷ e ∷ f ∷ g ∷ h ∷ [])) (short : q < 4) where
  -- Nine bytes that end in six zero bits are filled again by their six numbers.
  pub packed_lem :
      packed
        (window a b c / 8192 % 2048)
        (window b c d / 1024 % 2048)
        (window c d e / 128 % 2048)
        (window e f g / 4096 % 2048)
        (window f g h / 512 % 2048)
        (window g h (q * 64) / 64 % 2048)
      ≡ a ∷ b ∷ c ∷ d ∷ e ∷ f ∷ g ∷ h ∷ (q * 64) ∷ []
  packed_lem =
      nine (omega (arith, low)) (omega (arith, low)) (omega (arith, low)) (omega (arith, low))
        (omega (arith, low)) (omega (arith, low)) (omega (arith, low)) (omega (arith, low))
        (omega (arith, low))
