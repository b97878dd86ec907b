-- ===== src/Words/Buffer/Parity.antt =====
-- The parity of shared/rfc1751.cpp is that of the first eight bytes, and the two bits behind them
-- hold it.
use native.Mathlib.Nat.{div-div-eq-div-mul, pow-suc}
use bytev.Prelude.{
  ℕ, zero, suc, ◌+◌, ◌-◌, ◌*◌, ◌/◌, ◌%◌, ◌^◌, ◌<◌, ◌≤◌, ◌≡◌, refl, ap, ap₂, ◌∙◌, sym, bit_or, [],
  ◌∷◌, ◌++◌, All, All-append, get_or-append, get_or, length, arith,
}
use bytev.Prelude.Masks.{bit_and_two}
use bytev.Serializer.Buffer.{Bytes}
use bytev.Words.Buffer.{extract, parity, parity_loop}
use bytev.Words.Buffer.Numbers.{window, joined}

abbrev IsBytes : Bytes → Type 0
IsBytes s = All (λ (b : ℕ). b < 256) s

get_or-IsByte : (s : Bytes) (i d : ℕ) → IsBytes s → d < 256 → get_or s i d < 256
get_or-IsByte [] i d h k = k
get_or-IsByte (b ∷ s) zero d h k = h.0
get_or-IsByte (b ∷ s) (suc i) d h k = get_or-IsByte s i d h.1 k

-- The bits that lie in the first of the three bytes.
first_bits : (m cl cc cr : ℕ) → cc < 256 → cr < 256 → window cl cc cr / (65536 * m) ≡ cl / m
first_bits m cl cc cr h k =
    sym (div-div-eq-div-mul (window cl cc cr) 65536 m) ∙ ap (λ n. n / m) (omega arith)

pow_sixteen : (m : ℕ) → 2 ^ (m + 16) ≡ 65536 * 2 ^ m
pow_sixteen zero = refl
pow_sixteen (suc m) =
    let e : suc m + 16 ≡ suc (m + 16) = omega arith in
    ap (λ n. 2 ^ n) e ∙ omega (arith, pow-suc 2 (m + 16), pow-suc 2 m, pow_sixteen m)

power : (r : ℕ) → r ≤ 6 → 2 ^ (24 - (2 + r)) ≡ 65536 * 2 ^ (6 - r)
power r h = ap (λ n. 2 ^ n) (omega arith) ∙ pow_sixteen (6 - r)

-- Two bits that lie in one byte are read from it alone.
extract_two :
    (stray : ℕ) (s : Bytes) (i : ℕ)
    → IsBytes s
    → stray < 256
    → i % 8 ≤ 6
    → extract stray s i 2 ≡ get_or s (i / 8) stray / 2 ^ (6 - i % 8) % 4
unfolding extract
extract_two stray s i h k l =
    let cl = get_or s (i / 8) stray in
    let cc = get_or s (i / 8 + 1) stray in
    let cr = get_or s (i / 8 + 2) stray in
    let high = get_or-IsByte s (i / 8 + 1) stray h k in
    let last = get_or-IsByte s (i / 8 + 2) stray h k in
    bit_and_two (bit_or (bit_or (cl * 256) cc * 256) cr / 2 ^ (24 - (2 + i % 8)))
    ∙ ap (λ n. n % 4) (ap₂ (λ m n. m / n) (joined cl cc cr high last) (power (i % 8) l))
    ∙ ap (λ n. n % 4) (first_bits (2 ^ (6 - i % 8)) cl cc cr high last)

-- The bits of the first eight bytes.
parity_loop_same :
    (stray : ℕ) (s t : Bytes) (n i p : ℕ)
    → IsBytes s
    → IsBytes t
    → stray < 256
    → i % 2 ≡ 0
    → i + 2 * n ≤ 64
    → ((j : ℕ) → j < 8 → get_or s j stray ≡ get_or t j stray)
    → parity_loop stray s n i p ≡ parity_loop stray t n i p
unfolding parity_loop
parity_loop_same stray s t zero i p h h' k even l same = refl
parity_loop_same stray s t (suc n) i p h h' k even l same =
    let inside : i % 8 ≤ 6 = omega arith in
    let e : extract stray s i 2 ≡ extract stray t i 2 =
      extract_two stray s i h k inside
      ∙ ap (λ b. b / 2 ^ (6 - i % 8) % 4) (same (i / 8) (omega arith))
      ∙ sym (extract_two stray t i h' k inside) in
    ap (λ x. parity_loop stray s n (i + 2) (p + x)) e
    ∙ parity_loop_same stray s t n (i + 2) (p + extract stray t i 2) h h' k (omega arith)
        (omega arith) same

get_or-eight :
    (bytes : Bytes) (x y j d : ℕ)
    → j < length bytes
    → get_or (bytes ++ (x ∷ [])) j d ≡ get_or (bytes ++ (y ∷ [])) j d
get_or-eight [] x y j d h = absurd (omega arith)
get_or-eight (b ∷ bytes) x y zero d h = refl
get_or-eight (b ∷ bytes) x y (suc j) d h = get_or-eight bytes x y j d (omega arith)

pub parity_same :
    (stray : ℕ) (bytes : Bytes) (x y : ℕ)
    → length bytes ≡ 8
    → IsBytes bytes
    → x < 256
    → y < 256
    → stray < 256
    → parity stray (bytes ++ (x ∷ [])) ≡ parity stray (bytes ++ (y ∷ []))
unfolding parity
parity_same stray bytes x y e h k l m =
    parity_loop_same stray (bytes ++ (x ∷ [])) (bytes ++ (y ∷ [])) 32 0 0
      (All-append (λ (b : ℕ). b < 256) bytes (x ∷ []) h (k, tt))
      (All-append (λ (b : ℕ). b < 256) bytes (y ∷ []) h (l, tt)) m (omega arith) (omega arith)
      (λ j i. get_or-eight bytes x y j stray (omega (arith, e)))

-- The two bits behind the eight bytes.
pub extract_last :
    (stray : ℕ) (bytes : Bytes) (x : ℕ)
    → length bytes ≡ 8
    → IsBytes bytes
    → x < 256
    → stray < 256
    → extract stray (bytes ++ (x ∷ [])) 64 2 ≡ x / 64 % 4
extract_last stray bytes x e h k l =
    extract_two stray (bytes ++ (x ∷ [])) 64
      (All-append (λ (b : ℕ). b < 256) bytes (x ∷ []) h (k, tt)) l (omega arith)
    ∙ ap (λ b. b / 64 % 4)
        (ap (λ n. get_or (bytes ++ (x ∷ [])) n stray) (omega (arith, e))
          ∙ get_or-append bytes (x ∷ []) 0 stray)
