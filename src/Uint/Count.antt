-- ===== src/Uint/Count.antt =====
-- Counting in shared/uint256.h: operator++ and operator--.
use bytev.Prelude.{
  ℕ, zero, suc, ◌+◌, ◌-◌, ◌*◌, ◌%◌, ◌^◌, ◌<◌, ◌≤◌, ◌≡◌, ◌↔◌, refl, ap, subst, Bool, true, false, [],
  ◌∷◌, length, All, arith, if◌then◌else◌, Bool-cases, inl, inr, ◌==◌, ltb, ◌&&◌,
}
use bytev.Uint.{Words, is_zero, count_up, increment, count_down, decrement}

abbrev pub IsWord : ℕ → Type 0
IsWord w = w < 2 ^ 32

-- The number of the values of so many words, and the number that words stand for.
abbrev pub range : ℕ → ℕ
range zero = 1
range (suc n) = 2 ^ 32 * range n

abbrev pub value : Words → ℕ
value [] = 0
value (w ∷ ws) = w * range (length ws) + value ws

pub next_multiple : (w r : ℕ) → (w + 1) * r ≡ w * r + r
next_multiple w r = grind arith

length-count_up : (ws : Words) → length (count_up ws).0 ≡ length ws
unfolding count_up
length-count_up [] = refl
length-count_up (w ∷ ws) = omega (arith, length-count_up ws)

abbrev carry : Bool → ℕ → ℕ
carry b n = if b then n else 0

-- One word of the loop, with the number `v` of the words behind it and `v'` after counting them.
up_step :
    (w r v v' : ℕ) (on : Bool)
    → w < 2 ^ 32
    → v' + carry on r ≡ v + 1
    → let w' = (w + 1) % 2 ^ 32 in
      (if on then w' else w) * r + v' + carry (on && w' == 0) (2 ^ 32 * r) ≡ w * r + v + 1
up_step w r v v' false h e = omega (arith, e)
up_step w r v v' true h e = elim (Bool-cases (ltb (w + 1) (2 ^ 32))) [
  | inl small ↦
      let same : (w + 1) % 2 ^ 32 ≡ suc w = ground arith in
      rw same (grind (arith, e, next_multiple w r))
  | inr large ↦
      let wraps : (w + 1) % 2 ^ 32 ≡ 0 = ground arith in
      let top : w ≡ 2 ^ 32 - 1 = ground arith in rw (wraps, top) (omega (arith, e))
]

value-count_up :
    (ws : Words)
    → All IsWord ws
    → let (ws', on) = count_up ws in value ws' + carry on (range (length ws)) ≡ value ws + 1
unfolding count_up
value-count_up [] h = refl
value-count_up (w ∷ ws) h =
    let ih = value-count_up ws h.1 in
    let (ws', on) = count_up ws in
    let (ws', on) = count_up ws in
    rw (ap range (length-count_up ws))
      (up_step w (range (length ws)) (value ws) (value ws') on h.0 ih)

down_step :
    (w r v v' : ℕ) (on : Bool)
    → w < 2 ^ 32
    → v' + 1 ≡ v + carry on r
    → let w' = (w + (2 ^ 32 - 1)) % 2 ^ 32 in
      (if on then w' else w) * r + v' + 1 ≡ w * r + v + carry (on && w' == 2 ^ 32 - 1) (2 ^ 32 * r)
down_step w r v v' false h e = omega (arith, e)
down_step zero r v v' true h e = omega (arith, e)
down_step (suc w) r v v' true h e =
    let same : (suc w + (2 ^ 32 - 1)) % 2 ^ 32 ≡ w = omega (arith, h) in
    rw same (grind (arith, e, next_multiple w r))

length-count_down : (ws : Words) → length (count_down ws).0 ≡ length ws
unfolding count_down
length-count_down [] = refl
length-count_down (w ∷ ws) = omega (arith, length-count_down ws)

value-count_down :
    (ws : Words)
    → All IsWord ws
    → let (ws', on) = count_down ws in value ws' + 1 ≡ value ws + carry on (range (length ws))
unfolding count_down
value-count_down [] h = refl
value-count_down (w ∷ ws) h =
    let ih = value-count_down ws h.1 in
    let (ws', on) = count_down ws in
    rw (ap range (length-count_down ws))
      (down_step w (range (length ws)) (value ws) (value ws') on h.0 ih)

pub multiple-le : (r a b : ℕ) → a ≤ b → a * r ≤ b * r
multiple-le r a b h = grind arith

value-lt : (ws : Words) → All IsWord ws → value ws < range (length ws)
value-lt [] h = omega arith
value-lt (w ∷ ws) h = omega (
  arith,
  value-lt ws h.1,
  next_multiple w (range (length ws)),
  multiple-le (range (length ws)) (suc w) (2 ^ 32) h.0,
)

count_up-IsWord : (ws : Words) → All IsWord ws → All IsWord (count_up ws).0
unfolding count_up
count_up-IsWord [] h = tt
count_up-IsWord (w ∷ ws) h = (ground (arith, h.0), count_up-IsWord ws h.1)

count_down-IsWord : (ws : Words) → All IsWord ws → All IsWord (count_down ws).0
unfolding count_down
count_down-IsWord [] h = tt
count_down-IsWord (w ∷ ws) h = (ground (arith, h.0), count_down-IsWord ws h.1)

counted_up :
    (v v' n : ℕ) (on : Bool)
    → v' < n
    → v < n
    → v' + carry on n ≡ v + 1
    → v' ≡ (if suc v == n then 0 else suc v)
counted_up v v' n true h h' e = ground arith
counted_up v v' n false h h' e = ground arith

counted_down :
    (v v' n : ℕ) (on : Bool)
    → v' < n
    → v' + 1 ≡ v + carry on n
    → v' ≡ (if v == 0 then n - 1 else v - 1)
counted_down v v' n true h e = ground arith
counted_down v v' n false h e = ground arith

-- operator++ counts the number that the words stand for, the last word the least, up by one,
-- from the last of their range round to 0.
pub value-increment :
    (ws : Words)
    → All IsWord ws
    → value (increment ws) ≡ (if suc (value ws) == range (length ws) then 0 else suc (value ws))
unfolding increment
value-increment ws h =
    let up = count_up ws in
    counted_up (value ws) (value up.0) (range (length ws)) up.1
      (subst (λ m. value up.0 < range m) (length-count_up ws)
        (value-lt up.0 (count_up-IsWord ws h)))
      (value-lt ws h) (value-count_up ws h)

-- operator-- counts it down by one, from 0 round to the last of their range.
pub value-decrement :
    (ws : Words)
    → All IsWord ws
    → value (decrement ws) ≡ (if value ws == 0 then range (length ws) - 1 else value ws - 1)
unfolding decrement
value-decrement ws h =
    let down = count_down ws in
    counted_down (value ws) (value down.0) (range (length ws)) down.1
      (subst (λ m. value down.0 < range m) (length-count_down ws)
        (value-lt down.0 (count_down-IsWord ws h)))
      (value-count_down ws h)

range-pos : (n : ℕ) → 0 < range n
range-pos zero = omega arith
range-pos (suc n) = omega (arith, range-pos n)

-- isZero tells whether the words stand for 0.
pub is_zero_iff : (ws : Words) → (is_zero ws ≡ true) ↔ (value ws ≡ 0)
unfolding is_zero
is_zero_iff [] = (λ e. refl, λ e. refl)
is_zero_iff (w ∷ ws) =
    grind (arith, is_zero_iff ws, next_multiple (w - 1) (range (length ws)), range-pos (length ws))
