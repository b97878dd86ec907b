-- ===== src/Uint.antt =====
-- shared/uint256.h: base_uint, the words `pn` of 32 bits from the first to the last. The bytes from
-- begin() to end() are another list, that of a word's bytes in the machine's order.
pub mod Count
pub mod Order
pub mod Small
pub mod Text
use bytev.Prelude.{
  ℕ, zero, suc, ◌+◌, ◌-◌, ◌/◌, ◌%◌, ◌++◌, replicate, ◌^◌, bit_or, bit_and, bit_xor, Bool, true,
  false, List, [], ◌∷◌, map, ltb, ◌==◌, if◌then◌else◌, ◌&&◌,
}
use bytev.Prelude.Int.{ℤ, pos, negsuc}
use bytev.Serializer.Buffer.{Bytes}

abbrev pub Words : Type 0
Words = List ℕ

unfoldable pub is_zero : Words → Bool
is_zero [] = true
is_zero (w ∷ ws) = if w == 0 then is_zero ws else false

-- The loop of operator++, which begins at the last word. The Boolean says whether it goes on to
-- the word before those of the list.
unfoldable pub count_up : Words → Words × Bool
count_up [] = ([], true)
count_up (w ∷ ws) =
    let (ws', on) = count_up ws in
    let w' = (w + 1) % 2 ^ 32 in ((if on then w' else w) ∷ ws', on && w' == 0)

unfoldable pub increment : Words → Words
increment ws = (count_up ws).0

-- The loop of operator--; a word of 0 becomes 2 ^ 32 - 1.
unfoldable pub count_down : Words → Words × Bool
count_down [] = ([], true)
count_down (w ∷ ws) =
    let (ws', on) = count_down ws in
    let w' = (w + (2 ^ 32 - 1)) % 2 ^ 32 in ((if on then w' else w) ∷ ws', on && w' == 2 ^ 32 - 1)

unfoldable pub decrement : Words → Words
decrement ws = (count_down ws).0

-- compare, on the bytes of two numbers of one width.
unfoldable pub compare : Bytes → Bytes → ℤ
compare [] other = pos 0
compare (a ∷ u) [] = pos 0
compare (a ∷ u) (b ∷ v) =
    let rest = compare u v in
    if a == b then rest else if ltb a b then negsuc 0 else if ltb b a then pos 1 else pos 0

-- operator~
unfoldable pub complement : Words → Words
complement [] = []
complement (w ∷ ws) = (2 ^ 32 - 1 - w) ∷ complement ws

-- operator=(uint64) on `n` bytes: the last eight are those of the number, the first the most.
unfoldable pub assign : ℕ → ℕ → Bytes
assign n b =
    replicate (n - 8) 0
    ++ ((b / 2 ^ 56 % 256)
        ∷ (b / 2 ^ 48 % 256)
        ∷ (b / 2 ^ 40 % 256)
        ∷ (b / 2 ^ 32 % 256)
        ∷ (b / 2 ^ 24 % 256)
        ∷ (b / 2 ^ 16 % 256)
        ∷ (b / 2 ^ 8 % 256)
        ∷ (b % 256)
        ∷ [])
