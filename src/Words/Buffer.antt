-- ===== src/Words/Buffer.antt =====
-- shared/rfc1751.cpp: the runs of bits in the nine bytes of btoe and etob. A read outside of the
-- array, as those at its end are, gives `stray`; the asserts hold at every call.
pub mod Numbers
pub mod Parity
use bytev.Prelude.{
  ℕ, zero, suc, ◌+◌, ◌-◌, ◌*◌, ◌/◌, ◌%◌, ◌^◌, bit_or, bit_and, Bool, true, false, List, [], ◌∷◌,
  set, get_or, ltb, if◌then◌else◌,
}
use bytev.Serializer.Buffer.{Bytes}

unfoldable pub extract : ℕ → Bytes → ℕ → ℕ → ℕ
extract stray s start len =
    let cl = get_or s (start / 8) stray in
    let cc = get_or s (start / 8 + 1) stray in
    let cr = get_or s (start / 8 + 2) stray in
    let x = bit_or (bit_or (cl * 2 ^ 8) cc * 2 ^ 8) cr / 2 ^ (24 - (len + start % 8)) in
    bit_and x (65535 / 2 ^ (16 - len))

-- `s[i] |= v`
abbrev pub or_at : Bytes → ℕ → ℕ → Bytes
or_at s i v = set s i (bit_or (get_or s i 0) v)

unfoldable pub insert : Bytes → ℕ → ℕ → ℕ → Bytes
insert s x start len =
    let shift = (8 - (start + len) % 8) % 8 in
    let y = x * 2 ^ shift in
    let cl = y / 2 ^ 16 % 256 in
    let cc = y / 2 ^ 8 % 256 in
    let cr = y % 256 in
    if ltb 16 (shift + len)
    then or_at (or_at (or_at s (start / 8) cl) (start / 8 + 1) cc) (start / 8 + 2) cr
    else if ltb 8 (shift + len)
    then or_at (or_at s (start / 8) cc) (start / 8 + 1) cr
    else or_at s (start / 8) cr

-- The loop that adds the groups of two bits from bit `i` on.
unfoldable pub parity_loop : ℕ → Bytes → ℕ → ℕ → ℕ → ℕ
parity_loop stray s zero i p = p
parity_loop stray s (suc n) i p = parity_loop stray s n (i + 2) (p + extract stray s i 2)

-- Of the bits below 64.
unfoldable pub parity : ℕ → Bytes → ℕ
parity stray s = parity_loop stray s 32 0 0
