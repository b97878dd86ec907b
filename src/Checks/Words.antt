-- ===== src/Checks/Words.antt =====
-- shared/uint256.h on numbers of a few words and bytes.
use bytev.Prelude.{◌-◌, ◌^◌, ◌<◌, ◌≡◌, ◌↔◌, refl, [], ◌∷◌, arith}
use bytev.Prelude.Int.{pos, negsuc}
use bytev.Serializer.Buffer.{Bytes}
use bytev.Uint.{Words, increment, count_up, compare}
use bytev.Uint.Text.{set_hex, get_hex, set_digits}
use bytev.Uint.Text.RoundTrip.{set_hex-get_hex, set_digits-odd}
use bytev.Uint.Order.{number, compare_iff}

abbrev two : Words
two = 3 ∷ (2 ^ 32 - 1) ∷ []

carries : increment two ≡ 4 ∷ 0 ∷ []
unfolding increment count_up
carries = refl

abbrev low : Bytes
low = 1 ∷ 255 ∷ []

abbrev high : Bytes
high = 2 ∷ 0 ∷ []

compare_iff_example :
    ((compare low high ≡ negsuc 0) ↔ (number low < number high))
    × ((compare low high ≡ pos 0) ↔ (number low ≡ number high))
    × ((compare low high ≡ pos 1) ↔ (number high < number low))
compare_iff_example =
    compare_iff low high refl (omega arith, (omega arith, tt)) (omega arith, (omega arith, tt))

set_hex-get_hex_example : set_hex 2 (get_hex low) ≡ low
set_hex-get_hex_example = set_hex-get_hex low (omega arith, (omega arith, tt))

set_digits-odd_example : set_digits 2 (10 ∷ []) ≡ set_digits 2 (10 ∷ 0 ∷ [])
set_digits-odd_example = set_digits-odd 2 (10 ∷ []) refl (omega arith)
