-- ===== src/Address/Seeds/RoundTrip.antt =====
-- A seed is read back from its words.
use Prim.Native.String.{String}
use mathlib.Core.List.{reverse, reverse-reverse}
use bytev.Prelude.{
  ℕ, ◌<◌, ◌≡◌, refl, ap, ◌∙◌, Bool, true, false, none, some, List, [], length, if◌then◌else◌, ◌>>=◌,
  ok, arith, All-reverse, length-reverse,
}
use bytev.Prelude.Int.{pos}
use bytev.Serializer.Buffer.{Bytes}
use bytev.Address.{Address, sized, set_data, ver_family_seed}
use bytev.Address.Seeds.{human_seed_1751, set_seed_1751, seed_of_words, set_from, seed_from}
use bytev.Words.Dictionary.{codes}
use bytev.Words.Keys.{eng2key, key2eng}
use bytev.Words.Keys.Halves.{IsBytes, has_last}
use bytev.Words.Keys.RoundTrip.{IsSplit, key_numbers, eng2key-key2eng}

sized_same : (n : ℕ) (bytes : Bytes) → length bytes ≡ n → sized n bytes ≡ bytes
sized_same n bytes h = ground (arith, h)

reversed_key : (seed : Bytes) → length seed ≡ 16 → sized 16 (reverse (reverse seed)) ≡ seed
reversed_key seed l = ap (sized 16) (reverse-reverse seed) ∙ sized_same 16 seed l

set_from_cases :
    (a : Address) (seed : Bytes) (last : Bool)
    → length seed ≡ 16
    → set_from a (if last then (pos 0, []) else (pos 1, reverse seed))
      ≡ (if last then (pos 0, a) else (pos 1, set_data ver_family_seed seed))
set_from_cases a seed true l = refl
set_from_cases a seed false l =
    ap (λ (bs : Bytes). (pos 1, set_data ver_family_seed bs)) (reversed_key seed l)

seed_from_cases :
    (seed : Bytes) (last : Bool)
    → length seed ≡ 16
    → seed_from (if last then (pos 0, []) else (pos 1, reverse seed))
      ≡ (if last then none else some seed)
seed_from_cases seed true l = refl
seed_from_cases seed false l = ap some (reversed_key seed l)

-- The seed whose words have the numbers of the key.
module _ (split : Bytes → List Bytes) (splits : IsSplit split) (stray : ℕ)
    (small : stray < 256) where
  eng2key-seed :
      (seed : Bytes)
      → length seed ≡ 16
      → IsBytes seed
      → eng2key split stray [] (key2eng stray (reverse seed)) ≡ (
          if has_last (key_numbers stray (reverse seed))
          then (pos 0, [])
          else (pos 1, reverse seed))
  eng2key-seed seed l low =
      eng2key-key2eng split splits stray small [] (reverse seed) (length-reverse seed ∙ l)
        (All-reverse (λ (b : ℕ). b < 256) seed low)

  -- A seed of sixteen bytes is read back from its words, with the result 1, and it is refused with 0,
  -- the address at hand staying as it was, exactly where a word is the last of the 571 short ones.
  pub set_seed_1751-human_seed_1751 :
      (a : Address) (seed : Bytes)
      → length seed ≡ 16
      → IsBytes seed
      → (human_seed_1751 stray (set_data ver_family_seed seed)
          >>= (λ text. ok (set_seed_1751 split stray a text)))
        ≡ ok (
            if has_last (key_numbers stray (reverse seed))
            then (pos 0, a)
            else (pos 1, set_data ver_family_seed seed))
  unfolding set_seed_1751 human_seed_1751 set_data
  set_seed_1751-human_seed_1751 a seed l low =
      ap (λ bs. ok (set_from a (eng2key split stray [] (key2eng stray (reverse bs)))))
        (sized_same 16 seed l)
      ∙ ap ok (
          ap (set_from a) (eng2key-seed seed l low)
          ∙ set_from_cases a seed (has_last (key_numbers stray (reverse seed))) l)

  pub seed_of_words-key2eng :
      (seed : Bytes) (text : String)
      → length seed ≡ 16
      → IsBytes seed
      → codes text ≡ key2eng stray (reverse seed)
      → seed_of_words split stray text
        ≡ (if has_last (key_numbers stray (reverse seed)) then none else some seed)
  unfolding seed_of_words
  seed_of_words-key2eng seed text l low e =
      ap (λ t. seed_from (eng2key split stray [] t)) e
      ∙ ap seed_from (eng2key-seed seed l low)
      ∙ seed_from_cases seed (has_last (key_numbers stray (reverse seed))) l
