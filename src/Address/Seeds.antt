-- ===== src/Address/Seeds.antt =====
-- The seeds of src/NewcoinAddress/NewcoinAddress.cpp as words: humanSeed1751 and setSeed1751 over
-- shared/rfc1751.cpp. A text of words is the list of its letters' codes.
pub mod RoundTrip
pub mod Generic
use Prim.Native.String.{String}
use mathlib.Core.List.{reverse}
use bytev.Prelude.{
  ℕ, Bool, true, false, Option, none, some, List, [], ◌∷◌, ◌==◌, if◌then◌else◌, Result, ok, throws,
  runtime,
}
use bytev.Prelude.Int.{ℤ, pos, negsuc}
use bytev.Serializer.Buffer.{Bytes}
use bytev.Address.{Address, sized, of_version, get_seed, set_data, ver_family_seed}
use bytev.Words.Dictionary.{codes}
use bytev.Words.Keys.{eng2key, key2eng, is_one}

-- The seed's bytes are turned round into the key.
unfoldable pub human_seed_1751 : ℕ → Address → Result Bytes
human_seed_1751 stray a =
    of_version ver_family_seed (key2eng stray (reverse (sized 16 a.payload))) a

-- What the two callers do with the result of eng2key and its key.
abbrev pub set_from : Address → ℤ × Bytes → ℤ × Address
set_from a (rc, key) =
    if is_one rc then (rc, set_data ver_family_seed (sized 16 (reverse key))) else (rc, a)

abbrev pub seed_from : ℤ × Bytes → Option Bytes
seed_from (rc, key) = if is_one rc then some (sized 16 (reverse key)) else none

module _ (split : Bytes → List Bytes) (stray : ℕ) where
  unfoldable pub set_seed_1751 : Address → Bytes → ℤ × Address
  set_seed_1751 a text = set_from a (eng2key split stray [] text)

  -- The test `1 == setSeed1751(strText)` of setSeedGeneric, with the seed that it leaves.
  unfoldable pub seed_of_words : String → Option Bytes
  seed_of_words text = seed_from (eng2key split stray [] (codes text))
