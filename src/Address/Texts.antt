-- ===== src/Address/Texts.antt =====
-- The texts of the addresses of src/NewcoinAddress/NewcoinAddress.cpp.
use Prim.Native.String.{String}
use bytev.Prelude.{ℕ, ◌≡◌, refl, true, false, Option, ◌∷◌, ◌==◌, not, arith, if◌then◌else◌}
use bytev.Serializer.Buffer.{Bytes}
use bytev.Address.{Address, cleared, set_string, to_string, is_other, set_seed_generic}

module _ (decode : String → Bytes) (encode : Bytes → String) where
  -- The text of an address is read back as that address where its own version is asked for, and
  -- refused where any other is; the base 58 code is taken to read what it writes.
  pub set_string-to_string :
      (a : Address) (version : ℕ)
      → decode (encode (a.version ∷ a.payload)) ≡ a.version ∷ a.payload
      → set_string decode encode (to_string decode encode a) version
        ≡ (if a.version == version then (a, true) else (cleared, false))
  unfolding set_string to_string
  set_string-to_string a version h = rw (to_string, set_string, h) refl

  -- setSeedGeneric fails exactly for the empty text and the texts of another kind of address.
  pub set_seed_generic-not_other :
      (seed_of_words : String → Option Bytes) (seed_of_phrase : String → Bytes) (a : Address)
      (text : String)
      → (set_seed_generic decode encode seed_of_words seed_of_phrase a text).1
        ≡ not (is_other decode encode text)
  unfolding set_seed_generic
  set_seed_generic-not_other seed_of_words seed_of_phrase a text = ground arith
