-- ===== src/Address.antt =====
-- src/NewcoinAddress/NewcoinAddress.cpp, and the class CBase58Data of shared/base58.h below it:
-- addresses, their versions and their texts.
pub mod Seeds
pub mod Texts
use Prim.Native.String.{String}
use text.Mathlib.Text.{◌==◌ as str_eq}
use bytev.Prelude.{
  ℕ, Bool, true, false, Option, none, some, List, [], ◌∷◌, length, replicate, ◌==◌, ◌||◌, not,
  if◌then◌else◌, Result, ok, throws, runtime, assertion,
}
use bytev.Serializer.Buffer.{Bytes}

abbrev pub ver_none : ℕ
ver_none = 1

abbrev pub ver_node_public : ℕ
ver_node_public = 28

abbrev pub ver_node_private : ℕ
ver_node_private = 32

abbrev pub ver_account_id : ℕ
ver_account_id = 0

abbrev pub ver_account_public : ℕ
ver_account_public = 35

abbrev pub ver_account_private : ℕ
ver_account_private = 34

abbrev pub ver_family_generator : ℕ
ver_family_generator = 41

abbrev pub ver_family_seed : ℕ
ver_family_seed = 33

-- nVersion, a byte, and vchData.
pub record Address : Type 0 where
  pub version : ℕ
  pub payload : Bytes

-- The address that clear() leaves.
abbrev pub cleared : Address
cleared = record { version = ver_none; payload = [] }

-- What an address of the version gives, and an address of another version, or of none, throws.
abbrev pub of_version {ℓ} : {A : Type ℓ} → ℕ → A → Address → Result A
of_version version x a = if a.version == version then ok x else throws runtime

-- The conversion of a vector to a uint256, which asserts the size.
abbrev pub private_key : Bytes → Result Bytes
private_key bytes = if length bytes == 32 then ok bytes else throws assertion

-- The conversion of a vector to a smaller number of `n` bytes: zero if the size differs.
abbrev pub sized : ℕ → Bytes → Bytes
sized n bytes = if length bytes == n then bytes else replicate n 0

unfoldable pub get_node_public : Address → Result Bytes
get_node_public a = of_version ver_node_public a.payload a

unfoldable pub get_node_private_data : Address → Result Bytes
get_node_private_data a = of_version ver_node_private a.payload a

unfoldable pub get_node_private : Address → Result Bytes
get_node_private a = if a.version == ver_node_private then private_key a.payload else throws runtime

unfoldable pub get_account_public : Address → Result Bytes
get_account_public a = of_version ver_account_public a.payload a

unfoldable pub get_account_private : Address → Result Bytes
get_account_private a =
    if a.version == ver_account_private then private_key a.payload else throws runtime

unfoldable pub get_generator : Address → Result Bytes
get_generator a = of_version ver_family_generator a.payload a

unfoldable pub get_seed : Address → Result Bytes
get_seed a = of_version ver_family_seed (sized 16 a.payload) a

unfoldable pub set_data : ℕ → Bytes → Address
set_data version bytes = record { version = version; payload = bytes }

-- `hash160` is OpenSSL's.
module _ (hash160 : Bytes → Bytes) where
  unfoldable pub get_node_id : Address → Result Bytes
  get_node_id a = of_version ver_node_public (hash160 a.payload) a

  unfoldable pub get_account_id : Address → Result Bytes
  get_account_id a =
      if a.version == ver_account_id
      then ok (sized 20 a.payload)
      else of_version ver_account_public (hash160 a.payload) a

-- `decode` is DecodeBase58Check, with the empty vector where it fails, and `encode`
-- EncodeBase58Check.
module _ (decode : String → Bytes) (encode : Bytes → String) where
  unfoldable pub set_string : String → ℕ → Address × Bool
  set_string text version = elim (decode text) [
    | [] ↦ (cleared, false)
    | v ∷ bytes ↦
        if v == version then (record { version = v; payload = bytes }, true) else (cleared, false)
  ]

  unfoldable pub to_string : Address → String
  to_string a = encode (a.version ∷ a.payload)

  unfoldable pub human_node_public : Address → Result String
  human_node_public a = of_version ver_node_public (to_string a) a

  unfoldable pub human_node_private : Address → Result String
  human_node_private a = of_version ver_node_private (to_string a) a

  unfoldable pub human_account_id : (Bytes → Bytes) → Address → Result String
  human_account_id hash160 a =
      if a.version == ver_account_id
      then ok (to_string a)
      else of_version ver_account_public
          (to_string (set_data ver_account_id (sized 20 (hash160 a.payload)))) a

  unfoldable pub human_account_public : Address → Result String
  human_account_public a = of_version ver_account_public (to_string a) a

  unfoldable pub human_account_private : Address → Result String
  human_account_private a = of_version ver_account_private (to_string a) a

  unfoldable pub human_generator : Address → Result String
  human_generator a = of_version ver_family_generator (to_string a) a

  unfoldable pub human_seed : Address → Result String
  human_seed a = of_version ver_family_seed (to_string a) a

  unfoldable pub set_node_public : String → Address × Bool
  set_node_public text = set_string text ver_node_public

  unfoldable pub set_node_private : String → Address × Bool
  set_node_private text = set_string text ver_node_private

  unfoldable pub set_account_id : String → Address × Bool
  set_account_id text = set_string text ver_account_id

  unfoldable pub set_account_public : String → Address × Bool
  set_account_public text = set_string text ver_account_public

  unfoldable pub set_account_private : String → Address × Bool
  set_account_private text = set_string text ver_account_private

  unfoldable pub set_generator : String → Address × Bool
  set_generator text = set_string text ver_family_generator

  unfoldable pub set_seed : String → Address × Bool
  set_seed text = set_string text ver_family_seed

  -- The texts that are no seed: the empty one and those of another kind of address.
  abbrev pub is_other : String → Bool
  is_other text =
      str_eq text ""
      || (set_account_id text).1
      || (set_account_public text).1
      || (set_account_private text).1
      || (set_node_public text).1
      || (set_node_private text).1

  -- setSeedGeneric on an address. `seed_of_words` is setSeed1751's, none unless eng2key answers 1,
  -- and `seed_of_phrase` PassPhraseToKey.
  unfoldable pub set_seed_generic :
      (String → Option Bytes) → (String → Bytes) → Address → String → Address × Bool
  set_seed_generic seed_of_words seed_of_phrase a text =
      if is_other text
      then (a, false)
      else if (set_seed text).1
      then ((set_seed text).0, true)
      else elim (seed_of_words text) [
        | some seed ↦ (set_data ver_family_seed seed, true)
        | none ↦ (set_data ver_family_seed (seed_of_phrase text), true)
      ]
