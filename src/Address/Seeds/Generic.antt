-- ===== src/Address/Seeds/Generic.antt =====
-- What setSeedGeneric of src/NewcoinAddress/NewcoinAddress.cpp makes of the words of a seed.
use Prim.Native.Char.{code}
use Prim.Native.String.{String}
use Prim.Native.String.compare
use mathlib.Core.List.{reverse}
use text.Mathlib.Text.{◌==◌ as str_eq}
use bytev.Prelude.{
  ℕ, ◌<◌, ◌≡◌, refl, sym, ap, ◌∙◌, Bool, true, false, Option, none, some, List, [], ◌∷◌, ◌++◌, map,
  length, take, drop, append_assoc, if◌then◌else◌, arith,
}
use bytev.Serializer.Buffer.{Bytes}
use bytev.Address.{
  Address, cleared, set_data, set_string, set_seed_generic, is_other, set_account_id,
  set_account_public, set_account_private, set_node_public, set_node_private, set_seed,
  ver_family_seed,
}
use bytev.Address.Seeds.{seed_of_words}
use bytev.Address.Seeds.RoundTrip.{seed_of_words-key2eng}
use bytev.Base58
use bytev.Base58.Refused.{decode_base58-words}
use bytev.Words.Buffer.{extract}
use bytev.Words.Dictionary.{codes, dictionary}
use bytev.Words.Dictionary.Sorted.{IsWord, dictionary-IsWord}
use bytev.Words.Keys.{key2eng, btoe, with_parity}
use bytev.Words.Keys.Halves.{IsBytes, has_last}
use bytev.Words.Keys.RoundTrip.{IsSplit, key_numbers, extract-low}

codes-chars : (text : String) → codes text ≡ map code (Base58.chars text)
codes-chars String.[] = refl
codes-chars (String.◌∷◌ c s) = ap (◌∷◌ (code c)) (codes-chars s)

decode_base58-two :
    (text : String) (v w t s : Bytes)
    → IsWord v
    → IsWord w
    → codes text ≡ (v ++ (32 ∷ (w ++ t))) ++ s
    → Base58.decode_base58 text ≡ none
decode_base58-two text [] w t s h k e = absurd (omega (arith, h.0))
decode_base58-two text (x ∷ u) [] t s h k e = absurd (omega (arith, k.0))
decode_base58-two text (x ∷ u) (c ∷ r) t s h k e =
    decode_base58-words text x u c ((r ++ t) ++ s) h.1.0 h.1.1 k.1.0
      (sym (codes-chars text) ∙ e ∙ ap (◌∷◌ x) (append_assoc u (32 ∷ c ∷ (r ++ t)) s))

decode_base58-key2eng :
    (text : String) (stray : ℕ) (key : Bytes)
    → codes text ≡ key2eng stray key
    → Base58.decode_base58 text ≡ none
unfolding key2eng btoe
decode_base58-key2eng text stray key e =
    let s = with_parity stray (take 8 (take 8 key)) in
    let word = λ (i : ℕ). dictionary (extract stray s i 11) in
    decode_base58-two text (word 0) (word 11)
      (32 ∷ (word 22 ++ (32 ∷ (word 33 ++ (32 ∷ (word 44 ++ (32 ∷ word 55)))))))
      (32 ∷ btoe stray (take 8 (drop 8 key)))
      (dictionary-IsWord (extract stray s 0 11) (extract-low stray s 0))
      (dictionary-IsWord (extract stray s 11 11) (extract-low stray s 11)) e

abbrev seed_or_phrase : Bytes → Option Bytes → Address × Bool
seed_or_phrase phrase (some seed) = (set_data ver_family_seed seed, true)
seed_or_phrase phrase none = (set_data ver_family_seed phrase, true)

module _ (sha256 : Bytes → Bytes) where
  set_string-none :
      (text : String) (version : ℕ)
      → Base58.decode_base58 text ≡ none
      → set_string (Base58.decode_check sha256) (Base58.encode_check sha256) text version
        ≡ (cleared, false)
  unfolding set_string Base58.decode_check
  set_string-none text version h = rw (set_string, Base58.decode_check, h) refl

  not_other :
      (text : String)
      → str_eq text "" ≡ false
      → Base58.decode_base58 text ≡ none
      → is_other (Base58.decode_check sha256) (Base58.encode_check sha256) text ≡ false
  unfolding set_account_id set_account_public set_account_private set_node_public set_node_private
  not_other text h k =
      let none_of = λ (version : ℕ). set_string-none text version k in
      rw (h, none_of 0, none_of 35, none_of 34, none_of 28, none_of 32) refl

  set_seed_generic_words :
      (words : String → Option Bytes) (phrase : String → Bytes) (a : Address) (text : String)
      → str_eq text "" ≡ false
      → Base58.decode_base58 text ≡ none
      → set_seed_generic
          (Base58.decode_check sha256)
          (Base58.encode_check sha256)
          words
          phrase
          a
          text
        ≡ seed_or_phrase (phrase text) (words text)
  unfolding set_seed_generic set_seed
  set_seed_generic_words words phrase a text h k =
      rw (set_seed_generic, not_other text h k)
        (rw (set_seed_generic, set_string-none text 33 k) refl)

not_empty_text : (text : String) (x : ℕ) (r : Bytes) → codes text ≡ x ∷ r → str_eq text "" ≡ false
not_empty_text String.[] x r e = absurd (omega (arith, ap length e))
not_empty_text (String.◌∷◌ c s) x r e = rw (compare.cons-nil c s) refl

word_not_empty :
    (text : String) (v s : Bytes) → IsWord v → codes text ≡ v ++ s → str_eq text "" ≡ false
word_not_empty text [] s h e = absurd (omega (arith, h.0))
word_not_empty text (x ∷ u) s h e = not_empty_text text x (u ++ s) e

key2eng_not_empty :
    (text : String) (stray : ℕ) (key : Bytes)
    → codes text ≡ key2eng stray key
    → str_eq text "" ≡ false
unfolding key2eng btoe
key2eng_not_empty text stray key e =
    let s = with_parity stray (take 8 (take 8 key)) in
    let word = λ (i : ℕ). dictionary (extract stray s i 11) in
    word_not_empty text (word 0)
      (32 ∷ (word 11 ++ (32 ∷ (word 22 ++ (32 ∷ (word 33 ++ (32 ∷ (word 44 ++ (32 ∷ word 55))))))))
        ++ (32 ∷ btoe stray (take 8 (drop 8 key))))
      (dictionary-IsWord (extract stray s 0 11) (extract-low stray s 0))
      (e
        ∙ append_assoc (word 0)
            (32
              ∷ (word 11
                  ++ (32 ∷ (word 22 ++ (32 ∷ (word 33 ++ (32 ∷ (word 44 ++ (32 ∷ word 55)))))))))
            (32 ∷ btoe stray (take 8 (drop 8 key))))

chosen :
    (phrase seed : Bytes) (last : Bool)
    → seed_or_phrase phrase (if last then none else some seed)
      ≡ (set_data ver_family_seed (if last then phrase else seed), true)
chosen phrase seed true = refl
chosen phrase seed false = refl

module _ (sha256 : Bytes → Bytes) (split : Bytes → List Bytes) (splits : IsSplit split) (stray : ℕ)
    (small : stray < 256) where
  -- setSeedGeneric on the text of the words of a seed of sixteen bytes sets that seed, but where a word
  -- is the last of the 571 short ones it takes the text for a pass phrase and sets the seed of that
  -- phrase. The split is taken to give the words of a text with one space between two, and `stray` is a
  -- byte.
  pub set_seed_generic-key2eng :
      (phrase : String → Bytes) (a : Address) (seed : Bytes) (text : String)
      → length seed ≡ 16
      → IsBytes seed
      → codes text ≡ key2eng stray (reverse seed)
      → set_seed_generic
          (Base58.decode_check sha256)
          (Base58.encode_check sha256)
          (seed_of_words split stray)
          phrase
          a
          text
        ≡ (
          set_data ver_family_seed
              (if has_last (key_numbers stray (reverse seed)) then phrase text else seed),
          true,
        )
  set_seed_generic-key2eng phrase a seed text l low e =
      set_seed_generic_words sha256 (seed_of_words split stray) phrase a text
        (key2eng_not_empty text stray (reverse seed) e)
        (decode_base58-key2eng text stray (reverse seed) e)
      ∙ ap (seed_or_phrase (phrase text))
          (seed_of_words-key2eng split splits stray small seed text l low e)
      ∙ chosen (phrase text) seed (has_last (key_numbers stray (reverse seed)))
