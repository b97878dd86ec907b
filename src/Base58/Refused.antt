-- ===== src/Base58/Refused.antt =====
-- DecodeBase58 of shared/base58.h refuses a text of two words.
use Prim.Native.Char.{Char, code}
use Prim.Native.String.{String}
use bytev.Prelude.{
  ℕ, ◌+◌, ◌*◌, ◌≤◌, ◌≡◌, refl, sym, ap, ◌∙◌, inl, inr, true, false, none, Option-cases, get_or,
  drop, length, subst, ◌≢◌, [], ◌∷◌, ◌++◌, All, map, ◌==◌, arith,
}
use bytev.Base58
use bytev.Base58.RoundTrip.{decode_loop_letter}
use bytev.Serializer.Buffer.{Bytes}

abbrev pub IsLetter : ℕ → Type 0
IsLetter c = (65 ≤ c) × (c ≤ 90)

letter_not_space : (c : Char) → IsLetter (code c) → Base58.is_space c ≡ false
letter_not_space c h = ground (arith, h)

letter_not_end : (c : Char) → IsLetter (code c) → (code c == 0) ≡ false
letter_not_end c h = ground (arith, h)

-- A letter that the alphabet lacks ends the loop.
decode_loop_stop :
    (n : ℕ) (c : Char) (cs : Base58.Text)
    → (code c == 0) ≡ false
    → Base58.offset c ≡ none
    → Base58.at_end (Base58.skip_spaces (c ∷ cs)) ≡ false
    → Base58.decode_loop n (c ∷ cs) ≡ none
unfolding Base58.decode_loop
decode_loop_stop n c cs h k l =
    rw (Base58.decode_loop, h) (rw (Base58.decode_loop, k) (rw (Base58.decode_loop, l) refl))

space_offset : (c : Char) → code c ≡ 32 → Base58.offset c ≡ none
space_offset c h = rw h refl

head_of :
    (y : Char) (cs : Base58.Text) (x : ℕ) (r : Bytes)
    → map code (y ∷ cs) ≡ x ∷ r
    → (code y ≡ x) × (map code cs ≡ r)
head_of y cs x r e = (ap (λ (l : Bytes). get_or l 0 0) e, ap (drop 1) e)

not_empty : (x : ℕ) (r : Bytes) → map code [] ≢ x ∷ r
not_empty x r e = absurd (omega (arith, ap length e))

-- A letter after a space.
decode_loop-space :
    (n : ℕ) (y z : Char) (cs : Base58.Text)
    → code y ≡ 32
    → IsLetter (code z)
    → Base58.decode_loop n (y ∷ z ∷ cs) ≡ none
decode_loop-space n y z cs h k =
    let inner : Base58.at_end (Base58.skip_spaces (z ∷ cs)) ≡ false =
      rw (letter_not_space z k) (letter_not_end z k) in
    let blank : Base58.is_space y ≡ true = ground (arith, h) in
    decode_loop_stop n y (z ∷ cs) (ground (arith, h)) (space_offset y h) (rw blank inner)

-- Words of capital letters with a space between: `u` is the rest of the first one.
decode_loop-words :
    (n : ℕ) (u : Bytes) (c : ℕ) (rest : Bytes) (cs : Base58.Text)
    → All IsLetter u
    → IsLetter c
    → map code cs ≡ u ++ (32 ∷ c ∷ rest)
    → Base58.decode_loop n cs ≡ none
decode_loop-words n [] c rest [] h k e = absurd (not_empty 32 (c ∷ rest) e)
decode_loop-words n [] c rest (y ∷ []) h k e =
    absurd (not_empty c rest (head_of y [] 32 (c ∷ rest) e).1)
decode_loop-words n [] c rest (y ∷ z ∷ cs) h k e =
    let (space, tail) = head_of y (z ∷ cs) 32 (c ∷ rest) e in
    decode_loop-space n y z cs space (subst IsLetter (sym (head_of z cs c rest tail).0) k)
decode_loop-words n (x ∷ u) c rest [] h k e = absurd (not_empty x (u ++ (32 ∷ c ∷ rest)) e)
decode_loop-words n (x ∷ u) c rest (y ∷ cs) h k e =
    let (first, tail) = head_of y cs x (u ++ (32 ∷ c ∷ rest)) e in
    let letter = subst IsLetter (sym first) h.0 in
    elim (Option-cases (Base58.offset y)) [
      | inl none_of ↦
          decode_loop_stop n y cs (letter_not_end y letter) none_of
            (rw (letter_not_space y letter) (letter_not_end y letter))
      | inr (i, found) ↦
          decode_loop_letter n i y cs (letter_not_end y letter) found
          ∙ decode_loop-words (n * 58 + i) u c rest cs h.1 k tail
    ]

decode_text-words :
    (cs : Base58.Text) (x : ℕ) (u : Bytes) (c : ℕ) (rest : Bytes)
    → IsLetter x
    → All IsLetter u
    → IsLetter c
    → map code cs ≡ x ∷ (u ++ (32 ∷ c ∷ rest))
    → Base58.decode_text (Base58.skip_spaces cs) ≡ none
unfolding Base58.decode_text
decode_text-words [] x u c rest l h k e = absurd (not_empty x (u ++ (32 ∷ c ∷ rest)) e)
decode_text-words (y ∷ cs) x u c rest l h k e =
    let first = subst IsLetter (sym (head_of y cs x (u ++ (32 ∷ c ∷ rest)) e).0) l in
    rw (letter_not_space y first)
      (rw (Base58.decode_text, decode_loop-words 0 (x ∷ u) c rest (y ∷ cs) (l, h) k e) refl)

-- A text that begins with a word of capital letters, a space and another word is no base 58 text.
pub decode_base58-words :
    (text : String) (x : ℕ) (u : Bytes) (c : ℕ) (rest : Bytes)
    → IsLetter x
    → All IsLetter u
    → IsLetter c
    → map code (Base58.chars text) ≡ x ∷ (u ++ (32 ∷ c ∷ rest))
    → Base58.decode_base58 text ≡ none
unfolding Base58.decode_base58
decode_base58-words text x u c rest l h k e =
    decode_text-words (Base58.chars text) x u c rest l h k e
