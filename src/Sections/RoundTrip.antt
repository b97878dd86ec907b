-- ===== src/Sections/RoundTrip.antt =====
-- Sections written line by line and read by ParseSection of shared/ParseSection.cpp.
use Prim.Native.Char.{Char, code}
use Prim.Native.String.{String}
use text.Mathlib.Text.{◌==◌ as str_eq}
use text.Mathlib.TextEquality.{eq_iff}
use bytev.Prelude.{
  ◌≡◌, refl, ap, ◌∙◌, Bool, true, false, none, some, List, [], ◌∷◌, ◌++◌, append_assoc, append-nil,
  ◌&&◌, if◌then◌else◌, All, arith, Bool-cases, inl, inr,
}
use bytev.Prelude.Maps.{string_eq, find, insert, find-insert}
use bytev.Sections.{
  Sections, begins_with, ends_with, drop_last, or_empty, push_entry, parse_line, parse_lines,
  parse_section, section_entries,
}

-- A text and a character behind it.
abbrev pub snoc : String → Char → String
snoc String.[] c = String.◌∷◌ c String.[]
snoc (String.◌∷◌ a s) c = String.◌∷◌ a (snoc s c)

-- The line that begins a section.
abbrev pub header : String → String
header name = String.◌∷◌ "[" (snoc name "]")

ends_with-snoc : (s : String) (c : Char) → ends_with (code c) (snoc s c) ≡ true
ends_with-snoc String.[] c = ground arith
ends_with-snoc (String.◌∷◌ a String.[]) c = ground arith
ends_with-snoc (String.◌∷◌ a (String.◌∷◌ b s)) c = ends_with-snoc (String.◌∷◌ b s) c

drop_last-snoc : (s : String) (c : Char) → drop_last (snoc s c) ≡ s
drop_last-snoc String.[] c = refl
drop_last-snoc (String.◌∷◌ a String.[]) c = refl
drop_last-snoc (String.◌∷◌ a (String.◌∷◌ b s)) c =
    ap (String.◌∷◌ a) (drop_last-snoc (String.◌∷◌ b s) c)

ends_with-header : (name : String) → ends_with b']' (header name) ≡ true
ends_with-header String.[] = refl
ends_with-header (String.◌∷◌ a s) = ends_with-snoc (String.◌∷◌ a s) "]"

not_empty : (a : Char) (s : String) → str_eq (String.◌∷◌ a s) "" ≡ false
not_empty a s = elim (Bool-cases (str_eq (String.◌∷◌ a s) "")) [
  | inl e ↦ let same : String.◌∷◌ a s ≡ "" = (eq_iff (String.◌∷◌ a s) "").0 e in absurd (cc)
  | inr e ↦ e
]

-- An entry that is no comment and no header, and that trimming leaves alone.
pub record IsEntry (trim : String → String) (line : String) : Type 0 where
  pub filled : str_eq line "" ≡ false
  pub no_comment : begins_with b'#' line ≡ false
  pub no_header : begins_with b'[' line && ends_with b']' line ≡ false
  pub trimmed : trim line ≡ line

-- The lines of sections, one after another.
abbrev pub section_lines : Sections → List String
section_lines [] = []
section_lines ((name, entries) ∷ l) = header name ∷ (entries ++ section_lines l)

-- No name stands twice.
abbrev pub HasDistinctNames : Sections → Type 0
HasDistinctNames [] = Unit {0}
HasDistinctNames ((name, entries) ∷ l) = (find name l ≡ none) × HasDistinctNames l

abbrev pub HasEntries : (String → String) → Sections → Type 0
HasEntries trim [] = Unit {0}
HasEntries trim ((name, entries) ∷ l) = All (IsEntry trim) entries × HasEntries trim l

find-cons :
    (name other : String) (entries : List String) (l : Sections)
    → find other ((name, entries) ∷ l) ≡ (if str_eq name other then some entries else find other l)
unfolding find
find-cons name other entries l = refl

module _ (trim : String → String) (do_trim : Bool) where
  parse_lines-append :
      (xs ys : List String) (st : String × Sections)
      → parse_lines trim do_trim (xs ++ ys) st
        ≡ parse_lines trim do_trim ys (parse_lines trim do_trim xs st)
  unfolding parse_lines
  parse_lines-append [] ys st = refl
  parse_lines-append (x ∷ xs) ys st = parse_lines-append xs ys (parse_line trim do_trim x st)

  parse_line-header :
      (name now : String) (m : Sections)
      → parse_line trim do_trim (header name) (now, m) ≡ (name, insert name [] m)
  unfolding parse_line
  parse_line-header name now m =
      rw (not_empty "[" (snoc name "]"), ends_with-header name, drop_last-snoc name "]") refl

  parse_line-entry :
      (line now : String) (m : Sections)
      → IsEntry trim line
      → parse_line trim do_trim line (now, m) ≡ (now, push_entry now line m)
  unfolding parse_line
  parse_line-entry line now m h = ground (arith, h.trimmed)

  begun_with :
      (line : String) (rest : List String) (st st' : String × Sections)
      → parse_line trim do_trim line st ≡ st'
      → parse_lines trim do_trim (line ∷ rest) st ≡ parse_lines trim do_trim rest st'
  unfolding parse_lines
  begun_with line rest st st' e = ap (parse_lines trim do_trim rest) e

  find-push_entry :
      (line : String) (old : List String) (name other : String) (m : Sections)
      → find name m ≡ some old
      → find other (push_entry name line m)
        ≡ (if str_eq name other then some (old ++ (line ∷ [])) else find other m)
  unfolding push_entry
  find-push_entry line old name other m e =
      ground (arith, find-insert name other (or_empty (find name m) ++ (line ∷ [])) m)

  parse_lines-entries :
      (entries old : List String) (name other : String) (m : Sections)
      → All (IsEntry trim) entries
      → find name m ≡ some old
      → let (now, m') = parse_lines trim do_trim entries (name, m) in
        (now ≡ name)
        × (find other m' ≡ (if str_eq name other then some (old ++ entries) else find other m))
  parse_lines-entries [] old name other m h e =
      unfold parse_lines in (refl, ground (arith, eq_iff name other, append-nil old))
  parse_lines-entries (line ∷ entries) old name other m h e =
      let m' = push_entry name line m in
      let grown : (k : String)
          → find k m' ≡ (if str_eq name k then some (old ++ (line ∷ [])) else find k m) =
        λ k. find-push_entry line old name k m e in
      let self : find name m' ≡ some (old ++ (line ∷ [])) =
        ground (arith, grown name, eq_iff name name) in
      let (same, read) = parse_lines-entries entries (old ++ (line ∷ [])) name other m' h.1 self in
      rw (begun_with line entries (name, m) (name, m') (parse_line-entry line name m h.0))
        (same, ground (arith, read, grown other, append_assoc old (line ∷ []) entries))

  find-section_lines :
      (l : Sections) (name other : String) (m : Sections)
      → HasDistinctNames l
      → HasEntries trim l
      → find other (parse_lines trim do_trim (section_lines l) (name, m)).1
        ≡ (elim (find other l) [ none ↦ find other m | some entries ↦ some entries ])
  find-section_lines [] name other m d h = unfold find parse_lines in refl
  find-section_lines ((first, entries) ∷ l) name other m d h =
      let begun = insert first [] m in
      let st = parse_lines trim do_trim entries (first, begun) in
      let fresh : find first begun ≡ some [] =
        ground (arith, find-insert first first [] m, eq_iff first first) in
      let (now, read) = parse_lines-entries entries [] first other begun h.0 fresh in
      let rest = find-section_lines l st.0 other st.1 d.1 h.1 in
      let step =
        begun_with (header first) (entries ++ section_lines l) (name, m) (first, begun)
          (parse_line-header first name m)
        ∙ parse_lines-append entries (section_lines l) (first, begun) in
      rw step (
        ground (
          arith,
          rest,
          read,
          find-insert first other [] m,
          eq_iff first other,
          d.0,
          find-cons first other entries l,
        ))

-- Sections that are written as a header line and a line for each entry, no name twice, and with
-- entries that are no comment, no header and trimmed, are read back: ParseSection gives every
-- section its entries in order, and no entries of the default section and no others.
pub parse_section-section_lines :
    (lines : String → List String) (trim : String → String) (do_trim : Bool) (input : String)
    (l : Sections) (name : String)
    → HasDistinctNames l
    → HasEntries trim l
    → lines input ≡ section_lines l
    → section_entries (parse_section trim lines input do_trim) name ≡ (elim (find name l) [
      | none ↦ if str_eq "" name then some [] else none
      | some entries ↦ some entries
    ])
unfolding parse_section section_entries find
parse_section-section_lines lines trim do_trim input l name d h e =
    let empty : Sections = [] in
    rw (e, parse_section)
      (find-section_lines trim do_trim l "" name (insert "" [] []) d h
        ∙ ground (arith, find-insert "" name [] empty))
