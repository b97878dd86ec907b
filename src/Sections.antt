-- ===== src/Sections.antt =====
-- shared/ParseSection.cpp: files of named sections, such as [validators], with a line for each
-- entry.
pub mod RoundTrip
use Prim.Native.Char.{code}
use Prim.Native.String.{String}
use text.Mathlib.Text.{◌==◌ as str_eq}
use bytev.Prelude.{
  ℕ, Bool, true, false, Option, none, some, List, [], ◌∷◌, ◌++◌, length, ◌==◌, ◌&&◌, ◌||◌,
  if◌then◌else◌,
}
use bytev.Prelude.Int.{ℤ, pos, negsuc}
use bytev.Prelude.Maps.{string_eq, find, insert}

-- std::map<std::string, std::vector<std::string>>
abbrev pub Sections : Type 0
Sections = List (String × List String)

-- `strValue[0] == c` and `strValue[strValue.length() - 1] == c`, for a text that is not empty.
abbrev pub begins_with : ℕ → String → Bool
begins_with c String.[] = false
begins_with c (String.◌∷◌ a s) = code a == c

abbrev pub ends_with : ℕ → String → Bool
ends_with c String.[] = false
ends_with c (String.◌∷◌ a String.[]) = code a == c
ends_with c (String.◌∷◌ a (String.◌∷◌ b s)) = ends_with c (String.◌∷◌ b s)

-- `strValue.substr(1, strValue.length() - 2)`
abbrev pub drop_last : String → String
drop_last String.[] = String.[]
drop_last (String.◌∷◌ a String.[]) = String.[]
drop_last (String.◌∷◌ a (String.◌∷◌ b s)) = String.◌∷◌ a (drop_last (String.◌∷◌ b s))

abbrev pub inside : String → String
inside String.[] = String.[]
inside (String.◌∷◌ a s) = drop_last s

abbrev pub or_empty : Option (List String) → List String
or_empty none = []
or_empty (some entries) = entries

-- `secResult[name].push_back(line)`
unfoldable pub push_entry : String → String → Sections → Sections
push_entry name line m = insert name (or_empty (find name m) ++ (line ∷ [])) m

-- `lines` stands for the two calls of boost's replace_all and its split, `trim` for its trim.
module _ (trim : String → String) where
  -- A round of the loop, in the section `name`.
  unfoldable pub parse_line : Bool → String → String × Sections → String × Sections
  parse_line do_trim line (name, m) =
      if str_eq line "" || begins_with b'#' line
      then (name, m)
      else if begins_with b'[' line && ends_with b']' line
      then (inside line, insert (inside line) [] m)
      else (let entry = if do_trim then trim line else line in
          (name, if str_eq entry "" then m else push_entry name entry m))

  unfoldable pub parse_lines : Bool → List String → String × Sections → String × Sections
  parse_lines do_trim [] st = st
  parse_lines do_trim (line ∷ rest) st = parse_lines do_trim rest (parse_line do_trim line st)

  unfoldable pub parse_section : (String → List String) → String → Bool → Sections
  parse_section lines input do_trim = (parse_lines do_trim (lines input) ("", insert "" [] [])).1

-- A null pointer is none.
unfoldable pub section_entries : Sections → String → Option (List String)
section_entries m name = find name m

-- None is the call of size() on a null pointer.
unfoldable pub section_count : Sections → String → Option ℤ
section_count m name = elim (section_entries m name) [
  | some entries ↦ some (negsuc 0)
  | none ↦ none
]

-- The single entry, which goes out through strValue.
unfoldable pub section_single : Sections → String → Option String
section_single m name = elim (section_entries m name) [
  | none ↦ none
  | some entries ↦ elim entries [
    | [] ↦ none
    | entry ∷ more ↦ if length more == 0 then some entry else none
  ]
]
