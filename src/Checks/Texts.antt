-- ===== src/Checks/Texts.antt =====
-- shared/ParseSection.cpp on a file of one section, the text of an address, and the search of shared/rfc1751.cpp in a
-- dictionary of short words.

use bytev.Prelude.{Option, ℕ, ◌<◌, ◌≤◌, ◌≡◌, ◌↔◌, refl, true, some, [], ◌∷◌, arith}
use bytev.Serializer.Buffer.{Bytes}
use bytev.Prelude.Maps.{find}
use bytev.Address.{Address}
use bytev.Sections.{Sections, parse_section, section_entries}
use bytev.Sections.RoundTrip.{section_lines, parse_section-section_lines}
use bytev.Words.{search, search_loop}
use bytev.Words.Search.{IsSorted, search_iff}

abbrev ips : Sections
ips = ("ips", "10.0.0.1" ∷ []) ∷ []

parse_section-section_lines_example :
    section_entries (parse_section (λ text. text) (λ text. section_lines ips) "file" true) "ips"
    ≡ some ("10.0.0.1" ∷ [])
unfolding find
parse_section-section_lines_example =
    parse_section-section_lines (λ text. section_lines ips) (λ text. text) true "file" ips "ips"
      (refl, tt)
      ((record { filled = refl; no_comment = refl; no_header = refl; trimmed = refl }, tt), tt) refl

-- The word of a number is its one letter.
abbrev letters : ℕ → Bytes
letters i = i ∷ []

letters-IsSorted : (high : ℕ) → IsSorted letters 0 high
letters-IsSorted high i j h h' h'' = ground arith

search_iff_example :
    (r : Option ℕ) × (search_loop letters (7 ∷ []) 11 0 10 ≡ some r)
    × (search letters (7 ∷ []) 0 10 ≡ r)
    × ((i : ℕ) → (r ≡ some i) ↔ ((0 ≤ i) × (i < 10) × (letters i ≡ 7 ∷ [])))
search_iff_example = search_iff letters (7 ∷ []) 0 10 (omega arith) (letters-IsSorted 10)

-- The text of an address that is asked for as one of another version.
abbrev one : Address
one = record { version = 28; payload = 7 ∷ [] }
