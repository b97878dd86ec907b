-- ===== src/Words/Dictionary.antt =====
-- The array pcDict of shared/rfc1751.cpp: 571 words of at most three letters and 1477 words of four,
-- each part in the order of std::string::compare.
mod Short
mod Long
pub mod Sorted
use Prim.Native.Char.{code}
use Prim.Native.String.{String}
use bytev.Prelude.{ℕ, List, [], ◌∷◌, ◌++◌, map, get_or}
use bytev.Serializer.Buffer.{Bytes}
use Short.{short_words}
use Long.{long_words}

abbrev pub codes : String → Bytes
codes String.[] = []
codes (String.◌∷◌ c s) = code c ∷ codes s

-- The words of the array from their texts.
unfoldable pub short : List Bytes
short = map codes short_words

unfoldable pub long : List Bytes
long = map codes long_words

unfoldable pub dictionary : ℕ → Bytes
dictionary i = get_or (short ++ long) i []
