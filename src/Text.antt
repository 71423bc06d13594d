-- ===== src/Text.antt =====
-- Text as the Rust code sees it: a `str` is the list of its characters' code points. `len` counts
-- the bytes of their UTF-8 encoding; the other operations of the standard library that the program
-- calls (lines, trim, split, strip_prefix, contains, ordering) walk the characters.
pub mod Bytes
pub mod Lines
pub mod Pieces
pub mod Utf8
pub mod Order
use Prim.Native.Char.{code}
use glasir_control.Prelude.{
  ℕ, ◌+◌, String, Bool, true, false, not, ◌&&◌, ◌||◌, Option, none, some, List, [], ◌∷◌, map, ltb,
  leb, if◌then◌else◌, is_empty, filter, ◌==◌, nat_eq, Bool_eq, list_eq, pair_eq,
}

abbrev pub Text : Type 0
Text = List ℕ

-- A literal of the source.
abbrev pub codes : String → Text
codes String.[] = []
codes (String.◌∷◌ c s) = code c ∷ codes s

-- `unwrap_or_default`
abbrev pub text_of : Option Text → Text
text_of none = []
text_of (some text) = text

-- The number of bytes of a character in UTF-8.
unfoldable pub utf8_width : ℕ → ℕ
utf8_width c = if ltb c 0x80 then 1 else if ltb c 0x800 then 2 else if ltb c 0x10000 then 3 else 4

-- str::len
unfoldable pub byte_len : Text → ℕ
unfolding utf8_width
byte_len [] = 0
byte_len (c ∷ s) = utf8_width c + byte_len s

-- char::is_whitespace: the Unicode property White_Space.
unfoldable pub is_whitespace : ℕ → Bool
is_whitespace c =
    (leb 9 c && leb c 13)
    || c == 0x20
    || c == 0x85
    || c == 0xa0
    || c == 0x1680
    || (leb 0x2000 c && leb c 0x200a)
    || c == 0x2028
    || c == 0x2029
    || c == 0x202f
    || c == 0x205f
    || c == 0x3000

-- str::trim_start, trim_end and trim
unfoldable pub trim_start : Text → Text
unfolding is_whitespace
trim_start [] = []
trim_start (c ∷ s) = if is_whitespace c then trim_start s else c ∷ s

unfoldable pub trim_end : Text → Text
unfolding is_whitespace
trim_end [] = []
trim_end (c ∷ s) =
    let rest = trim_end s in if is_empty rest && is_whitespace c then [] else c ∷ rest

unfoldable pub trim : Text → Text
unfolding trim_start trim_end
trim s = trim_start (trim_end s)

-- str::starts_with and contains, of a text
unfoldable pub starts_with : Text → Text → Bool
starts_with s [] = true
starts_with [] (p ∷ ps) = false
starts_with (c ∷ s) (p ∷ ps) = c == p && starts_with s ps

unfoldable pub contains_text : Text → Text → Bool
unfolding starts_with
contains_text [] p = is_empty p
contains_text (c ∷ s) p = starts_with (c ∷ s) p || contains_text s p

-- str::strip_prefix
unfoldable pub strip_prefix : Text → Text → Option Text
strip_prefix s [] = some s
strip_prefix [] (p ∷ ps) = none
strip_prefix (c ∷ s) (p ∷ ps) = if c == p then strip_prefix s ps else none

abbrev pub cons_first : ℕ → List Text → List Text
cons_first c [] = (c ∷ []) ∷ []
cons_first c (piece ∷ pieces) = (c ∷ piece) ∷ pieces

-- str::split at each character that passes the test
unfoldable pub split_by : (ℕ → Bool) → Text → List Text
split_by sep [] = [] ∷ []
split_by sep (c ∷ s) = let rest = split_by sep s in if sep c then [] ∷ rest else cons_first c rest

-- `.split(c).map(str::trim).filter(|s| !s.is_empty())`
unfoldable pub split_trimmed : ℕ → Text → List Text
unfolding split_by trim
split_trimmed sep s = filter (λ piece. not (is_empty piece)) (map trim (split_by (λ c. c == sep) s))

-- char::is_ascii_digit, is_ascii_alphanumeric, is_ascii_hexdigit and to_ascii_lowercase
unfoldable pub is_ascii_digit : ℕ → Bool
is_ascii_digit c = leb b'0' c && leb c b'9'

unfoldable pub is_ascii_alphanumeric : ℕ → Bool
unfolding is_ascii_digit
is_ascii_alphanumeric c =
    is_ascii_digit c || (leb b'a' c && leb c b'z') || (leb b'A' c && leb c b'Z')

unfoldable pub is_ascii_hexdigit : ℕ → Bool
unfolding is_ascii_digit
is_ascii_hexdigit c = is_ascii_digit c || (leb b'a' c && leb c b'f') || (leb b'A' c && leb c b'F')

unfoldable pub to_ascii_lowercase : ℕ → ℕ
to_ascii_lowercase c = if leb b'A' c && leb c b'Z' then c + 32 else c
