-- ===== src/Security.antt =====
-- src/security.rs: comparison without a timing leak, decoding of paths, the names that may become
-- a tree or a principal, and the check against request smuggling. `percent_encode` is of
-- src/sync.rs, the encoder that `url_decode` undoes.
pub mod Names
pub mod Decoding
pub mod Comparison
pub mod Smuggling
mod Tests
use Prim.Native.Nat.{bit_or, bit_xor}
use glasir_control.Prelude.{
  ℕ, ◌+◌, ◌-◌, ◌*◌, ◌/◌, ◌%◌, Bool, true, false, not, ◌&&◌, ◌||◌, Option, none, some, List, [], ◌∷◌,
  map, ltb, leb, if◌then◌else◌, length, is_empty, all, ◌==◌, nat_eq, Bool_eq, list_eq, pair_eq,
  Result, ok, err, ◌>>=◌,
}
use glasir_control.Text.{
  Text, codes, byte_len, trim, starts_with, contains_text, is_ascii_digit, is_ascii_alphanumeric,
  to_ascii_lowercase,
}
use glasir_control.Text.Utf8.{as_bytes, from_utf8}

-- The loop of `constant_time_eq` over the zipped slices.
abbrev pub difference : ℕ → List ℕ → List ℕ → ℕ
difference diff (x ∷ a) (y ∷ b) = difference (bit_or diff (bit_xor x y)) a b
difference diff _ _ = diff

unfoldable pub constant_time_eq : List ℕ → List ℕ → Bool
constant_time_eq a b = if not (length a == length b) then false else difference 0 a b == 0

unfoldable pub constant_time_eq_str : Text → Text → Bool
unfolding constant_time_eq as_bytes
constant_time_eq_str a b = constant_time_eq (as_bytes a) (as_bytes b)

-- `(byte as char).to_digit(16)`
unfoldable pub to_digit : ℕ → Option ℕ
to_digit c =
    if leb b'0' c && leb c b'9'
    then some (c - b'0')
    else if leb b'a' c && leb c b'f'
    then some (c - b'a' + 10)
    else if leb b'A' c && leb c b'F'
    then some (c - b'A' + 10)
    else none

abbrev pub push_byte : ℕ → Option (List ℕ) → Option (List ℕ)
push_byte b none = none
push_byte b (some out) = some (b ∷ out)

-- `(h1 << 4) | h2` of two digits
abbrev pub escaped : Option ℕ → Option ℕ → Option (List ℕ) → Option (List ℕ)
escaped (some h1) (some h2) rest = push_byte (h1 * 16 + h2) rest
escaped _ _ rest = none

-- The loop of `url_decode` from an index on. Fewer than two bytes behind a `%` are refused.
unfoldable pub decode_bytes : List ℕ → Option (List ℕ)
unfolding to_digit
decode_bytes [] = some []
decode_bytes (c ∷ []) = if c == b'%' then none else some (c ∷ [])
decode_bytes (c ∷ d ∷ []) =
    let plain = decode_bytes (d ∷ []) in if c == b'%' then none else push_byte c plain
decode_bytes (c ∷ d ∷ e ∷ s) =
    let plain = decode_bytes (d ∷ e ∷ s) in
    let behind = decode_bytes s in
    if c == b'%' then escaped (to_digit d) (to_digit e) behind else push_byte c plain

abbrev pub utf8_of : Option (List ℕ) → Option Text
utf8_of none = none
utf8_of (some bytes) = from_utf8 bytes

unfoldable pub url_decode : Text → Option Text
unfolding decode_bytes as_bytes from_utf8
url_decode s = utf8_of (decode_bytes (as_bytes s))

unfoldable pub is_revision_byte : ℕ → Bool
unfolding is_ascii_alphanumeric
is_revision_byte b =
    is_ascii_alphanumeric b
    || b == b'.'
    || b == b'/'
    || b == b'_'
    || b == b'-'
    || b == b'~'
    || b == b'^'

unfoldable pub is_valid_revision : Text → Bool
unfolding byte_len starts_with as_bytes is_revision_byte
is_valid_revision rev =
    leb (byte_len rev) 200
    && not (starts_with rev (codes "-"))
    && all is_revision_byte (as_bytes rev)

unfoldable pub is_principal_char : ℕ → Bool
unfolding is_ascii_alphanumeric
is_principal_char c =
    is_ascii_alphanumeric c || c == b'_' || c == b'-' || c == b'.' || c == b'@' || c == b'+'

unfoldable pub is_valid_principal : Text → Bool
unfolding byte_len starts_with contains_text is_principal_char
is_valid_principal name =
    if is_empty name || ltb 256 (byte_len name)
    then false
    else if (starts_with name (codes ".")
          || starts_with name (codes "-")
          || starts_with name (codes "@"))
        || contains_text name (codes "..")
    then false
    else all is_principal_char name

unfoldable pub is_identifier_char : ℕ → Bool
unfolding is_ascii_alphanumeric
is_identifier_char c = is_ascii_alphanumeric c || c == b'_' || c == b'-'

unfoldable pub is_valid_identifier : Text → Bool
unfolding byte_len starts_with contains_text is_identifier_char
is_valid_identifier name =
    if is_empty name || ltb 128 (byte_len name)
    then false
    else if (starts_with name (codes ".") || starts_with name (codes "-"))
        || contains_text name (codes "..")
    then false
    else all is_identifier_char name

pub data SmugglingError : Type 0 where
  malformed_length : SmugglingError
  multiple_lengths : SmugglingError
  length_and_encoding : SmugglingError

abbrev pub Header : Type 0
Header = Text × Text

unfoldable pub is_named : Text → Header → Bool
unfolding to_ascii_lowercase
is_named name (k, v) = map to_ascii_lowercase k == name

unfoldable pub is_number : Text → Bool
unfolding trim is_ascii_digit
is_number v = not (is_empty (trim v)) && all is_ascii_digit (trim v)

-- The loop of `validate_http_smuggling`: the count of lengths, and whether an encoding was seen.
unfoldable pub scan_headers : List Header → ℕ → Bool → Result (ℕ × Bool) SmugglingError
scan_headers [] cl_count has_te = ok (cl_count, has_te)
scan_headers ((k, v) ∷ more) cl_count has_te =
    let counted = scan_headers more (cl_count + 1) has_te in
    let coded = scan_headers more cl_count true in
    let passed = scan_headers more cl_count has_te in
    if is_named (codes "content-length") (k, v)
    then (if not (is_number v) then err malformed_length else counted)
    else if is_named (codes "transfer-encoding") (k, v)
    then coded
    else passed

abbrev pub judge : ℕ × Bool → Result (Unit {0}) SmugglingError
judge (cl_count, has_te) =
    if ltb 1 cl_count
    then err multiple_lengths
    else if ltb 0 cl_count && has_te
    then err length_and_encoding
    else ok tt

unfoldable pub validate_http_smuggling : List Header → Result (Unit {0}) SmugglingError
unfolding scan_headers
validate_http_smuggling headers = do seen ← scan_headers headers 0 false; judge seen

-- A byte in sync.rs's `percent_encode`: itself, or `%` and two upper case digits.
abbrev pub hex_upper : ℕ → ℕ
hex_upper d = if ltb d 10 then b'0' + d else b'A' + (d - 10)

unfoldable pub is_unreserved : ℕ → Bool
unfolding is_ascii_alphanumeric
is_unreserved b = is_ascii_alphanumeric b || b == b'-' || b == b'_' || b == b'.' || b == b'~'

unfoldable pub encode_bytes : List ℕ → Text
unfolding is_unreserved
encode_bytes [] = []
encode_bytes (b ∷ s) =
    let rest = encode_bytes s in
    if is_unreserved b then b ∷ rest else b'%' ∷ hex_upper (b / 16) ∷ hex_upper (b % 16) ∷ rest

unfoldable pub percent_encode : Text → Text
unfolding encode_bytes as_bytes
percent_encode value = encode_bytes (as_bytes value)
