-- ===== src/Auth.antt =====
-- src/auth.rs: the token file, whose lines are the SHA-256 of a token, the name that it signs in, and
-- when it expires.
pub mod Entries
pub mod Identify
pub mod Validate
pub mod Caching
mod Tests
use mathlib.Core.Option
use glasir_control.Prelude.{
  ℕ, ◌+◌, ◌-◌, ◌*◌, ◌^◌, Bool, not, ◌&&◌, ◌||◌, Option, none, some, List, [], ◌∷◌, map, ltb, leb,
  if◌then◌else◌, is_empty, all, ◌==◌, nat_eq, Bool_eq, list_eq, pair_eq, or_zero,
}
use glasir_control.Text.{
  Text, codes, byte_len, trim, starts_with, split_by, is_ascii_digit, is_ascii_hexdigit,
  to_ascii_lowercase,
}
use glasir_control.Text.Lines.{lines}
use glasir_control.Text.Utf8.{as_bytes}
use glasir_control.FileCache.{Cached, refresh}
use glasir_control.Security.{constant_time_eq_str}
use glasir_control.Crypto.{sha256_hex}

pub record Entry : Type 0 where
  pub hash : Text
  pub name : Text
  pub expires : ℕ

-- The digits of a number in base ten, behind the value so far. A u64 that would overflow is none.
unfoldable pub digits_value : Text → ℕ → Option ℕ
unfolding is_ascii_digit
digits_value [] n = some n
digits_value (c ∷ s) n =
    let rest = digits_value s (n * 10 + (c - b'0')) in
    if not (is_ascii_digit c)
    then none
    else if leb (2 ^ 64) (n * 10 + (c - b'0'))
    then none
    else rest

abbrev after_plus : Text → Text
after_plus (c ∷ d ∷ s) = if c == b'+' then d ∷ s else c ∷ d ∷ s
after_plus s = s

-- `str::parse::<u64>`
unfoldable pub parse_u64 : Text → Option ℕ
unfolding digits_value
parse_u64 s = if is_empty s then none else digits_value (after_plus s) 0

abbrev pub third_or : Text → List Text → Text
third_or missing [] = missing
third_or missing (e ∷ more) = e

abbrev pub is_hash : Text → Bool
is_hash hash = byte_len hash == 64 && all is_ascii_hexdigit hash

abbrev pub checked : Text → Text → ℕ → Option Entry
checked hash name expires =
    if not (is_hash hash) || is_empty name
    then none
    else some (record { hash = map to_ascii_lowercase hash; name = name; expires = expires })

abbrev pub entry_of : List Text → Option Entry
entry_of (hash ∷ name ∷ more) =
    checked (trim hash) (trim name) (or_zero (parse_u64 (trim (third_or (codes "0") more))))
entry_of _ = none

-- Entry::parse
unfoldable pub parse_entry : Text → Option Entry
unfolding split_by trim parse_u64 byte_len is_ascii_hexdigit to_ascii_lowercase
parse_entry line = entry_of (split_by (λ c. c == b'\t') line)

abbrev pub push_entry : Option Entry → List Entry → List Entry
push_entry none rest = rest
push_entry (some e) rest = e ∷ rest

unfoldable pub entries_of : List Text → List Entry
unfolding parse_entry
entries_of [] = []
entries_of (line ∷ more) =
    let rest = entries_of more in
    let l = trim line in
    if is_empty l || starts_with l (codes "#") then rest else push_entry (parse_entry l) rest

-- `read`, of a file with this text or of one that cannot be read
unfoldable pub read : Option Text → List Entry
unfolding entries_of lines
read none = []
read (some text) = entries_of (lines text)

unfoldable pub is_live : Text → ℕ → Entry → Bool
unfolding constant_time_eq_str
is_live hash now e = constant_time_eq_str e.hash hash && (e.expires == 0 || ltb now e.expires)

abbrev pub find : (Entry → Bool) → List Entry → Option Entry
find p [] = none
find p (e ∷ more) = if p e then some e else find p more

unfoldable pub identify : List Entry → Text → ℕ → Option Text
unfolding is_live
identify entries token now =
    if is_empty token || ltb 1024 (byte_len token)
    then none
    else Option.map (λ e. e.name) (find (is_live (sha256_hex (as_bytes token)) now) entries)

-- What `Tokens` keeps: the time of the last change that was seen, and what was read then.
abbrev pub Cache : Type 0
Cache = Cached (List Entry)

-- Tokens::new
abbrev pub new : Cache
new = record { mtime = none; value = [] }

-- Tokens::current, at a time when the file has this modification time and this text; the entries are
-- those of the cache that it leaves.
unfoldable pub current : Option ℕ → Option Text → Cache → Cache
unfolding refresh read
current = refresh read
