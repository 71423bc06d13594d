-- ===== src/Auth/Entries.antt =====
-- src/auth.rs, `read`: what the entries of a token file are like.
use glasir_control.Prelude.{
  ℕ, ◌≡◌, refl, inl, inr, Bool, true, not, ◌&&◌, ◌||◌, Option, none, some, List, [], ◌∷◌, map,
  arith, Bool-cases, and-true, and_intro, is_empty, all, ◌==◌, nat_eq, Bool_eq, list_eq, pair_eq,
  or_zero,
}
use glasir_control.Text.{
  Text, codes, trim, starts_with, split_by, is_ascii_hexdigit, to_ascii_lowercase,
}
use glasir_control.Text.Lines.{lines}
use glasir_control.Crypto.Padding.{is_hex_lower}
use glasir_control.Auth.{
  Entry, parse_u64, third_or, checked, entry_of, parse_entry, push_entry, entries_of, read,
}

-- The hash is in lower case hexadecimal, and there is a name.
abbrev pub is_sound_entry : Entry → Bool
is_sound_entry e = all is_hex_lower e.hash && not (is_empty e.name)

lowercase-is_hex : (c : ℕ) → is_ascii_hexdigit c ≡ true → is_hex_lower (to_ascii_lowercase c) ≡ true
unfolding is_ascii_hexdigit to_ascii_lowercase
lowercase-is_hex c h = ground arith

lowercase-all_hex :
    (s : Text) → all is_ascii_hexdigit s ≡ true → all is_hex_lower (map to_ascii_lowercase s) ≡ true
lowercase-all_hex [] h = refl
lowercase-all_hex (c ∷ s) h =
    let (here, later) = and-true (is_ascii_hexdigit c) (all is_ascii_hexdigit s) h in
    and_intro _ _ (lowercase-is_hex c here) (lowercase-all_hex s later)

is_entry : Option Entry → Bool
is_entry none = true
is_entry (some e) = is_sound_entry e

checked_sound : (hash name : Text) (expires : ℕ) → is_entry (checked hash name expires) ≡ true
unfolding is_entry
checked_sound hash name expires = elim (Bool-cases (all is_ascii_hexdigit hash)) [
  | inl digits ↦ ground (arith, digits, lowercase-all_hex hash digits)
  | inr other ↦ ground (arith, other)
]

entry_of_sound : (fs : List Text) → is_entry (entry_of fs) ≡ true
unfolding is_entry
entry_of_sound [] = refl
entry_of_sound (hash ∷ []) = refl
entry_of_sound (hash ∷ name ∷ more) =
    checked_sound (trim hash) (trim name) (or_zero (parse_u64 (trim (third_or (codes "0") more))))

parse_entry_sound : (line : Text) → is_entry (parse_entry line) ≡ true
unfolding parse_entry
parse_entry_sound line = entry_of_sound (split_by (λ c. c == b'\t') line)

push_entry_sound :
    (o : Option Entry) (rest : List Entry)
    → is_entry o ≡ true
    → all is_sound_entry rest ≡ true
    → all is_sound_entry (push_entry o rest) ≡ true
unfolding is_entry
push_entry_sound none rest h hs = hs
push_entry_sound (some e) rest h hs = and_intro _ _ h hs

entries_of_sound : (ls : List Text) → all is_sound_entry (entries_of ls) ≡ true
unfolding entries_of
entries_of_sound [] = refl
entries_of_sound (line ∷ more) =
    elim (Bool-cases (is_empty (trim line) || starts_with (trim line) (codes "#"))) [
      | inl skipped ↦ rw skipped (entries_of_sound more)
      | inr kept ↦ rw kept (
          push_entry_sound (parse_entry (trim line)) (entries_of more)
            (parse_entry_sound (trim line)) (entries_of_sound more))
    ]

-- Whatever the file holds, each entry that is read of it has a hash in lower case hexadecimal and a
-- name: a corrupt line grants nothing.
pub read_sound : (file : Option Text) → all is_sound_entry (read file) ≡ true
unfolding read
read_sound none = refl
read_sound (some text) = entries_of_sound (lines text)
