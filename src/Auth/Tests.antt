-- ===== src/Auth/Tests.antt =====
-- src/auth.rs: a token file run through the model, and the theorems about it there. The hash is the
-- one of the token `abc`.
use glasir_control.Prelude.{
  list_beq, ℕ, ◌+◌, ◌≡◌, refl, ◌↔◌, true, Option, none, some, [], ◌∷◌, length, nat_eq, Bool_eq,
  list_eq, pair_eq,
}
use glasir_control.Text.{Text, codes, starts_with}
use glasir_control.Text.Utf8.{as_bytes}
use glasir_control.FileCache.{after_calls}
use glasir_control.Security.{constant_time_eq, constant_time_eq_str}
use glasir_control.Crypto.{sha256_hex}
use glasir_control.Auth.{parse_u64, read, identify, new, current}
use glasir_control.Auth.Identify.{IsSignedIn, identify_iff}
use glasir_control.Auth.Validate.{validate_text, is_valid}
use glasir_control.Auth.Validate.Agreement.{validate_text-read}
use glasir_control.Auth.Caching.{current-after_calls}

abbrev file : Text
file =
    codes
      "# tokens\nBA7816BF8F01CFEA414140DE5DAE2223B00361A396177A9CB410FF61F20015AD\tanna\t100\nbroken\n"

unfoldable run : Unit {0}
unfolding read validate_text is_valid identify current after_calls sha256_hex as_bytes parse_u64
    starts_with constant_time_eq constant_time_eq_str list_beq
run = tt

anna_signs_in : identify (read (some file)) (codes "abc") 50 ≡ some (codes "anna")
unfolding run
anna_signs_in = refl

anna_expires : identify (read (some file)) (codes "abc") 100 ≡ none
unfolding run
anna_expires = refl

-- An expiry that is no number is read as 0, and the entry never expires.
bad_expiry : parse_u64 (codes "2026-01-01") ≡ none
unfolding run
bad_expiry = refl

identify_iff_example :
    (identify (read (some file)) (codes "abc") 50 ≡ some (codes "anna"))
    ↔ IsSignedIn (read (some file)) (codes "abc") 50 (codes "anna")
identify_iff_example = identify_iff (some file) (codes "abc") 50 (codes "anna")

abbrev content : Option ℕ → Option Text
content none = none
content (some t) = some file

current-after_calls_example :
    (current (some 3) (content (some 3)) (after_calls read content (some 1 ∷ none ∷ []) new)).value
    ≡ read (content (some 3))
current-after_calls_example = current-after_calls content (some 1 ∷ none ∷ []) (some 3) refl

abbrev sound_file : Text
sound_file =
    codes "# tokens\nBA7816BF8F01CFEA414140DE5DAE2223B00361A396177A9CB410FF61F20015AD\tanna\t100\n"

sound_file_valid : is_valid (validate_text sound_file 50) ≡ true
unfolding run
sound_file_valid = refl

validate_text-read_example :
    (validate_text sound_file 50).valid_count + (validate_text sound_file 50).expired_count
    ≡ length (read (some sound_file))
validate_text-read_example = validate_text-read sound_file 50 sound_file_valid
