-- ===== src/Audit/Verify/Sound.antt =====
-- src/audit.rs, `verify`: a log that passes is a chain from its first line to its last.
use glasir_control.Prelude.{
  ℕ, ◌+◌, ◌≡◌, refl, sym, ap, ◌∙◌, subst, Option, none, some, List, [], ◌∷◌, ◌++◌, arith, leb,
  length, nat_eq, Bool_eq, list_eq, pair_eq, Result, ok, err, ok_of_bind, ok-injective, ok_or,
  require, ok_of_require, ok_of_ok_or, and_then,
}
use glasir_control.Text.{Text, codes}
use glasir_control.Text.Lines.{lines}
use glasir_control.Text.Utf8.{as_bytes}
use glasir_control.Security.{constant_time_eq}
use glasir_control.Crypto.Padding.{length-append, hmac_sha256_hex-digits}
use glasir_control.Crypto.Signatures.{AreChars, bytes_eq_iff, hex-AreChars}
use glasir_control.Json.{Value, get_value, as_str}
use glasir_control.Audit.Line.{line}
use glasir_control.Audit.Log.{
  Disk, hmac_of_event, VerifyError, short_key, unreadable, invalid_json, unsigned, discontinuity,
  mismatch, CanonicalError, canonical_event, at_line, verify_line, verify_lines, verify_backup,
  verify,
}

abbrev pub string_of : Value → Text → Option Text
string_of value name = and_then (get_value value name) as_str

-- What serde_json gives for a string is a `str`.
abbrev pub GivesChars : (Text → Option Value) → Type 0
GivesChars from_str =
    (line : Text) (value : Value) (name t : Text)
    → from_str line ≡ some value
    → string_of value name ≡ some t
    → AreChars t

-- A line that holds an event, the HMAC before it, and the HMAC of both under the key.
pub record IsLinked (from_str : Text → Option Value) (key : List ℕ) (previous line event : Text)
    : Type 0 where
  pub value : Value
  pub read : from_str line ≡ some value
  pub canonical : canonical_event value ≡ ok event
  pub follows : string_of value (codes "previous_hmac") ≡ some previous
  pub signed : string_of value (codes "hmac") ≡ some (hmac_of_event key previous event)

-- The lines are linked from the first to the last; the HMAC of each stands before the next.
abbrev pub IsLinkedFrom : (Text → Option Value) → List ℕ → Text → List Text → Type 0
IsLinkedFrom from_str key previous [] = Unit
IsLinkedFrom from_str key previous (line ∷ more) =
    (event : Text) × IsLinked from_str key previous line event
    × IsLinkedFrom from_str key (hmac_of_event key previous event) more

-- The lines of the backup, if there is one, and of the live file.
abbrev pub all_lines : Option Text → Text → List Text
all_lines none text = lines text
all_lines (some old) text = lines old ++ lines text

at_line-ok :
    (n : ℕ) (r : Result Text CanonicalError) (event : Text)
    → ◌≡◌ {A = Result Text VerifyError} (at_line n r) (ok event)
    → r ≡ ok event
at_line-ok n (ok a) event h = ap ok (ok-injective h)
at_line-ok n (err e) event h = cc h

module _ (from_str : Text → Option Value) (key : List ℕ) (chars : GivesChars from_str) where
  hmac-AreChars : (previous event : Text) → AreChars (hmac_of_event key previous event)
  hmac-AreChars previous event =
      hex-AreChars _ (hmac_sha256_hex-digits key (as_bytes (previous ++ (codes "\n" ++ event)))).1

  verify_line_sound :
      (previous : Text) (n : ℕ) (line hmac : Text)
      → AreChars previous
      → verify_line from_str key previous n line ≡ ok hmac
      → (event : Text) × IsLinked from_str key previous line event
        × (hmac ≡ hmac_of_event key previous event)
  unfolding verify_line
  verify_line_sound previous n line hmac is_chars h =
      let (value, at_value, h1) = ok_of_bind (ok_or (from_str line) (invalid_json n)) _ h in
      let (event, at_event, h2) = ok_of_bind (at_line n (canonical_event value)) _ h1 in
      let (recorded_previous, at_previous, h3) =
        ok_of_bind (ok_or (string_of value (codes "previous_hmac")) (unsigned n)) _ h2 in
      let (recorded_hmac, at_hmac, h4) =
        ok_of_bind (ok_or (string_of value (codes "hmac")) (unsigned n)) _ h3 in
      let (u5, same_previous, h5) =
        ok_of_bind
          (require (constant_time_eq (as_bytes recorded_previous) (as_bytes previous))
            (discontinuity n))
          _ h4 in
      let (u6, same_hmac, h6) =
        ok_of_bind
          (require
            (constant_time_eq (as_bytes recorded_hmac)
              (as_bytes (hmac_of_event key previous event)))
            (mismatch n))
          _ h5 in
      let read = ok_of_ok_or (from_str line) (invalid_json n) value at_value in
      let has_previous = ok_of_ok_or _ (unsigned n) recorded_previous at_previous in
      let has_hmac = ok_of_ok_or _ (unsigned n) recorded_hmac at_hmac in
      let previous_is =
        (bytes_eq_iff recorded_previous previous
            (chars line value _ recorded_previous read has_previous) is_chars).0
          (ok_of_require _ (discontinuity n) u5 same_previous) in
      let hmac_is =
        (bytes_eq_iff recorded_hmac (hmac_of_event key previous event)
            (chars line value _ recorded_hmac read has_hmac) (hmac-AreChars previous event)).0
          (ok_of_require _ (mismatch n) u6 same_hmac) in
      (
        event,
        record {
          value = value;
          read = read;
          canonical = at_line-ok n (canonical_event value) event at_event;
          follows = has_previous ∙ ap some previous_is;
          signed = has_hmac ∙ ap some hmac_is;
        },
        sym (ok-injective h6) ∙ hmac_is,
      )

  verify_lines_sound :
      (previous : Text) (count n : ℕ) (ls : List Text) (last : Text) (total : ℕ)
      → AreChars previous
      → verify_lines from_str key previous count n ls ≡ ok (last, total)
      → IsLinkedFrom from_str key previous ls
        × (total ≡ count + length ls)
        × AreChars last
        × ((rest : List Text)
            → IsLinkedFrom from_str key last rest
            → IsLinkedFrom from_str key previous (ls ++ rest))
  unfolding verify_lines
  verify_lines_sound previous count n [] last total is_chars h =
      let pair = ok-injective h in
      let same : previous ≡ last = ap (λ (p : Text × ℕ). p.0) pair in
      (
        tt,
        sym (ap (λ (p : Text × ℕ). p.1) pair) ∙ omega arith,
        subst AreChars same is_chars,
        λ rest linked. subst (λ (t : Text). IsLinkedFrom from_str key t rest) (sym same) linked,
      )
  verify_lines_sound previous count n (line ∷ more) last total is_chars h =
      let (hmac, at_line_n, later) =
        ok_of_bind (verify_line from_str key previous (n + 1) line) _ h in
      let (event, linked, hmac_is) =
        verify_line_sound previous (n + 1) line hmac is_chars at_line_n in
      let next = hmac-AreChars previous event in
      let (rest_linked, total_is, last_chars, extend_by) =
        verify_lines_sound (hmac_of_event key previous event) (count + 1) (n + 1) more last total
          next
          (ap (λ (t : Text). verify_lines from_str key t (count + 1) (n + 1) more) (sym hmac_is)
            ∙ later) in
      (
        (event, linked, rest_linked),
        omega (arith, total_is),
        last_chars,
        λ rest more_linked. (event, linked, extend_by rest more_linked),
      )

  verify_backup_sound :
      (old : Option Text) (last : Text) (count : ℕ)
      → verify_backup from_str key old ≡ ok (last, count)
      → AreChars last
        × ((text : Text)
            → IsLinkedFrom from_str key last (lines text)
            → IsLinkedFrom from_str key [] (all_lines old text))
        × ((text : Text) → count + length (lines text) ≡ length (all_lines old text))
  verify_backup_sound none last count h =
      let pair = ok-injective h in
      let same : [] ≡ last = ap (λ (p : Text × ℕ). p.0) pair in
      let zero_is : 0 ≡ count = ap (λ (p : Text × ℕ). p.1) pair in
      (
        subst AreChars same refl,
        λ text linked.
            subst (λ (t : Text). IsLinkedFrom from_str key t (lines text)) (sym same) linked,
        λ text. omega (arith, zero_is),
      )
  verify_backup_sound (some old) last count h =
      let (linked, total_is, last_chars, extend_by) =
        verify_lines_sound [] 0 0 (lines old) last count refl h in
      (
        last_chars,
        λ text more. extend_by (lines text) more,
        λ text. omega (arith, total_is, length-append (lines old) (lines text)),
      )

  -- If a log verifies, every line of its two segments holds an event, the HMAC of the line before it and
  -- the HMAC of both under the key, from an empty HMAC before the first line on, and the number of
  -- records is the number of lines; where serde_json gives characters.
  pub verify_sound :
      (disk : Disk) (n : ℕ)
      → verify from_str disk key ≡ ok n
      → (text : Text) × (disk.live ≡ some text)
        × IsLinkedFrom from_str key [] (all_lines disk.backup text)
        × (n ≡ length (all_lines disk.backup text))
  unfolding verify
  verify_sound disk n h =
      let (u1, at_key, h1) = ok_of_bind (require (leb 32 (length key)) short_key) _ h in
      let ((last, before), at_backup, h2) =
        ok_of_bind (verify_backup from_str key disk.backup) _ h1 in
      let (text, at_text, h3) = ok_of_bind (ok_or disk.live unreadable) _ h2 in
      let ((final, total), at_lines, h4) =
        ok_of_bind (verify_lines from_str key last before 0 (lines text)) _ h3 in
      let (last_chars, extend_by, lengths) =
        verify_backup_sound disk.backup last before at_backup in
      let (linked, total_is, final_chars, extend_more) =
        verify_lines_sound last before 0 (lines text) final total last_chars at_lines in
      let n_is : total ≡ n = ok-injective h4 in
      (
        text,
        ok_of_ok_or disk.live unreadable text at_text,
        extend_by text linked,
        sym n_is ∙ total_is ∙ lengths text,
      )
