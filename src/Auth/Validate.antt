-- ===== src/Auth/Validate.antt =====
-- src/auth.rs, `validate_text`: the pre-flight report on a token file.
pub mod Agreement
use glasir_control.Prelude.{
  ℕ, ◌+◌, Bool, not, ◌&&◌, ◌||◌, Option, none, some, List, [], ◌∷◌, ◌++◌, map, ltb, leb,
  if◌then◌else◌, is_empty, contains, ◌==◌, nat_eq, Bool_eq, list_eq, pair_eq,
}
use glasir_control.Text.{
  Text, codes, byte_len, trim, starts_with, split_by, is_ascii_hexdigit, to_ascii_lowercase,
}
use glasir_control.Text.Lines.{lines}
use glasir_control.Auth.{parse_u64, is_hash}

pub data TokenProblem : Type 0 where
  invalid_hash : TokenProblem
  missing_name : TokenProblem
  invalid_expiry : TokenProblem
  duplicate_hash : TokenProblem
  expired : ℕ → TokenProblem

pub record TokensReport : Type 0 where
  pub valid_count : ℕ
  pub expired_count : ℕ
  pub errors : List (ℕ × TokenProblem)
  pub warnings : List (ℕ × TokenProblem)

-- The report so far, and `seen_hashes`.
pub record Progress : Type 0 where
  pub report : TokensReport
  pub seen : List Text

abbrev pub with_error : Progress → ℕ → TokenProblem → Progress
with_error p n problem = record p {
  report = record (p.report) { errors = p.report.errors ++ (n, problem) ∷ [] };
}

abbrev pub count_entry : TokensReport → ℕ → ℕ → ℕ → TokensReport
count_entry r n now expires =
    if ltb 0 expires && leb expires now
    then record r {
      expired_count = r.expired_count + 1;
      warnings = r.warnings ++ (n, expired expires) ∷ [];
    }
    else record r { valid_count = r.valid_count + 1 }

abbrev pub with_entry : Progress → ℕ → ℕ → Text → ℕ → Progress
with_entry p n now hash expires =
    let key = map to_ascii_lowercase hash in
    let again = record (p.report) { warnings = p.report.warnings ++ (n, duplicate_hash) ∷ [] } in
    if contains p.seen key
    then record p { report = count_entry again n now expires }
    else record { report = count_entry (p.report) n now expires; seen = key ∷ p.seen }

abbrev pub with_expiry : Progress → ℕ → ℕ → Text → Option ℕ → Progress
with_expiry p n now hash none = with_error p n invalid_expiry
with_expiry p n now hash (some expires) = with_entry p n now hash expires

abbrev pub validate_fields : Progress → ℕ → ℕ → Text → Text → Text → Progress
validate_fields p n now hash name expires_text =
    if not (is_hash hash)
    then with_error p n invalid_hash
    else if is_empty name
    then with_error p n missing_name
    else with_expiry p n now hash (parse_u64 expires_text)

-- `parts.next().map(str::trim).unwrap_or(…)`, three times
abbrev pub validate_parts : Progress → ℕ → ℕ → List Text → Progress
validate_parts p n now [] = validate_fields p n now [] [] (codes "0")
validate_parts p n now (hash ∷ []) = validate_fields p n now (trim hash) [] (codes "0")
validate_parts p n now (hash ∷ name ∷ []) =
    validate_fields p n now (trim hash) (trim name) (codes "0")
validate_parts p n now (hash ∷ name ∷ expires ∷ more) =
    validate_fields p n now (trim hash) (trim name) (trim expires)

unfoldable pub validate_lines : Progress → ℕ → ℕ → List Text → Progress
unfolding split_by trim parse_u64 byte_len is_ascii_hexdigit to_ascii_lowercase
validate_lines p n now [] = p
validate_lines p n now (line ∷ more) =
    let l = trim line in
    let p' =
      if is_empty l || starts_with l (codes "#")
      then p
      else validate_parts p (n + 1) now (split_by (λ c. c == b'\t') l) in
    validate_lines p' (n + 1) now more

abbrev pub empty_report : TokensReport
empty_report = record { valid_count = 0; expired_count = 0; errors = []; warnings = [] }

unfoldable pub validate_text : Text → ℕ → TokensReport
unfolding validate_lines lines
validate_text text now =
    (validate_lines (record { report = empty_report; seen = [] }) 0 now (lines text)).report

-- TokensReport::is_valid
unfoldable pub is_valid : TokensReport → Bool
is_valid r = is_empty r.errors
