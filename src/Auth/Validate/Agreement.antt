-- ===== src/Auth/Validate/Agreement.antt =====
-- src/auth.rs: `validate_text` agrees with `read`.
use glasir_control.Prelude.{
  ℕ, ◌+◌, ◌≡◌, refl, subst, inl, inr, true, false, ◌||◌, Option, none, some, List, [], ◌∷◌, ◌++◌,
  arith, Bool-cases, Option-cases, length, is_empty, ◌==◌, nat_eq, Bool_eq, list_eq, pair_eq,
  or_zero,
}
use glasir_control.Text.{Text, codes, trim, starts_with, split_by}
use glasir_control.Text.Lines.{lines}
use glasir_control.Auth.{
  Entry, parse_u64, is_hash, checked, entry_of, parse_entry, push_entry, entries_of, read,
}
use glasir_control.Auth.Validate.{
  TokenProblem, invalid_hash, missing_name, invalid_expiry, Progress, with_error, with_entry,
  validate_fields, validate_parts, validate_lines, empty_report, validate_text, is_valid,
}

-- How many entries were counted.
abbrev counted : Progress → ℕ
counted p = p.report.valid_count + p.report.expired_count

-- A line either adds an error, or is an entry that is counted.
record IsJudged (p p' : Progress) (entries : List Entry) : Type 0 where
  pub kept : is_empty p'.report.errors ≡ true → is_empty p.report.errors ≡ true
  pub added : is_empty p'.report.errors ≡ true → counted p' ≡ counted p + length entries

nonempty_append : {A : Type 0} (xs : List A) (x : A) → is_empty (xs ++ x ∷ []) ≡ false
nonempty_append [] x = refl
nonempty_append (y ∷ xs) x = refl

error-IsJudged :
    (p : Progress) (n : ℕ) (problem : TokenProblem) (es : List Entry)
    → IsJudged p (with_error p n problem) es
error-IsJudged p n problem es =
    let broken = nonempty_append p.report.errors (n, problem) in
    record { kept = λ h. cc (broken, h); added = λ h. cc (broken, h) }

entry-IsJudged :
    (p : Progress) (n now : ℕ) (hash : Text) (expires : ℕ) (e : Entry)
    → IsJudged p (with_entry p n now hash expires) (e ∷ [])
entry-IsJudged p n now hash expires e = record {
  kept = λ h. ground (arith, h);
  added = λ h. ground arith;
}

fields-IsJudged :
    (p : Progress) (n now : ℕ) (hash name expires_text : Text)
    → IsJudged p
        (validate_fields p n now hash name expires_text)
        (push_entry (checked hash name (or_zero (parse_u64 expires_text))) [])
fields-IsJudged p n now hash name expires_text = elim (Bool-cases (is_hash hash)) [
  | inr odd ↦ rw odd (error-IsJudged p n invalid_hash [])
  | inl hashed ↦ elim (Bool-cases (is_empty name)) [
    | inl missing ↦ rw (hashed, missing) (error-IsJudged p n missing_name [])
    | inr named ↦ elim (Option-cases (parse_u64 expires_text)) [
      | inl odd ↦ rw (hashed, named, odd) (error-IsJudged p n invalid_expiry _)
      | inr (expires, parsed) ↦ rw (hashed, named, parsed) (entry-IsJudged p n now hash expires _)
    ]
  ]
]

checked_blank : (hash : Text) (expires : ℕ) → checked hash [] expires ≡ none
checked_blank hash expires = elim (Bool-cases (is_hash hash)) [
  | inl yes_hash ↦ rw yes_hash refl
  | inr odd ↦ rw odd refl
]

blank-IsJudged :
    (p : Progress) (n now : ℕ) (hash expires_text : Text)
    → IsJudged p (validate_fields p n now hash [] expires_text) []
blank-IsJudged p n now hash expires_text =
    subst (λ o. IsJudged p (validate_fields p n now hash [] expires_text) (push_entry o []))
      (checked_blank hash (or_zero (parse_u64 expires_text)))
      (fields-IsJudged p n now hash [] expires_text)

zero_parsed : parse_u64 (codes "0") ≡ parse_u64 (trim (codes "0"))
unfolding parse_u64 trim
zero_parsed = refl

parts-IsJudged :
    (p : Progress) (n now : ℕ) (fs : List Text)
    → IsJudged p (validate_parts p n now fs) (push_entry (entry_of fs) [])
parts-IsJudged p n now [] = blank-IsJudged p n now [] (codes "0")
parts-IsJudged p n now (hash ∷ []) = blank-IsJudged p n now (trim hash) (codes "0")
parts-IsJudged p n now (hash ∷ name ∷ []) =
    subst
      (λ o.
        IsJudged p (validate_parts p n now (hash ∷ name ∷ []))
          (push_entry (checked (trim hash) (trim name) (or_zero o)) []))
      zero_parsed (fields-IsJudged p n now (trim hash) (trim name) (codes "0"))
parts-IsJudged p n now (hash ∷ name ∷ expires ∷ more) =
    fields-IsJudged p n now (trim hash) (trim name) (trim expires)

push-IsJudged :
    (p p' p'' : Progress) (o : Option Entry) (es : List Entry)
    → IsJudged p p' (push_entry o [])
    → IsJudged p' p'' es
    → IsJudged p p'' (push_entry o es)
push-IsJudged p p' p'' none es first later = record {
  kept = λ h. first.kept (later.kept h);
  added = λ h. let l = later.added h in let f = first.added (later.kept h) in omega (arith, l, f);
}
push-IsJudged p p' p'' (some e) es first later = record {
  kept = λ h. first.kept (later.kept h);
  added = λ h. let l = later.added h in let f = first.added (later.kept h) in omega (arith, l, f);
}

lines-IsJudged :
    (p : Progress) (n now : ℕ) (ls : List Text)
    → IsJudged p (validate_lines p n now ls) (entries_of ls)
unfolding validate_lines entries_of parse_entry
lines-IsJudged p n now [] = record { kept = λ h. h; added = λ h. omega arith }
lines-IsJudged p n now (line ∷ more) =
    elim (Bool-cases (is_empty (trim line) || starts_with (trim line) (codes "#"))) [
      | inl skipped ↦ rw skipped (lines-IsJudged p (n + 1) now more)
      | inr kept ↦
          let fs = split_by (λ c. c == b'\t') (trim line) in
          let p' = validate_parts p (n + 1) now fs in
          rw kept (
            push-IsJudged p p' (validate_lines p' (n + 1) now more) (entry_of fs) (entries_of more)
              (parts-IsJudged p (n + 1) now fs) (lines-IsJudged p' (n + 1) now more))
    ]

-- In a token file that validates, the valid and the expired entries that the report counts are all
-- the entries that are read of the file.
pub validate_text-read :
    (text : Text) (now : ℕ)
    → is_valid (validate_text text now) ≡ true
    → (validate_text text now).valid_count + (validate_text text now).expired_count
      ≡ length (read (some text))
unfolding is_valid validate_text read
validate_text-read text now h =
    let judged = lines-IsJudged (record { report = empty_report; seen = [] }) 0 now (lines text) in
    let e = judged.added h in omega (arith, e)
