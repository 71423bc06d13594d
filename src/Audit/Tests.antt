-- ===== src/Audit/Tests.antt =====
-- src/audit.rs: two records written, verified and tampered with, and the theorems about them. The reader
-- of JSON here knows the two lines.
use mathlib.Core.Option.{some-injective}
use glasir_control.Prelude.{
  list_beq, ℕ, ◌+◌, ◌<◌, ◌≡◌, refl, ap, ◌∙◌, subst, inl, inr, true, false, Option, none, some, List,
  [], ◌∷◌, ◌++◌, arith, if◌then◌else◌, Bool-cases, length, all, ◌==◌, nat_eq, Bool_eq, list_eq,
  pair_eq, ok, err,
}
use glasir_control.Text.{Text, codes, utf8_width, byte_len, is_ascii_hexdigit}
use glasir_control.Text.Lines.{strip_cr, lines, unlines, IsLine}
use glasir_control.Text.Utf8.{is_scalar, as_bytes}
use glasir_control.Security.{to_digit}
use glasir_control.Crypto.{hmac_sha256_hex}
use glasir_control.Crypto.Signatures.{AreChars, hex-AreChars}
use glasir_control.Auth.{read}
use glasir_control.Json.{Value, get_field, get_value}
use glasir_control.Audit.{Record, escape_json, format_jsonl}
use glasir_control.Audit.Escaping.{read_string, read_string-escape_json}
use glasir_control.Audit.Line.{line, format_jsonl-IsLine}
use glasir_control.Audit.Log.{
  Disk, max_bytes, discontinuity, write_record, verify, recent, invalid_signature,
  append_remote_event,
}
use glasir_control.Audit.Chain.{Event, Signed, line_of, sign, chain, value_of, AllRead}
use glasir_control.Audit.Verify.{hmac-IsHex}
use glasir_control.Audit.Verify.Writing.{write_all, no_log, log_text, verify-write_all}
use glasir_control.Audit.Verify.Sound.{string_of, GivesChars, IsLinkedFrom, all_lines, verify_sound}
use glasir_control.Audit.Queue.{
  Machine, start, Action, submit, write, run_actions, failed_writes, accounted, run_actions_lem,
  rounds, records_of, rounds_drain,
}

abbrev key : List ℕ
key = codes "0123456789abcdef0123456789abcdef"

abbrev first_record : Record
first_record = record {
  ts = 1700000000;
  who = some (codes "anna \"a\"\n");
  tree_name = some (codes "alpha");
  method = codes "POST";
  path = codes "/mcp/alpha";
  status = 200;
  bytes = 128;
  duration_ms = 12;
  client_addr = codes "127.0.0.1:45678";
}

abbrev second_record : Record
second_record = record first_record { who = none; status = 404 }

abbrev first_event : Event
first_event = (first_record, 0)

abbrev second_event : Event
second_event = (second_record, 5)

abbrev first_line : Signed
first_line = sign key [] first_event

abbrev second_line : Signed
second_line = sign key first_line.hmac second_event

from_str : Text → Option Value
from_str line =
    if line == line_of first_line
    then some (value_of first_line)
    else if line == line_of second_line
    then some (value_of second_line)
    else none

unfoldable run : Unit {0}
unfolding from_str format_jsonl escape_json write_record verify lines unlines list_beq
    hmac_sha256_hex as_bytes get_value get_field byte_len is_ascii_hexdigit is_scalar read_string
    to_digit strip_cr recent append_remote_event utf8_width
run = tt

first_text :
    format_jsonl first_record 0
    ≡ codes
        "{\"ts\":1700000000,\"who\":\"anna \\\"a\\\"\\n\",\"tree\":\"alpha\",\"method\":\"POST\",\"path\":\"/mcp/alpha\",\"status\":200,\"bytes\":128,\"duration_ms\":12,\"client_addr\":\"127.0.0.1:45678\"}"
unfolding run
first_text = refl

both_read : AllRead from_str (chain key [] (first_event ∷ second_event ∷ []))
unfolding run
both_read = (
  record { read = refl; status_fits = omega arith },
  (record { read = refl; status_fits = omega arith }, tt),
)

both_small : byte_len (log_text key (first_event ∷ second_event ∷ [])) < max_bytes
unfolding run
both_small = omega arith

verify-write_all_example :
    verify from_str (write_all from_str key no_log (first_event ∷ second_event ∷ [])) key ≡ ok 2
verify-write_all_example =
    verify-write_all from_str key first_event (second_event ∷ []) (omega arith) both_read both_small

-- Without its first line the log does not verify.
abbrev cut_log : Disk
cut_log = record { live = some (line_of second_line ++ codes "\n"); backup = none }

cut_refused : verify from_str cut_log key ≡ err (discontinuity 1)
unfolding run
cut_refused = refl

-- After two rotations, the older of the two segments that are left begins with a line that follows a
-- lost one, and the log does not verify.
rotated_twice_refused :
    verify from_str (record { live = some []; backup = cut_log.live }) key ≡ err (discontinuity 1)
unfolding run
rotated_twice_refused = refl

value_chars :
    (l : Signed) (name t : Text)
    → AreChars l.previous
    → AreChars l.hmac
    → string_of (value_of l) name ≡ some t
    → AreChars t
unfolding get_value get_field
value_chars l name t previous hmac h = elim (Bool-cases (codes "event" == name)) [
  | inl event ↦ cc (event, h)
  | inr other ↦ elim (Bool-cases (codes "previous_hmac" == name)) [
    | inl first ↦ subst AreChars (some-injective l.previous t (rw (other, first) at h)) previous
    | inr third ↦ elim (Bool-cases (codes "hmac" == name)) [
      | inl last ↦ subst AreChars (some-injective l.hmac t (rw (other, third, last) at h)) hmac
      | inr missing ↦ cc (other, third, missing, h)
    ]
  ]
]

from_str-GivesChars : GivesChars from_str
unfolding from_str
from_str-GivesChars line value name t read h = elim (Bool-cases (line == line_of first_line)) [
  | inl one ↦
      let same = some-injective (value_of first_line) value (rw one at read) in
      value_chars first_line name t refl
        (hex-AreChars first_line.hmac (hmac-IsHex key [] first_event))
        (ap (λ v. string_of v name) same ∙ h)
  | inr not_one ↦ elim (Bool-cases (line == line_of second_line)) [
    | inl two ↦
        let same = some-injective (value_of second_line) value (rw (not_one, two) at read) in
        value_chars second_line name t
          (hex-AreChars first_line.hmac (hmac-IsHex key [] first_event))
          (hex-AreChars second_line.hmac (hmac-IsHex key first_line.hmac second_event))
          (ap (λ v. string_of v name) same ∙ h)
    | inr neither ↦ cc (not_one, neither, read)
  ]
]

abbrev whole_log : Disk
whole_log = write_all from_str key no_log (first_event ∷ second_event ∷ [])

verify_sound_example :
    (text : Text) × (whole_log.live ≡ some text)
    × IsLinkedFrom from_str key [] (all_lines whole_log.backup text)
    × (2 ≡ length (all_lines whole_log.backup text))
verify_sound_example =
    verify_sound from_str key from_str-GivesChars whole_log 2 verify-write_all_example

who_is_chars : all is_scalar (codes "anna \"a\"\n") ≡ true
unfolding run
who_is_chars = refl

read_string-escape_json_example :
    read_string (escape_json (codes "anna \"a\"\n") ++ (b'"' ∷ codes ","))
    ≡ some (codes "anna \"a\"\n", codes ",")
read_string-escape_json_example =
    read_string-escape_json (codes "anna \"a\"\n") (codes ",") who_is_chars

format_jsonl-IsLine_example : IsLine (format_jsonl first_record 5)
format_jsonl-IsLine_example = format_jsonl-IsLine first_record 5

abbrev three_actions : List Action
three_actions =
    submit first_record ∷ submit second_record ∷ write false none ∷ write true (some false) ∷ []

run_actions_lem_example :
    accounted (run_actions start three_actions) + failed_writes start three_actions ≡ 2
run_actions_lem_example = run_actions_lem three_actions (omega arith)

abbrev waiting : Machine
waiting = record start { queue = first_record ∷ second_record ∷ []; dropped = 3 }

rounds_drain_example :
    ((run_actions waiting (rounds 2)).queue ≡ [])
    × (records_of (run_actions waiting (rounds 2)).logged ≡ first_record ∷ second_record ∷ [])
rounds_drain_example = rounds_drain waiting

ingest_refuses :
    append_remote_event from_str [] (line_of first_line) (codes "sha256=00") key
    ≡ err invalid_signature
unfolding run
ingest_refuses = refl
