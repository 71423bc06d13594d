-- ===== src/Audit/Log.antt =====
-- src/audit.rs: the writer, the verifier and the reader of the log, over the text of the file and of its
-- one rotated segment. The advisory lock makes each of them one step; an error of the file system leaves
-- the log as it is and is not modelled.
use glasir_control.Prelude.{
  ℕ, ◌+◌, ◌*◌, ◌^◌, Bool, not, ◌&&◌, Option, none, some, List, [], ◌∷◌, ◌++◌, ltb, leb,
  if◌then◌else◌, length, all, filter, ◌==◌, nat_eq, Bool_eq, list_eq, pair_eq, Result, ok, err,
  ◌>>=◌, ok_or, require, or_else, and_then, or_zero,
}
use glasir_control.Text.{Text, codes, text_of, byte_len, is_ascii_hexdigit}
use glasir_control.Text.Lines.{lines}
use glasir_control.Text.Utf8.{as_bytes}
use glasir_control.Security.{constant_time_eq}
use glasir_control.Crypto.{take, hmac_sha256_hex}
use glasir_control.Rights.Validate.{entry}
use glasir_control.Json.{
  Value, null_value, string_value, Fields, get_field, get_value, as_str, as_u64, as_object,
  is_object,
}
use glasir_control.Audit.{Record, format_jsonl}
use glasir_control.Audit.Line.{line}

-- The log file, and the segment that the last rotation kept; either may be missing.
pub record Disk : Type 0 where
  pub live : Option Text
  pub backup : Option Text

abbrev pub max_bytes : ℕ
max_bytes = 10 * 1024 * 1024

-- The rotation: `rename` replaces an older backup.
abbrev pub rotate_segment : Option Text → Option Text → Disk
rotate_segment none backup = record { live = none; backup = backup }
rotate_segment (some text) backup =
    if leb max_bytes (byte_len text)
    then record { live = none; backup = some text }
    else record { live = some text; backup = backup }

unfoldable pub rotate : Disk → Disk
unfolding byte_len
rotate disk = rotate_segment disk.live disk.backup

-- `writeln!` to the file opened for appending
abbrev pub append_line : Disk → Text → Disk
append_line disk line = record disk { live = some (text_of disk.live ++ (line ++ codes "\n")) }

abbrev pub signed_line : Text → Text → Text → Text
signed_line event previous_hmac hmac =
    codes "{\"event\":"
    ++ (event
        ++ (codes ",\"previous_hmac\":\""
            ++ (previous_hmac ++ (codes "\",\"hmac\":\"" ++ (hmac ++ codes "\"}")))))

abbrev pub hmac_of_event : List ℕ → Text → Text → Text
hmac_of_event key previous_hmac event =
    hmac_sha256_hex key (as_bytes (previous_hmac ++ (codes "\n" ++ event)))

abbrev pub is_hmac : Text → Bool
is_hmac t = byte_len t == 64 && all is_ascii_hexdigit t

abbrev pub keep_if : (Text → Bool) → Text → Option Text
keep_if p t = if p t then some t else none

-- `iter().rev().find_map(f)`
abbrev pub last_match : {A B : Type 0} → (A → Option B) → List A → Option B
last_match f [] = none
last_match f (x ∷ xs) = or_else (last_match f xs) (f x)

pub data VerifyError : Type 0 where
  short_key : VerifyError
  unreadable : VerifyError
  invalid_json : ℕ → VerifyError
  not_canonical : ℕ → VerifyError
  unsigned : ℕ → VerifyError
  discontinuity : ℕ → VerifyError
  mismatch : ℕ → VerifyError

pub data CanonicalError : Type 0 where
  missing_event : CanonicalError
  invalid_optional_string : CanonicalError
  missing_string : CanonicalError
  missing_number : CanonicalError
  invalid_status : CanonicalError

abbrev pub optional_of : Option Value → Result (Option Text) CanonicalError
optional_of (some (string_value s)) = ok (some s)
optional_of (some null_value) = ok none
optional_of _ = err invalid_optional_string

abbrev pub optional_string : Fields → Text → Result (Option Text) CanonicalError
optional_string event name = optional_of (get_field event name)

abbrev pub string_field : Fields → Text → Result Text CanonicalError
string_field event name = ok_or (and_then (get_field event name) as_str) missing_string

abbrev pub number_field : Fields → Text → Result ℕ CanonicalError
number_field event name = ok_or (and_then (get_field event name) as_u64) missing_number

-- The record that an event stands for, and its `dropped_before`. `status` is a u16; a `usize` holds
-- every u64.
unfoldable pub event_record : Fields → Result (Record × ℕ) CanonicalError
unfolding get_field
event_record event = do
  status ← number_field event (codes "status")
  _ ← require (ltb status (2 ^ 16)) invalid_status
  bytes ← number_field event (codes "bytes")
  ts ← number_field event (codes "ts")
  who ← optional_string event (codes "who")
  tree_name ← optional_string event (codes "tree")
  method ← string_field event (codes "method")
  path ← string_field event (codes "path")
  duration_ms ← number_field event (codes "duration_ms")
  client_addr ← string_field event (codes "client_addr")
  ok (
    record {
      ts = ts;
      who = who;
      tree_name = tree_name;
      method = method;
      path = path;
      status = status;
      bytes = bytes;
      duration_ms = duration_ms;
      client_addr = client_addr;
    },
    or_zero (and_then (get_field event (codes "dropped_before")) as_u64),
  )

unfoldable pub canonical_event : Value → Result Text CanonicalError
unfolding event_record format_jsonl
canonical_event entry = do
  event ← ok_or (and_then (get_value entry (codes "event")) as_object) missing_event
  made ← event_record event
  ok (format_jsonl (made.0) (made.1))

abbrev pub at_line {ℓ} : {A : Type ℓ} → ℕ → Result A CanonicalError → Result A VerifyError
at_line n (ok a) = ok a
at_line n (err e) = err (not_canonical n)

-- `from_str` is serde_json's parser.
module _ (from_str : Text → Option Value) where
  abbrev pub line_hmac : Text → Option Text
  line_hmac line =
      and_then (and_then (and_then (from_str line) (λ v. get_value v (codes "hmac"))) as_str)
        (keep_if is_hmac)

  abbrev pub segment_hmac : Option Text → Option Text
  segment_hmac none = none
  segment_hmac (some text) = last_match line_hmac (lines text)

  -- The current segment first, then the backup.
  unfoldable pub last_hmac : Disk → Option Text
  last_hmac disk = or_else (segment_hmac disk.live) (segment_hmac disk.backup)

  abbrev pub write_signed : Disk → Text → List ℕ → Disk × Option Text
  write_signed disk event key =
      let previous_hmac = text_of (last_hmac disk) in
      let hmac = hmac_of_event key previous_hmac event in
      (append_line disk (signed_line event previous_hmac hmac), some hmac)

  -- `write_record_locked`: the log behind the record, and the record's HMAC if there is a key.
  unfoldable pub write_record : Disk → Record → ℕ → Option (List ℕ) → Disk × Option Text
  unfolding last_hmac rotate format_jsonl
  write_record disk rec missed none = (append_line (rotate disk) (format_jsonl rec missed), none)
  write_record disk rec missed (some key) = write_signed (rotate disk) (format_jsonl rec missed) key

  -- One line of `verify`, behind a line with the HMAC `previous`: the line's own.
  unfoldable pub verify_line : List ℕ → Text → ℕ → Text → Result Text VerifyError
  unfolding canonical_event constant_time_eq
  verify_line key previous n line = do
    value ← ok_or (from_str line) (invalid_json n)
    event ← at_line n (canonical_event value)
    recorded_previous ←
        ok_or (and_then (get_value value (codes "previous_hmac")) as_str) (unsigned n)
    recorded_hmac ← ok_or (and_then (get_value value (codes "hmac")) as_str) (unsigned n)
    _ ←
        require (constant_time_eq (as_bytes recorded_previous) (as_bytes previous))
          (discontinuity n)
    _ ←
        require
          (constant_time_eq (as_bytes recorded_hmac) (as_bytes (hmac_of_event key previous event)))
          (mismatch n)
    ok recorded_hmac

  -- The lines of a segment: the last HMAC, and how many records were counted.
  unfoldable pub verify_lines : List ℕ → Text → ℕ → ℕ → List Text → Result (Text × ℕ) VerifyError
  unfolding verify_line
  verify_lines key previous count n [] = ok (previous, count)
  verify_lines key previous count n (line ∷ more) = do
    hmac ← verify_line key previous (n + 1) line
    verify_lines key hmac (count + 1) (n + 1) more

  abbrev pub verify_backup : List ℕ → Option Text → Result (Text × ℕ) VerifyError
  verify_backup key none = ok ([], 0)
  verify_backup key (some text) = verify_lines key [] 0 0 (lines text)

  unfoldable pub verify : Disk → List ℕ → Result ℕ VerifyError
  unfolding verify_lines
  verify disk key = do
    _ ← require (leb 32 (length key)) short_key
    old ← verify_backup key disk.backup
    text ← ok_or disk.live unreadable
    both ← verify_lines key (old.0) (old.1) 0 (lines text)
    ok (both.1)

  abbrev pub parsed : Text → List Value
  parsed line = elim (from_str line) [ none ↦ [] | some v ↦ v ∷ [] ]

  -- The newest `limit` events, at most 200, that `keep` accepts.
  unfoldable pub recent : Text → ℕ → (Value → Bool) → List Value
  recent text limit keep =
      take (if ltb 200 limit then 200 else limit) (filter keep (newest (lines text)))
    where
      newest : List Text → List Value
      newest [] = []
      newest (line ∷ more) = newest more ++ parsed line

  pub data IngestError : Type 0 where
    too_large : IngestError
    invalid_signature : IngestError
    not_json : IngestError
    not_object : IngestError

  -- `append_remote_event`, with the text of the event: the file behind it.
  unfoldable pub append_remote_event : Text → Text → Text → List ℕ → Result Text IngestError
  append_remote_event file event signature key = do
    _ ← require (not (ltb (1024 * 1024) (byte_len event))) too_large
    _ ←
        require
          (constant_time_eq (as_bytes (codes "sha256=" ++ hmac_sha256_hex key (as_bytes event)))
            (as_bytes signature))
          invalid_signature
    value ← ok_or (from_str event) not_json
    _ ← require (is_object value) not_object
    ok (file ++ (event ++ codes "\n"))
