-- ===== src/Audit/Chain.antt =====
-- src/audit.rs: the lines that the writer signs, and what serde_json reads of them.
use glasir_control.Prelude.{
  list_beq, ℕ, ◌^◌, ◌<◌, ◌≡◌, refl, ap, inl, inr, Option, none, some, List, [], ◌∷◌, ◌++◌, arith,
  ltb, if◌then◌else◌, Bool-cases, nat_eq, Bool_eq, list_eq, pair_eq, ok, bind_ok, require_ok,
  and_then, or_zero,
}
use glasir_control.Text.{Text, codes}
use glasir_control.Json.{
  Value, null_value, number_value, string_value, object_value, Fields, no_fields, field, get_field,
  get_value, as_u64,
}
use glasir_control.Audit.{Record, format_jsonl}
use glasir_control.Audit.Log.{
  signed_line, hmac_of_event, optional_of, event_record, canonical_event,
}

-- An event as it is logged: the record, and how many were dropped before it.
abbrev pub Event : Type 0
Event = Record × ℕ

abbrev pub event_text : Event → Text
event_text e = format_jsonl (e.0) (e.1)

-- A line of the chain: the event, the HMAC before it, and its own.
pub record Signed : Type 0 where
  pub event : Event
  pub previous : Text
  pub hmac : Text

abbrev pub line_of : Signed → Text
line_of l = signed_line (event_text l.event) l.previous l.hmac

abbrev pub sign : List ℕ → Text → Event → Signed
sign key previous e = record {
  event = e;
  previous = previous;
  hmac = hmac_of_event key previous (event_text e);
}

-- The chain of the events, behind a line with the HMAC `previous`.
abbrev pub chain : List ℕ → Text → List Event → List Signed
chain key previous [] = []
chain key previous (e ∷ es) = sign key previous e ∷ chain key (sign key previous e).hmac es

abbrev pub last_of : List ℕ → Text → List Event → Text
last_of key previous [] = previous
last_of key previous (e ∷ es) = last_of key (sign key previous e).hmac es

abbrev pub option_value : Option Text → Value
option_value none = null_value
option_value (some s) = string_value s

abbrev pub dropped_field : ℕ → Fields
dropped_field missed =
    if ltb 0 missed
    then field (codes "dropped_before") (number_value missed) no_fields
    else no_fields

-- The object that an event's text denotes.
abbrev pub event_value : Event → Fields
event_value e = field (codes "ts") (number_value (e.0).ts) (
    field (codes "who") (option_value (e.0).who) (
      field (codes "tree") (option_value (e.0).tree_name) (
        field (codes "method") (string_value (e.0).method) (
          field (codes "path") (string_value (e.0).path) (
            field (codes "status") (number_value (e.0).status) (
              field (codes "bytes") (number_value (e.0).bytes) (
                field (codes "duration_ms") (number_value (e.0).duration_ms) (
                  field (codes "client_addr") (string_value (e.0).client_addr)
                    (dropped_field (e.1))))))))))

abbrev pub value_of : Signed → Value
value_of l = object_value (
    field (codes "event") (object_value (event_value l.event)) (
      field (codes "previous_hmac") (string_value l.previous)
        (field (codes "hmac") (string_value l.hmac) no_fields)))

-- What is taken for granted of each line: serde_json reads the object that the line denotes, and the
-- status is a u16.
pub record IsRead (from_str : Text → Option Value) (l : Signed) : Type 0 where
  pub read : from_str (line_of l) ≡ some (value_of l)
  pub status_fits : (l.event.0).status < 2 ^ 16

abbrev pub AllRead : (Text → Option Value) → List Signed → Type 0
AllRead from_str [] = Unit
AllRead from_str (l ∷ ls) = IsRead from_str l × AllRead from_str ls

pub AllRead-append :
    (from_str : Text → Option Value) (xs ys : List Signed)
    → AllRead from_str (xs ++ ys)
    → AllRead from_str xs × AllRead from_str ys
AllRead-append from_str [] ys h = (tt, h)
AllRead-append from_str (x ∷ xs) ys (here, more) =
    let (left, right) = AllRead-append from_str xs ys more in ((here, left), right)

pub chain-append :
    (key : List ℕ) (previous : Text) (xs ys : List Event)
    → chain key previous (xs ++ ys)
      ≡ chain key previous xs ++ chain key (last_of key previous xs) ys
chain-append key previous [] ys = refl
chain-append key previous (x ∷ xs) ys =
    ap (λ (t : List Signed). sign key previous x ∷ t)
      (chain-append key (sign key previous x).hmac xs ys)

pub last_of-append :
    (key : List ℕ) (previous : Text) (xs ys : List Event)
    → last_of key previous (xs ++ ys) ≡ last_of key (last_of key previous xs) ys
last_of-append key previous [] ys = refl
last_of-append key previous (x ∷ xs) ys = last_of-append key (sign key previous x).hmac xs ys

optional_of-option_value : (o : Option Text) → optional_of (some (option_value o)) ≡ ok o
optional_of-option_value none = refl
optional_of-option_value (some s) = refl

dropped_before :
    (missed : ℕ)
    → or_zero (and_then (get_field (dropped_field missed) (codes "dropped_before")) as_u64) ≡ missed
unfolding get_field list_beq
dropped_before missed = elim (Bool-cases (ltb 0 missed)) [
  | inl lost ↦ rw lost refl
  | inr whole ↦ rw whole (ground (arith, whole))
]

-- The record that is read of an event is the one that was logged.
pub event_record-event_value :
    (e : Event) → (e.0).status < 2 ^ 16 → event_record (event_value e) ≡ ok e
unfolding event_record get_field list_beq
event_record-event_value e fits =
    bind_ok _ (require_ok {test = ltb (e.0).status (2 ^ 16)} _ (ground (arith, fits))) (
      bind_ok _ (optional_of-option_value (e.0).who) (
        bind_ok _ (optional_of-option_value (e.0).tree_name)
          (ap (λ (m : ℕ). ok (e.0, m)) (dropped_before (e.1)))))

pub canonical_event-value_of :
    (l : Signed)
    → (l.event.0).status < 2 ^ 16
    → canonical_event (value_of l) ≡ ok (event_text l.event)
unfolding canonical_event get_value get_field list_beq
canonical_event-value_of l fits =
    bind_ok (λ made. ok (format_jsonl (made.0) (made.1))) (event_record-event_value l.event fits)
      refl
