-- ===== src/Audit/Line.antt =====
-- src/audit.rs, `format_jsonl`: a record is one line of the log, whatever it holds.
use glasir_control.Prelude.{
  ℕ, zero, suc, ◌+◌, ◌/◌, ◌%◌, ◌<◌, ◌≡◌, refl, inl, inr, false, Option, none, some, [], ◌∷◌, ◌++◌,
  arith, ltb, Bool-cases, contains-append, ◌==◌, nat_eq, Bool_eq, list_eq, pair_eq,
}
use glasir_control.Text.{Text, codes}
use glasir_control.Text.Lines.{IsLine}
use glasir_control.Proxy.{digits_from, show}
use glasir_control.Crypto.{hex_lower}
use glasir_control.Audit.{
  Record, escape_char, escape_json, quoted, quoted_or_null, missed_str, format_jsonl,
}

pub IsLine-append : (a b : Text) → IsLine a → IsLine b → IsLine (a ++ b)
IsLine-append a b ha hb = ground (arith, contains-append a b b'\n', ha, hb)

hex_lower_other : (d : ℕ) → d < 16 → hex_lower d == b'\n' ≡ false
hex_lower_other d h = ground arith

escape_char-IsLine : (c : ℕ) → IsLine (escape_char c)
unfolding escape_char
escape_char-IsLine c = ground (
  arith,
  hex_lower_other (c / 4096 % 16) (omega arith),
  hex_lower_other (c / 256 % 16) (omega arith),
  hex_lower_other (c / 16 % 16) (omega arith),
  hex_lower_other (c % 16) (omega arith),
)

escape_json-IsLine : (s : Text) → IsLine (escape_json s)
unfolding escape_json
escape_json-IsLine [] = refl
escape_json-IsLine (c ∷ s) =
    IsLine-append (escape_char c) (escape_json s) (escape_char-IsLine c) (escape_json-IsLine s)

quoted-IsLine : (s : Text) → IsLine (quoted s)
quoted-IsLine s =
    IsLine-append (codes "\"") (escape_json s ++ codes "\"") refl
      (IsLine-append (escape_json s) (codes "\"") (escape_json-IsLine s) refl)

quoted_or_null-IsLine : (s : Option Text) → IsLine (quoted_or_null s)
quoted_or_null-IsLine none = refl
quoted_or_null-IsLine (some s) = quoted-IsLine s

digits_from-IsLine : (fuel n : ℕ) (out : Text) → IsLine out → IsLine (digits_from fuel n out)
unfolding digits_from
digits_from-IsLine zero n out h = h
digits_from-IsLine (suc fuel) n out h =
    let out' = (b'0' + n % 10) ∷ out in
    let here : IsLine out' = ground (arith, h) in
    let more = digits_from-IsLine fuel (n / 10) out' here in
    elim (Bool-cases (n / 10 == 0)) [ inl last ↦ rw last here | inr other ↦ rw other more ]

show-IsLine : (n : ℕ) → IsLine (show n)
unfolding show
show-IsLine n = digits_from-IsLine (suc n) n [] refl

missed_str-IsLine : (missed : ℕ) → IsLine (missed_str missed)
missed_str-IsLine missed = elim (Bool-cases (ltb 0 missed)) [
  | inl lost ↦
      rw lost (IsLine-append (codes ",\"dropped_before\":") (show missed) refl (show-IsLine missed))
  | inr whole ↦ rw whole refl
]

-- The same as a record, whose text can be read off its type.
pub record IsOneLine (s : Text) : Type 0 where
  pub is_line : IsLine s

infixr 55 ◌⊹◌
pub ◌⊹◌ : {a b : Text} → IsOneLine a → IsOneLine b → IsOneLine (a ++ b)
◌⊹◌ {a} {b} x y = record { is_line = IsLine-append a b x.is_line y.is_line }

pub line : (s : Text) → IsLine s → IsOneLine s
line s h = record { is_line = h }

-- The record is written on one line: no field, whatever a caller puts into it, can begin another one.
pub format_jsonl-IsLine : (rec : Record) (missed : ℕ) → IsLine (format_jsonl rec missed)
unfolding format_jsonl
format_jsonl-IsLine rec missed =
    (line (codes "{\"ts\":") refl
      ⊹ line (show rec.ts) (show-IsLine rec.ts)
      ⊹ line (codes ",\"who\":") refl
      ⊹ line (quoted_or_null rec.who) (quoted_or_null-IsLine rec.who)
      ⊹ line (codes ",\"tree\":") refl
      ⊹ line (quoted_or_null rec.tree_name) (quoted_or_null-IsLine rec.tree_name)
      ⊹ line (codes ",\"method\":") refl
      ⊹ line (quoted rec.method) (quoted-IsLine rec.method)
      ⊹ line (codes ",\"path\":") refl
      ⊹ line (quoted rec.path) (quoted-IsLine rec.path)
      ⊹ line (codes ",\"status\":") refl
      ⊹ line (show rec.status) (show-IsLine rec.status)
      ⊹ line (codes ",\"bytes\":") refl
      ⊹ line (show rec.bytes) (show-IsLine rec.bytes)
      ⊹ line (codes ",\"duration_ms\":") refl
      ⊹ line (show rec.duration_ms) (show-IsLine rec.duration_ms)
      ⊹ line (codes ",\"client_addr\":") refl
      ⊹ line (quoted rec.client_addr) (quoted-IsLine rec.client_addr)
      ⊹ line (missed_str missed) (missed_str-IsLine missed)
      ⊹ line (codes "}") refl).is_line
