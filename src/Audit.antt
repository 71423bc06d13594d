-- ===== src/Audit.antt =====
-- src/audit.rs: a record of the audit log as one line of JSON, the file with its one rotated segment,
-- and the signed chain of its lines.
pub mod Escaping
pub mod Line
pub mod Log
pub mod Chain
pub mod Verify
pub mod Queue
mod Tests
use glasir_control.Prelude.{
  ℕ, ◌/◌, ◌%◌, Bool, ◌&&◌, ◌||◌, Option, none, some, [], ◌∷◌, ◌++◌, ltb, leb, if◌then◌else◌, ◌==◌,
  nat_eq, Bool_eq, list_eq, pair_eq,
}
use glasir_control.Text.{Text, codes}
use glasir_control.Proxy.{show}
use glasir_control.Crypto.{hex_lower}

pub record Record : Type 0 where
  pub ts : ℕ
  pub who : Option Text
  pub tree_name : Option Text
  pub method : Text
  pub path : Text
  pub status : ℕ
  pub bytes : ℕ
  pub duration_ms : ℕ
  pub client_addr : Text

-- char::is_control: the Unicode category Cc.
abbrev pub is_control : ℕ → Bool
is_control c = ltb c 0x20 || (leb 0x7f c && leb c 0x9f)

-- `{:04x}`, of a number below 2 ^ 16
abbrev pub hex4 : ℕ → Text
hex4 c =
    hex_lower (c / 4096 % 16)
    ∷ hex_lower (c / 256 % 16)
    ∷ hex_lower (c / 16 % 16)
    ∷ hex_lower (c % 16)
    ∷ []

-- What one character is written as.
unfoldable pub escape_char : ℕ → Text
escape_char c =
    if c == b'"'
    then b'\\' ∷ b'"' ∷ []
    else if c == b'\\'
    then b'\\' ∷ b'\\' ∷ []
    else if c == b'\n'
    then b'\\' ∷ b'n' ∷ []
    else if c == b'\r'
    then b'\\' ∷ b'r' ∷ []
    else if c == b'\t'
    then b'\\' ∷ b't' ∷ []
    else if is_control c
    then b'\\' ∷ b'u' ∷ hex4 c
    else c ∷ []

unfoldable pub escape_json : Text → Text
unfolding escape_char
escape_json [] = []
escape_json (c ∷ s) = escape_char c ++ escape_json s

abbrev pub quoted : Text → Text
quoted s = codes "\"" ++ (escape_json s ++ codes "\"")

abbrev pub quoted_or_null : Option Text → Text
quoted_or_null none = codes "null"
quoted_or_null (some s) = quoted s

abbrev pub missed_str : ℕ → Text
missed_str missed = if ltb 0 missed then codes ",\"dropped_before\":" ++ show missed else []

unfoldable pub format_jsonl : Record → ℕ → Text
unfolding escape_json show
format_jsonl rec missed =
    codes "{\"ts\":"
    ++ (show rec.ts
        ++ (codes ",\"who\":"
            ++ (quoted_or_null rec.who
                ++ (codes ",\"tree\":"
                    ++ (quoted_or_null rec.tree_name
                        ++ (codes ",\"method\":"
                            ++ (quoted rec.method
                                ++ (codes ",\"path\":"
                                    ++ (quoted rec.path
                                        ++ (codes ",\"status\":"
                                            ++ (show rec.status
                                                ++ (codes ",\"bytes\":"
                                                    ++ (show rec.bytes
                                                        ++ (codes ",\"duration_ms\":"
                                                            ++ (show rec.duration_ms
                                                            ++ (codes ",\"client_addr\":"
                                                            ++ (quoted rec.client_addr
                                                            ++ (missed_str missed
                                                            ++ codes "}"))))))))))))))))))
