-- ===== src/Audit/Verify.antt =====
-- src/audit.rs: what the writer signs passes the verifier.
pub mod Reading
pub mod Writing
pub mod Sound
use glasir_control.Prelude.{
  list_beq, ℕ, ◌+◌, ◌≡◌, refl, ap, ◌∙◌, true, Option, List, [], ◌∷◌, ◌++◌, map, arith, length, all,
  nat_eq, Bool_eq, list_eq, pair_eq, ok, bind_ok, require_ok, ok_or_some,
}
use glasir_control.Text.{Text, codes}
use glasir_control.Text.Utf8.{as_bytes}
use glasir_control.Security.{constant_time_eq}
use glasir_control.Crypto.{hex}
use glasir_control.Crypto.Padding.{is_hex_lower, hmac_sha256_hex-digits}
use glasir_control.Crypto.Signatures.{bytes_eq_iff, hex-AreChars}
use glasir_control.Auth.{read}
use glasir_control.Json.{Value, get_field, get_value}
use glasir_control.Audit.Log.{
  invalid_json, discontinuity, mismatch, at_line, verify_line, verify_lines,
}
use glasir_control.Audit.Chain.{
  Event, event_text, line_of, sign, chain, last_of, IsRead, AllRead, canonical_event-value_of,
}

-- A text of lower case hexadecimal digits, as an HMAC is, or the empty one before the first line.
abbrev pub IsHex : Text → Type 0
IsHex t = all is_hex_lower t ≡ true

pub hmac-IsHex : (key : List ℕ) (previous : Text) (e : Event) → IsHex (sign key previous e).hmac
hmac-IsHex key previous e =
    (hmac_sha256_hex-digits key (as_bytes (previous ++ (codes "\n" ++ event_text e)))).1

same_bytes : (a : Text) → IsHex a → constant_time_eq (as_bytes a) (as_bytes a) ≡ true
same_bytes a h = (bytes_eq_iff a a (hex-AreChars a h) (hex-AreChars a h)).1 refl

module _ (from_str : Text → Option Value) (key : List ℕ) where
  verify_line-sign :
      (previous : Text) (n : ℕ) (e : Event)
      → IsHex previous
      → IsRead from_str (sign key previous e)
      → verify_line from_str key previous n (line_of (sign key previous e))
        ≡ ok (sign key previous e).hmac
  unfolding verify_line
  verify_line-sign previous n e hex r =
      let l = sign key previous e in
      bind_ok _ (ok_or_some (invalid_json n) r.read) (
        bind_ok _ (ap (at_line n) (canonical_event-value_of l r.status_fits)) (
          unfold get_value get_field list_beq in
          bind_ok _
            (require_ok {test = constant_time_eq (as_bytes previous) (as_bytes previous)}
              (discontinuity n) (same_bytes previous hex))
            (bind_ok _
              (require_ok {test = constant_time_eq (as_bytes l.hmac) (as_bytes l.hmac)} (mismatch n)
                (same_bytes l.hmac (hmac-IsHex key previous e)))
              refl)))

  pub verify_lines-chain :
      (previous : Text) (count n : ℕ) (es : List Event)
      → IsHex previous
      → AllRead from_str (chain key previous es)
      → verify_lines from_str key previous count n (map line_of (chain key previous es))
        ≡ ok (last_of key previous es, count + length es)
  unfolding verify_lines
  verify_lines-chain previous count n [] hex reads = ap (λ (m : ℕ). ok (previous, m)) (omega arith)
  verify_lines-chain previous count n (e ∷ es) hex (here, more) =
      let l = sign key previous e in
      bind_ok _ (verify_line-sign previous (n + 1) e hex here) (
        verify_lines-chain l.hmac (count + 1) (n + 1) es (hmac-IsHex key previous e) more
        ∙ ap (λ (m : ℕ). ok (last_of key l.hmac es, m)) (omega arith))
