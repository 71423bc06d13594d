-- ===== src/Audit/Verify/Reading.antt =====
-- src/audit.rs: the lines of a written log are read back as they were written.
use mathlib.Core.Option.{some-injective}
use glasir_control.Prelude.{
  list_beq, ℕ, ◌≡◌, refl, ap, ◌∙◌, subst, inl, inr, Bool, true, false, Option, none, some, List, [],
  ◌∷◌, ◌++◌, map, arith, and-true, and_intro, or-true, length, all, contains, ◌==◌, eq_iff, nat_eq,
  Bool_eq, list_eq, pair_eq, or_else, and_then,
}
use glasir_control.Text.{Text, codes, text_of, utf8_width, byte_len, is_ascii_hexdigit}
use glasir_control.Text.Lines.{strip_cr, lines, unlines, IsLine, AreLines, lines-unlines}
use glasir_control.Text.Utf8.{as_bytes}
use glasir_control.Crypto.{hex}
use glasir_control.Crypto.Padding.{is_hex_lower, hmac_sha256_hex-digits}
use glasir_control.Json.{Value, get_field, get_value, as_str}
use glasir_control.Audit.Line.{◌⊹◌, line, format_jsonl-IsLine}
use glasir_control.Audit.Log.{is_hmac, keep_if, last_match, line_hmac}
use glasir_control.Audit.Chain.{
  Event, event_text, Signed, line_of, sign, chain, last_of, IsRead, AllRead,
}
use glasir_control.Audit.Verify.{IsHex, hmac-IsHex}

-- The text ends in a closing brace.
ends : Text → Bool
ends [] = false
ends (c ∷ []) = c == b'}'
ends (c ∷ d ∷ s) = ends (d ∷ s)

ends_cons : (c : ℕ) (s : Text) → ends s ≡ true → ends (c ∷ s) ≡ true
unfolding ends
ends_cons c [] h = cc h
ends_cons c (d ∷ s) h = h

ends-append : (a b : Text) → ends b ≡ true → ends (a ++ b) ≡ true
unfolding ends
ends-append [] b h = h
ends-append (c ∷ a) b h = ends_cons c (a ++ b) (ends-append a b h)

strip_cr-ends : (s : Text) → ends s ≡ true → strip_cr s ≡ s
unfolding strip_cr ends
strip_cr-ends [] h = refl
strip_cr-ends (c ∷ []) h = ground (arith, h)
strip_cr-ends (c ∷ d ∷ s) h = ap (λ (t : Text). c ∷ t) (strip_cr-ends (d ∷ s) h)

brace_ends : ends (codes "\"}") ≡ true
unfolding ends
brace_ends = refl

line_of-ends : (l : Signed) → ends (line_of l) ≡ true
line_of-ends l = ends-append (codes "{\"event\":") _ (
    ends-append (event_text l.event) _ (
      ends-append (codes ",\"previous_hmac\":\"") _ (
        ends-append l.previous _
          (ends-append (codes "\",\"hmac\":\"") _ (ends-append l.hmac (codes "\"}") brace_ends)))))

hex-IsLine : (t : Text) → IsHex t → IsLine t
hex-IsLine [] h = refl
hex-IsLine (c ∷ t) h =
    let (here, later) = and-true (is_hex_lower c) (all is_hex_lower t) h in
    ground (arith, here, hex-IsLine t later)

line_of-IsLine : (l : Signed) → IsHex l.previous → IsHex l.hmac → IsLine (line_of l)
line_of-IsLine l previous hmac =
    (line (codes "{\"event\":") refl
      ⊹ line (event_text l.event) (format_jsonl-IsLine (l.event.0) (l.event.1))
      ⊹ line (codes ",\"previous_hmac\":\"") refl
      ⊹ line l.previous (hex-IsLine l.previous previous)
      ⊹ line (codes "\",\"hmac\":\"") refl
      ⊹ line l.hmac (hex-IsLine l.hmac hmac)
      ⊹ line (codes "\"}") refl).is_line

module _ (key : List ℕ) where
  chain-AreLines :
      (previous : Text) (es : List Event)
      → IsHex previous
      → AreLines (map line_of (chain key previous es))
  chain-AreLines previous [] hex t h = cc h
  chain-AreLines previous (e ∷ es) hex t h =
      let l = sign key previous e in
      elim (or-true (line_of l == t) (contains (map line_of (chain key l.hmac es)) t) h) [
        | inl here ↦
            subst IsLine ((eq_iff (line_of l) t).0 here)
              (line_of-IsLine l hex (hmac-IsHex key previous e))
        | inr there ↦ chain-AreLines l.hmac es (hmac-IsHex key previous e) t there
      ]

  strip_cr-lines : (ls : List Signed) → map strip_cr (map line_of ls) ≡ map line_of ls
  strip_cr-lines [] = refl
  strip_cr-lines (l ∷ ls) = rw (strip_cr-ends (line_of l) (line_of-ends l), strip_cr-lines ls) refl

  pub lines-chain :
      (previous : Text) (es : List Event)
      → IsHex previous
      → lines (unlines (map line_of (chain key previous es))) ≡ map line_of (chain key previous es)
  lines-chain previous es hex =
      lines-unlines (map line_of (chain key previous es)) (chain-AreLines previous es hex)
      ∙ strip_cr-lines (chain key previous es)

hex_fits : (c : ℕ) → is_hex_lower c ≡ true → (utf8_width c ≡ 1) × (is_ascii_hexdigit c ≡ true)
unfolding utf8_width is_ascii_hexdigit
hex_fits c h = (ground (arith, h), ground (arith, h))

byte_len-hex : (t : Text) → IsHex t → (byte_len t ≡ length t) × (all is_ascii_hexdigit t ≡ true)
unfolding byte_len
byte_len-hex [] h = (refl, refl)
byte_len-hex (c ∷ t) h =
    let (here, later) = and-true (is_hex_lower c) (all is_hex_lower t) h in
    let (one, digit) = hex_fits c here in
    let (len, digits) = byte_len-hex t later in
    (omega (arith, one, len), and_intro _ _ digit digits)

hmac-is_hmac :
    (key : List ℕ) (previous : Text) (e : Event) → is_hmac (sign key previous e).hmac ≡ true
hmac-is_hmac key previous e =
    let (len, hex) =
      hmac_sha256_hex-digits key (as_bytes (previous ++ (codes "\n" ++ event_text e))) in
    let (bytes, digits) = byte_len-hex (sign key previous e).hmac hex in
    ground (arith, len, bytes, digits)

module _ (from_str : Text → Option Value) (key : List ℕ) where
  line_hmac-sign :
      (previous : Text) (e : Event)
      → IsRead from_str (sign key previous e)
      → line_hmac from_str (line_of (sign key previous e)) ≡ some (sign key previous e).hmac
  unfolding get_value get_field list_beq
  line_hmac-sign previous e r =
      ap
        (λ o.
          and_then (and_then (and_then o (λ v. get_value v (codes "hmac"))) as_str)
            (keep_if is_hmac))
        r.read
      ∙ rw (hmac-is_hmac key previous e) refl

  -- Behind a line with an HMAC, the last HMAC of a chain is the one of its last line.
  last_match-chain :
      (previous : Text) (es : List Event)
      → AllRead from_str (chain key previous es)
      → or_else
          (last_match (line_hmac from_str) (map line_of (chain key previous es)))
          (some previous)
        ≡ some (last_of key previous es)
  last_match-chain previous [] reads = refl
  last_match-chain previous (e ∷ es) (here, more) =
      let l = sign key previous e in
      let later = last_match-chain l.hmac es more in
      ap
        (λ o.
          or_else (or_else (last_match (line_hmac from_str) (map line_of (chain key l.hmac es))) o)
            (some previous))
        (line_hmac-sign previous e here)
      ∙ ap (λ o. or_else o (some previous)) later

  text_of-or_else : (o : Option Text) (t : Text) → or_else o (some []) ≡ some t → text_of o ≡ t
  text_of-or_else none t h = some-injective [] t h
  text_of-or_else (some a) t h = some-injective a t h

  pub last-chain :
      (es : List Event)
      → AllRead from_str (chain key [] es)
      → text_of (last_match (line_hmac from_str) (map line_of (chain key [] es)))
        ≡ last_of key [] es
  last-chain es reads = text_of-or_else _ _ (last_match-chain [] es reads)
