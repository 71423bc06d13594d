-- ===== src/Audit/Escaping.antt =====
-- src/audit.rs, `escape_json`: the text between the quotation marks means what was logged, and a record
-- is one line.
use glasir_control.Prelude.{
  ℕ, zero, suc, ◌+◌, ◌*◌, ◌/◌, ◌%◌, ◌<◌, ◌≡◌, refl, ap, ◌∙◌, inl, inr, true, false, Option, none,
  some, [], ◌∷◌, ◌++◌, append_assoc, arith, ltb, if◌then◌else◌, Bool-cases, and-true, all, ◌==◌,
  eq_iff, nat_eq, Bool_eq, list_eq, pair_eq,
}
use glasir_control.Text.{Text}
use glasir_control.Text.Utf8.{is_scalar}
use glasir_control.Security.{to_digit}
use glasir_control.Crypto.{hex_lower}
use glasir_control.Audit.{is_control, hex4, escape_char, escape_json}

-- RFC 8259, section 7: the character that an escape of one letter stands for.
abbrev short_escape : ℕ → Option ℕ
short_escape c =
    if c == b'"'
    then some b'"'
    else if c == b'\\'
    then some b'\\'
    else if c == b'/'
    then some b'/'
    else if c == b'b'
    then some 8
    else if c == b'f'
    then some 12
    else if c == b'n'
    then some 10
    else if c == b'r'
    then some 13
    else if c == b't'
    then some 9
    else none

-- Where the reader stands: between characters, behind a backslash, or in the digits of `\u`, with how
-- many are missing behind the next one and their value so far.
pub data Mode : Type 0 where
  between : Mode
  escaping : Mode
  in_digits : ℕ → ℕ → Mode

-- The character of a code unit that is no surrogate.
abbrev unit_char : ℕ → Option ℕ
unit_char n = if is_scalar n then some n else none

abbrev put_char : Option ℕ → Option (Text × Text) → Option (Text × Text)
put_char (some c) (some (s, rest)) = some (c ∷ s, rest)
put_char _ _ = none

-- The grammar of RFC 8259, section 7: the characters up to the closing quotation mark, and the text
-- behind it. A surrogate pair, which the program never writes, is refused.
unfoldable read_from : Mode → Text → Option (Text × Text)
read_from mode [] = none
read_from between (c ∷ s) =
    let plain = read_from between s in
    let escaped = read_from escaping s in
    if c == b'"'
    then some ([], s)
    else if c == b'\\'
    then escaped
    else if ltb c 0x20
    then none
    else put_char (some c) plain
read_from escaping (c ∷ s) =
    let plain = read_from between s in
    let digits = read_from (in_digits 3 0) s in
    if c == b'u' then digits else put_char (short_escape c) plain
read_from (in_digits k n) (c ∷ s) = elim (to_digit c) [
  | none ↦ none
  | some d ↦ elim k [
    | zero ↦ put_char (unit_char (n * 16 + d)) (read_from between s)
    | suc k' ↦ read_from (in_digits k' (n * 16 + d)) s
  ]
]

-- A string from behind its opening quotation mark.
unfoldable pub read_string : Text → Option (Text × Text)
unfolding read_from
read_string s = read_from between s

to_digit-hex_lower : (d : ℕ) → d < 16 → to_digit (hex_lower d) ≡ some d
unfolding to_digit
to_digit-hex_lower d h = ground arith

hex4_value :
    (c : ℕ)
    → c < 65536
    → (((0 * 16 + c / 4096 % 16) * 16 + c / 256 % 16) * 16 + c / 16 % 16) * 16 + c % 16 ≡ c
hex4_value c h = omega arith

read_digit :
    (k n d x : ℕ) (s : Text)
    → to_digit x ≡ some d
    → read_from (in_digits (suc k) n) (x ∷ s) ≡ read_from (in_digits k (n * 16 + d)) s
unfolding read_from
read_digit k n d x s h = rw (read_from, h) refl

read_last :
    (n d x : ℕ) (s : Text)
    → to_digit x ≡ some d
    → read_from (in_digits 0 n) (x ∷ s) ≡ put_char (unit_char (n * 16 + d)) (read_from between s)
unfolding read_from
read_last n d x s h = rw (read_from, h) refl

read-hex4 :
    (c : ℕ) (rest : Text)
    → c < 256
    → is_scalar c ≡ true
    → read_from (in_digits 3 0) (hex4 c ++ rest) ≡ put_char (some c) (read_from between rest)
read-hex4 c rest small scalar =
    let value = hex4_value c (omega arith) in
    read_digit 2 0 (c / 4096 % 16) _ _ (to_digit-hex_lower (c / 4096 % 16) (omega arith))
    ∙ read_digit 1 _ (c / 256 % 16) _ _ (to_digit-hex_lower (c / 256 % 16) (omega arith))
    ∙ read_digit 0 _ (c / 16 % 16) _ _ (to_digit-hex_lower (c / 16 % 16) (omega arith))
    ∙ read_last _ (c % 16) _ rest (to_digit-hex_lower (c % 16) (omega arith))
    ∙ ap (λ n. put_char (unit_char n) (read_from between rest)) value
    ∙ rw scalar refl

-- `\` and a letter.
read_short :
    (d c : ℕ) (rest : Text)
    → d == b'u' ≡ false
    → short_escape d ≡ some c
    → read_from between (b'\\' ∷ d ∷ rest) ≡ put_char (some c) (read_from between rest)
unfolding read_from
read_short d c rest other h = rw (other, h) refl

read_plain :
    (c : ℕ) (rest : Text)
    → c == b'"' ≡ false
    → c == b'\\' ≡ false
    → ltb c 0x20 ≡ false
    → read_from between (c ∷ rest) ≡ put_char (some c) (read_from between rest)
unfolding read_from
read_plain c rest p q r = rw (p, q, r) refl

read_unit : (rest : Text) → read_from between (b'\\' ∷ b'u' ∷ rest) ≡ read_from (in_digits 3 0) rest
unfolding read_from
read_unit rest = refl

read-escape_char :
    (c : ℕ) (rest : Text)
    → is_scalar c ≡ true
    → read_from between (escape_char c ++ rest) ≡ put_char (some c) (read_from between rest)
unfolding escape_char
read-escape_char c rest scalar = elim (Bool-cases (c == b'"')) [
  | inl q ↦ rw ((eq_iff c b'"').0 q) (read_short b'"' b'"' rest refl refl)
  | inr q ↦ elim (Bool-cases (c == b'\\')) [
    | inl b ↦ rw ((eq_iff c b'\\').0 b) (read_short b'\\' b'\\' rest refl refl)
    | inr b ↦ elim (Bool-cases (c == b'\n')) [
      | inl n ↦ rw ((eq_iff c b'\n').0 n) (read_short b'n' b'\n' rest refl refl)
      | inr n ↦ elim (Bool-cases (c == b'\r')) [
        | inl r ↦ rw ((eq_iff c b'\r').0 r) (read_short b'r' b'\r' rest refl refl)
        | inr r ↦ elim (Bool-cases (c == b'\t')) [
          | inl t ↦ rw ((eq_iff c b'\t').0 t) (read_short b't' b'\t' rest refl refl)
          | inr t ↦ elim (Bool-cases (is_control c)) [
            | inl control ↦
                rw (q, b, n, r, t, control)
                  (read_unit (hex4 c ++ rest) ∙ read-hex4 c rest (ground (arith, control)) scalar)
            | inr printed ↦
                rw (q, b, n, r, t, printed) (read_plain c rest q b (ground (arith, printed)))
          ]
        ]
      ]
    ]
  ]
]

read_from-escape_json :
    (s rest : Text)
    → all is_scalar s ≡ true
    → read_from between (escape_json s ++ (b'"' ∷ rest)) ≡ some (s, rest)
unfolding escape_json
read_from-escape_json [] rest h = unfold read_from in refl
read_from-escape_json (c ∷ s) rest h =
    let (here, later) = and-true (is_scalar c) (all is_scalar s) h in
    ap (read_from between) (append_assoc (escape_char c) (escape_json s) (b'"' ∷ rest))
    ∙ read-escape_char c (escape_json s ++ (b'"' ∷ rest)) here
    ∙ ap (put_char (some c)) (read_from-escape_json s rest later)

-- A JSON reader takes what escape_json writes, up to the quotation mark behind it, for the text that was
-- written, whatever characters it holds.
pub read_string-escape_json :
    (s rest : Text)
    → all is_scalar s ≡ true
    → read_string (escape_json s ++ (b'"' ∷ rest)) ≡ some (s, rest)
unfolding read_string
read_string-escape_json s rest h = read_from-escape_json s rest h
