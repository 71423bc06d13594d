-- ===== src/Http/Codes.antt =====
-- src/main.rs: the status code that a client reads of an answer.
use glasir_control.Prelude.{
  ℕ, ◌+◌, ◌-◌, ◌*◌, ◌^◌, ◌≡◌, refl, sym, ap, ◌∙◌, ◌⊎◌, inl, inr, Bool, true, false, ◌&&◌, Option,
  none, some, List, [], ◌∷◌, ◌++◌, append_assoc, append-nil, arith, ltb, leb, if◌then◌else◌,
  Bool-cases, and-true, and_intro, Option-cases, any, all, ◌==◌, nat_eq, Bool_eq, list_eq, pair_eq,
  and_then,
}
use glasir_control.Text.{Text, codes, is_whitespace, strip_prefix, split_by, is_ascii_digit}
use glasir_control.Text.Lines.{strip_cr, lines_from, lines, IsLine}
use glasir_control.Text.Pieces.{split_by-piece}
use glasir_control.Text.Utf8.{is_scalar, from_utf8, from_utf8-as_bytes}
use glasir_control.Security.Decoding.{is_ascii, as_bytes_ascii}
use glasir_control.Crypto.{take}
use glasir_control.Crypto.Signatures.{strip_prefix_sound}
use glasir_control.Auth.{digits_value, parse_u64}
use glasir_control.Proxy.Reply.{first_line, status_of, extract_status}
use glasir_control.Http.{Answer, answer, relayed, panicked}

abbrev pub is_digit : ℕ → Bool
is_digit c = leb 48 c && leb c 57

-- Three digits and a space, as a status line goes on behind the version.
abbrev pub leading_code : Text → Option ℕ
leading_code (a ∷ b ∷ c ∷ d ∷ more) =
    if is_digit a && is_digit b && is_digit c && d == 32
    then some ((a - 48) * 100 + (b - 48) * 10 + (c - 48))
    else none
leading_code _ = none

-- The code of a backend's reply, the first 64 bytes of which are ASCII.
abbrev pub reply_code : List ℕ → Option ℕ
reply_code reply =
    if all is_ascii (take 64 reply)
    then and_then (strip_prefix reply (codes "HTTP/1.1 ")) leading_code
    else none

-- The client reads the code n: of an answer of the handlers' own at the beginning of the status line. A
-- backend's reply may be no HTTP, and then there is no code to read.
abbrev pub IsCode : Answer → ℕ → Type 0
IsCode (answer status body) n = leading_code status ≡ some n
IsCode (relayed reply) n = (reply_code reply ≡ none) ⊎ (reply_code reply ≡ some n)
IsCode panicked n = ⊥

lines_from-append : (cur p s : Text) → IsLine p → lines_from cur (p ++ s) ≡ lines_from (cur ++ p) s
unfolding lines_from
lines_from-append cur [] s h = rw append-nil refl
lines_from-append cur (c ∷ p) s h =
    let here : c == b'\n' ≡ false = ground arith in
    let later : IsLine p = ground arith in
    rw here (lines_from-append (cur ++ c ∷ []) p s later ∙ rw append_assoc refl)

-- What ends in a space loses nothing to `strip_cr`.
strip_cr-space : (p q : Text) → (r : Text) × (strip_cr (p ++ 32 ∷ q) ≡ p ++ 32 ∷ r)
unfolding strip_cr
strip_cr-space [] [] = ([], refl)
strip_cr-space [] (d ∷ q) = (strip_cr (d ∷ q), refl)
strip_cr-space (c ∷ []) q = let (r, e) = strip_cr-space [] q in (r, ap (λ (t : Text). c ∷ t) e)
strip_cr-space (c ∷ d ∷ p) q =
    let (r, e) = strip_cr-space (d ∷ p) q in (r, ap (λ (t : Text). c ∷ t) e)

first_line_from :
    (p q s : Text) → (r : Text) × (first_line (lines_from (p ++ 32 ∷ q) s) ≡ p ++ 32 ∷ r)
unfolding lines_from
first_line_from [] q [] = (q, refl)
first_line_from (c ∷ p) q [] = (q, refl)
first_line_from p q (c ∷ s) = elim (Bool-cases (c == b'\n')) [
  | inl ends ↦ let (r, e) = strip_cr-space p q in (r, rw ends e)
  | inr goes ↦ let (r, e) = first_line_from p (q ++ c ∷ []) s in (r, rw goes (rw append_assoc e))
]

ascii_scalar : (s : List ℕ) → all is_ascii s ≡ true → all is_scalar s ≡ true
unfolding is_scalar
ascii_scalar [] h = refl
ascii_scalar (c ∷ s) h =
    let (here, later) = and-true (is_ascii c) (all is_ascii s) h in
    and_intro _ _ (ground arith) (ascii_scalar s later)

from_utf8_ascii : (s : List ℕ) → all is_ascii s ≡ true → from_utf8 s ≡ some s
from_utf8_ascii s h =
    ap from_utf8 (sym (as_bytes_ascii s h)) ∙ from_utf8-as_bytes s (ascii_scalar s h)

digit_plain : (c : ℕ) → is_digit c ≡ true → is_whitespace c ≡ false
unfolding is_whitespace
digit_plain c h = ground (arith, h)

module _ (a b c : ℕ) (digits : is_digit a && is_digit b && is_digit c ≡ true) where
  parse_digits : parse_u64 (a ∷ b ∷ c ∷ []) ≡ some ((a - 48) * 100 + (b - 48) * 10 + (c - 48))
  unfolding parse_u64 digits_value is_ascii_digit
  parse_digits = ground arith

  digits_plain : any is_whitespace (a ∷ b ∷ c ∷ []) ≡ false
  digits_plain =
      let (both, third) = and-true (is_digit a && is_digit b) (is_digit c) digits in
      let (first, second) = and-true (is_digit a) (is_digit b) both in
      rw (digit_plain a first, digit_plain b second, digit_plain c third) refl

  digits-IsLine : IsLine (codes "HTTP/1.1 " ++ a ∷ b ∷ c ∷ [])
  digits-IsLine = ground arith

  status_of_line :
      (q : Text)
      → status_of (some (codes "HTTP/1.1 " ++ a ∷ b ∷ c ∷ 32 ∷ q))
        ≡ some ((a - 48) * 100 + (b - 48) * 10 + (c - 48))
  status_of_line q =
      let version = codes "HTTP/1.1" in
      let word = a ∷ b ∷ c ∷ [] in
      let (r, e) = first_line_from (codes "HTTP/1.1 " ++ word) [] q in
      let small : ltb ((a - 48) * 100 + (b - 48) * 10 + (c - 48)) (2 ^ 16) ≡ true = ground arith in
      let first : first_line (lines (codes "HTTP/1.1 " ++ word ++ 32 ∷ q))
          ≡ codes "HTTP/1.1 " ++ word ++ 32 ∷ r =
        unfold lines in
        ap first_line (lines_from-append [] (codes "HTTP/1.1 " ++ word) (32 ∷ q) digits-IsLine)
        ∙ (unfold lines_from in e) in
      let space : is_whitespace 32 ≡ true = unfold is_whitespace in refl in
      let pieces : split_by is_whitespace (codes "HTTP/1.1 " ++ word ++ 32 ∷ r)
          ≡ version ∷ word ∷ split_by is_whitespace r =
        split_by-piece is_whitespace version 32 (word ++ 32 ∷ r) (unfold is_whitespace in refl)
          space
        ∙ ap (λ (ws : List Text). version ∷ ws)
            (split_by-piece is_whitespace word 32 r digits_plain space) in
      rw (first, pieces, parse_digits, small) refl

extract_status_lem :
    (reply : List ℕ) (text : Text) (n : ℕ)
    → from_utf8 (take 64 reply) ≡ some text
    → status_of (some text) ≡ some n
    → extract_status reply ≡ n
unfolding extract_status
extract_status_lem reply text n e h =
    ap (λ (found : Option ℕ). elim found [ none ↦ 200 | some m ↦ m ]) (ap status_of e ∙ h)

-- The code at the beginning of a backend's reply is the one that goes to the log.
extract_status_of :
    (reply rest : List ℕ)
    → all is_ascii (take 64 reply) ≡ true
    → reply ≡ codes "HTTP/1.1 " ++ rest
    → (leading_code rest ≡ none) ⊎ (leading_code rest ≡ some (extract_status reply))
extract_status_of reply [] ascii e = inl refl
extract_status_of reply (a ∷ []) ascii e = inl refl
extract_status_of reply (a ∷ b ∷ []) ascii e = inl refl
extract_status_of reply (a ∷ b ∷ c ∷ []) ascii e = inl refl
extract_status_of reply (a ∷ b ∷ c ∷ d ∷ more) ascii e =
    elim (Bool-cases (is_digit a && is_digit b && is_digit c && d == 32)) [
      | inr other ↦ inl (rw other refl)
      | inl code ↦
          let digits : is_digit a && is_digit b && is_digit c ≡ true = ground (arith, code) in
          let space : d ≡ 32 = ground (arith, code) in
          let text : from_utf8 (take 64 reply)
              ≡ some (codes "HTTP/1.1 " ++ a ∷ b ∷ c ∷ 32 ∷ take 51 more) =
            from_utf8_ascii (take 64 reply) ascii ∙ rw (e, space) refl in
          rw code (
            inr (
              ap some (
                sym (
                  extract_status_lem reply _ _ text (status_of_line a b c digits (take 51 more))))))
    ]

-- A backend's reply is logged with the code that it begins with, when there is one to read.
pub extract_status-IsCode : (reply : List ℕ) → IsCode (relayed reply) (extract_status reply)
extract_status-IsCode reply = elim (Bool-cases (all is_ascii (take 64 reply))) [
  | inr other ↦ inl (rw other refl)
  | inl ascii ↦ elim (Option-cases (strip_prefix reply (codes "HTTP/1.1 "))) [
    | inl missing ↦ inl (rw (ascii, missing) refl)
    | inr (rest, got) ↦
        rw (ascii, got)
          (extract_status_of reply rest ascii
            (strip_prefix_sound reply (codes "HTTP/1.1 ") rest got))
  ]
]
