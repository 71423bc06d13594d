-- ===== src/Security/Smuggling.antt =====
-- src/security.rs, `validate_http_smuggling`.
use glasir_control.Prelude.{
  list_beq, ℕ, ◌+◌, ◌≤◌, ◌≡◌, refl, ◌↔◌, ◌⊎◌, inl, inr, Bool, true, false, ◌||◌, List, [], ◌∷◌, map,
  arith, if◌then◌else◌, Bool-cases, length, any, all, filter, eq_iff, nat_eq, Bool_eq, list_eq,
  pair_eq, ok, err,
}
use glasir_control.Text.{Text, codes, to_ascii_lowercase}
use glasir_control.Security.{
  malformed_length, Header, is_named, is_number, scan_headers, validate_http_smuggling,
}

abbrev pub length_name : Text
length_name = codes "content-length"

abbrev pub encoding_name : Text
encoding_name = codes "transfer-encoding"

-- How many headers have the name.
abbrev pub count_named : Text → List Header → ℕ
count_named name hs = length (filter (is_named name) hs)

-- A header that is a length has a number for its value.
abbrev pub is_sound_length : Header → Bool
is_sound_length (k, v) = if is_named length_name (k, v) then is_number v else true

length_no_encoding : (h : Header) → is_named length_name h ≡ true → is_named encoding_name h ≡ false
unfolding is_named list_beq
length_no_encoding (k, v) h = rw ((eq_iff (map to_ascii_lowercase k) length_name).0 h) refl

scan_headers_lem :
    (hs : List Header) (n : ℕ) (te : Bool)
    → scan_headers hs n te ≡ (
        if all is_sound_length hs
        then ok (n + count_named length_name hs, te || any (is_named encoding_name) hs)
        else err malformed_length)
unfolding scan_headers
scan_headers_lem [] n te = ground arith
scan_headers_lem ((k, v) ∷ hs) n te = elim (Bool-cases (is_named length_name (k, v))) [
  | inl is_length ↦
      rw (is_length, length_no_encoding (k, v) is_length)
        (ground (arith, scan_headers_lem hs (n + 1) te))
  | inr other ↦ elim (Bool-cases (is_named encoding_name (k, v))) [
    | inl coded ↦ rw (other, coded) (ground (arith, scan_headers_lem hs n true))
    | inr neither ↦ rw (other, neither) (ground (arith, scan_headers_lem hs n te))
  ]
]

-- What RFC 9112 asks of the headers that frame a body.
pub record IsFramed (hs : List Header) : Type 0 where
  pub numbers : all is_sound_length hs ≡ true
  pub single : count_named length_name hs ≤ 1
  pub not_both : (count_named length_name hs ≡ 0) ⊎ (any (is_named encoding_name) hs ≡ false)

-- Headers pass exactly when each `Content-Length` is a number, there is at most one, and there is
-- none beside a `Transfer-Encoding`.
pub validate_http_smuggling_iff :
    (hs : List Header) → (validate_http_smuggling hs ≡ ok tt) ↔ IsFramed hs
unfolding validate_http_smuggling
validate_http_smuggling_iff hs = elim (Bool-cases (all is_sound_length hs)) [
  | inl sound ↦
      rw (scan_headers_lem hs 0 false, sound)
        (
          λ h. record {
            numbers = sound;
            single = ground arith;
            not_both = elim (Bool-cases (any (is_named encoding_name) hs)) [
              | inl coded ↦ inl (ground arith)
              | inr plain ↦ inr plain
            ];
          },
          λ f. ground (arith, f.single, f.not_both),
        )
  | inr unsound ↦
      rw (scan_headers_lem hs 0 false, unsound) (λ h. cc h, λ f. cc (unsound, f.numbers))
]
