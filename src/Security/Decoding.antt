-- ===== src/Security/Decoding.antt =====
-- src/security.rs, `url_decode`, against sync.rs, `percent_encode`.
use glasir_control.Prelude.{
  ℕ, ◌+◌, ◌*◌, ◌/◌, ◌%◌, ◌<◌, ◌≡◌, refl, ap, ◌∙◌, inl, inr, Bool, true, false, some, List, [], ◌∷◌,
  ◌++◌, arith, ltb, Bool-cases, and-true, and_intro, all, ◌==◌, nat_eq, Bool_eq, list_eq, pair_eq,
}
use glasir_control.Text.{Text}
use glasir_control.Text.Utf8.{is_scalar, encode_char, as_bytes, from_utf8-as_bytes}
use glasir_control.Security.{
  to_digit, push_byte, decode_bytes, utf8_of, url_decode, hex_upper, is_unreserved, encode_bytes,
  percent_encode,
}

to_digit-hex_upper : (d : ℕ) → d < 16 → to_digit (hex_upper d) ≡ some d
unfolding to_digit
to_digit-hex_upper d h = ground arith

-- A byte that begins no escape stands for itself.
pub decode_plain :
    (c : ℕ) (s : List ℕ) → c == b'%' ≡ false → decode_bytes (c ∷ s) ≡ push_byte c (decode_bytes s)
unfolding decode_bytes
decode_plain c [] h = rw h
decode_plain c (d ∷ []) h = rw h
decode_plain c (d ∷ e ∷ s) h = rw h

decode_escape :
    (b : ℕ) (s : List ℕ)
    → b < 256
    → decode_bytes (b'%' ∷ hex_upper (b / 16) ∷ hex_upper (b % 16) ∷ s)
      ≡ push_byte b (decode_bytes s)
unfolding decode_bytes
decode_escape b s h =
    let whole : b / 16 * 16 + b % 16 ≡ b = omega arith in
    rw (to_digit-hex_upper (b / 16) (omega arith), to_digit-hex_upper (b % 16) (omega arith), whole)

unreserved_plain : (b : ℕ) → is_unreserved b ≡ true → b == b'%' ≡ false
unfolding is_unreserved
unreserved_plain b h = ground arith

abbrev pub AreBytes : List ℕ → Type 0
AreBytes [] = Unit
AreBytes (b ∷ s) = (b < 256) × AreBytes s

pub decode_bytes-encode_bytes :
    (bytes : List ℕ) → AreBytes bytes → decode_bytes (encode_bytes bytes) ≡ some bytes
unfolding encode_bytes
decode_bytes-encode_bytes [] h = unfold decode_bytes in refl
decode_bytes-encode_bytes (b ∷ s) (here, later) = elim (Bool-cases (is_unreserved b)) [
  | inl plain ↦ rw plain (
      decode_plain b _ (unreserved_plain b plain)
      ∙ ap (push_byte b) (decode_bytes-encode_bytes s later))
  | inr other ↦
      rw other (decode_escape b _ here ∙ ap (push_byte b) (decode_bytes-encode_bytes s later))
]

AreBytes-append : (a b : List ℕ) → AreBytes a → AreBytes b → AreBytes (a ++ b)
AreBytes-append [] b h k = k
AreBytes-append (x ∷ a) b (p, h) k = (p, AreBytes-append a b h k)

encode_char-AreBytes : (c : ℕ) → is_scalar c ≡ true → AreBytes (encode_char c)
unfolding encode_char is_scalar
encode_char-AreBytes c h = elim (Bool-cases (ltb c 0x80)) [
  | inl one ↦ rw one (ground arith, tt)
  | inr big ↦ elim (Bool-cases (ltb c 0x800)) [
    | inl two ↦ rw (big, two) (ground arith)
    | inr big' ↦ elim (Bool-cases (ltb c 0x10000)) [
      | inl three ↦ rw (big, big', three) (ground arith)
      | inr four ↦ rw (big, big', four) (ground arith)
    ]
  ]
]

pub as_bytes-AreBytes : (s : Text) → all is_scalar s ≡ true → AreBytes (as_bytes s)
unfolding as_bytes
as_bytes-AreBytes [] h = tt
as_bytes-AreBytes (c ∷ s) h =
    let (here, later) = and-true (is_scalar c) (all is_scalar s) h in
    AreBytes-append (encode_char c) (as_bytes s) (encode_char-AreBytes c here)
      (as_bytes-AreBytes s later)

-- An ASCII text is its own bytes.
abbrev pub is_ascii : ℕ → Bool
is_ascii c = ltb c 0x80

pub as_bytes_ascii : (s : Text) → all is_ascii s ≡ true → as_bytes s ≡ s
unfolding as_bytes encode_char
as_bytes_ascii [] h = refl
as_bytes_ascii (c ∷ s) h =
    let (here, later) = and-true (is_ascii c) (all is_ascii s) h in
    rw here (ap (λ (t : Text). c ∷ t) (as_bytes_ascii s later))

unreserved_ascii : (b : ℕ) → is_unreserved b ≡ true → is_ascii b ≡ true
unfolding is_unreserved
unreserved_ascii b h = ground arith

hex_ascii : (d : ℕ) → d < 16 → is_ascii (hex_upper d) ≡ true
hex_ascii d h = ground arith

encode_bytes_ascii : (bytes : List ℕ) → AreBytes bytes → all is_ascii (encode_bytes bytes) ≡ true
unfolding encode_bytes
encode_bytes_ascii [] h = refl
encode_bytes_ascii (b ∷ s) (here, later) = elim (Bool-cases (is_unreserved b)) [
  | inl plain ↦ rw plain (and_intro _ _ (unreserved_ascii b plain) (encode_bytes_ascii s later))
  | inr other ↦ rw other (
      and_intro _ _ (hex_ascii (b / 16) (omega arith))
        (and_intro _ _ (hex_ascii (b % 16) (omega arith)) (encode_bytes_ascii s later)))
]

-- Decoding a percent-encoded text of characters gives the text back.
pub url_decode-percent_encode :
    (s : Text) → all is_scalar s ≡ true → url_decode (percent_encode s) ≡ some s
unfolding url_decode percent_encode
url_decode-percent_encode s h =
    let bytes = as_bytes-AreBytes s h in
    ap (λ (t : List ℕ). utf8_of (decode_bytes t))
      (as_bytes_ascii (encode_bytes (as_bytes s)) (encode_bytes_ascii (as_bytes s) bytes))
    ∙ ap utf8_of (decode_bytes-encode_bytes (as_bytes s) bytes)
    ∙ from_utf8-as_bytes s h
