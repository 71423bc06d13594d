-- ===== src/Text/Utf8.antt =====
-- The bytes of a text in UTF-8 (str::as_bytes), and the text of bytes (String::from_utf8).
use glasir_control.Prelude.{
  ℕ, zero, suc, ◌+◌, ◌-◌, ◌*◌, ◌/◌, ◌%◌, ◌≤◌, ◌<◌, ◌≡◌, refl, ap, ◌∙◌, inl, inr, Bool, true, false,
  ◌&&◌, ◌||◌, Option, none, some, List, [], ◌∷◌, ◌++◌, arith, ltb, leb, nat_beq, if◌then◌else◌,
  Bool-cases, and-true, all, ◌==◌, nat_eq, Bool_eq, list_eq, pair_eq,
}
use glasir_control.Text.{Text}

-- char: a code point that is no surrogate.
unfoldable pub is_scalar : ℕ → Bool
is_scalar c = ltb c 0xd800 || (leb 0xe000 c && ltb c 0x110000)

unfoldable pub encode_char : ℕ → List ℕ
encode_char c =
    if ltb c 0x80
    then c ∷ []
    else if ltb c 0x800
    then (0xc0 + c / 0x40) ∷ (0x80 + c % 0x40) ∷ []
    else if ltb c 0x10000
    then (0xe0 + c / 0x1000) ∷ (0x80 + c / 0x40 % 0x40) ∷ (0x80 + c % 0x40) ∷ []
    else (0xf0 + c / 0x40000)
      ∷ (0x80 + c / 0x1000 % 0x40)
      ∷ (0x80 + c / 0x40 % 0x40)
      ∷ (0x80 + c % 0x40)
      ∷ []

unfoldable pub as_bytes : Text → List ℕ
unfolding encode_char
as_bytes [] = []
as_bytes (c ∷ s) = encode_char c ++ as_bytes s

abbrev pub push_char : ℕ → Option Text → Option Text
push_char c none = none
push_char c (some s) = some (c ∷ s)

-- The decoder between two bytes: how many continuation bytes are missing, the bits so far, and the
-- least code point that the length of the sequence is for.
unfoldable pub decode : ℕ → ℕ → ℕ → List ℕ → Option Text
unfolding is_scalar
decode zero bits least [] = some []
decode (suc n) bits least [] = none
decode zero bits least (b ∷ s) =
    let one = push_char b (decode 0 0 0 s) in
    let two = decode 1 (b - 0xc0) 0x80 s in
    let three = decode 2 (b - 0xe0) 0x800 s in
    let four = decode 3 (b - 0xf0) 0x10000 s in
    if ltb b 0x80
    then one
    else if ltb b 0xc0
    then none
    else if ltb b 0xe0
    then two
    else if ltb b 0xf0
    then three
    else if ltb b 0xf8
    then four
    else none
decode (suc n) bits least (b ∷ s) =
    let bits' = bits * 0x40 + (b - 0x80) in
    let last = push_char bits' (decode 0 0 0 s) in
    let more = decode n bits' least s in
    if leb 0x80 b && ltb b 0xc0
    then (if n == 0 then (if leb least bits' && is_scalar bits' then last else none) else more)
    else none

unfoldable pub from_utf8 : List ℕ → Option Text
unfolding decode
from_utf8 bytes = decode 0 0 0 bytes

module _ (b : ℕ) (s : List ℕ) where
  decode_one : b < 0x80 → decode 0 0 0 (b ∷ s) ≡ push_char b (decode 0 0 0 s)
  unfolding decode
  decode_one h = ground arith

  decode_two : 0xc0 ≤ b → b < 0xe0 → decode 0 0 0 (b ∷ s) ≡ decode 1 (b - 0xc0) 0x80 s
  unfolding decode
  decode_two h k = ground arith

  decode_three : 0xe0 ≤ b → b < 0xf0 → decode 0 0 0 (b ∷ s) ≡ decode 2 (b - 0xe0) 0x800 s
  unfolding decode
  decode_three h k = ground arith

  decode_four : 0xf0 ≤ b → b < 0xf8 → decode 0 0 0 (b ∷ s) ≡ decode 3 (b - 0xf0) 0x10000 s
  unfolding decode
  decode_four h k = ground arith

-- A continuation byte that holds the six bits `low`.
decode_next :
    (n bits least low bits' : ℕ) (s : List ℕ)
    → low < 0x40
    → bits' ≡ bits * 0x40 + low
    → decode (suc (suc n)) bits least ((0x80 + low) ∷ s) ≡ decode (suc n) bits' least s
unfolding decode
decode_next n bits least low bits' s h e =
    let same : bits * 0x40 + (0x80 + low - 0x80) ≡ bits' = omega arith in
    let continues : leb 0x80 (0x80 + low) && ltb (0x80 + low) 0xc0 ≡ true = ground arith in
    let left : nat_beq (suc n) 0 ≡ false = ground arith in rw (same, continues, left)

decode_last :
    (bits least low bits' : ℕ) (s : List ℕ)
    → low < 0x40
    → bits' ≡ bits * 0x40 + low
    → least ≤ bits'
    → is_scalar bits' ≡ true
    → decode 1 bits least ((0x80 + low) ∷ s) ≡ push_char bits' (decode 0 0 0 s)
unfolding decode
decode_last bits least low bits' s h e le sc =
    let same : bits * 0x40 + (0x80 + low - 0x80) ≡ bits' = omega arith in
    rw (same, sc) (ground arith)

is_scalar-lt : (c : ℕ) → is_scalar c ≡ true → c < 0x110000
unfolding is_scalar
is_scalar-lt c h = ground arith

decode-encode_char :
    (c : ℕ) (rest : List ℕ)
    → is_scalar c ≡ true
    → decode 0 0 0 (encode_char c ++ rest) ≡ push_char c (decode 0 0 0 rest)
unfolding encode_char
decode-encode_char c rest h = elim (Bool-cases (ltb c 0x80)) [
  | inl one ↦ rw one (decode_one c rest (ground arith))
  | inr big ↦ elim (Bool-cases (ltb c 0x800)) [
    | inl two ↦
        rw (big, two)
          (decode_two _ _ (ground arith) (ground arith)
            ∙ decode_last _ 0x80 (c % 0x40) c rest (omega arith) (ground arith) (ground arith) h)
    | inr big' ↦ elim (Bool-cases (ltb c 0x10000)) [
      | inl three ↦
          rw (big, big', three)
            (decode_three _ _ (ground arith) (ground arith)
              ∙ decode_next 0 _ 0x800 (c / 0x40 % 0x40) (c / 0x40) _ (omega arith) (ground arith)
              ∙ decode_last _ 0x800 (c % 0x40) c rest (omega arith) (ground arith) (ground arith) h)
      | inr big'' ↦
          let most : c < 0x110000 = is_scalar-lt c h in
          rw (big, big', big'')
            (decode_four _ _ (ground arith) (ground arith)
              ∙ decode_next 1 _ 0x10000 (c / 0x1000 % 0x40) (c / 0x1000) _ (omega arith)
                  (ground arith)
              ∙ decode_next 0 _ 0x10000 (c / 0x40 % 0x40) (c / 0x40) _ (omega arith) (ground arith)
              ∙ decode_last _ 0x10000 (c % 0x40) c rest (omega arith) (ground arith) (ground arith)
                  h)
    ]
  ]
]

-- A text of characters is the text of its bytes.
pub from_utf8-as_bytes : (s : Text) → all is_scalar s ≡ true → from_utf8 (as_bytes s) ≡ some s
unfolding from_utf8 as_bytes
from_utf8-as_bytes [] h = refl
from_utf8-as_bytes (c ∷ s) h =
    let (here, later) = and-true (is_scalar c) (all is_scalar s) h in
    decode-encode_char c (as_bytes s) here
    ∙ ap (push_char c) (unfold from_utf8 in from_utf8-as_bytes s later)
