-- ===== src/Security/Names.antt =====
-- src/security.rs, `is_valid_identifier` and `is_valid_principal`.
use glasir_control.Prelude.{
  ℕ, ◌≤◌, ◌≡◌, refl, ◌↔◌, inl, inr, true, false, [], ◌∷◌, arith, Bool-cases, is_empty, all,
  contains, all-contains, ◌==◌, nat_eq, Bool_eq, list_eq, pair_eq,
}
use glasir_control.Text.{Text, codes, byte_len, starts_with, contains_text}
use glasir_control.Security.{
  is_principal_char, is_valid_principal, is_identifier_char, is_valid_identifier,
}

-- What makes a name an identifier, without the tests that follow from the others.
pub record IsIdentifier (name : Text) : Type 0 where
  pub nonempty : is_empty name ≡ false
  pub fits : byte_len name ≤ 128
  pub no_option : starts_with name (codes "-") ≡ false
  pub plain : all is_identifier_char name ≡ true

no_dot : (c : ℕ) → is_identifier_char c ≡ true → c == b'.' ≡ false
unfolding is_identifier_char
no_dot c h = ground arith

starts_plain :
    (name rest : Text) → all is_identifier_char name ≡ true → starts_with name (b'.' ∷ rest) ≡ false
unfolding starts_with
starts_plain [] rest h = refl
starts_plain (c ∷ s) rest h = ground (arith, no_dot c)

contains_plain :
    (name : Text) → all is_identifier_char name ≡ true → contains_text name (codes "..") ≡ false
unfolding contains_text
contains_plain [] h = refl
contains_plain (c ∷ s) h = ground (arith, starts_plain (c ∷ s) (codes ".") h, contains_plain s)

-- A name is accepted as an identifier exactly when it is not empty, has at most 128 bytes, does not
-- begin with a hyphen, and holds ASCII letters, digits, `_` and `-` only.
pub is_valid_identifier_iff : (name : Text) → (is_valid_identifier name ≡ true) ↔ IsIdentifier name
unfolding is_valid_identifier
is_valid_identifier_iff name = (
  λ h. record {
    nonempty = ground arith;
    fits = ground arith;
    no_option = ground arith;
    plain = ground arith;
  },
  λ i. ground (
    arith,
    i.nonempty,
    i.fits,
    i.no_option,
    i.plain,
    starts_plain name [] i.plain,
    contains_plain name i.plain,
  ),
)

char_widens : (c : ℕ) → is_identifier_char c ≡ true → is_principal_char c ≡ true
unfolding is_identifier_char is_principal_char
char_widens c h = ground arith

all_widens : (name : Text) → all is_identifier_char name ≡ true → all is_principal_char name ≡ true
all_widens [] h = refl
all_widens (c ∷ s) h = ground (arith, char_widens c, all_widens s)

starts_at_sign :
    (name : Text) → all is_identifier_char name ≡ true → starts_with name (codes "@") ≡ false
unfolding starts_with is_identifier_char
starts_at_sign [] h = refl
starts_at_sign (c ∷ s) h = ground arith

-- Every identifier is a principal: the rule for people and groups is the wider one.
pub identifier-principal :
    (name : Text) → is_valid_identifier name ≡ true → is_valid_principal name ≡ true
unfolding is_valid_principal
identifier-principal name h =
    let i = (is_valid_identifier_iff name).0 h in
    ground (
      arith,
      i.nonempty,
      i.fits,
      i.no_option,
      starts_plain name [] i.plain,
      starts_at_sign name i.plain,
      contains_plain name i.plain,
      all_widens name i.plain,
    )

holds_only :
    (name : Text) (c : ℕ)
    → is_valid_identifier name ≡ true
    → is_identifier_char c ≡ false
    → contains name c ≡ false
holds_only name c h odd = elim (Bool-cases (contains name c)) [
  | inl hit ↦
      cc
        (all-contains is_identifier_char name c ((is_valid_identifier_iff name).0 h).plain hit, odd)
  | inr miss ↦ miss
]

-- An identifier is one component of a path: it holds no separator, no dot, no colon, no tab, no line
-- feed and no null byte.
pub identifier_component :
    (name : Text)
    → is_valid_identifier name ≡ true
    → (contains name b'/' ≡ false)
      × (contains name b'\\' ≡ false)
      × (contains name b'.' ≡ false)
      × (contains name b':' ≡ false)
      × (contains name b'\t' ≡ false)
      × (contains name b'\n' ≡ false)
      × (contains name 0 ≡ false)
unfolding is_identifier_char
identifier_component name h = (
  holds_only name b'/' h refl,
  holds_only name b'\\' h refl,
  holds_only name b'.' h refl,
  holds_only name b':' h refl,
  holds_only name b'\t' h refl,
  holds_only name b'\n' h refl,
  holds_only name 0 h refl,
)
