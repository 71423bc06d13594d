-- ===== src/Crypto/Signatures.antt =====
-- src/sync.rs: the signatures and tokens of webhooks.
use mathlib.Core.Option.{some-injective}
use glasir_control.Prelude.{
  ℕ, ◌≡◌, refl, sym, ap, ◌∙◌, ◌↔◌, inl, inr, Bool, true, false, Option, none, some, List, [], ◌∷◌,
  ◌++◌, arith, Bool-cases, and-true, and_intro, Option-cases, all, all-append, ◌==◌, eq_iff, nat_eq,
  Bool_eq, list_eq, pair_eq,
}
use glasir_control.Text.{Text, codes, trim, strip_prefix}
use glasir_control.Text.Utf8.{is_scalar, as_bytes, from_utf8, from_utf8-as_bytes}
use glasir_control.Security.{constant_time_eq}
use glasir_control.Security.Decoding.{as_bytes-AreBytes}
use glasir_control.Security.Comparison.{constant_time_eq_iff}
use glasir_control.Proxy.Routing.{strip_prefix-append}
use glasir_control.Crypto.{hmac_sha256_hex}
use glasir_control.Crypto.Padding.{is_hex_lower, hmac_sha256_hex-digits}

abbrev pub check_github : Text → List ℕ → Option Text → Bool
check_github secret body none = false
check_github secret body (some expected_hex) =
    constant_time_eq (as_bytes (hmac_sha256_hex (as_bytes secret) body)) (as_bytes expected_hex)

unfoldable pub verify_github_signature : Text → List ℕ → Option Text → Bool
verify_github_signature secret body none = false
verify_github_signature secret body (some header_text) =
    check_github secret body (strip_prefix header_text (codes "sha256="))

unfoldable pub verify_gitlab_token : Text → Option Text → Bool
verify_gitlab_token secret none = false
verify_gitlab_token secret (some header_text) =
    constant_time_eq (as_bytes secret) (as_bytes (trim header_text))

-- The text of a `str` is characters.
abbrev pub AreChars : Text → Type 0
AreChars s = all is_scalar s ≡ true

pub strip_prefix_sound : (s p rest : Text) → strip_prefix s p ≡ some rest → s ≡ p ++ rest
unfolding strip_prefix
strip_prefix_sound s [] rest h = some-injective s rest h
strip_prefix_sound [] (p ∷ ps) rest h = cc h
strip_prefix_sound (c ∷ s) (p ∷ ps) rest h = elim (Bool-cases (c == p)) [
  | inl same ↦ cc ((eq_iff c p).0 same, strip_prefix_sound s ps rest (rw same at h))
  | inr differ ↦ cc (differ, h)
]

-- Two texts of the same bytes are the same.
as_bytes-injective : (a b : Text) → AreChars a → AreChars b → as_bytes a ≡ as_bytes b → a ≡ b
as_bytes-injective a b ha hb same =
    some-injective a b (sym (from_utf8-as_bytes a ha) ∙ ap from_utf8 same ∙ from_utf8-as_bytes b hb)

-- On texts, the comparison of bytes is equality.
pub bytes_eq_iff :
    (a b : Text)
    → AreChars a
    → AreChars b
    → (constant_time_eq (as_bytes a) (as_bytes b) ≡ true) ↔ (a ≡ b)
bytes_eq_iff a b ha hb =
    let iff =
      constant_time_eq_iff (as_bytes a) (as_bytes b) (as_bytes-AreBytes a ha)
        (as_bytes-AreBytes b hb) in
    (λ h. as_bytes-injective a b ha hb (iff.0 h), λ e. iff.1 (ap as_bytes e))

hex_is_char : (c : ℕ) → is_hex_lower c ≡ true → is_scalar c ≡ true
unfolding is_scalar
hex_is_char c h = ground arith

pub hex-AreChars : (s : Text) → all is_hex_lower s ≡ true → AreChars s
hex-AreChars [] h = refl
hex-AreChars (c ∷ s) h =
    let (here, later) = and-true (is_hex_lower c) (all is_hex_lower s) h in
    and_intro _ _ (hex_is_char c here) (hex-AreChars s later)

AreChars-rest : (p rest : Text) → AreChars (p ++ rest) → AreChars rest
AreChars-rest p rest h =
    (and-true (all is_scalar p) (all is_scalar rest) (sym (all-append is_scalar p rest) ∙ h)).1

module _ (secret : Text) (body : List ℕ) where
  abbrev signature : Text
  signature = hmac_sha256_hex (as_bytes secret) body

  signature-AreChars : AreChars signature
  signature-AreChars = hex-AreChars _ (hmac_sha256_hex-digits (as_bytes secret) body).1

  -- A webhook of GitHub's passes exactly when its header is `sha256=` and the HMAC of the body under
  -- the secret, in lower case hexadecimal.
  pub verify_github_signature_iff :
      (header_text : Text)
      → AreChars header_text
      → (verify_github_signature secret body (some header_text) ≡ true)
        ↔ (header_text ≡ codes "sha256=" ++ hmac_sha256_hex (as_bytes secret) body)
  unfolding verify_github_signature
  verify_github_signature_iff header_text chars =
      elim (Option-cases (strip_prefix header_text (codes "sha256="))) [
        | inl other ↦ (
          λ h. cc (other, h),
          λ e. cc (other, sym (strip_prefix-append (codes "sha256=") signature), e),
        )
        | inr (rest, found) ↦
            let whole : header_text ≡ codes "sha256=" ++ rest =
              strip_prefix_sound header_text (codes "sha256=") rest found in
            let rest_ok : AreChars rest =
              AreChars-rest (codes "sha256=") rest (rw whole at chars) in
            let iff = bytes_eq_iff signature rest signature-AreChars rest_ok in
            rw found (
              λ h. whole ∙ ap (λ (t : Text). codes "sha256=" ++ t) (sym (iff.0 h)),
              λ e. iff.1 (
                  some-injective signature rest (
                    sym (strip_prefix-append (codes "sha256=") signature)
                    ∙ ap (λ (t : Text). strip_prefix t (codes "sha256=")) (sym e)
                    ∙ found)),
            )
      ]
