-- ===== src/Crypto/Tests.antt =====
-- src/auth.rs and src/sync.rs: published vectors of SHA-256 (FIPS 180-4) and HMAC (RFC 4231).
use glasir_control.Prelude.{
  ◌%◌, ◌≡◌, refl, ◌↔◌, true, some, ◌++◌, length, nat_eq, Bool_eq, list_eq, pair_eq,
}
use glasir_control.Text.{Text, codes}
use glasir_control.Text.Utf8.{is_scalar, as_bytes}
use glasir_control.Crypto.{padded, sha256_hex, hmac_sha256_hex}
use glasir_control.Crypto.Padding.{padded_blocks}
use glasir_control.Crypto.Signatures.{
  verify_github_signature, AreChars, verify_github_signature_iff,
}

sha256_abc :
    sha256_hex (codes "abc")
    ≡ codes "ba7816bf8f01cfea414140de5dae2223b00361a396177a9cb410ff61f20015ad"
unfolding sha256_hex
sha256_abc = refl

hmac_jefe :
    hmac_sha256_hex (codes "Jefe") (codes "what do ya want for nothing?")
    ≡ codes "5bdcc146bf60754e6a042426089575c75a003f089d2739839dec58b964ec3843"
unfolding hmac_sha256_hex
hmac_jefe = refl

padded_blocks_example : length (padded (codes "abc")) % 64 ≡ 0
padded_blocks_example = padded_blocks (codes "abc")

abbrev signed : Text
signed = codes "sha256=5bdcc146bf60754e6a042426089575c75a003f089d2739839dec58b964ec3843"

signed_is_chars : AreChars signed
unfolding is_scalar
signed_is_chars = refl

verify_github_signature_iff_example :
    (verify_github_signature (codes "Jefe") (codes "what do ya want for nothing?") (some signed)
      ≡ true)
    ↔ (signed
        ≡ codes "sha256="
          ++ hmac_sha256_hex (as_bytes (codes "Jefe")) (codes "what do ya want for nothing?"))
verify_github_signature_iff_example =
    verify_github_signature_iff (codes "Jefe") (codes "what do ya want for nothing?") signed
      signed_is_chars
