-- ===== src/Crypto/Padding.antt =====
-- src/auth.rs, `sha256`: the padding ends on a block, and the digest has 32 bytes.
use Prim.Native.Nat.{bit_xor}
use glasir_control.Prelude.{
  ℕ, zero, suc, ◌+◌, ◌-◌, ◌*◌, ◌/◌, ◌%◌, ◌^◌, ◌<◌, ◌≡◌, refl, ◌≢◌, inl, inr, Bool, true, ◌&&◌, ◌||◌,
  List, [], ◌∷◌, ◌++◌, map, arith, leb, Bool-cases, and_intro, length, all, ◌==◌, nat_eq, Bool_eq,
  list_eq, pair_eq,
}
use glasir_control.Crypto.{
  zeros_from, be_bytes, padded, sha256, hex_lower, hex, sha256_hex, key_block, hmac_sha256,
  hmac_sha256_hex,
}

pub length-append {ℓ} : {A : Type ℓ} (xs ys : List A) → length (xs ++ ys) ≡ length xs + length ys
length-append [] ys = omega arith
length-append (x ∷ xs) ys = omega (arith, length-append xs ys)

-- How many zeros the loop adds at a length.
abbrev missing : ℕ → ℕ
missing n = (120 - n % 64) % 64

zeros_from-length : (fuel n : ℕ) → missing n < fuel → (n + length (zeros_from fuel n)) % 64 ≡ 56
unfolding zeros_from
zeros_from-length zero n h = absurd (omega arith)
zeros_from-length (suc fuel) n h = elim (Bool-cases (n % 64 == 56)) [
  | inl full ↦ let e : n % 64 ≡ 56 = ground arith in rw full (omega arith)
  | inr short ↦
      let e : n % 64 ≢ 56 = ground arith in
      let later : (n + 1 + length (zeros_from fuel (n + 1))) % 64 ≡ 56 =
        zeros_from-length fuel (n + 1) (omega arith) in
      rw short (omega arith)
]

length-be_bytes : (count n : ℕ) → length (be_bytes count n) ≡ count
unfolding be_bytes
length-be_bytes zero n = refl
length-be_bytes (suc count) n = omega (arith, length-be_bytes count n)

-- The 64 rounds that the padding loop is given are enough: whatever the message, the padded data is
-- a whole number of 64-byte blocks.
pub padded_blocks : (msg : List ℕ) → length (padded msg) % 64 ≡ 0
unfolding padded
padded_blocks msg =
    let first = msg ++ 0x80 ∷ [] in
    let zeros = zeros_from 64 (length first) in
    let last = be_bytes 8 (length msg * 8 % 2 ^ 64) in
    let full : (length first + length zeros) % 64 ≡ 56 =
      zeros_from-length 64 (length first) (omega arith) in
    let tail = length-append zeros last in
    let eight = length-be_bytes 8 (length msg * 8 % 2 ^ 64) in
    let total : length (padded msg) ≡ length first + length (zeros ++ last) =
      length-append first (zeros ++ last) in
    omega arith

pub length-sha256 : (msg : List ℕ) → length (sha256 msg) ≡ 32
unfolding sha256 be_bytes
length-sha256 msg = refl

abbrev pub is_hex_lower : ℕ → Bool
is_hex_lower c = (leb b'0' c && leb c b'9') || (leb b'a' c && leb c b'f')

hex_lower-digit : (d : ℕ) → d < 16 → is_hex_lower (hex_lower d) ≡ true
hex_lower-digit d h = ground arith

pub hex-digits : (bytes : List ℕ) → all is_hex_lower (hex bytes) ≡ true
unfolding hex
hex-digits [] = refl
hex-digits (b ∷ bytes) =
    and_intro _ _ (hex_lower-digit (b / 16 % 16) (omega arith))
      (and_intro _ _ (hex_lower-digit (b % 16) (omega arith)) (hex-digits bytes))

length-hex : (bytes : List ℕ) → length (hex bytes) ≡ 2 * length bytes
unfolding hex
length-hex [] = refl
length-hex (b ∷ bytes) = omega (arith, length-hex bytes)

-- A digest is printed as 64 lower case hexadecimal digits.
pub sha256_hex-digits :
    (msg : List ℕ) → (length (sha256_hex msg) ≡ 64) × (all is_hex_lower (sha256_hex msg) ≡ true)
unfolding sha256_hex
sha256_hex-digits msg =
    (omega (arith, length-hex (sha256 msg), length-sha256 msg), hex-digits (sha256 msg))

pub hmac_sha256_hex-digits :
    (key msg : List ℕ)
    → (length (hmac_sha256_hex key msg) ≡ 64) × (all is_hex_lower (hmac_sha256_hex key msg) ≡ true)
unfolding hmac_sha256_hex hmac_sha256
hmac_sha256_hex-digits key msg =
    let inner =
      map (λ b. bit_xor 0x5c b) (key_block key)
      ++ sha256 (map (λ b. bit_xor 0x36 b) (key_block key) ++ msg) in
    (omega (arith, length-hex (sha256 inner), length-sha256 inner), hex-digits (sha256 inner))
