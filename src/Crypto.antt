-- ===== src/Crypto.antt =====
-- src/auth.rs, `sha256`, and src/sync.rs, `hmac_sha256`. A `u32` is a number below 2 ^ 32, and a
-- byte one below 256.
pub mod Padding
pub mod Signatures
mod Tests
use Prim.Native.Nat.{bit_and, bit_or, bit_xor}
use glasir_control.Prelude.{
  ℕ, zero, suc, ◌+◌, ◌-◌, ◌*◌, ◌/◌, ◌%◌, ◌^◌, List, [], ◌∷◌, ◌++◌, map, ltb, if◌then◌else◌, length,
  is_empty, ◌==◌, nat_eq, Bool_eq, list_eq, pair_eq,
}
use glasir_control.Text.{Text}

abbrev pub word : ℕ
word = 2 ^ 32

-- u32::rotate_right, wrapping_add and `!`
abbrev pub rotate_right : ℕ → ℕ → ℕ
rotate_right x n = (x / 2 ^ n + x * 2 ^ (32 - n)) % word

infixl 65 ◌+w◌
abbrev pub ◌+w◌ : ℕ → ℕ → ℕ
a +w b = (a + b) % word

abbrev pub complement : ℕ → ℕ
complement x = word - 1 - x

abbrev get_or {ℓ} : {A : Type ℓ} → List A → ℕ → A → A
get_or [] i d = d
get_or (x ∷ xs) zero d = x
get_or (x ∷ xs) (suc i) d = get_or xs i d

abbrev pub take {ℓ} : {A : Type ℓ} → ℕ → List A → List A
take zero xs = []
take (suc n) [] = []
take (suc n) (x ∷ xs) = x ∷ take n xs

abbrev pub drop {ℓ} : {A : Type ℓ} → ℕ → List A → List A
drop zero xs = xs
drop (suc n) [] = []
drop (suc n) (x ∷ xs) = drop n xs

abbrev round_constants : List ℕ
round_constants =
    0x428a2f98 ∷ 0x71374491 ∷ 0xb5c0fbcf ∷ 0xe9b5dba5 ∷ 0x3956c25b ∷ 0x59f111f1 ∷ 0x923f82a4
    ∷ 0xab1c5ed5 ∷ 0xd807aa98 ∷ 0x12835b01 ∷ 0x243185be ∷ 0x550c7dc3 ∷ 0x72be5d74 ∷ 0x80deb1fe
    ∷ 0x9bdc06a7 ∷ 0xc19bf174 ∷ 0xe49b69c1 ∷ 0xefbe4786 ∷ 0x0fc19dc6 ∷ 0x240ca1cc ∷ 0x2de92c6f
    ∷ 0x4a7484aa ∷ 0x5cb0a9dc ∷ 0x76f988da ∷ 0x983e5152 ∷ 0xa831c66d ∷ 0xb00327c8 ∷ 0xbf597fc7
    ∷ 0xc6e00bf3 ∷ 0xd5a79147 ∷ 0x06ca6351 ∷ 0x14292967 ∷ 0x27b70a85 ∷ 0x2e1b2138 ∷ 0x4d2c6dfc
    ∷ 0x53380d13 ∷ 0x650a7354 ∷ 0x766a0abb ∷ 0x81c2c92e ∷ 0x92722c85 ∷ 0xa2bfe8a1 ∷ 0xa81a664b
    ∷ 0xc24b8b70 ∷ 0xc76c51a3 ∷ 0xd192e819 ∷ 0xd6990624 ∷ 0xf40e3585 ∷ 0x106aa070 ∷ 0x19a4c116
    ∷ 0x1e376c08 ∷ 0x2748774c ∷ 0x34b0bcb5 ∷ 0x391c0cb3 ∷ 0x4ed8aa4a ∷ 0x5b9cca4f ∷ 0x682e6ff3
    ∷ 0x748f82ee ∷ 0x78a5636f ∷ 0x84c87814 ∷ 0x8cc70208 ∷ 0x90befffa ∷ 0xa4506ceb ∷ 0xbef9a3f7
    ∷ 0xc67178f2 ∷ []

-- `while data.len() % 64 != 56 { data.push(0) }`, from a length on. 64 rounds are enough.
unfoldable pub zeros_from : ℕ → ℕ → List ℕ
zeros_from zero n = []
zeros_from (suc fuel) n =
    let more = 0 ∷ zeros_from fuel (n + 1) in if n % 64 == 56 then [] else more

-- u64::to_be_bytes and u32::to_be_bytes
unfoldable pub be_bytes : ℕ → ℕ → List ℕ
be_bytes zero n = []
be_bytes (suc count) n = n / 256 ^ count % 256 ∷ be_bytes count n

unfoldable pub padded : List ℕ → List ℕ
unfolding zeros_from be_bytes
padded msg =
    let bits = length msg * 8 % 2 ^ 64 in
    let data_of = msg ++ 0x80 ∷ [] in data_of ++ (zeros_from 64 (length data_of) ++ be_bytes 8 bits)

unfoldable pub words_of : List ℕ → List ℕ
words_of (a ∷ b ∷ c ∷ d ∷ more) = (a * 2 ^ 24 + b * 2 ^ 16 + c * 2 ^ 8 + d) ∷ words_of more
words_of _ = []

-- The loop that fills `w[i]`, `w[i + 1]`, … behind what there is.
schedule : ℕ → ℕ → List ℕ → List ℕ
schedule zero i w = w
schedule (suc rounds) i w =
    let x = get_or w (i - 15) 0 in
    let y = get_or w (i - 2) 0 in
    let s0 = bit_xor (bit_xor (rotate_right x 7) (rotate_right x 18)) (x / 2 ^ 3) in
    let s1 = bit_xor (bit_xor (rotate_right y 17) (rotate_right y 19)) (y / 2 ^ 10) in
    schedule rounds (i + 1) (w ++ (get_or w (i - 16) 0 +w s0 +w get_or w (i - 7) 0 +w s1) ∷ [])

pub record Vars : Type 0 where
  pub a : ℕ
  pub b : ℕ
  pub c : ℕ
  pub d : ℕ
  pub e : ℕ
  pub f : ℕ
  pub g : ℕ
  pub hh : ℕ

-- One round, with `K[i]` and `w[i]`.
turn : Vars → ℕ → ℕ → Vars
turn v k w =
    let s1 = bit_xor (bit_xor (rotate_right v.e 6) (rotate_right v.e 11)) (rotate_right v.e 25) in
    let ch = bit_xor (bit_and v.e v.f) (bit_and (complement v.e) v.g) in
    let t1 = v.hh +w s1 +w ch +w k +w w in
    let s0 = bit_xor (bit_xor (rotate_right v.a 2) (rotate_right v.a 13)) (rotate_right v.a 22) in
    let maj = bit_xor (bit_xor (bit_and v.a v.b) (bit_and v.a v.c)) (bit_and v.b v.c) in
    let t2 = s0 +w maj in
    record { a = t1 +w t2; b = v.a; c = v.b; d = v.c; e = v.d +w t1; f = v.e; g = v.f; hh = v.g }

turns : Vars → List ℕ → List ℕ → Vars
unfolding turn
turns v (k ∷ ks) (w ∷ ws) = turns (turn v k w) ks ws
turns v _ _ = v

compress : Vars → List ℕ → Vars
unfolding turns schedule words_of
compress h chunk =
    let v = turns h round_constants (schedule 48 16 (words_of chunk)) in
    record {
      a = h.a +w v.a;
      b = h.b +w v.b;
      c = h.c +w v.c;
      d = h.d +w v.d;
      e = h.e +w v.e;
      f = h.f +w v.f;
      g = h.g +w v.g;
      hh = h.hh +w v.hh;
    }

-- The loop over `data.chunks(64)`.
chunks : ℕ → Vars → List ℕ → Vars
unfolding compress
chunks zero h data_of = h
chunks (suc fuel) h data_of =
    let more = chunks fuel (compress h (take 64 data_of)) (drop 64 data_of) in
    if is_empty data_of then h else more

unfoldable pub sha256 : List ℕ → List ℕ
unfolding padded chunks be_bytes
sha256 msg =
    let data_of = padded msg in
    let start : Vars = record {
      a = 0x6a09e667;
      b = 0xbb67ae85;
      c = 0x3c6ef372;
      d = 0xa54ff53a;
      e = 0x510e527f;
      f = 0x9b05688c;
      g = 0x1f83d9ab;
      hh = 0x5be0cd19;
    } in
    let h = chunks (length data_of) start data_of in
    be_bytes 4 h.a
    ++ be_bytes 4 h.b
    ++ be_bytes 4 h.c
    ++ be_bytes 4 h.d
    ++ be_bytes 4 h.e
    ++ be_bytes 4 h.f
    ++ be_bytes 4 h.g
    ++ be_bytes 4 h.hh

abbrev pub hex_lower : ℕ → ℕ
hex_lower d = if ltb d 10 then b'0' + d else b'a' + (d - 10)

-- Each byte as `{b:02x}`.
unfoldable pub hex : List ℕ → Text
hex [] = []
hex (b ∷ bytes) = hex_lower (b / 16 % 16) ∷ hex_lower (b % 16) ∷ hex bytes

unfoldable pub sha256_hex : List ℕ → Text
unfolding sha256 hex
sha256_hex msg = hex (sha256 msg)

abbrev replicate : ℕ → ℕ → List ℕ
replicate zero b = []
replicate (suc n) b = b ∷ replicate n b

-- The key block: a long key is hashed, a short one is filled up with zeros.
unfoldable pub key_block : List ℕ → List ℕ
unfolding sha256
key_block key =
    let k = if ltb 64 (length key) then sha256 key else key in k ++ replicate (64 - length k) 0

unfoldable pub hmac_sha256 : List ℕ → List ℕ → List ℕ
unfolding key_block
hmac_sha256 key msg =
    let k = key_block key in
    let inner_hash = sha256 (map (λ b. bit_xor 0x36 b) k ++ msg) in
    sha256 (map (λ b. bit_xor 0x5c b) k ++ inner_hash)

unfoldable pub hmac_sha256_hex : List ℕ → List ℕ → Text
unfolding hmac_sha256 hex
hmac_sha256_hex key msg = hex (hmac_sha256 key msg)
