-- ===== src/Text/Bytes.antt =====
-- Bytes: what the exclusive and the inclusive or say about two of them.
use Prim.Native.Nat.{bit_or, bit_xor}
use glasir_control.Prelude.{
  ℕ, zero, suc, ◌<◌, ◌≡◌, refl, Bool, true, ◌&&◌, arith, ltb, and-true, ◌==◌, eq_iff, nat_eq,
  Bool_eq, list_eq, pair_eq,
}

all_bytes_from : ℕ → (ℕ → Bool) → Bool
all_bytes_from zero p = true
all_bytes_from (suc n) p = p n && all_bytes_from n p

all_bytes_from_sound :
    (n : ℕ) (p : ℕ → Bool) (x : ℕ) → all_bytes_from n p ≡ true → x < n → p x ≡ true
unfolding all_bytes_from
all_bytes_from_sound zero p x h lt = absurd (omega arith)
all_bytes_from_sound (suc n) p x h lt = ground (arith, all_bytes_from_sound n p x)

abbrev xor_fact : ℕ → ℕ → Bool
xor_fact a b = (bit_xor a b == 0) == (a == b) && ltb (bit_xor a b) 256

abbrev or_fact : ℕ → ℕ → Bool
or_fact a b = (bit_or a b == 0) == (a == 0 && b == 0) && ltb (bit_or a b) 256

xor_table : all_bytes_from 256 (λ a. all_bytes_from 256 (λ b. xor_fact a b)) ≡ true
unfolding all_bytes_from
xor_table = refl

or_table : all_bytes_from 256 (λ a. all_bytes_from 256 (λ b. or_fact a b)) ≡ true
unfolding all_bytes_from
or_table = refl

pub bit_xor-zero_iff :
    (a b : ℕ) → a < 256 → b < 256 → ((bit_xor a b == 0) ≡ (a == b)) × (bit_xor a b < 256)
bit_xor-zero_iff a b p q =
    let h : xor_fact a b ≡ true =
      all_bytes_from_sound 256 (λ y. xor_fact a y) b
        (all_bytes_from_sound 256 (λ x. all_bytes_from 256 (λ y. xor_fact x y)) a xor_table p) q in
    let (same, small) = and-true _ (ltb (bit_xor a b) 256) h in ((eq_iff _ _).0 same, ground arith)

pub bit_or-zero_iff :
    (a b : ℕ) → a < 256 → b < 256 → ((bit_or a b == 0) ≡ (a == 0 && b == 0)) × (bit_or a b < 256)
bit_or-zero_iff a b p q =
    let h : or_fact a b ≡ true =
      all_bytes_from_sound 256 (λ y. or_fact a y) b
        (all_bytes_from_sound 256 (λ x. all_bytes_from 256 (λ y. or_fact x y)) a or_table p) q in
    let (same, small) = and-true _ (ltb (bit_or a b) 256) h in ((eq_iff _ _).0 same, ground arith)
