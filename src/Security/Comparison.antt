-- ===== src/Security/Comparison.antt =====
-- src/security.rs, `constant_time_eq`: the comparison that looks at every byte is equality.
use Prim.Native.Nat.{bit_or, bit_xor}
use glasir_control.Prelude.{
  list_beq, ℕ, ◌<◌, ◌≡◌, ◌↔◌, inl, inr, true, ◌&&◌, List, [], ◌∷◌, arith, Bool-cases, length, ◌==◌,
  eq_refl, eq_iff, nat_eq, Bool_eq, list_eq, pair_eq,
}
use glasir_control.Text.Bytes.{bit_xor-zero_iff, bit_or-zero_iff}
use glasir_control.Security.{difference, constant_time_eq}
use glasir_control.Security.Decoding.{AreBytes}

difference_zero :
    (diff : ℕ) (a b : List ℕ)
    → diff < 256
    → AreBytes a
    → AreBytes b
    → length a ≡ length b
    → (difference diff a b == 0) ≡ (diff == 0 && list_beq a b)
unfolding list_beq
difference_zero diff [] [] small ha hb same = ground arith
difference_zero diff [] (y ∷ b) small ha hb same = absurd (omega arith)
difference_zero diff (x ∷ a) [] small ha hb same = absurd (omega arith)
difference_zero diff (x ∷ a) (y ∷ b) small (hx, ha) (hy, hb) same =
    let (differ, low) = bit_xor-zero_iff x y hx hy in
    let (both, low') = bit_or-zero_iff diff (bit_xor x y) small low in
    ground (
      arith,
      difference_zero (bit_or diff (bit_xor x y)) a b low' ha hb (omega arith),
      differ,
      both,
    )

-- On bytes, the comparison without a timing leak passes exactly for equal slices.
pub constant_time_eq_iff :
    (a b : List ℕ) → AreBytes a → AreBytes b → (constant_time_eq a b ≡ true) ↔ (a ≡ b)
unfolding constant_time_eq
constant_time_eq_iff a b ha hb = elim (Bool-cases (length a == length b)) [
  | inl same ↦
      let compared : (difference 0 a b == 0) ≡ list_beq a b =
        difference_zero 0 a b (omega arith) ha hb (ground arith) in
      rw (same, compared) (eq_iff a b)
  | inr differ ↦ rw differ (λ h. cc h, λ e. cc (differ, e, eq_refl (length b)))
]
