-- ===== src/Prelude/Equality.antt =====
-- Equality tests as an interface, and membership in a list.
use Prim.Native.Nat.{ℕ}
use mathlib.Core.Path.{◌≡◌, refl}
use mathlib.Core.Logic.{◌↔◌}
use mathlib.Core.Bool.{Bool, true, false, not, ◌&&◌}
use mathlib.Core.List.{List, [], ◌∷◌}
use native.Mathlib.Omega.{arith}
use glasir_control.Prelude.Tests.{nat_beq, and-true, and_intro}

-- A test of equality that passes for equal values alone, and for each value with itself.
pub record Equal {ℓ} (K : Type ℓ) : Type ℓ where
  pub test : K → K → Bool
  pub sound : (x y : K) → test x y ≡ true → x ≡ y
  pub reflexive : (x : K) → test x x ≡ true

infix 50 ◌==◌
abbrev pub ◌==◌ {ℓ} : {K : Type ℓ} ⦃same : Equal K⦄ → K → K → Bool
◌==◌ ⦃same⦄ x y = same.test x y

pub eq_refl {ℓ} : {K : Type ℓ} ⦃same : Equal K⦄ (x : K) → x == x ≡ true
eq_refl ⦃same⦄ = same.reflexive

pub eq_iff {ℓ} : {K : Type ℓ} ⦃same : Equal K⦄ (x y : K) → (x == y ≡ true) ↔ (x ≡ y)
eq_iff ⦃same⦄ x y = (same.sound x y, λ p. rw p (same.reflexive y))

pub nat_beq_sound : (a b : ℕ) → nat_beq a b ≡ true → a ≡ b
nat_beq_sound a b h = ground arith

pub nat_beq_refl : (a : ℕ) → nat_beq a a ≡ true
nat_beq_refl a = ground arith

instance abbrev pub nat_eq : Equal ℕ
nat_eq = record { test = nat_beq; sound = nat_beq_sound; reflexive = nat_beq_refl }

abbrev pub Bool_beq : Bool → Bool → Bool
Bool_beq true b = b
Bool_beq false b = not b

pub Bool_beq_sound : (a b : Bool) → Bool_beq a b ≡ true → a ≡ b
Bool_beq_sound a b h = ground arith

pub Bool_beq_refl : (a : Bool) → Bool_beq a a ≡ true
Bool_beq_refl true = refl
Bool_beq_refl false = refl

instance abbrev pub Bool_eq : Equal Bool
Bool_eq = record { test = Bool_beq; sound = Bool_beq_sound; reflexive = Bool_beq_refl }

module _ {ℓ} {A : Type ℓ} ⦃e : Equal A⦄ where
  unfoldable pub list_beq : List A → List A → Bool
  list_beq [] [] = true
  list_beq (x ∷ xs) (y ∷ ys) = x == y && list_beq xs ys
  list_beq _ _ = false

  pub list_beq_sound : (xs ys : List A) → list_beq xs ys ≡ true → xs ≡ ys
  unfolding list_beq
  list_beq_sound [] [] h = refl
  list_beq_sound [] (y ∷ ys) h = cc
  list_beq_sound (x ∷ xs) [] h = cc
  list_beq_sound (x ∷ xs) (y ∷ ys) h =
      let (p, q) = and-true (x == y) (list_beq xs ys) h in
      cc ((eq_iff x y).0 p, list_beq_sound xs ys q)

  pub list_beq_refl : (xs : List A) → list_beq xs xs ≡ true
  unfolding list_beq
  list_beq_refl [] = refl
  list_beq_refl (x ∷ xs) = and_intro _ _ (eq_refl x) (list_beq_refl xs)

  instance abbrev pub list_eq : Equal (List A)
  list_eq = record { test = list_beq; sound = list_beq_sound; reflexive = list_beq_refl }

module _ {ℓ κ} {A : Type ℓ} {B : Type κ} ⦃e : Equal A⦄ ⦃d : Equal B⦄ where
  unfoldable pub pair_beq : A × B → A × B → Bool
  pair_beq (a, b) (c, d) = a == c && b == d

  pub pair_beq_sound : (p q : A × B) → pair_beq p q ≡ true → p ≡ q
  unfolding pair_beq
  pair_beq_sound (a, b) (c, d) h =
      let (p, q) = and-true (a == c) (b == d) h in cc ((eq_iff a c).0 p, (eq_iff b d).0 q)

  pub pair_beq_refl : (p : A × B) → pair_beq p p ≡ true
  unfolding pair_beq
  pair_beq_refl (a, b) = and_intro _ _ (eq_refl a) (eq_refl b)

  instance abbrev pub pair_eq : Equal (A × B)
  pair_eq = record { test = pair_beq; sound = pair_beq_sound; reflexive = pair_beq_refl }
