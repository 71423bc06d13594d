-- ===== src/Prelude/Lists.antt =====
-- Lists over the native numbers, and searches by a Boolean test.
use Prim.Native.Nat.{ℕ, suc}
use mathlib.Core.Path.{◌≡◌, refl, sym, ◌∙◌}
use mathlib.Core.Bool.{Bool, true, false, ◌&&◌, ◌||◌}
use mathlib.Core.Logic.{inl, inr}
use mathlib.Core.List.{List, [], ◌∷◌, ◌++◌}
use native.Mathlib.Omega.{arith}
use glasir_control.Prelude.Tests.{if◌then◌else◌, Bool-cases, Bool-eq, and-true, or-true}
use glasir_control.Prelude.Equality.{Equal, ◌==◌, eq_iff, eq_refl}

module _ {ℓ} {A : Type ℓ} where
  abbrev pub length : List A → ℕ
  length [] = 0
  length (x ∷ xs) = suc (length xs)

  abbrev pub is_empty : List A → Bool
  is_empty [] = true
  is_empty (x ∷ xs) = false

  -- Iterator::any, all and filter.
  abbrev pub any : (A → Bool) → List A → Bool
  any p [] = false
  any p (x ∷ xs) = p x || any p xs

  abbrev pub all : (A → Bool) → List A → Bool
  all p [] = true
  all p (x ∷ xs) = p x && all p xs

  abbrev pub filter : (A → Bool) → List A → List A
  filter p [] = []
  filter p (x ∷ xs) = let rest = filter p xs in if p x then x ∷ rest else rest

  pub any-append : (p : A → Bool) (xs ys : List A) → any p (xs ++ ys) ≡ any p xs || any p ys
  any-append p [] ys = refl
  any-append p (x ∷ xs) ys = ground (arith, any-append p xs ys)

  pub all-append : (p : A → Bool) (xs ys : List A) → all p (xs ++ ys) ≡ all p xs && all p ys
  all-append p [] ys = refl
  all-append p (x ∷ xs) ys = ground (arith, all-append p xs ys)

  pub filter-append :
      (p : A → Bool) (xs ys : List A) → filter p (xs ++ ys) ≡ filter p xs ++ filter p ys
  filter-append p [] ys = refl
  filter-append p (x ∷ xs) ys = ground (arith, filter-append p xs ys)

module _ {ℓ} {A : Type ℓ} ⦃e : Equal A⦄ where
  -- slice::contains, and `iter().any(|x| x == a)`
  abbrev pub contains : List A → A → Bool
  contains [] a = false
  contains (x ∷ xs) a = x == a || contains xs a

  -- BTreeSet::is_subset
  abbrev pub is_subset : List A → List A → Bool
  is_subset xs ys = all (contains ys) xs

  pub contains-append :
      (xs ys : List A) (a : A) → contains (xs ++ ys) a ≡ contains xs a || contains ys a
  contains-append [] ys a = refl
  contains-append (x ∷ xs) ys a = ground (arith, contains-append xs ys a)

  -- What passes for every element passes for one of them, and the other way round.
  pub all-contains :
      (p : A → Bool) (xs : List A) (a : A) → all p xs ≡ true → contains xs a ≡ true → p a ≡ true
  all-contains p [] a h m = cc
  all-contains p (x ∷ xs) a h m =
      let (hx, hs) = and-true (p x) (all p xs) h in
      elim (or-true (x == a) (contains xs a) m) [
        | inl here ↦ rw (← (eq_iff x a).0 here) hx
        | inr there ↦ all-contains p xs a hs there
      ]

  pub all_intro :
      (p : A → Bool) (xs : List A) → ((a : A) → contains xs a ≡ true → p a ≡ true) → all p xs ≡ true
  all_intro p [] h = refl
  all_intro p (x ∷ xs) h =
      ground (arith, h x, eq_refl x, all_intro p xs (λ a m. h a (ground (arith, m))))

  pub any_of_contains :
      (p : A → Bool) (xs : List A) (a : A) → contains xs a ≡ true → p a ≡ true → any p xs ≡ true
  any_of_contains p [] a m h = cc
  any_of_contains p (x ∷ xs) a m h = elim (or-true (x == a) (contains xs a) m) [
    | inl here ↦ rw ((eq_iff x a).0 here) (rw h)
    | inr there ↦ ground (arith, any_of_contains p xs a there h)
  ]

  pub any-witness :
      (p : A → Bool) (xs : List A)
      → any p xs ≡ true
      → (a : A) × (contains xs a ≡ true) × (p a ≡ true)
  any-witness p [] h = cc
  any-witness p (x ∷ xs) h = elim (Bool-cases (p x)) [
    | inl here ↦ (x, ground (arith, eq_refl x), here)
    | inr later ↦ let (a, m, pa) = any-witness p xs (ground arith) in (a, ground (arith, m), pa)
  ]

  pub contains-filter :
      (p : A → Bool) (xs : List A) (a : A) → contains (filter p xs) a ≡ p a && contains xs a
  contains-filter p [] a = ground arith
  contains-filter p (x ∷ xs) a = elim (Bool-cases (x == a)) [
    | inl same ↦ rw (← (eq_iff x a).0 same) (ground (arith, eq_refl x, contains-filter p xs x))
    | inr other ↦ ground (arith, contains-filter p xs a)
  ]

  -- Two lists of the same elements are empty together, and one may stand for the other in a search.
  pub is_empty-same :
      (xs ys : List A) → ((a : A) → contains xs a ≡ contains ys a) → is_empty xs ≡ is_empty ys
  is_empty-same [] [] h = refl
  is_empty-same [] (y ∷ ys) h = ground (arith, h y, eq_refl y)
  is_empty-same (x ∷ xs) [] h = ground (arith, h x, eq_refl x)
  is_empty-same (x ∷ xs) (y ∷ ys) h = refl

  pub any-same :
      (p : A → Bool) (xs ys : List A)
      → ((a : A) → contains xs a ≡ contains ys a)
      → any p xs ≡ any p ys
  any-same p xs ys h =
      Bool-eq (any p xs) (any p ys)
        (λ t. let (a, m, pa) = any-witness p xs t in any_of_contains p ys a (sym (h a) ∙ m) pa)
        (λ t. let (a, m, pa) = any-witness p ys t in any_of_contains p xs a (h a ∙ m) pa)
