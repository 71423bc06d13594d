-- ===== src/Text/Order.antt =====
-- Texts in order, as `sort`, `dedup` and `BTreeSet<String>` put them. UTF-8 keeps the order of the
-- characters, so the order of texts is the lexicographic one of their code points.
use glasir_control.Prelude.{
  ◌≡◌, refl, ap, ◌∙◌, inl, inr, Bool, true, false, ◌&&◌, ◌||◌, List, [], ◌∷◌, arith, ltb,
  if◌then◌else◌, Bool-cases, is_empty, any, all, contains, is_empty-same, Equal, ◌==◌, eq_iff,
  nat_eq, Bool_eq, list_eq, pair_eq,
}
use glasir_control.Text.{Text}

unfoldable pub text_leb : Text → Text → Bool
text_leb [] t = true
text_leb (c ∷ s) [] = false
text_leb (c ∷ s) (d ∷ t) = ltb c d || (c == d && text_leb s t)

module _ {ℓ} {A : Type ℓ} (le : A → A → Bool) where
  pub insert_sorted : A → List A → List A
  insert_sorted x [] = x ∷ []
  insert_sorted x (y ∷ ys) = if le x y then x ∷ y ∷ ys else y ∷ insert_sorted x ys

  -- slice::sort_by, which is stable
  unfoldable pub sort_by : List A → List A
  unfolding insert_sorted
  sort_by [] = []
  sort_by (x ∷ xs) = insert_sorted x (sort_by xs)

module _ {ℓ} {A : Type ℓ} (le : A → A → Bool) (p : A → Bool) where
  any-insert_sorted : (x : A) (ys : List A) → any p (insert_sorted le x ys) ≡ p x || any p ys
  unfolding insert_sorted
  any-insert_sorted x [] = refl
  any-insert_sorted x (y ∷ ys) = ground (arith, any-insert_sorted x ys)

  -- Sorting keeps what some, and what every, element is like.
  pub any-sort_by : (xs : List A) → any p (sort_by le xs) ≡ any p xs
  unfolding sort_by
  any-sort_by [] = refl
  any-sort_by (x ∷ xs) = any-insert_sorted x (sort_by le xs) ∙ rw (any-sort_by xs) refl

  all-insert_sorted : (x : A) (ys : List A) → all p (insert_sorted le x ys) ≡ p x && all p ys
  unfolding insert_sorted
  all-insert_sorted x [] = refl
  all-insert_sorted x (y ∷ ys) = ground (arith, all-insert_sorted x ys)

  pub all-sort_by : (xs : List A) → all p (sort_by le xs) ≡ all p xs
  unfolding sort_by
  all-sort_by [] = refl
  all-sort_by (x ∷ xs) = all-insert_sorted x (sort_by le xs) ∙ rw (all-sort_by xs) refl

module _ {ℓ} {A : Type ℓ} ⦃e : Equal A⦄ where
  -- Vec::dedup drops each element that equals the one before it.
  unfoldable pub dedup_after : A → List A → List A
  dedup_after x [] = []
  dedup_after x (y ∷ ys) = if x == y then dedup_after x ys else y ∷ dedup_after y ys

  unfoldable pub dedup : List A → List A
  unfolding dedup_after
  dedup [] = []
  dedup (x ∷ xs) = x ∷ dedup_after x xs

  contains-insert_sorted :
      (le : A → A → Bool) (x : A) (ys : List A) (a : A)
      → contains (insert_sorted le x ys) a ≡ x == a || contains ys a
  unfolding insert_sorted
  contains-insert_sorted le x [] a = refl
  contains-insert_sorted le x (y ∷ ys) a = ground (arith, contains-insert_sorted le x ys a)

  pub contains-sort_by :
      (le : A → A → Bool) (xs : List A) (a : A) → contains (sort_by le xs) a ≡ contains xs a
  unfolding sort_by
  contains-sort_by le [] a = refl
  contains-sort_by le (x ∷ xs) a =
      ground (arith, contains-insert_sorted le x (sort_by le xs) a, contains-sort_by le xs a)

  contains-dedup_after :
      (x : A) (xs : List A) (a : A)
      → x == a || contains (dedup_after x xs) a ≡ x == a || contains xs a
  unfolding dedup_after
  contains-dedup_after x [] a = refl
  contains-dedup_after x (y ∷ ys) a = elim (Bool-cases (x == y)) [
    | inl same ↦
        let eq : x ≡ y = (eq_iff x y).0 same in
        ground (arith, contains-dedup_after x ys a, ap (λ (t : A). t == a) eq)
    | inr other ↦ ground (arith, contains-dedup_after y ys a)
  ]

  pub contains-dedup : (xs : List A) (a : A) → contains (dedup xs) a ≡ contains xs a
  unfolding dedup
  contains-dedup [] a = refl
  contains-dedup (x ∷ xs) a = contains-dedup_after x xs a

-- `v.sort(); v.dedup()`, and the elements of a `BTreeSet` in order
unfoldable pub sorted_set : List Text → List Text
unfolding sort_by dedup text_leb
sorted_set xs = dedup (sort_by text_leb xs)

pub contains-sorted_set : (xs : List Text) (a : Text) → contains (sorted_set xs) a ≡ contains xs a
unfolding sorted_set
contains-sorted_set xs a = contains-dedup (sort_by text_leb xs) a ∙ contains-sort_by text_leb xs a

pub is_empty-sorted_set : (xs : List Text) → is_empty (sorted_set xs) ≡ is_empty xs
is_empty-sorted_set xs = is_empty-same (sorted_set xs) xs (contains-sorted_set xs)
