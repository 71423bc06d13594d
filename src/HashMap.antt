-- ===== src/HashMap.antt =====
-- HashMap as an association list of distinct keys. Where the program walks a map, the result is
-- sorted, collected into another map, or asked for membership, so the order of entries is free.
use glasir_control.Prelude.{
  ◌≡◌, refl, inl, inr, Bool, true, false, not, ◌||◌, Option, none, some, List, [], ◌∷◌, ◌++◌,
  append-nil, arith, if◌then◌else◌, Bool-cases, Option-cases, is_some_and, is_empty, filter,
  contains, Equal, ◌==◌, eq_refl, eq_iff, nat_eq, Bool_eq, list_eq, pair_eq,
}

abbrev pub HashMap {ℓ κ} : Type ℓ → Type κ → Type (ℓ ⊔ κ)
HashMap K V = List (K × V)

module _ {ℓ κ} {K : Type ℓ} {V : Type κ} ⦃e : Equal K⦄ where
  -- HashMap::get
  unfoldable pub get : HashMap K V → K → Option V
  get [] k = none
  get ((j, v) ∷ m) k = if j == k then some v else get m k

  -- HashMap::contains_key
  unfoldable pub contains_key : HashMap K V → K → Bool
  contains_key [] k = false
  contains_key ((j, v) ∷ m) k = j == k || contains_key m k

  -- `iter().map(|(k, v)| (k, f(v))).filter(|(k, v)| p(k, v)).collect()`
  unfoldable pub map_filter : (V → V) → (K → V → Bool) → HashMap K V → HashMap K V
  map_filter f p [] = []
  map_filter f p ((j, v) ∷ m) =
      let rest = map_filter f p m in if p j (f v) then (j, f v) ∷ rest else rest

  abbrev pub HasDistinctKeys : HashMap K V → Type 0
  HasDistinctKeys [] = Unit
  HasDistinctKeys ((j, v) ∷ m) = (contains_key m j ≡ false) × HasDistinctKeys m

  pub get_of_contains_key-false :
      (m : HashMap K V) (k : K) → contains_key m k ≡ false → get m k ≡ none
  unfolding get contains_key
  get_of_contains_key-false [] k h = refl
  get_of_contains_key-false ((j, v) ∷ m) k h = ground (arith, get_of_contains_key-false m k)

  pub contains_key-eq :
      (m : HashMap K V) (k : K) → contains_key m k ≡ is_some_and (get m k) (λ v. true)
  unfolding get contains_key
  contains_key-eq [] k = refl
  contains_key-eq ((j, v) ∷ m) k = ground (arith, contains_key-eq m k)

  contains_key-map_filter :
      (f : V → V) (p : K → V → Bool) (m : HashMap K V) (k : K)
      → contains_key m k ≡ false
      → contains_key (map_filter f p m) k ≡ false
  unfolding contains_key map_filter
  contains_key-map_filter f p [] k h = refl
  contains_key-map_filter f p ((j, v) ∷ m) k h = ground (arith, contains_key-map_filter f p m k)

  -- HashMap::insert
  unfoldable pub insert : K → V → HashMap K V → HashMap K V
  insert k v [] = (k, v) ∷ []
  insert k v ((j, w) ∷ m) = if j == k then (j, v) ∷ m else (j, w) ∷ insert k v m

  pub get-insert :
      (k : K) (v : V) (m : HashMap K V) (j : K)
      → get (insert k v m) j ≡ (if k == j then some v else get m j)
  unfolding insert get
  get-insert k v [] j = refl
  get-insert k v ((i, w) ∷ m) j =
      ground (arith, get-insert k v m j, eq_iff i k, eq_iff i j, eq_iff k j)

  abbrev pub mapped : (V → V) → (K → V → Bool) → K → Option V → Option V
  mapped f p k none = none
  mapped f p k (some v) = if p k (f v) then some (f v) else none

  pub get-map_filter :
      (f : V → V) (p : K → V → Bool) (m : HashMap K V) (k : K)
      → HasDistinctKeys m
      → get (map_filter f p m) k ≡ mapped f p k (get m k)
  unfolding get map_filter
  get-map_filter f p [] k h = refl
  get-map_filter f p ((j, v) ∷ m) k (fresh, h) = elim (Bool-cases (j == k)) [
    | inl same ↦
        let eq : j ≡ k = (eq_iff j k).0 same in
        let gone : get (map_filter f p m) k ≡ none =
          get_of_contains_key-false (map_filter f p m) k
            (contains_key-map_filter f p m k (rw (← eq) fresh)) in
        elim (Bool-cases (p j (f v))) [
          | inl kept ↦ rw (← eq, kept, eq_refl j) (rw kept)
          | inr dropped ↦ rw (dropped, gone, same) (rw (← eq) (rw dropped))
        ]
    | inr other ↦ ground (arith, get-map_filter f p m k h)
  ]

-- Option::unwrap_or_default, of a list
abbrev pub or_empty {ℓ} : {A : Type ℓ} → Option (List A) → List A
or_empty none = []
or_empty (some v) = v

or_empty-filter {ℓ} :
    {A : Type ℓ} (v : List A) → or_empty (if not (is_empty v) then some v else none) ≡ v
or_empty-filter [] = refl
or_empty-filter (x ∷ xs) = refl

module _ {ℓ κ} {K : Type ℓ} {A : Type κ} ⦃e : Equal K⦄ where
  -- `get(k).cloned().unwrap_or_default()`
  unfoldable pub get_list : HashMap K (List A) → K → List A
  get_list m k = or_empty (get m k)

  -- `entry(k).or_default().extend(list)`
  unfoldable pub extend : K → List A → HashMap K (List A) → HashMap K (List A)
  extend k xs [] = (k, xs) ∷ []
  extend k xs ((j, v) ∷ m) = if j == k then (j, v ++ xs) ∷ m else (j, v) ∷ extend k xs m

  pub get-extend :
      (k : K) (xs : List A) (m : HashMap K (List A)) (j : K)
      → get (extend k xs m) j ≡ (if k == j then some (get_list m k ++ xs) else get m j)
  unfolding get_list extend get
  get-extend k xs [] j = refl
  get-extend k xs ((i, v) ∷ m) j = elim (Bool-cases (i == k)) [
    | inl same ↦ rw ((eq_iff i k).0 same, eq_refl k) (ground arith)
    | inr other ↦
        rw (other, get-extend k xs m j) (ground (arith, eq_iff i k, eq_iff i j, eq_iff k j))
  ]

  pub get_list-extend :
      (k : K) (xs : List A) (m : HashMap K (List A)) (j : K)
      → get_list (extend k xs m) j ≡ get_list m j ++ (if k == j then xs else [])
  unfolding get_list
  get_list-extend k xs m j = elim (Bool-cases (k == j)) [
    | inl same ↦ rw (get-extend k xs m j, same) (rw ((eq_iff k j).0 same))
    | inr other ↦ rw (get-extend k xs m j, other, append-nil)
  ]

  pub contains_key-extend :
      (k : K) (xs : List A) (m : HashMap K (List A)) (j : K)
      → contains_key (extend k xs m) j ≡ k == j || contains_key m j
  unfolding contains_key extend
  contains_key-extend k xs [] j = ground arith
  contains_key-extend k xs ((i, v) ∷ m) j =
      ground (arith, eq_iff i k, eq_iff i j, eq_iff k j, contains_key-extend k xs m j)

  pub extend-HasDistinctKeys :
      (k : K) (xs : List A) (m : HashMap K (List A))
      → HasDistinctKeys m
      → HasDistinctKeys (extend k xs m)
  unfolding extend contains_key
  extend-HasDistinctKeys k xs [] h = (refl, tt)
  extend-HasDistinctKeys k xs ((i, v) ∷ m) (fresh, h) =
      ground (
        arith,
        eq_iff i k,
        eq_iff k i,
        contains_key-extend k xs m i,
        extend-HasDistinctKeys k xs m h,
      )

  -- A key with an element is a key.
  pub contains_key_of_contains :
      ⦃d : Equal A⦄ (m : HashMap K (List A)) (k : K) (a : A)
      → contains (get_list m k) a ≡ true
      → contains_key m k ≡ true
  unfolding get_list
  contains_key_of_contains m k a h = ground (arith, contains_key-eq m k)

  -- Filtering each list, and dropping the entries that become empty.
  pub get_list-map_filter :
      (q : A → Bool) (m : HashMap K (List A)) (k : K)
      → HasDistinctKeys m
      → get_list (map_filter (filter q) (λ j v. not (is_empty v)) m) k ≡ filter q (get_list m k)
  unfolding get_list
  get_list-map_filter q m k h = elim (Option-cases (get m k)) [
    | inl missing ↦ rw (get-map_filter (filter q) (λ j v. not (is_empty v)) m k h, missing)
    | inr (v, found) ↦
        rw (get-map_filter (filter q) (λ j v. not (is_empty v)) m k h, found)
          (or_empty-filter (filter q v))
  ]
