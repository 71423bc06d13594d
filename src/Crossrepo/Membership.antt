-- ===== src/Crossrepo/Membership.antt =====
-- src/crossrepo.rs: what is in the lists that its iterators build.
use glasir_control.Prelude.{
  ◌≡◌, refl, ap, ◌∙◌, subst, ◌↔◌, ◌⊎◌, inl, inr, Bool, true, List, [], ◌∷◌, ◌++◌, map, Bool-cases,
  filter, nat_eq, Bool_eq, list_eq, pair_eq,
}
use glasir_control.Crossrepo.{concat_map}

abbrev pub In : {A : Type 0} → A → List A → Type 0
In x [] = ⊥
In x (y ∷ ys) = (x ≡ y) ⊎ In x ys

pub In-append : {A : Type 0} (x : A) (xs ys : List A) → In x (xs ++ ys) ↔ (In x xs ⊎ In x ys)
In-append x [] ys = (λ h. inr h, λ h. elim h [ inl bad ↦ absurd bad | inr there ↦ there ])
In-append x (y ∷ xs) ys = (
  λ h. elim h [
    | inl here ↦ inl (inl here)
    | inr there ↦ elim ((In-append x xs ys).0 there) [
      | inl left ↦ inl (inr left)
      | inr right ↦ inr right
    ]
  ],
  λ h. elim h [
    | inl left ↦ elim left [
      | inl here ↦ inl here
      | inr there ↦ inr ((In-append x xs ys).1 (inl there))
    ]
    | inr right ↦ inr ((In-append x xs ys).1 (inr right))
  ],
)

pub In-concat_map :
    {A B : Type 0} (f : A → List B) (b : B) (xs : List A)
    → In b (concat_map f xs) ↔ ((a : A) × In a xs × In b (f a))
In-concat_map f b [] = (λ h. absurd h, λ w. absurd (w.1))
In-concat_map f b (x ∷ xs) = (
  λ h. elim ((In-append b (f x) (concat_map f xs)).0 h) [
    | inl here ↦ (x, inl refl, here)
    | inr there ↦ let (a, at, has) = (In-concat_map f b xs).0 there in (a, inr at, has)
  ],
  λ w.
      let (a, at, has) = w in
      elim at [
        | inl here ↦
            (In-append b (f x) (concat_map f xs)).1 (inl (subst (λ y. In b (f y)) here has))
        | inr there ↦
            (In-append b (f x) (concat_map f xs)).1 (inr ((In-concat_map f b xs).1 (a, there, has)))
      ],
)

pub In-map :
    {A B : Type 0} (f : A → B) (b : B) (xs : List A)
    → In b (map f xs) ↔ ((a : A) × In a xs × (b ≡ f a))
In-map f b [] = (λ h. absurd h, λ w. absurd (w.1))
In-map f b (x ∷ xs) = (
  λ h. elim h [
    | inl here ↦ (x, inl refl, here)
    | inr there ↦ let (a, at, e) = (In-map f b xs).0 there in (a, inr at, e)
  ],
  λ w.
      let (a, at, e) = w in
      elim at [
        | inl here ↦ inl (e ∙ ap f here)
        | inr there ↦ inr ((In-map f b xs).1 (a, there, e))
      ],
)

pub In-filter :
    {A : Type 0} (p : A → Bool) (a : A) (xs : List A)
    → In a (filter p xs) ↔ (In a xs × (p a ≡ true))
In-filter p a [] = (λ h. absurd h, λ w. absurd (w.0))
In-filter p a (x ∷ xs) = elim (Bool-cases (p x)) [
  | inl kept ↦ rw kept (
    λ h. elim h [
      | inl here ↦ (inl here, ap p here ∙ kept)
      | inr there ↦ let (at, e) = (In-filter p a xs).0 there in (inr at, e)
    ],
    λ w.
        let (at, e) = w in
        elim at [ inl here ↦ inl here | inr there ↦ inr ((In-filter p a xs).1 (there, e)) ],
  )
  | inr lost ↦ rw lost (
    λ h. let (at, e) = (In-filter p a xs).0 h in (inr at, e),
    λ w.
        let (at, e) = w in
        elim at [ inl here ↦ cc (here, e, lost) | inr there ↦ (In-filter p a xs).1 (there, e) ],
  )
]
