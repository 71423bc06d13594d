-- ===== src/Policy/Listing.antt =====
-- src/policy.rs, `list`: what an administrator is told of the proposals, and in which order.
use mathlib.Core.Option.{some-injective}
-- A proposal that a scope reaches: every one for all trees, and otherwise one with a scope of its own that is not
-- empty and has trees of the administrator's only.
use glasir_control.Prelude.{
  ℕ, ◌+◌, ◌≡◌, refl, sym, ap, ◌∙◌, subst, ◌↔◌, ◌⊎◌, inl, inr, Bool, true, ◌&&◌, Option, none, some,
  List, [], ◌∷◌, arith, if◌then◌else◌, Bool-cases, is_some_and, length, filter, contains,
  all-contains, all_intro, nat_eq, Bool_eq, list_eq, pair_eq,
}
use glasir_control.Text.{Text}
use glasir_control.HashMap.{HashMap}
use glasir_control.Rights.{AdminScope, global, in_trees, covers}
use glasir_control.Policy.{
  Proposal, Store, covers_proposal, Summary, summary, visible, newest_first, insert_sorted,
  sort_newest, list,
}
use glasir_control.Crossrepo.Membership.{In}
use glasir_control.Policy.Ordering.{IsSorted, sort_newest-IsSorted}

abbrev pub IsWithin : AdminScope → Proposal → Type 0
IsWithin global v = Unit
IsWithin (in_trees own) v =
    (t : Text) × (ts : List Text) × (v.scope ≡ some (t ∷ ts))
    × ((u : Text) → contains (t ∷ ts) u ≡ true → contains own u ≡ true)

covers_some :
    (own : List Text) (v : Proposal) (scope : Option (List Text))
    → v.scope ≡ scope
    → (is_some_and scope (covers (in_trees own)) ≡ true) ↔ IsWithin (in_trees own) v
unfolding covers
covers_some own v none e = (λ h. cc h, λ w. let (a, as', same, inside) = w in cc (e, same))
covers_some own v (some []) e = (λ h. cc h, λ w. let (a, as', same, inside) = w in cc (e, same))
covers_some own v (some (t ∷ ts)) e = (
  λ h. (t, ts, e, λ u m. all-contains (contains own) (t ∷ ts) u h m),
  λ w.
      let (a, as', same, inside) = w in
      let list_of : t ∷ ts ≡ a ∷ as' = some-injective (t ∷ ts) (a ∷ as') (sym e ∙ same) in
      all_intro (contains own) (t ∷ ts)
        (λ u m. inside u (subst (λ (l : List Text). contains l u ≡ true) list_of m)),
)

covers_proposal_iff :
    (scope_of : AdminScope) (v : Proposal)
    → (covers_proposal scope_of v ≡ true) ↔ IsWithin scope_of v
unfolding covers_proposal
covers_proposal_iff global v = (λ h. tt, λ w. refl)
covers_proposal_iff (in_trees own) v = covers_some own v v.scope refl

-- A stored proposal within the scope, of which the summary is.
abbrev pub IsOf : AdminScope → HashMap Text (Option Proposal) → Summary → Type 0
IsOf scope_of files x =
    (k : Text) × (v : Proposal) × In (k, some v) files × IsWithin scope_of v × (x ≡ summary v)

visible-IsOf :
    (scope_of : AdminScope) (files : HashMap Text (Option Proposal)) (x : Summary)
    → In x (visible scope_of files)
    → IsOf scope_of files x
unfolding visible
visible-IsOf scope_of [] x h = absurd h
visible-IsOf scope_of ((k, none) ∷ files) x h =
    let (k', v, at, within, same) = visible-IsOf scope_of files x h in (k', v, inr at, within, same)
visible-IsOf scope_of ((k, some v) ∷ files) x h = elim (Bool-cases (covers_proposal scope_of v)) [
  | inl covered ↦ elim (rw covered at h) [
    | inl here ↦ (k, v, inl refl, (covers_proposal_iff scope_of v).0 covered, here)
    | inr there ↦
        let (k', v', at, within, same) = visible-IsOf scope_of files x there in
        (k', v', inr at, within, same)
  ]
  | inr other ↦
      let (k', v', at, within, same) = visible-IsOf scope_of files x (rw other at h) in
      (k', v', inr at, within, same)
]

visible-summary :
    (scope_of : AdminScope) (files : HashMap Text (Option Proposal)) (k : Text) (v : Proposal)
    → In (k, some v) files
    → covers_proposal scope_of v ≡ true
    → In (summary v) (visible scope_of files)
unfolding visible
visible-summary scope_of [] k v at covered = absurd at
visible-summary scope_of ((k', none) ∷ files) k v at covered = elim at [
  | inl here ↦ cc here
  | inr there ↦ visible-summary scope_of files k v there covered
]
visible-summary scope_of ((k', some w) ∷ files) k v at covered = elim at [
  | inl here ↦
      let same : v ≡ w = some-injective v w (ap (λ (p : Text × Option Proposal). p.1) here) in
      let seen : covers_proposal scope_of w ≡ true = rw same at covered in
      rw seen (inl (ap summary same))
  | inr there ↦
      let rest = visible-summary scope_of files k v there covered in
      elim (Bool-cases (covers_proposal scope_of w)) [
        | inl also ↦ rw also (inr rest)
        | inr hidden ↦ rw hidden rest
      ]
]

In-insert_sorted :
    (a x : Summary) (ys : List Summary) → In a (insert_sorted x ys) ↔ ((a ≡ x) ⊎ In a ys)
unfolding insert_sorted
In-insert_sorted a x [] = (λ h. h, λ h. h)
In-insert_sorted a x (y ∷ ys) = elim (Bool-cases (newest_first x y)) [
  | inl before ↦ rw before (λ h. h, λ h. h)
  | inr after ↦ rw after (
    λ h. elim h [
      | inl here ↦ inr (inl here)
      | inr there ↦ elim ((In-insert_sorted a x ys).0 there) [
        | inl first ↦ inl first
        | inr later ↦ inr (inr later)
      ]
    ],
    λ h. elim h [
      | inl first ↦ inr ((In-insert_sorted a x ys).1 (inl first))
      | inr other ↦ elim other [
        | inl here ↦ inl here
        | inr there ↦ inr ((In-insert_sorted a x ys).1 (inr there))
      ]
    ],
  )
]

In-sort_newest : (a : Summary) (xs : List Summary) → In a (sort_newest xs) ↔ In a xs
unfolding sort_newest
In-sort_newest a [] = (λ h. h, λ h. h)
In-sort_newest a (x ∷ xs) =
    let insert = In-insert_sorted a x (sort_newest xs) in
    let rest = In-sort_newest a xs in
    (
      λ h. elim (insert.0 h) [ inl here ↦ inl here | inr there ↦ inr (rest.0 there) ],
      λ h. elim h [ inl here ↦ insert.1 (inl here) | inr there ↦ insert.1 (inr (rest.1 there)) ],
    )

-- How many elements pass a test.
abbrev pub count : (Summary → Bool) → List Summary → ℕ
count p xs = length (filter p xs)

count-insert_sorted :
    (p : Summary → Bool) (x : Summary) (ys : List Summary)
    → count p (insert_sorted x ys) ≡ count p (x ∷ ys)
unfolding insert_sorted
count-insert_sorted p x [] = refl
count-insert_sorted p x (y ∷ ys) = ground (arith, count-insert_sorted p x ys)

count-sort_newest : (p : Summary → Bool) (xs : List Summary) → count p (sort_newest xs) ≡ count p xs
unfolding sort_newest
count-sort_newest p [] = refl
count-sort_newest p (x ∷ xs) =
    count-insert_sorted p x (sort_newest xs) ∙ ground (arith, count-sort_newest p xs)

-- How many stored proposals the administrator's scope covers and the summary of which passes a test.
abbrev pub count_covered : AdminScope → (Summary → Bool) → HashMap Text (Option Proposal) → ℕ
count_covered scope_of p [] = 0
count_covered scope_of p ((k, none) ∷ files) = count_covered scope_of p files
count_covered scope_of p ((k, some v) ∷ files) =
    (if covers_proposal scope_of v && p (summary v) then 1 else 0) + count_covered scope_of p files

count-visible :
    (scope_of : AdminScope) (p : Summary → Bool) (files : HashMap Text (Option Proposal))
    → count p (visible scope_of files) ≡ count_covered scope_of p files
unfolding visible
count-visible scope_of p [] = refl
count-visible scope_of p ((k, none) ∷ files) = count-visible scope_of p files
count-visible scope_of p ((k, some v) ∷ files) = ground (arith, count-visible scope_of p files)

-- The list goes from the proposal that was made last to the one that was made first, those without a time last,
-- and in the order of the ids among proposals of one time. A summary is in it exactly when it is the summary of a
-- stored proposal that the administrator's scope reaches; and it has no summary more often than there are such
-- proposals: of any kind of summaries it has as many.
pub list_lem :
    (s : Store) (scope_of : AdminScope) (x : Summary) (p : Summary → Bool)
    → IsSorted (list s scope_of)
      × (In x (list s scope_of) ↔ IsOf scope_of s.proposals x)
      × (count p (list s scope_of) ≡ count_covered scope_of p s.proposals)
unfolding list
list_lem s scope_of x p =
    let sorted_iff = In-sort_newest x (visible scope_of s.proposals) in
    (
      sort_newest-IsSorted (visible scope_of s.proposals),
      (
        λ h. visible-IsOf scope_of s.proposals x (sorted_iff.0 h),
        λ w.
            let (k, v, at, within, same) = w in
            sorted_iff.1 (
              rw same (
                visible-summary scope_of s.proposals k v at
                  ((covers_proposal_iff scope_of v).1 within))),
      ),
      count-sort_newest p (visible scope_of s.proposals) ∙ count-visible scope_of p s.proposals,
    )
