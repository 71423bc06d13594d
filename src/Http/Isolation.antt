-- ===== src/Http/Isolation.antt =====
-- src/main.rs: the trees that the review of a change calls.
use mathlib.Core.Option.{some-injective}
use glasir_control.Prelude.{
  ℕ, ◌≡◌, refl, sym, ap, ◌∙◌, inl, inr, Bool, true, not, Option, none, some, List, [], ◌∷◌, map,
  arith, ltb, if◌then◌else◌, Bool-cases, and-true, and_intro, Option-cases, length, is_empty, all,
  filter, contains, all-contains, ◌==◌, eq_iff, nat_eq, Bool_eq, list_eq, pair_eq, and_then,
}
use glasir_control.Text.{Text, codes, text_of}
use glasir_control.Text.Order.{text_leb, contains-sort_by}
use glasir_control.Rights.{Tree, Rights, tree, may_with_groups, reaches_all, visible_workspaces}
use glasir_control.Security.{is_valid_revision}
use glasir_control.Proxy.{Request, granted}
use glasir_control.Proxy.Routing.{find_tree-name}
use glasir_control.Policy.{Store}
use glasir_control.Crossrepo.{Surface, concat_map}
use glasir_control.Crossrepo.Linking.{others}
use glasir_control.Json.{Value, number_value, string_value, index, as_str, as_u64, object_of}
use glasir_control.Http.{Call, bad_request, ending, unaudited, found}
use glasir_control.Http.Review.{
  known_trees, find_workspace, identifier_in, depth_of, surface_in, review_value, tool_call,
  reply_parts, call_tree, results_of, surfaces_of, review, review_trees, review_workspace,
  review_input, impact_for, impact,
}

find_workspace-contains :
    (wanted : Text) (ws : List (Text × List Text)) (w : Text × List Text)
    → find_workspace wanted ws ≡ some w
    → contains ws w ≡ true
find_workspace-contains wanted [] w h = cc h
find_workspace-contains wanted (v ∷ ws) w h = elim (Bool-cases (v.0 == wanted)) [
  | inl here ↦ ground (arith, eq_iff v w, some-injective v w (rw here at h))
  | inr there ↦ ground (arith, find_workspace-contains wanted ws w (rw there at h))
]

all-filter : {A : Type 0} (p : A → Bool) (xs : List A) → all p (filter p xs) ≡ true
all-filter p [] = refl
all-filter p (x ∷ xs) = ground (arith, all-filter p xs)

visible_workspaces-reached :
    (r : Rights) (user : Text) (groups : List Text) (w : Text × List Text)
    → contains (visible_workspaces r user groups) w ≡ true
    → all (may_with_groups r user groups) w.1 ≡ true
unfolding visible_workspaces
visible_workspaces-reached r user groups w h =
    let p = λ (v : Text × List Text). reaches_all r user groups v.1 in
    let kept =
      all-contains p (filter p r.workspaces) w (all-filter p r.workspaces)
        (sym (contains-sort_by (λ a b. text_leb a.0 b.0) (filter p r.workspaces) w) ∙ h) in
    (and-true (not (is_empty w.1)) (all (may_with_groups r user groups) w.1) kept).1

known_trees-all :
    (r : Rights) (p : Text → Bool) (names : List Text) (ts : List Tree)
    → known_trees r names ≡ some ts
    → all p names ≡ true
    → all (λ (t : Tree). p t.name) ts ≡ true
unfolding known_trees
known_trees-all r p [] ts h granted = rw (← some-injective [] ts h) refl
known_trees-all r p (name ∷ names) ts h granted =
    let (first, others) = and-true (p name) (all p names) granted in
    elim (Option-cases (tree r name)) [
      | inl missing ↦ cc (missing, h)
      | inr (t, found_tree) ↦ elim (Option-cases (known_trees r names)) [
        | inl unknown ↦ cc (found_tree, unknown, h)
        | inr (more, known) ↦
            let named : t.name ≡ name = unfold tree in find_tree-name r.trees name t found_tree in
            rw (← some-injective (t ∷ more) ts (rw (found_tree, known) at h)) (
              and_intro (p t.name) (all (λ (u : Tree). p u.name) more) (ap p named ∙ first)
                (known_trees-all r p names more known others))
      ]
    ]

map-agree :
    {A B : Type 0} (p : A → Bool) (f g : A → B) (xs : List A)
    → all p xs ≡ true
    → ((a : A) → p a ≡ true → f a ≡ g a)
    → map f xs ≡ map g xs
map-agree p f g [] h same = refl
map-agree p f g (x ∷ xs) h same =
    let (first, others) = and-true (p x) (all p xs) h in
    rw (same x first, map-agree p f g xs others same) refl

concat_map-agree :
    {A B : Type 0} (p : A → Bool) (f g : A → List B) (xs : List A)
    → all p xs ≡ true
    → ((a : A) → p a ≡ true → f a ≡ g a)
    → concat_map f xs ≡ concat_map g xs
concat_map-agree p f g [] h same = refl
concat_map-agree p f g (x ∷ xs) h same =
    let (first, others) = and-true (p x) (all p xs) h in
    rw (same x first, concat_map-agree p f g xs others same) refl

module _ (to_string : Value → Text) (from_slice : List ℕ → Option Value)
    (forward forward' : Tree → Request → Option (List ℕ)) (c : Call) (user : Text)
    (same : (t : Tree) (q : Request)
      → may_with_groups c.moment.rights user c.groups t.name ≡ true
      → forward t q ≡ forward' t q) where
  abbrev is_granted : Tree → Bool
  is_granted t = may_with_groups c.moment.rights user c.groups t.name

  call_tree-agree :
      (tool : Text) (arguments : Value) (t : Tree)
      → is_granted t ≡ true
      → call_tree to_string from_slice forward t tool arguments
        ≡ call_tree to_string from_slice forward' t tool arguments
  call_tree-agree tool arguments t h =
      ap (reply_parts to_string from_slice forward) (same t (tool_call to_string tool arguments) h)

  review-agree :
      (name rev : Text) (depth : ℕ) (ts : List Tree)
      → all is_granted ts ≡ true
      → review to_string from_slice forward c (name, ts) rev depth
        ≡ review to_string from_slice forward' c (name, ts) rev depth
  unfolding review
  review-agree name rev depth ts h =
      let arguments =
        object_of ((codes "rev", string_value rev) ∷ (codes "depth", number_value depth) ∷ []) in
      let results : results_of to_string from_slice forward ts arguments
          ≡ results_of to_string from_slice forward' ts arguments =
        map-agree is_granted _ _ ts h
          (λ t g. ap (λ x. (t.name, x)) (call_tree-agree (codes "detect_changes") arguments t g)) in
      let surfaces : surfaces_of to_string from_slice forward ts
          ≡ surfaces_of to_string from_slice forward' ts =
        ap (λ (xs : List Surface). if ltb 1 (length ts) then xs else [])
          (concat_map-agree is_granted _ _ ts h (λ t g.
            ap (surface_in t.name) (call_tree-agree (codes "http_surface") (object_of []) t g))) in
      ap (λ r. review_value c name rev depth r (surfaces_of to_string from_slice forward ts))
        results
      ∙ ap (review_value c name rev depth (results_of to_string from_slice forward' ts arguments))
          surfaces

  review_names-agree :
      (s : Store) (name rev : Text) (depth : ℕ) (names : List Text)
      → all (may_with_groups c.moment.rights user c.groups) names ≡ true
      → review_trees to_string from_slice forward c s name rev depth
          (known_trees c.moment.rights names)
        ≡ review_trees to_string from_slice forward' c s name rev depth
            (known_trees c.moment.rights names)
  review_names-agree s name rev depth names h =
      elim (Option-cases (known_trees c.moment.rights names)) [
        | inl missing ↦ rw missing refl
        | inr (ts, known) ↦ rw known (
            ap (λ v. ending c s (found (to_string v)))
              (review-agree name rev depth ts (
                known_trees-all c.moment.rights (may_with_groups c.moment.rights user c.groups)
                  names ts known h)))
      ]

  review_input-agree :
      (s : Store) (input : Option Value)
      → review_input to_string from_slice forward c s user input
        ≡ review_input to_string from_slice forward' c s user input
  review_input-agree s none = refl
  review_input-agree s (some input) =
      ap
        (λ out.
          if not (is_valid_revision (text_of (as_str (index input (codes "rev")))))
          then unaudited s (bad_request (codes "invalid revision"))
          else out)
        (workspace-agree (text_of (as_str (index input (codes "rev"))))
          (depth_of (as_u64 (index input (codes "depth"))))
          (identifier_in (as_str (index input (codes "workspace")))))
    where
      workspace-agree :
          (rev : Text) (depth : ℕ) (wanted : Option Text)
          → review_workspace to_string from_slice forward c s rev depth (
              and_then wanted
                λ name. find_workspace name (visible_workspaces c.moment.rights user c.groups))
            ≡ review_workspace to_string from_slice forward' c s rev depth (
                and_then wanted
                  λ name. find_workspace name (visible_workspaces c.moment.rights user c.groups))
      workspace-agree rev depth none = refl
      workspace-agree rev depth (some wanted) =
          let seen = visible_workspaces c.moment.rights user c.groups in
          elim (Option-cases (find_workspace wanted seen)) [
            | inl missing ↦ rw missing refl
            | inr (w, there) ↦ rw there (
                review_names-agree s w.0 rev depth w.1 (
                  visible_workspaces-reached c.moment.rights user c.groups w
                    (find_workspace-contains wanted seen w there)))
          ]

  -- The review of a change calls no backend beyond the caller's rights: it ends in the same way with any two
  -- networks that agree on the trees that the rights and the groups grant to the caller.
  pub impact-agree :
      (s : Store)
      → c.who ≡ some user
      → impact to_string from_slice forward c s ≡ impact to_string from_slice forward' c s
  unfolding impact
  impact-agree s w =
      ap (impact_for to_string from_slice forward c s) w
      ∙ review_input-agree s (from_slice c.req.body)
      ∙ sym (ap (impact_for to_string from_slice forward' c s) w)
