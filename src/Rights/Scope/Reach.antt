-- ===== src/Rights/Scope/Reach.antt =====
-- src/rights.rs, `line_trees`: what a line inside a set of trees cannot name.
use mathlib.Core.Option
use mathlib.Core.Option.{map-eq-some_iff, some-injective}
use glasir_control.Prelude.{
  pair_beq, ◌≡◌, refl, sym, ap, ◌∙◌, ◌⊎◌, inl, inr, Bool, true, false, ◌||◌, none, some, List, [],
  ◌∷◌, ◌++◌, arith, if◌then◌else◌, Bool-cases, or-true, Option-cases, is_some_and, is_empty,
  contains, is_subset, contains-append, all-contains, ◌==◌, eq_iff, eq_refl, nat_eq, list_eq,
  pair_eq,
}
use glasir_control.Text.{Text, codes, trim, starts_with}
use glasir_control.Text.Order.{sorted_set, contains-sorted_set}
use glasir_control.HashMap.{HashMap, get, get_list}
use glasir_control.Rights.{Rights}
use glasir_control.Rights.Parse.{
  Directive, grant_line, role_line, member_line, role_tool_line, group_line, workspace_line,
  package_line, malformed, fields, items, directive, line_directive,
}
use glasir_control.Rights.Parse.Effects.{
  grant_items, role_items, member_items, group_items, names_tools,
}
use glasir_control.Rights.Scope.{role_union, reached, nonempty_set, is_inside}

-- `line_trees` sees of a line what `parse` sees of it, or the line says nothing.
pub inside_cases :
    (r : Rights) (ts : List Text) (line : Text)
    → is_inside r ts line ≡ true
    → (line_directive line ≡ malformed)
      ⊎ ((set : List Text) × (reached r (line_directive line) ≡ some set)
          × (is_subset set ts ≡ true))
unfolding is_inside line_directive
inside_cases r ts line h =
    elim (Bool-cases (is_empty (trim line) || starts_with (trim line) (codes "#"))) [
      | inl skipped ↦ inl (rw skipped)
      | inr read ↦ elim (Option-cases (reached r (directive (fields (trim line))))) [
        | inl missing ↦ cc missing
        | inr (set, found) ↦ rw read (inr (set, found, nonempty_subset set (rw found at h)))
      ]
    ]
  where
    nonempty_subset :
        (set : List Text)
        → is_some_and (nonempty_set (some set)) (λ s. is_subset s ts) ≡ true
        → is_subset set ts ≡ true
    nonempty_subset [] k = refl
    nonempty_subset (x ∷ xs) k = k

module _ (roles : HashMap Text (List Text)) where
  role_union-step :
      (name : Text) (more set : List Text)
      → role_union roles (name ∷ more) ≡ some set
      → (name == codes "admin" ≡ false)
        × ((rest : List Text) × (role_union roles more ≡ some rest)
            × (set ≡ get_list roles name ++ rest))
  unfolding role_union get_list
  role_union-step name more set h = elim (Bool-cases (name == codes "admin")) [
    | inl admin ↦ cc (admin, h)
    | inr other ↦ elim (Option-cases (get roles name)) [
      | inl missing ↦ cc (other, missing, h)
      | inr (ts, found) ↦ elim (Bool-cases (is_empty ts)) [
        | inl bare ↦ cc (other, found, bare, h)
        | inr full ↦
            let (rest, later, same) =
              (map-eq-some_iff (λ (all_of : List Text). ts ++ all_of) (role_union roles more)).0
                (rw (other, found, full) at h) in
            (other, (rest, later, rw found (sym same)))
      ]
    ]
  ]

  -- A union that is there has no `admin` in it, and holds the trees of each of its roles.
  pub role_union_sound :
      (names set : List Text) (role : Text)
      → role_union roles names ≡ some set
      → contains names role ≡ true
      → (role == codes "admin" ≡ false)
        × ((t : Text) → contains (get_list roles role) t ≡ true → contains set t ≡ true)
  role_union_sound [] set role h m = cc
  role_union_sound (name ∷ more) set role h m =
      let (other, (rest, later, same)) = role_union-step name more set h in
      elim (or-true (name == role) (contains more role) m) [
        | inl here ↦
            let eq : name ≡ role = (eq_iff name role).0 here in
            (
              rw eq at other,
              λ t k.
                  rw same
                    (ground (arith, contains-append (get_list roles name) rest t, rw (← eq) at k)),
            )
        | inr there ↦
            let (plain, sub) = role_union_sound more rest role later there in
            (
              plain,
              λ t k.
                  rw same (ground (arith, contains-append (get_list roles name) rest t, sub t k)),
            )
      ]

-- A set inside the trees misses a tree outside of them.
subset_misses :
    (set ts : List Text) (t : Text)
    → is_subset set ts ≡ true
    → contains ts t ≡ false
    → contains set t ≡ false
subset_misses set ts t sub out = elim (Bool-cases (contains set t)) [
  | inl hit ↦ cc (all-contains (contains ts) set t sub hit, out)
  | inr miss ↦ miss
]

items_miss :
    (list : Text) (ts : List Text) (t : Text)
    → is_subset (sorted_set (items list)) ts ≡ true
    → contains ts t ≡ false
    → contains (items list) t ≡ false
items_miss list ts t sub out =
    sym (contains-sorted_set (items list) t) ∙ subset_misses (sorted_set (items list)) ts t sub out

-- The roles that a `member` or `group` line inside the trees names.
names_inside :
    (r : Rights) (ts set : List Text) (list role : Text)
    → Option.map sorted_set (role_union r.roles (sorted_set (items list))) ≡ some set
    → is_subset set ts ≡ true
    → contains (items list) role ≡ true
    → (role == codes "admin" ≡ false)
      × ((t : Text) → contains ts t ≡ false → contains (get_list r.roles role) t ≡ false)
names_inside r ts set list role found sub named =
    let (union, made, same) =
      (map-eq-some_iff sorted_set (role_union r.roles (sorted_set (items list)))).0 found in
    let (plain, holds) =
      role_union_sound r.roles (sorted_set (items list)) union role made
        (contains-sorted_set (items list) role ∙ named) in
    (
      plain,
      λ t out. elim (Bool-cases (contains (get_list r.roles role) t)) [
        | inl hit ↦ cc (
          sym (contains-sorted_set union t) ∙ ap (λ (v : List Text). contains v t) same,
          holds t hit,
          subset_misses set ts t sub out,
        )
        | inr miss ↦ miss
      ],
    )

-- What a directive inside the trees does to the entries that concern anything else.
pub record IsQuiet (r : Rights) (ts : List Text) (d : Directive) : Type 0 where
  pub grants : (user t : Text) → contains ts t ≡ false → contains (grant_items d user) t ≡ false
  pub roles : (role t : Text) → contains ts t ≡ false → contains (role_items d role) t ≡ false
  pub members :
      (user role : Text)
      → contains (member_items d user) role ≡ true
      → (role == codes "admin" ≡ false)
        × ((t : Text) → contains ts t ≡ false → contains (get_list r.roles role) t ≡ false)
  pub groups :
      (group role : Text)
      → contains (group_items d group) role ≡ true
      → (role == codes "admin" ≡ false)
        × ((t : Text) → contains ts t ≡ false → contains (get_list r.roles role) t ≡ false)
  pub tools : (role t : Text) → contains ts t ≡ false → names_tools d (role, t) ≡ false

found_items_miss :
    (list : Text) (ts set : List Text) (t : Text)
    → some (sorted_set (items list)) ≡ some set
    → is_subset set ts ≡ true
    → contains ts t ≡ false
    → contains (items list) t ≡ false
found_items_miss list ts set t found sub out =
    items_miss list ts t (rw (some-injective (sorted_set (items list)) set found) sub) out

if_misses :
    (b : Bool) (xs : List Text) (t : Text)
    → contains xs t ≡ false
    → contains (if b then xs else []) t ≡ false
if_misses true xs t h = h
if_misses false xs t h = refl

if_holds :
    (b : Bool) (xs : List Text) (t : Text)
    → contains (if b then xs else []) t ≡ true
    → contains xs t ≡ true
if_holds true xs t h = h
if_holds false xs t h = cc h

malformed-IsQuiet : (r : Rights) (ts : List Text) → IsQuiet r ts malformed
malformed-IsQuiet r ts = record {
  grants = λ k t out. refl;
  roles = λ k t out. refl;
  members = λ k role h. cc h;
  groups = λ k role h. cc h;
  tools = λ k t out. refl;
}

reached_role :
    (role : Text) (mine : List Text) (set : List Text)
    → (if role == codes "admin" then none else some mine) ≡ some set
    → mine ≡ set
reached_role role mine set h = ground (arith, h)

pub reached-IsQuiet :
    (r : Rights) (ts set : List Text) (d : Directive)
    → reached r d ≡ some set
    → is_subset set ts ≡ true
    → IsQuiet r ts d
unfolding reached
reached-IsQuiet r ts set (grant_line user list) found sub = record {
  grants = λ k t out.
      if_misses (user == k) (items list) t (found_items_miss list ts set t found sub out);
  roles = λ k t out. refl;
  members = λ k role h. cc h;
  groups = λ k role h. cc h;
  tools = λ k t out. refl;
}
reached-IsQuiet r ts set (role_line role list) found sub = record {
  grants = λ k t out. refl;
  roles = λ k t out.
      if_misses (role == k) (items list) t
        (items_miss list ts t (rw (reached_role role (sorted_set (items list)) set found) sub) out);
  members = λ k role h. cc h;
  groups = λ k role h. cc h;
  tools = λ k t out. refl;
}
reached-IsQuiet r ts set (role_tool_line role tree_name list) found sub = record {
  grants = λ k t out. refl;
  roles = λ k t out. refl;
  members = λ k role h. cc h;
  groups = λ k role h. cc h;
  tools = λ k t out. elim (Bool-cases (tree_name == t)) [
    | inl same ↦ cc (
      all-contains (contains ts) set tree_name sub (
          rw (sym (reached_role role (tree_name ∷ []) set found))
            (ground (arith, eq_refl tree_name))),
      (eq_iff tree_name t).0 same,
      out,
    )
    | inr other ↦ unfold pair_beq in ground arith
  ];
}
reached-IsQuiet r ts set (member_line user list) found sub = record {
  grants = λ k t out. refl;
  roles = λ k t out. refl;
  members = λ k role h.
      names_inside r ts set list role found sub (if_holds (user == k) (items list) role h);
  groups = λ k role h. cc h;
  tools = λ k t out. refl;
}
reached-IsQuiet r ts set (group_line group list) found sub = record {
  grants = λ k t out. refl;
  roles = λ k t out. refl;
  members = λ k role h. cc h;
  groups = λ k role h.
      names_inside r ts set list role found sub (if_holds (group == k) (items list) role h);
  tools = λ k t out. refl;
}
reached-IsQuiet r ts set (workspace_line name list) found sub = record {
  grants = λ k t out. refl;
  roles = λ k t out. refl;
  members = λ k role h. cc h;
  groups = λ k role h. cc h;
  tools = λ k t out. refl;
}
reached-IsQuiet r ts set (package_line name list) found sub = record {
  grants = λ k t out. refl;
  roles = λ k t out. refl;
  members = λ k role h. cc h;
  groups = λ k role h. cc h;
  tools = λ k t out. refl;
}
reached-IsQuiet r ts set _ found sub = cc found

-- A line inside the trees is quiet outside of them.
pub inside-IsQuiet :
    (r : Rights) (ts : List Text) (line : Text)
    → is_inside r ts line ≡ true
    → IsQuiet r ts (line_directive line)
inside-IsQuiet r ts line h = elim (inside_cases r ts line h) [
  | inl skipped ↦ rw skipped (malformed-IsQuiet r ts)
  | inr (set, found, sub) ↦ reached-IsQuiet r ts set (line_directive line) found sub
]
