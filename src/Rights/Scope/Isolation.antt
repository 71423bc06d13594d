-- ===== src/Rights/Scope/Isolation.antt =====
-- src/rights.rs, `compose`: a tenant administrator's edit changes nothing outside their trees.
use glasir_control.Prelude.{
  ◌≡◌, refl, sym, ◌∙◌, ◌⊎◌, inl, inr, Bool, true, false, not, List, [], ◌∷◌, ◌++◌, arith,
  if◌then◌else◌, Bool-cases, Bool-eq, any, filter, any-append, contains, contains-append, ◌==◌,
  eq_refl, nat_eq, list_eq, pair_eq, ok,
}
use glasir_control.Text.{Text, codes}
use glasir_control.Text.Lines.{lines}
use glasir_control.HashMap.{HashMap, get_list, extend, get_list-extend}
use glasir_control.Rights.{Rights, default, may_with_groups, is_admin_with_groups}
use glasir_control.Rights.Access.{
  IsAssigned, by_member, by_group, Reaches, by_grant, by_role, may_iff, is_admin_iff,
}
use glasir_control.Rights.Parse.{parse_lines, parse}
use glasir_control.Rights.Parse.Effects.{
  contains-grants, contains-roles, contains-members, contains-groups,
}
use glasir_control.Rights.Scope.{is_inside, merge_roles, both_rights, compose}
use glasir_control.Rights.Scope.Reach.{inside-IsQuiet}
use glasir_control.Rights.Scope.Compose.{IsAccepted, compose-lines}

any-quiet :
    (q far : Text → Bool) (ls : List Text)
    → ((l : Text) → far l ≡ false → q l ≡ false)
    → any q (filter far ls) ≡ any q ls
any-quiet q far [] h = refl
any-quiet q far (l ∷ ls) h = ground (arith, h l, any-quiet q far ls h)

any-none :
    (q : Text → Bool) (ls : List Text)
    → ((l : Text) → contains ls l ≡ true → q l ≡ false)
    → any q ls ≡ false
any-none q [] h = refl
any-none q (l ∷ ls) h =
    ground (arith, h l, eq_refl l, any-none q ls (λ k m. h k (ground (arith, m))))

-- The active lines outside the trees, then accepted lines, against the active lines.
module _ (ls : List Text) (both : Rights) (ts accepted : List Text)
    (good : IsAccepted both ts accepted) where
  abbrev edited : List Text
  edited = filter (λ line. not (is_inside both ts line)) ls ++ accepted

  -- A test that no line inside the trees passes sees no difference.
  any-edited :
      (q : Text → Bool)
      → ((l : Text) → is_inside both ts l ≡ true → q l ≡ false)
      → any q edited ≡ any q ls
  any-edited q h =
      any-append q (filter (λ line. not (is_inside both ts line)) ls) accepted
      ∙ ground (
        arith,
        any-quiet q (λ line. not (is_inside both ts line)) ls (λ l far. h l (ground arith)),
        any-none q accepted (λ l m. h l (good.inside l m)),
      )

  edited_grants :
      (user t : Text)
      → contains ts t ≡ false
      → contains (get_list (parse_lines default edited).grants user) t
        ≡ contains (get_list (parse_lines default ls).grants user) t
  edited_grants user t out =
      contains-grants edited user t
      ∙ any-edited _ (λ l near. (inside-IsQuiet both ts l near).grants user t out)
      ∙ sym (contains-grants ls user t)

  edited_roles :
      (role t : Text)
      → contains ts t ≡ false
      → contains (get_list (parse_lines default edited).roles role) t
        ≡ contains (get_list (parse_lines default ls).roles role) t
  edited_roles role t out =
      contains-roles edited role t
      ∙ any-edited _ (λ l near. (inside-IsQuiet both ts l near).roles role t out)
      ∙ sym (contains-roles ls role t)

  -- A role that reaches a tree outside, or is `admin`, keeps its members and groups.
  module _ (role : Text)
      (far : (role == codes "admin" ≡ true)
        ⊎ ((t : Text) × (contains ts t ≡ false)
            × (contains (get_list both.roles role) t ≡ true))) where
    unnamed :
        (b : Bool)
        → (b ≡ true
            → (role == codes "admin" ≡ false)
              × ((t : Text)
                  → contains ts t ≡ false
                  → contains (get_list both.roles role) t ≡ false))
        → b ≡ false
    unnamed b h = elim (Bool-cases b) [
      | inl named ↦ elim far [
        | inl admin ↦ cc (admin, (h named).0)
        | inr (t, out, hit) ↦ cc (hit, (h named).1 t out)
      ]
      | inr free ↦ free
    ]

    edited_members :
        (user : Text)
        → contains (get_list (parse_lines default edited).members user) role
          ≡ contains (get_list (parse_lines default ls).members user) role
    edited_members user =
        contains-members edited user role
        ∙ any-edited _ (λ l near. unnamed _ ((inside-IsQuiet both ts l near).members user role))
        ∙ sym (contains-members ls user role)

    edited_groups :
        (group : Text)
        → contains (get_list (parse_lines default edited).groups group) role
          ≡ contains (get_list (parse_lines default ls).groups group) role
    edited_groups group =
        contains-groups edited group role
        ∙ any-edited _ (λ l near. unnamed _ ((inside-IsQuiet both ts l near).groups group role))
        ∙ sym (contains-groups ls group role)

    module _ (user : Text) (idp_groups : List Text) where
      IsAssigned-before :
          IsAssigned (parse_lines default edited) user idp_groups role
          → IsAssigned (parse_lines default ls) user idp_groups role
      IsAssigned-before (by_member m) = by_member (sym (edited_members user) ∙ m)
      IsAssigned-before (by_group g among m) = by_group g among (sym (edited_groups g) ∙ m)

      IsAssigned-after :
          IsAssigned (parse_lines default ls) user idp_groups role
          → IsAssigned (parse_lines default edited) user idp_groups role
      IsAssigned-after (by_member m) = by_member (edited_members user ∙ m)
      IsAssigned-after (by_group g among m) = by_group g among (edited_groups g ∙ m)

  module _
      (holds : (role t : Text)
        → contains (get_list (parse_lines default ls).roles role) t ≡ true
        → contains (get_list both.roles role) t ≡ true)
      (user : Text) (idp_groups : List Text) (t : Text) (out : contains ts t ≡ false) where
    reach_before :
        Reaches (parse_lines default edited) user idp_groups t
        → Reaches (parse_lines default ls) user idp_groups t
    reach_before (by_grant m) = by_grant (sym (edited_grants user t out) ∙ m)
    reach_before (by_role role has m) =
        let m' : contains (get_list (parse_lines default ls).roles role) t ≡ true =
          sym (edited_roles role t out) ∙ m in
        by_role role (IsAssigned-before role (inr (t, out, holds role t m')) user idp_groups has) m'

    reach_after :
        Reaches (parse_lines default ls) user idp_groups t
        → Reaches (parse_lines default edited) user idp_groups t
    reach_after (by_grant m) = by_grant (edited_grants user t out ∙ m)
    reach_after (by_role role has m) =
        by_role role (IsAssigned-after role (inr (t, out, holds role t m)) user idp_groups has)
          (edited_roles role t out ∙ m)

    pub may-edited :
        may_with_groups (parse_lines default edited) user idp_groups t
        ≡ may_with_groups (parse_lines default ls) user idp_groups t
    may-edited =
        Bool-eq _ _
          (λ h.
            (may_iff (parse_lines default ls) user idp_groups t).1
              (reach_before ((may_iff (parse_lines default edited) user idp_groups t).0 h)))
          (λ h.
            (may_iff (parse_lines default edited) user idp_groups t).1
              (reach_after ((may_iff (parse_lines default ls) user idp_groups t).0 h)))

  pub admin-edited :
      (user : Text) (idp_groups : List Text)
      → is_admin_with_groups (parse_lines default edited) user idp_groups
        ≡ is_admin_with_groups (parse_lines default ls) user idp_groups
  admin-edited user idp_groups =
      Bool-eq _ _
        (λ h. (is_admin_iff (parse_lines default ls) user idp_groups).1 (
          IsAssigned-before (codes "admin") (inl (eq_refl (codes "admin"))) user idp_groups
            ((is_admin_iff (parse_lines default edited) user idp_groups).0 h)))
        (λ h. (is_admin_iff (parse_lines default edited) user idp_groups).1 (
          IsAssigned-after (codes "admin") (inl (eq_refl (codes "admin"))) user idp_groups
            ((is_admin_iff (parse_lines default ls) user idp_groups).0 h)))

merge_roles_keeps :
    (m n : HashMap Text (List Text)) (k a : Text)
    → contains (get_list m k) a ≡ true
    → contains (get_list (merge_roles m n) k) a ≡ true
unfolding merge_roles
merge_roles_keeps m [] k a h = h
merge_roles_keeps m ((role, xs) ∷ more) k a h = merge_roles_keeps (extend role xs m) more k a (
    rw (get_list-extend role xs m k)
      (contains-append (get_list m k) (if role == k then xs else []) a ∙ ground (arith, h)))

both_holds :
    (active submitted role t : Text)
    → contains (get_list (parse active).roles role) t ≡ true
    → contains (get_list (both_rights active submitted).roles role) t ≡ true
unfolding both_rights
both_holds active submitted role t h =
    merge_roles_keeps (parse active).roles (parse submitted).roles role t h

parse_lines-of : (text : Text) → parse text ≡ parse_lines default (lines text)
unfolding parse
parse_lines-of text = refl

-- After a composed edit, access to a tree outside the administrator's trees is what it was, for
-- every user with every set of groups.
pub compose-isolates :
    (active submitted : Text) (ts : List Text) (out user : Text) (idp_groups : List Text) (t : Text)
    → compose active submitted ts ≡ ok out
    → contains ts t ≡ false
    → may_with_groups (parse out) user idp_groups t
      ≡ may_with_groups (parse active) user idp_groups t
compose-isolates active submitted ts out user idp_groups t made outside =
    let (accepted, good, lines_of) = compose-lines active submitted ts out made in
    rw (lines_of, parse_lines-of active)
      (may-edited (lines active) (both_rights active submitted) ts accepted good
        (λ role t' h. both_holds active submitted role t' (rw (parse_lines-of active) h)) user
        idp_groups t outside)

-- A composed edit makes nobody an administrator, and takes it from nobody.
pub compose-admin :
    (active submitted : Text) (ts : List Text) (out user : Text) (idp_groups : List Text)
    → compose active submitted ts ≡ ok out
    → is_admin_with_groups (parse out) user idp_groups
      ≡ is_admin_with_groups (parse active) user idp_groups
compose-admin active submitted ts out user idp_groups made =
    let (accepted, good, lines_of) = compose-lines active submitted ts out made in
    rw (lines_of, parse_lines-of active)
      (admin-edited (lines active) (both_rights active submitted) ts accepted good user idp_groups)
