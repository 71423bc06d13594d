-- ===== src/Rights/Restrict.antt =====
-- src/rights.rs, `restricted_to`: the rights as seen from inside a set of trees.
use glasir_control.Prelude.{
  ◌≡◌, sym, ap, ◌∙◌, Bool, true, not, ◌&&◌, List, [], arith, Bool-eq, and-true, and_intro, is_empty,
  all, filter, contains, contains-filter, nat_eq, list_eq, pair_eq,
}
use glasir_control.Text.{Text}
use glasir_control.HashMap.{
  HashMap, contains_key, map_filter, get_list, contains_key_of_contains, get_list-map_filter,
}
use glasir_control.Rights.{Rights, may_with_groups}
use glasir_control.Rights.Access.{
  IsAssigned, by_member, by_group, Reaches, by_grant, by_role, may_iff,
}
use glasir_control.Rights.Parse.Keys.{IsWellFormed}

-- The closure `keep`, and `only_roles` with the roles that are left.
abbrev keep : List Text → List Text → List Text
keep ts list = filter (contains ts) list

abbrev only_roles : HashMap Text (List Text) → List Text → List Text
only_roles roles list = filter (contains_key roles) list

abbrev nonempty : {K : Type 0} → K → List Text → Bool
nonempty k list = not (is_empty list)

unfoldable pub kept_roles : Rights → List Text → HashMap Text (List Text)
unfolding map_filter
kept_roles r ts = map_filter (keep ts) nonempty r.roles

unfoldable pub restricted_to : Rights → List Text → Rights
unfolding map_filter kept_roles
restricted_to r ts =
    let roles = kept_roles r ts in
    record {
      trees = filter (λ t. contains ts t.name) r.trees;
      grants = map_filter (keep ts) nonempty r.grants;
      roles = roles;
      members = map_filter (only_roles roles) nonempty r.members;
      role_tools =
          filter (λ entry. contains_key roles entry.0.0 && contains ts entry.0.1) r.role_tools;
      groups = map_filter (only_roles roles) nonempty r.groups;
      workspaces = filter (λ w. not (is_empty w.1) && all (contains ts) w.1) r.workspaces;
      workspace_packages = [];
      tenants = [];
      tenant_admins = [];
    }

module _ (r : Rights) (ts : List Text) (ok : IsWellFormed r) where
  contains-kept_roles :
      (role t : Text)
      → contains (get_list (kept_roles r ts) role) t
        ≡ contains ts t && contains (get_list r.roles role) t
  unfolding kept_roles
  contains-kept_roles role t =
      ap (λ (v : List Text). contains v t) (get_list-map_filter (contains ts) r.roles role ok.roles)
      ∙ contains-filter (contains ts) (get_list r.roles role) t

  contains-kept_grants :
      (user t : Text)
      → contains (get_list (restricted_to r ts).grants user) t
        ≡ contains ts t && contains (get_list r.grants user) t
  unfolding restricted_to
  contains-kept_grants user t =
      ap (λ (v : List Text). contains v t)
        (get_list-map_filter (contains ts) r.grants user ok.grants)
      ∙ contains-filter (contains ts) (get_list r.grants user) t

  contains-kept_members :
      (user role : Text)
      → contains (get_list (restricted_to r ts).members user) role
        ≡ contains_key (kept_roles r ts) role && contains (get_list r.members user) role
  unfolding restricted_to
  contains-kept_members user role =
      ap (λ (v : List Text). contains v role)
        (get_list-map_filter (contains_key (kept_roles r ts)) r.members user ok.members)
      ∙ contains-filter (contains_key (kept_roles r ts)) (get_list r.members user) role

  contains-kept_groups :
      (group role : Text)
      → contains (get_list (restricted_to r ts).groups group) role
        ≡ contains_key (kept_roles r ts) role && contains (get_list r.groups group) role
  unfolding restricted_to
  contains-kept_groups group role =
      ap (λ (v : List Text). contains v role)
        (get_list-map_filter (contains_key (kept_roles r ts)) r.groups group ok.groups)
      ∙ contains-filter (contains_key (kept_roles r ts)) (get_list r.groups group) role

  module _ (user : Text) (idp_groups : List Text) where
    IsAssigned-outside :
        {role : Text}
        → IsAssigned (restricted_to r ts) user idp_groups role
        → IsAssigned r user idp_groups role
    IsAssigned-outside {role} (by_member m) =
        by_member (ground (arith, contains-kept_members user role))
    IsAssigned-outside {role} (by_group g among m) =
        by_group g among (ground (arith, contains-kept_groups g role))

    IsAssigned-inside :
        {role : Text}
        → contains_key (kept_roles r ts) role ≡ true
        → IsAssigned r user idp_groups role
        → IsAssigned (restricted_to r ts) user idp_groups role
    IsAssigned-inside {role} k (by_member m) =
        by_member (ground (arith, contains-kept_members user role))
    IsAssigned-inside {role} k (by_group g among m) =
        by_group g among (ground (arith, contains-kept_groups g role))

    kept_role :
        (role t : Text)
        → contains (get_list (restricted_to r ts).roles role) t
          ≡ contains ts t && contains (get_list r.roles role) t
    unfolding restricted_to
    kept_role role t = contains-kept_roles role t

    reach_outside :
        {t : Text}
        → Reaches (restricted_to r ts) user idp_groups t
        → (contains ts t ≡ true) × Reaches r user idp_groups t
    reach_outside {t} (by_grant m) =
        let (i, g) = and-true _ _ (sym (contains-kept_grants user t) ∙ m) in (i, by_grant g)
    reach_outside {t} (by_role role has m) =
        let (i, g) = and-true _ _ (sym (kept_role role t) ∙ m) in
        (i, by_role role (IsAssigned-outside has) g)

    reach_inside :
        {t : Text}
        → contains ts t ≡ true
        → Reaches r user idp_groups t
        → Reaches (restricted_to r ts) user idp_groups t
    reach_inside {t} i (by_grant m) = by_grant (contains-kept_grants user t ∙ and_intro _ _ i m)
    reach_inside {t} i (by_role role has m) =
        let here : contains (get_list (kept_roles r ts) role) t ≡ true =
          contains-kept_roles role t ∙ and_intro _ _ i m in
        by_role role
          (IsAssigned-inside (contains_key_of_contains (kept_roles r ts) role t here) has)
          (kept_role role t ∙ and_intro _ _ i m)

    -- In rights with distinct keys, the view from inside a set of trees gives access to a tree
    -- exactly when the tree is in the set and the whole rights give access to it.
    pub may-restricted_to :
        (t : Text)
        → may_with_groups (restricted_to r ts) user idp_groups t
          ≡ contains ts t && may_with_groups r user idp_groups t
    may-restricted_to t =
        Bool-eq _ _
          (λ h.
            let (i, reach) = reach_outside ((may_iff (restricted_to r ts) user idp_groups t).0 h) in
            and_intro _ _ i ((may_iff r user idp_groups t).1 reach))
          (λ h.
            let (i, m) = and-true _ _ h in
            (may_iff (restricted_to r ts) user idp_groups t).1
              (reach_inside i ((may_iff r user idp_groups t).0 m)))
