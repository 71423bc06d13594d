-- ===== src/Rights/Access.antt =====
-- src/rights.rs, the queries: what `may_with_groups` and `may_tool_with_groups` decide, against
-- relations that name the line of the rights file which gives the access.
use glasir_control.Prelude.{
  ◌≡◌, sym, ◌∙◌, subst, ◌↔◌, ◌⊎◌, inl, inr, true, ◌||◌, none, some, List, [], ◌∷◌, ◌++◌, arith,
  Bool-cases, and-true, or-true, Option-cases, is_some_and, contains, contains-append,
  any_of_contains, any-witness, Equal, ◌==◌, eq_iff, eq_refl, nat_eq, list_eq, pair_eq,
}
use glasir_control.Text.{Text, codes}
use glasir_control.Text.Order.{contains-sorted_set}
use glasir_control.HashMap.{HashMap, get, get_list}
use glasir_control.Rights.{
  Rights, mapped_roles, roles_for, may_with_groups, is_admin_with_groups, role_allows,
  may_tool_with_groups,
}

-- A role that the user has, directly or by a group of the identity provider.
pub data IsAssigned (r : Rights) (user : Text) (idp_groups : List Text) (role : Text) : Type 0 where
  by_member : contains (get_list r.members user) role ≡ true → IsAssigned r user idp_groups role
  by_group :
      (group : Text)
      → contains idp_groups group ≡ true
      → contains (get_list r.groups group) role ≡ true
      → IsAssigned r user idp_groups role

-- A way to the tree: a direct grant, or a role of the user's that reaches it.
pub data Reaches (r : Rights) (user : Text) (idp_groups : List Text) (tree_name : Text)
    : Type 0 where
  by_grant :
      contains (get_list r.grants user) tree_name ≡ true → Reaches r user idp_groups tree_name
  by_role :
      (role : Text)
      → IsAssigned r user idp_groups role
      → contains (get_list r.roles role) tree_name ≡ true
      → Reaches r user idp_groups tree_name

-- A tool list of the role for the tree, if there is one, names the tool.
abbrev pub IsAllowed : Rights → Text → Text → Text → Type 0
IsAllowed r role tree_name tool =
    (get r.role_tools (role, tree_name) ≡ none)
    ⊎ ((tools : List Text) × (get r.role_tools (role, tree_name) ≡ some tools)
        × (contains tools tool ≡ true))

pub data Uses (r : Rights) (user : Text) (idp_groups : List Text) (tree_name tool : Text)
    : Type 0 where
  any_tool :
      contains (get_list r.grants user) tree_name ≡ true → Uses r user idp_groups tree_name tool
  role_tool :
      (role : Text)
      → IsAssigned r user idp_groups role
      → contains (get_list r.roles role) tree_name ≡ true
      → IsAllowed r role tree_name tool
      → Uses r user idp_groups tree_name tool

-- Asking the entry of a key, if it is there, is asking the list with the default.
pub is_some_and-get_list :
    {K : Type 0} ⦃e : Equal K⦄ (m : HashMap K (List Text)) (k : K) (a : Text)
    → is_some_and (get m k) (λ ts. contains ts a) ≡ contains (get_list m k) a
unfolding get_list
is_some_and-get_list m k a = ground arith

mapped_roles_sound :
    (m : HashMap Text (List Text)) (gs : List Text) (role : Text)
    → contains (mapped_roles m gs) role ≡ true
    → (g : Text) × (contains gs g ≡ true) × (contains (get_list m g) role ≡ true)
mapped_roles_sound m [] role h = cc
mapped_roles_sound m (g ∷ gs) role h = elim (Bool-cases (contains (get_list m g) role)) [
  | inl here ↦ (g, ground (arith, eq_refl g), here)
  | inr there ↦
      let (g', among, maps) =
        mapped_roles_sound m gs role
          (ground (arith, contains-append (get_list m g) (mapped_roles m gs) role)) in
      (g', ground (arith, among), maps)
]

mapped_roles_complete :
    (m : HashMap Text (List Text)) (gs : List Text) (role g : Text)
    → contains gs g ≡ true
    → contains (get_list m g) role ≡ true
    → contains (mapped_roles m gs) role ≡ true
mapped_roles_complete m [] role g h k = cc
mapped_roles_complete m (g' ∷ gs) role g h k = elim (or-true (g' == g) (contains gs g) h) [
  | inl same ↦ ground (arith, contains-append (get_list m g') (mapped_roles m gs) role, eq_iff g' g)
  | inr later ↦ ground (
    arith,
    contains-append (get_list m g') (mapped_roles m gs) role,
    mapped_roles_complete m gs role g later k,
  )
]

module _ (r : Rights) (user : Text) (idp_groups : List Text) where
  pub contains-roles_for :
      (role : Text)
      → contains (roles_for r user idp_groups) role
        ≡ contains (get_list r.members user) role
          || contains (mapped_roles r.groups idp_groups) role
  unfolding roles_for
  contains-roles_for role =
      contains-sorted_set (get_list r.members user ++ mapped_roles r.groups idp_groups) role
      ∙ contains-append (get_list r.members user) (mapped_roles r.groups idp_groups) role

  pub roles_for_sound :
      (role : Text)
      → contains (roles_for r user idp_groups) role ≡ true
      → IsAssigned r user idp_groups role
  roles_for_sound role h = elim (or-true _ _ (sym (contains-roles_for role) ∙ h)) [
    | inl m ↦ by_member m
    | inr g ↦
        let (group, among, maps) = mapped_roles_sound r.groups idp_groups role g in
        by_group group among maps
  ]

  pub roles_for_complete :
      {role : Text}
      → IsAssigned r user idp_groups role
      → contains (roles_for r user idp_groups) role ≡ true
  roles_for_complete {role} (by_member m) = rw (contains-roles_for role, m)
  roles_for_complete {role} (by_group g among maps) =
      ground (
        arith,
        contains-roles_for role,
        mapped_roles_complete r.groups idp_groups role g among maps,
      )

  may_sound : (t : Text) → may_with_groups r user idp_groups t ≡ true → Reaches r user idp_groups t
  unfolding may_with_groups
  may_sound t h = elim (or-true _ _ h) [
    | inl g ↦ by_grant (sym (is_some_and-get_list r.grants user t) ∙ g)
    | inr a ↦
        let (role, has, reach) = any-witness _ (roles_for r user idp_groups) a in
        by_role role (roles_for_sound role has) (sym (is_some_and-get_list r.roles role t) ∙ reach)
  ]

  may_complete :
      {t : Text} → Reaches r user idp_groups t → may_with_groups r user idp_groups t ≡ true
  unfolding may_with_groups
  may_complete {t} (by_grant g) = rw (is_some_and-get_list r.grants user t, g)
  may_complete {t} (by_role role has reach) = ground (
    arith,
    any_of_contains (λ role. is_some_and (get r.roles role) (λ ts. contains ts t))
        (roles_for r user idp_groups) role (roles_for_complete has)
        (is_some_and-get_list r.roles role t ∙ reach),
  )

  -- A user may reach a tree exactly when a direct grant names it, or a role does that the user has
  -- as a member or through one of the groups of the sign-in.
  pub may_iff :
      (t : Text) → (may_with_groups r user idp_groups t ≡ true) ↔ Reaches r user idp_groups t
  may_iff t = (may_sound t, may_complete)

  role_allows_sound :
      (t tool role : Text)
      → role_allows r t tool role ≡ true
      → (contains (get_list r.roles role) t ≡ true) × IsAllowed r role t tool
  role_allows_sound t tool role h =
      let (reach, allowed) = and-true _ _ h in
      (
        sym (is_some_and-get_list r.roles role t) ∙ reach,
        elim (Option-cases (get r.role_tools (role, t))) [
          | inl missing ↦ inl missing
          | inr (tools, found) ↦ inr (tools, found, rw found at allowed)
        ],
      )

  role_allows_complete :
      (t tool role : Text)
      → contains (get_list r.roles role) t ≡ true
      → IsAllowed r role t tool
      → role_allows r t tool role ≡ true
  role_allows_complete t tool role reach (inl missing) =
      rw (is_some_and-get_list r.roles role t, reach, missing)
  role_allows_complete t tool role reach (inr (tools, found, h)) =
      rw (is_some_and-get_list r.roles role t, reach, found) h

  may_tool_sound :
      (t tool : Text)
      → may_tool_with_groups r user idp_groups t tool ≡ true
      → Uses r user idp_groups t tool
  unfolding may_tool_with_groups
  may_tool_sound t tool h =
      elim (Bool-cases (is_some_and (get r.grants user) (λ ts. contains ts t))) [
        | inl g ↦ any_tool (sym (is_some_and-get_list r.grants user t) ∙ g)
        | inr no_grant ↦
            let (role, has, allowed) =
              any-witness (role_allows r t tool) (roles_for r user idp_groups) (rw no_grant at h) in
            let (reach, tools) = role_allows_sound t tool role allowed in
            role_tool role (roles_for_sound role has) reach tools
      ]

  may_tool_complete :
      {t tool : Text}
      → Uses r user idp_groups t tool
      → may_tool_with_groups r user idp_groups t tool ≡ true
  unfolding may_tool_with_groups
  may_tool_complete {t} (any_tool g) = rw (is_some_and-get_list r.grants user t, g)
  may_tool_complete {t} {tool} (role_tool role has reach allowed) = ground (
    arith,
    any_of_contains (role_allows r t tool) (roles_for r user idp_groups) role
        (roles_for_complete has) (role_allows_complete t tool role reach allowed),
  )

  -- A tool may be called on a tree exactly when the user has a direct grant of the tree, or has a
  -- role that reaches the tree and whose tool list for the tree, if it has one, names the tool.
  pub may_tool_iff :
      (t tool : Text)
      → (may_tool_with_groups r user idp_groups t tool ≡ true) ↔ Uses r user idp_groups t tool
  may_tool_iff t tool = (may_tool_sound t tool, may_tool_complete)

  Uses-Reaches : {t tool : Text} → Uses r user idp_groups t tool → Reaches r user idp_groups t
  Uses-Reaches (any_tool g) = by_grant g
  Uses-Reaches (role_tool role has reach allowed) = by_role role has reach

  -- Who may call some tool on a tree may reach the tree.
  pub may_tool-may :
      (t tool : Text)
      → may_tool_with_groups r user idp_groups t tool ≡ true
      → may_with_groups r user idp_groups t ≡ true
  may_tool-may t tool h = may_complete (Uses-Reaches (may_tool_sound t tool h))

  -- A user is an administrator exactly when the role `admin` is assigned to them.
  pub is_admin_iff :
      (is_admin_with_groups r user idp_groups ≡ true) ↔ IsAssigned r user idp_groups (codes "admin")
  unfolding is_admin_with_groups
  is_admin_iff = (
    λ h.
        let (role, has, same) =
          any-witness (λ role. role == codes "admin") (roles_for r user idp_groups) h in
        subst (IsAssigned r user idp_groups) ((eq_iff role (codes "admin")).0 same)
          (roles_for_sound role has),
    λ a.
        any_of_contains (λ role. role == codes "admin") (roles_for r user idp_groups)
          (codes "admin") (roles_for_complete a) (eq_refl (codes "admin")),
  )
