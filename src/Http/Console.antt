-- ===== src/Http/Console.antt =====
-- src/main.rs: what a signed-in caller asks for: the session, the workspaces and the trees.
use glasir_control.Prelude.{
  Bool, true, false, Option, none, some, List, [], ◌∷◌, ◌++◌, map, filter, nat_eq, Bool_eq, list_eq,
  pair_eq,
}
use glasir_control.Text.{Text, codes}
use glasir_control.Rights.{
  Tree, Rights, AdminScope, global, in_trees, may_with_groups, admin_scope, tenants_of,
  visible_workspaces,
}
use glasir_control.Policy.{Store}
use glasir_control.Json.{Value, null_value, bool_value, string_value, object_of, strings}
use glasir_control.Http.{Call, Outcome, ending, found, for_user}

abbrev pub join_commas : List Text → Text
join_commas [] = []
join_commas (t ∷ []) = t
join_commas (t ∷ u ∷ ts) = t ++ (codes "," ++ join_commas (u ∷ ts))

module _ (to_string : Value → Text) where
  abbrev pub session_scope : Rights → Text → Option AdminScope → Value
  session_scope r user (some global) = string_value (codes "global")
  session_scope r user (some (in_trees ts)) = strings (tenants_of r user)
  session_scope r user none = null_value

  abbrev pub is_admin_scope : Option AdminScope → Bool
  is_admin_scope none = false
  is_admin_scope (some scope) = true

  -- GET /api/session. A scope that is not null makes an administrator.
  unfoldable pub session : Call → Store → Outcome
  session c s =
      let r = c.moment.rights in
      ending c s (
        for_user c.who λ user.
          let scope = admin_scope r user c.groups in
          found (
            to_string (
              object_of (
                (codes "user", string_value user)
                ∷ (codes "admin", bool_value (is_admin_scope scope))
                ∷ (codes "scope", session_scope r user scope)
                ∷ []))))

  -- json_string
  abbrev pub json_string : Text → Text
  json_string s = to_string (string_value s)

  abbrev pub workspace_text : Text × List Text → Text
  workspace_text (name, ts) =
      codes "{\"name\":"
      ++ (json_string name
          ++ (codes ",\"trees\":[" ++ (join_commas (map json_string ts) ++ codes "]}")))

  -- GET /workspaces
  unfoldable pub workspaces : Call → Store → Outcome
  workspaces c s = ending c s (
      for_user c.who λ user. found (
        codes "["
        ++ (join_commas (map workspace_text (visible_workspaces c.moment.rights user c.groups))
            ++ codes "]")))

-- The trees that the caller may reach.
abbrev pub visible_trees : Rights → Text → List Text → List Tree
visible_trees r user idp_groups = filter (λ t. may_with_groups r user idp_groups t.name) r.trees

abbrev pub tree_text : Tree → Text
tree_text t = codes "{\"name\":\"" ++ (t.name ++ codes "\"}")

-- /trees
unfoldable pub trees : Call → Store → Outcome
trees c s = ending c s (
    for_user c.who λ user. found (
      codes "["
      ++ (join_commas (map tree_text (visible_trees c.moment.rights user c.groups)) ++ codes "]")))
