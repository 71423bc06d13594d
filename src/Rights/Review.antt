-- ===== src/Rights/Review.antt =====
-- src/rights.rs, `access_review`: what the rights declare, without a secret.
use glasir_control.Prelude.{
  Option, none, some, List, [], ◌∷◌, map, filter, contains, nat_eq, Bool_eq, list_eq, pair_eq,
}
use glasir_control.Text.{Text, codes}
use glasir_control.Text.Order.{text_leb, sort_by, sorted_set}
use glasir_control.HashMap.{HashMap, get, get_list}
use glasir_control.Rights.{Rights}
use glasir_control.Json.{Value, string_value, object_of, array_of, strings}

-- `keys().cloned()`, sorted
abbrev pub sorted_keys : {A : Type 0} → HashMap Text A → List Text
sorted_keys m = sorted_set (map (λ kv. kv.0) m)

-- The keys the list of which has the name.
abbrev pub keys_with : Text → HashMap Text (List Text) → List Text
keys_with name m = sorted_set (map (λ kv. kv.0) (filter (λ kv. contains kv.1 name) m))

abbrev pub grant_value : Text × List Text → Value
grant_value (user, ts) = object_of (
    (codes "user", string_value user)
    ∷ (codes "trees", strings (sorted_set ts))
    ∷ (codes "tool_access", string_value (codes "all"))
    ∷ [])

abbrev pub tools_value : Text → Option (List Text) → Value
tools_value tree_name (some tools) = object_of (
    (codes "tree", string_value tree_name)
    ∷ (codes "mode", string_value (codes "allowlist"))
    ∷ (codes "tools", strings (sorted_set tools))
    ∷ [])
tools_value tree_name none = object_of (
    (codes "tree", string_value tree_name)
    ∷ (codes "mode", string_value (codes "all"))
    ∷ (codes "tools", strings [])
    ∷ [])

abbrev pub role_value : Rights → Text → Value
role_value r role =
    let ts = sorted_set (get_list r.roles role) in
    object_of (
      (codes "role", string_value role)
      ∷ (codes "trees", strings ts)
      ∷ (codes "local_members", strings (keys_with role r.members))
      ∷ (codes "mapped_idp_groups", strings (keys_with role r.groups))
      ∷ (codes "tool_access", array_of (map (λ t. tools_value t (get r.role_tools (role, t))) ts))
      ∷ [])

-- The names of the trees are sorted, and kept where one is declared twice.
unfoldable pub access_review : Rights → Value
unfolding sorted_set sort_by text_leb
access_review r = object_of (
    (codes "schema", string_value (codes "glasir.access-review.v1"))
    ∷ (codes "trees", strings (sort_by text_leb (map (λ t. t.name) r.trees)))
    ∷ (
      codes "direct_grants",
      array_of (map grant_value (sort_by (λ a b. text_leb a.0 b.0) r.grants)),
    )
    ∷ (codes "roles", array_of (map (role_value r) (sorted_keys r.roles)))
    ∷ [])
