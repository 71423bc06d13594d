-- ===== src/Rights.antt =====
-- src/rights.rs: who may reach which tree. The state is the parsed rights file; the queries on it
-- are here, and the children hold the parser, the scoped views and the proofs.
pub mod Access
pub mod Parse
pub mod Restrict
pub mod Scope
pub mod Review
pub mod Watched
pub mod Validate
mod Tests
use glasir_control.Prelude.{
  Bool, true, not, ◌&&◌, ◌||◌, Option, none, some, List, [], ◌∷◌, ◌++◌, map, if◌then◌else◌,
  is_some_and, is_none_or, is_empty, any, all, filter, contains, is_subset, ◌==◌, nat_eq, list_eq,
  pair_eq,
}
use glasir_control.Text.{Text, codes}
use glasir_control.Text.Order.{text_leb, sort_by, sorted_set}
use glasir_control.HashMap.{HashMap, get, get_list}

pub record Tree : Type 0 where
  pub name : Text
  pub addr : Text
  pub token : Text

pub record Rights : Type 0 where
  pub trees : List Tree
  pub grants : HashMap Text (List Text)
  pub roles : HashMap Text (List Text)
  pub members : HashMap Text (List Text)
  pub role_tools : HashMap (Text × Text) (List Text)
  pub groups : HashMap Text (List Text)
  pub workspaces : HashMap Text (List Text)
  pub workspace_packages : HashMap Text (List Text)
  pub tenants : HashMap Text (List Text)
  pub tenant_admins : HashMap Text (List Text)

-- Rights::default
abbrev pub default : Rights
default = record {
  trees = [];
  grants = [];
  roles = [];
  members = [];
  role_tools = [];
  groups = [];
  workspaces = [];
  workspace_packages = [];
  tenants = [];
  tenant_admins = [];
}

-- The set of trees is a `BTreeSet`: its elements in order.
pub data AdminScope : Type 0 where
  global : AdminScope
  in_trees : List Text → AdminScope

-- AdminScope::covers
unfoldable pub covers : AdminScope → List Text → Bool
covers global ts = true
covers (in_trees own) ts = not (is_empty ts) && is_subset ts own

abbrev pub find_tree : List Tree → Text → Option Tree
find_tree [] name = none
find_tree (t ∷ ts) name = if t.name == name then some t else find_tree ts name

-- Rights::tree
unfoldable pub tree : Rights → Text → Option Tree
tree r name = find_tree r.trees name

-- The roles that the groups map to, in the order of the groups.
abbrev pub mapped_roles : HashMap Text (List Text) → List Text → List Text
mapped_roles m [] = []
mapped_roles m (group ∷ more) = get_list m group ++ mapped_roles m more

-- Rights::roles_for
unfoldable pub roles_for : Rights → Text → List Text → List Text
roles_for r user idp_groups =
    sorted_set (get_list r.members user ++ mapped_roles r.groups idp_groups)

-- Rights::may_with_groups
unfoldable pub may_with_groups : Rights → Text → List Text → Text → Bool
may_with_groups r user idp_groups tree_name =
    is_some_and (get r.grants user) (λ ts. contains ts tree_name)
    || any (λ role. is_some_and (get r.roles role) (λ ts. contains ts tree_name))
        (roles_for r user idp_groups)

-- Rights::may
unfoldable pub may : Rights → Text → Text → Bool
unfolding may_with_groups
may r user tree_name = may_with_groups r user [] tree_name

-- Rights::is_admin_with_groups
unfoldable pub is_admin_with_groups : Rights → Text → List Text → Bool
is_admin_with_groups r user idp_groups =
    any (λ role. role == codes "admin") (roles_for r user idp_groups)

-- The trees of the tenants, in the order of the tenants.
abbrev pub tenant_trees : HashMap Text (List Text) → List Text → List Text
tenant_trees m [] = []
tenant_trees m (tenant ∷ more) = get_list m tenant ++ tenant_trees m more

-- Rights::admin_scope
unfoldable pub admin_scope : Rights → Text → List Text → Option AdminScope
unfolding is_admin_with_groups
admin_scope r user idp_groups =
    let own = sorted_set (tenant_trees r.tenants (get_list r.tenant_admins user)) in
    if is_admin_with_groups r user idp_groups
    then some global
    else if is_empty own
    then none
    else some (in_trees own)

-- Rights::tenants_of
unfoldable pub tenants_of : Rights → Text → List Text
tenants_of r user = sorted_set (get_list r.tenant_admins user)

-- The test of one role in `may_tool_with_groups`.
abbrev pub role_allows : Rights → Text → Text → Text → Bool
role_allows r tree_name tool role =
    is_some_and (get r.roles role) (λ ts. contains ts tree_name)
    && is_none_or (get r.role_tools (role, tree_name)) (λ tools. contains tools tool)

-- Rights::may_tool_with_groups
unfoldable pub may_tool_with_groups : Rights → Text → List Text → Text → Text → Bool
may_tool_with_groups r user idp_groups tree_name tool =
    if is_some_and (get r.grants user) (λ ts. contains ts tree_name)
    then true
    else any (role_allows r tree_name tool) (roles_for r user idp_groups)

abbrev pub reaches_all : Rights → Text → List Text → List Text → Bool
reaches_all r user idp_groups ts = not (is_empty ts) && all (may_with_groups r user idp_groups) ts

-- Rights::visible_workspaces
unfoldable pub visible_workspaces : Rights → Text → List Text → List (Text × List Text)
unfolding sort_by text_leb
visible_workspaces r user idp_groups =
    sort_by (λ a b. text_leb a.0 b.0) (filter (λ w. reaches_all r user idp_groups w.1) r.workspaces)

abbrev only_one : List Text → Option Text
only_one (name ∷ []) = some name
only_one _ = none

-- Rights::unique_workspace_for_tree
unfoldable pub unique_workspace_for_tree : Rights → Text → Option Text
unique_workspace_for_tree r tree_name =
    only_one (sorted_set (map (λ w. w.0) (filter (λ w. contains w.1 tree_name) r.workspaces)))
