-- ===== src/Rights/Scope.antt =====
-- src/rights.rs: what one line of the rights file reaches, and the edit of a tenant administrator,
-- who sees and replaces only the lines inside their trees.
pub mod Reach
pub mod Compose
pub mod Isolation
use mathlib.Core.Option
use glasir_control.Prelude.{
  ℕ, ◌+◌, Bool, not, Option, none, some, List, [], ◌∷◌, ◌++◌, map, if◌then◌else◌, is_some_and,
  is_empty, filter, is_subset, ◌==◌, nat_eq, list_eq, pair_eq, Result, ok, err, ◌>>=◌,
}
use glasir_control.Text.{Text, codes, trim_end, trim}
use glasir_control.Text.Lines.{lines, unlines}
use glasir_control.Text.Order.{sorted_set}
use glasir_control.HashMap.{HashMap, get, extend}
use glasir_control.Rights.{Rights}
use glasir_control.Rights.Parse.{
  Directive, grant_line, role_line, member_line, role_tool_line, group_line, workspace_line,
  package_line, fields, items, directive, parse,
}

-- The loop over the roles of a `member` or `group` line; an early return is `none`.
unfoldable pub role_union : HashMap Text (List Text) → List Text → Option (List Text)
role_union roles [] = some []
role_union roles (role ∷ more) =
    let rest = role_union roles more in
    if role == codes "admin" then none else elim (get roles role) [
      | none ↦ none
      | some ts ↦ if is_empty ts then none else Option.map (λ all_of. ts ++ all_of) rest
    ]

-- The arms of `line_trees`, before the last test.
unfoldable pub reached : Rights → Directive → Option (List Text)
unfolding role_union items
reached r (grant_line user list) = some (sorted_set (items list))
reached r (role_line role list) =
    if role == codes "admin" then none else some (sorted_set (items list))
reached r (workspace_line name list) = some (sorted_set (items list))
reached r (role_tool_line role tree_name list) =
    if role == codes "admin" then none else some (tree_name ∷ [])
reached r (member_line user list) =
    Option.map sorted_set (role_union r.roles (sorted_set (items list)))
reached r (group_line group list) =
    Option.map sorted_set (role_union r.roles (sorted_set (items list)))
reached r (package_line name list) = Option.map sorted_set (get r.workspaces name)
reached r _ = none

abbrev pub nonempty_set : Option (List Text) → Option (List Text)
nonempty_set none = none
nonempty_set (some set) = if is_empty set then none else some set

unfoldable pub line_trees : Text → Rights → Option (List Text)
unfolding reached directive fields
line_trees line r = nonempty_set (reached r (directive (fields line)))

-- `line_trees(line.trim(), rights).is_some_and(|t| t.is_subset(trees))`
unfoldable pub is_inside : Rights → List Text → Text → Bool
unfolding line_trees
is_inside r ts line = is_some_and (line_trees (trim line) r) (λ set. is_subset set ts)

unfoldable pub scoped_text : Text → List Text → Text
unfolding is_inside
scoped_text text ts = unlines (filter (is_inside (parse text) ts) (lines text))

-- `for (role, ts) in submitted_rights.roles { both.roles.entry(role).or_default().extend(ts) }`
unfoldable pub merge_roles :
    HashMap Text (List Text) → HashMap Text (List Text) → HashMap Text (List Text)
merge_roles roles [] = roles
merge_roles roles ((role, ts) ∷ more) = merge_roles (extend role ts roles) more

unfoldable pub both_rights : Text → Text → Rights
unfolding merge_roles
both_rights active submitted =
    let r = parse active in record r { roles = merge_roles r.roles (parse submitted).roles }

-- The loop over the submitted lines. The error is the number of the line that reaches too far.
unfoldable pub accept : Rights → List Text → ℕ → List Text → Result (List Text) ℕ
unfolding is_inside
accept r ts n [] = ok []
accept r ts n (line ∷ more) =
    let rest = accept r ts (n + 1) more in
    let l = trim_end line in
    if is_empty (trim l)
    then rest
    else if is_inside r ts l
    then (do accepted ← rest; ok (l ∷ accepted))
    else err (n + 1)

unfoldable pub compose : Text → Text → List Text → Result Text ℕ
unfolding accept both_rights
compose active submitted ts =
    let both = both_rights active submitted in
    do
      accepted ← accept both ts 0 (lines submitted)
      ok (unlines (filter (λ line. not (is_inside both ts line)) (lines active) ++ accepted))
