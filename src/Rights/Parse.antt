-- ===== src/Rights/Parse.antt =====
-- src/rights.rs, `parse`: the rights file line by line. The arms that `parse`, `line_trees` and
-- `validate_text` match on the fields of a line are the constructors of `Directive`.
pub mod Effects
pub mod Keys
pub mod Order
use glasir_control.Prelude.{
  Bool, not, ◌&&◌, ◌||◌, List, [], ◌∷◌, ◌++◌, map, if◌then◌else◌, is_empty, filter, contains, ◌==◌,
  nat_eq, list_eq, pair_eq,
}
use glasir_control.Text.{Text, codes, trim, starts_with, split_by, split_trimmed}
use glasir_control.Text.Lines.{lines}
use glasir_control.HashMap.{extend}
use glasir_control.Rights.{Rights, default}

pub data Directive : Type 0 where
  tree_line : (name addr token : Text) → Directive
  grant_line : (user list : Text) → Directive
  role_line : (role list : Text) → Directive
  member_line : (user list : Text) → Directive
  role_tool_line : (role tree_name list : Text) → Directive
  group_line : (group list : Text) → Directive
  workspace_line : (name list : Text) → Directive
  package_line : (name list : Text) → Directive
  tenant_line : (name list : Text) → Directive
  admin_line : (user list : Text) → Directive
  malformed : Directive

-- `line.split('\t').map(str::trim).filter(|s| !s.is_empty()).collect()`
unfoldable pub fields : Text → List Text
unfolding split_trimmed
fields line = split_trimmed b'\t' line

-- `s.split(',').map(str::trim).filter(|s| !s.is_empty())`
unfoldable pub items : Text → List Text
unfolding split_trimmed
items list = split_trimmed b',' list

-- The match on `f.as_slice()`.
unfoldable pub directive : List Text → Directive
directive (word ∷ a ∷ b ∷ []) =
    if word == codes "grant"
    then grant_line a b
    else if word == codes "role"
    then role_line a b
    else if word == codes "member"
    then member_line a b
    else if word == codes "group"
    then group_line a b
    else if word == codes "workspace"
    then workspace_line a b
    else if word == codes "workspace-package"
    then package_line a b
    else if word == codes "tenant"
    then tenant_line a b
    else if word == codes "tenant-admin"
    then admin_line a b
    else malformed
directive (word ∷ a ∷ b ∷ c ∷ []) =
    if word == codes "tree"
    then tree_line a b c
    else if word == codes "role-tool"
    then role_tool_line a b c
    else malformed
directive _ = malformed

abbrev is_package : Text → Bool
is_package s = contains s b'@'

-- The arms of `parse`; a malformed line is reported on stderr and changes nothing.
unfoldable pub apply : Rights → Directive → Rights
unfolding items
apply r (tree_line name addr token) =
    if not (is_empty name) && not (is_empty addr) && not (is_empty token)
    then record r { trees = r.trees ++ record { name = name; addr = addr; token = token } ∷ [] }
    else r
apply r (grant_line user list) = record r { grants = extend user (items list) r.grants }
apply r (role_line role list) = record r { roles = extend role (items list) r.roles }
apply r (member_line user list) = record r { members = extend user (items list) r.members }
apply r (role_tool_line role tree_name list) = record r {
  role_tools = extend (role, tree_name) (items list) r.role_tools;
}
apply r (group_line group list) = record r { groups = extend group (items list) r.groups }
apply r (workspace_line name list) = record r { workspaces = extend name (items list) r.workspaces }
apply r (package_line name list) = record r {
  workspace_packages =
      extend name (filter is_package (map trim (split_by (λ c. c == b',') list)))
        r.workspace_packages;
}
apply r (tenant_line name list) = record r { tenants = extend name (items list) r.tenants }
apply r (admin_line user list) = record r {
  tenant_admins = extend user (items list) r.tenant_admins;
}
apply r malformed = r

-- A blank line and a comment say nothing.
unfoldable pub line_directive : Text → Directive
unfolding fields directive starts_with
line_directive line =
    let l = trim line in
    if is_empty l || starts_with l (codes "#") then malformed else directive (fields l)

unfoldable pub parse_lines : Rights → List Text → Rights
unfolding apply line_directive
parse_lines r [] = r
parse_lines r (line ∷ more) = parse_lines (apply r (line_directive line)) more

unfoldable pub parse : Text → Rights
unfolding parse_lines lines
parse text = parse_lines default (lines text)
