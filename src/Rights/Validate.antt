-- ===== src/Rights/Validate.antt =====
-- src/rights.rs, `validate_text`: the pre-flight report on a rights file. A message is its line
-- number and a `Problem`; a `HashSet` is a list without duplicates.
pub mod Roles
mod Tests
use glasir_control.Prelude.{
  ℕ, ◌+◌, Bool, true, false, not, ◌||◌, List, [], ◌∷◌, ◌++◌, map, if◌then◌else◌, length, is_empty,
  any, filter, contains, nat_eq, Bool_eq, list_eq, pair_eq,
}
use glasir_control.Text.{Text, codes, trim, starts_with, contains_text}
use glasir_control.Text.Lines.{lines}
use glasir_control.Rights.Parse.{
  Directive, tree_line, grant_line, role_line, member_line, role_tool_line, group_line,
  workspace_line, package_line, tenant_line, admin_line, malformed, fields, items, directive,
}
use glasir_control.Security.{is_valid_identifier}

pub data Problem : Type 0 where
  invalid_tree_name : Problem
  invalid_address : Problem
  empty_token : Problem
  duplicate_tree : Problem
  no_targets : Problem
  invalid_entry : Problem
  malformed_directive : Problem
  undefined_tree : Text → Problem
  undefined_role : Text → Problem
  invalid_tool : Text → Problem
  undefined_workspace : Text → Problem
  undefined_tenant : Text → Problem

abbrev pub Message : Type 0
Message = ℕ × Problem

-- A declaration of the first pass: its line, what it is about, and its targets.
pub record Declared : Type 0 where
  pub line : ℕ
  pub name : Text
  pub targets : List Text

pub record ToolPolicy : Type 0 where
  pub line : ℕ
  pub role : Text
  pub tree_name : Text
  pub tools : List Text

-- The local variables of the first pass.
pub record Scan : Type 0 where
  pub tree_names : List Text
  pub grants : List Declared
  pub roles : List Declared
  pub members : List Declared
  pub role_tools : List ToolPolicy
  pub groups : List Declared
  pub workspaces : List Declared
  pub packages : List Declared
  pub tenants : List Declared
  pub tenant_admins : List Declared
  pub errors : List Message
  pub warnings : List Message

abbrev pub nothing : Scan
nothing = record {
  tree_names = [];
  grants = [];
  roles = [];
  members = [];
  role_tools = [];
  groups = [];
  workspaces = [];
  packages = [];
  tenants = [];
  tenant_admins = [];
  errors = [];
  warnings = [];
}

abbrev pub when {ℓ} : {A : Type ℓ} → Bool → A → List A
when true a = a ∷ []
when false a = []

abbrev pub entry : ℕ → Text → Text → Declared
entry n name list = record { line = n; name = name; targets = items list }

-- The error of a directive, if it has one.
unfoldable pub directive_errors : Directive → List Problem
unfolding items contains_text is_valid_identifier
directive_errors (tree_line name addr token) =
    when (contains name b'/' || contains name b'\\' || contains_text name (codes ".."))
      invalid_tree_name
    ++ when (not (contains addr b':')) invalid_address
    ++ when (is_empty token) empty_token
directive_errors (grant_line user list) = when (is_empty (items list)) no_targets
directive_errors (role_line role list) = when (is_empty (items list)) no_targets
directive_errors (member_line user list) = when (is_empty (items list)) no_targets
directive_errors (role_tool_line role tree_name list) = when (is_empty (items list)) no_targets
directive_errors (group_line group list) = when (is_empty (items list)) no_targets
directive_errors (workspace_line name list) =
    when (not (is_valid_identifier name) || is_empty (items list)) invalid_entry
directive_errors (package_line name list) =
    when
      (not (is_valid_identifier name)
        || is_empty (items list)
        || any (λ p. not (contains p b'@')) (items list))
      invalid_entry
directive_errors (tenant_line name list) =
    when (not (is_valid_identifier name) || is_empty (items list)) invalid_entry
directive_errors (admin_line user list) = when (is_empty (items list)) no_targets
directive_errors malformed = malformed_directive ∷ []

-- The `else` branch of the arms: what a directive without an error declares.
unfoldable pub declared : Scan → ℕ → Directive → Scan
unfolding items
declared s n (grant_line user list) = record s { grants = s.grants ++ entry n user list ∷ [] }
declared s n (role_line role list) = record s { roles = s.roles ++ entry n role list ∷ [] }
declared s n (member_line user list) = record s { members = s.members ++ entry n user list ∷ [] }
declared s n (role_tool_line role tree_name list) = record s {
  role_tools =
      s.role_tools
      ++ record { line = n; role = role; tree_name = tree_name; tools = items list } ∷ [];
}
declared s n (group_line group list) = record s { groups = s.groups ++ entry n group list ∷ [] }
declared s n (workspace_line name list) = record s {
  workspaces = s.workspaces ++ entry n name list ∷ [];
}
declared s n (package_line name list) = record s { packages = s.packages ++ entry n name list ∷ [] }
declared s n (tenant_line name list) = record s { tenants = s.tenants ++ entry n name list ∷ [] }
declared s n (admin_line user list) = record s {
  tenant_admins = s.tenant_admins ++ entry n user list ∷ [];
}
declared s n _ = s

-- A tree is declared whether or not its line has errors; a second one only warns.
abbrev pub add_tree : Scan → ℕ → Text → Scan
add_tree s n name =
    if contains s.tree_names name
    then record s { warnings = s.warnings ++ (n, duplicate_tree) ∷ [] }
    else record s { tree_names = s.tree_names ++ name ∷ [] }

abbrev pub with_errors : Scan → ℕ → List Problem → Scan
with_errors s n problems = record s { errors = s.errors ++ map (λ p. (n, p)) problems }

unfoldable pub declare : Scan → ℕ → Directive → Scan
unfolding directive_errors declared
declare s n (tree_line name addr token) =
    add_tree (with_errors s n (directive_errors (tree_line name addr token))) n name
declare s n d =
    let problems = directive_errors d in
    if is_empty problems then declared s n d else with_errors s n problems

unfoldable pub scan_lines : Scan → ℕ → List Text → Scan
unfolding declare directive fields
scan_lines s n [] = s
scan_lines s n (line ∷ more) =
    let l = trim line in
    let s' =
      if is_empty l || starts_with l (codes "#")
      then s
      else declare s (n + 1) (directive (fields l)) in
    scan_lines s' (n + 1) more

-- A set of the elements, for its size and its members.
unfoldable pub distinct : List Text → List Text
distinct [] = []
distinct (x ∷ xs) = let rest = distinct xs in if contains rest x then rest else x ∷ rest

-- The targets of one kind of declaration that are not among the names.
unfoldable pub undefined : (Text → Problem) → List Text → List Declared → List Message
undefined problem names [] = []
undefined problem names (d ∷ ds) =
    map (λ target. (d.line, problem target))
      (filter (λ target. not (contains names target)) d.targets)
    ++ undefined problem names ds

abbrev pub undefined_name : (Text → Problem) → List Text → List Declared → List Message
undefined_name problem names [] = []
undefined_name problem names (d ∷ ds) =
    when (not (contains names d.name)) (d.line, problem d.name) ++ undefined_name problem names ds

unfoldable pub tool_errors : List Text → List Text → List ToolPolicy → List Message
unfolding is_valid_identifier
tool_errors role_names tree_names [] = []
tool_errors role_names tree_names (p ∷ ps) =
    when (not (contains role_names p.role)) (p.line, undefined_role p.role)
    ++ when (not (contains tree_names p.tree_name)) (p.line, undefined_tree p.tree_name)
    ++ map (λ tool. (p.line, invalid_tool tool))
        (filter (λ tool. not (is_valid_identifier tool)) p.tools)
    ++ tool_errors role_names tree_names ps

pub record RightsReport : Type 0 where
  pub tree_count : ℕ
  pub user_count : ℕ
  pub role_count : ℕ
  pub errors : List Message
  pub warnings : List Message

abbrev pub names_of : List Declared → List Text
names_of ds = map (λ d. d.name) ds

-- The second pass: what is referred to and not declared.
unfoldable pub report : Scan → RightsReport
unfolding distinct undefined tool_errors
report s =
    let role_names = distinct (names_of s.roles) in
    let workspace_names = distinct (names_of s.workspaces) in
    let tenant_names = distinct (names_of s.tenants) in
    record {
      tree_count = length s.tree_names;
      user_count =
          length (distinct (names_of s.grants ++ (names_of s.members ++ names_of s.tenant_admins)));
      role_count = length role_names;
      errors =
          s.errors
          ++ (undefined undefined_role role_names s.members
              ++ (tool_errors role_names s.tree_names s.role_tools
                  ++ (undefined undefined_tree s.tree_names s.workspaces
                      ++ (undefined_name undefined_workspace workspace_names s.packages
                          ++ (undefined undefined_role role_names s.groups
                              ++ (undefined undefined_tree s.tree_names s.tenants
                                  ++ undefined undefined_tenant tenant_names s.tenant_admins))))));
      warnings =
          s.warnings
          ++ (undefined undefined_tree s.tree_names s.grants
              ++ undefined undefined_tree s.tree_names s.roles);
    }

unfoldable pub validate_text : Text → RightsReport
unfolding report scan_lines lines
validate_text text = report (scan_lines nothing 0 (lines text))

-- RightsReport::is_valid
unfoldable pub is_valid : RightsReport → Bool
is_valid r = is_empty r.errors
