-- ===== src/Rights/Parse/Effects.antt =====
-- src/rights.rs, `parse`: what each map holds after it, in terms of the lines of the file.
use glasir_control.Prelude.{
  ◌≡◌, refl, sym, ap, Bool, false, ◌||◌, List, [], ◌∷◌, ◌++◌, append-nil, arith, if◌then◌else◌, any,
  contains, contains-append, Equal, ◌==◌, nat_eq, list_eq, pair_eq,
}
use glasir_control.Text.{Text}
use glasir_control.HashMap.{
  HashMap, get, contains_key, get_list, get_list-extend, contains_key-extend,
}
use glasir_control.Rights.{Rights, default}
use glasir_control.Rights.Parse.{
  Directive, tree_line, grant_line, role_line, member_line, role_tool_line, group_line,
  workspace_line, tenant_line, admin_line, items, apply, line_directive, parse_lines,
}

-- What one line adds to the entry of a key in each map.
abbrev pub grant_items : Directive → Text → List Text
grant_items (grant_line user list) k = if user == k then items list else []
grant_items _ k = []

abbrev pub role_items : Directive → Text → List Text
role_items (role_line role list) k = if role == k then items list else []
role_items _ k = []

abbrev pub member_items : Directive → Text → List Text
member_items (member_line user list) k = if user == k then items list else []
member_items _ k = []

abbrev pub group_items : Directive → Text → List Text
group_items (group_line group list) k = if group == k then items list else []
group_items _ k = []

abbrev pub tool_items : Directive → Text × Text → List Text
tool_items (role_tool_line role tree_name list) k =
    if (role, tree_name) == k then items list else []
tool_items _ k = []

abbrev pub workspace_items : Directive → Text → List Text
workspace_items (workspace_line name list) k = if name == k then items list else []
workspace_items _ k = []

abbrev pub tenant_items : Directive → Text → List Text
tenant_items (tenant_line name list) k = if name == k then items list else []
tenant_items _ k = []

abbrev pub admin_items : Directive → Text → List Text
admin_items (admin_line user list) k = if user == k then items list else []
admin_items _ k = []

-- Whether a line gives the role a tool list for the tree.
abbrev pub names_tools : Directive → Text × Text → Bool
names_tools (role_tool_line role tree_name list) k = (role, tree_name) == k
names_tools _ k = false

module _ {K : Type 0} ⦃e : Equal K⦄ (map_of : Rights → HashMap K (List Text))
    (adds : Directive → K → List Text)
    (step : (r : Rights) (d : Directive) (k : K)
      → get_list (map_of (apply r d)) k ≡ get_list (map_of r) k ++ adds d k) where
  contains-parse_lines_by :
      (r : Rights) (ls : List Text) (k : K) (a : Text)
      → contains (get_list (map_of (parse_lines r ls)) k) a
        ≡ contains (get_list (map_of r) k) a || any (λ l. contains (adds (line_directive l) k) a) ls
  unfolding parse_lines
  contains-parse_lines_by r [] k a = ground arith
  contains-parse_lines_by r (l ∷ ls) k a =
      let d = line_directive l in
      let stepped : contains (get_list (map_of (apply r d)) k) a
          ≡ contains (get_list (map_of r) k ++ adds d k) a =
        ap (λ (v : List Text). contains v a) (step r d k) in
      ground (
        arith,
        contains-parse_lines_by (apply r d) ls k a,
        stepped,
        contains-append (get_list (map_of r) k) (adds d k) a,
      )

grants-apply :
    (r : Rights) (d : Directive) (k : Text)
    → get_list (apply r d).grants k ≡ get_list r.grants k ++ grant_items d k
unfolding apply
grants-apply r (grant_line user list) k = get_list-extend user (items list) r.grants k
grants-apply r (tree_line n a t) k = ground (arith, append-nil (get_list r.grants k))
grants-apply r _ k = sym (append-nil _)

roles-apply :
    (r : Rights) (d : Directive) (k : Text)
    → get_list (apply r d).roles k ≡ get_list r.roles k ++ role_items d k
unfolding apply
roles-apply r (role_line role list) k = get_list-extend role (items list) r.roles k
roles-apply r (tree_line n a t) k = ground (arith, append-nil (get_list r.roles k))
roles-apply r _ k = sym (append-nil _)

members-apply :
    (r : Rights) (d : Directive) (k : Text)
    → get_list (apply r d).members k ≡ get_list r.members k ++ member_items d k
unfolding apply
members-apply r (member_line user list) k = get_list-extend user (items list) r.members k
members-apply r (tree_line n a t) k = ground (arith, append-nil (get_list r.members k))
members-apply r _ k = sym (append-nil _)

groups-apply :
    (r : Rights) (d : Directive) (k : Text)
    → get_list (apply r d).groups k ≡ get_list r.groups k ++ group_items d k
unfolding apply
groups-apply r (group_line group list) k = get_list-extend group (items list) r.groups k
groups-apply r (tree_line n a t) k = ground (arith, append-nil (get_list r.groups k))
groups-apply r _ k = sym (append-nil _)

tools-apply :
    (r : Rights) (d : Directive) (k : Text × Text)
    → get_list (apply r d).role_tools k ≡ get_list r.role_tools k ++ tool_items d k
unfolding apply
tools-apply r (role_tool_line role t list) k = get_list-extend (role, t) (items list) r.role_tools k
tools-apply r (tree_line n a t) k = ground (arith, append-nil (get_list r.role_tools k))
tools-apply r _ k = sym (append-nil _)

has_tools-apply :
    (r : Rights) (d : Directive) (k : Text × Text)
    → contains_key (apply r d).role_tools k ≡ names_tools d k || contains_key r.role_tools k
unfolding apply
has_tools-apply r (role_tool_line role t list) k =
    contains_key-extend (role, t) (items list) r.role_tools k
has_tools-apply r (tree_line n a t) k = ground arith
has_tools-apply r _ k = refl

module _ (ls : List Text) where
  pub contains-grants :
      (k a : Text)
      → contains (get_list (parse_lines default ls).grants k) a
        ≡ any (λ l. contains (grant_items (line_directive l) k) a) ls
  unfolding get_list get
  contains-grants k a =
      contains-parse_lines_by (λ r. r.grants) grant_items grants-apply default ls k a

  pub contains-roles :
      (k a : Text)
      → contains (get_list (parse_lines default ls).roles k) a
        ≡ any (λ l. contains (role_items (line_directive l) k) a) ls
  unfolding get_list get
  contains-roles k a = contains-parse_lines_by (λ r. r.roles) role_items roles-apply default ls k a

  pub contains-members :
      (k a : Text)
      → contains (get_list (parse_lines default ls).members k) a
        ≡ any (λ l. contains (member_items (line_directive l) k) a) ls
  unfolding get_list get
  contains-members k a =
      contains-parse_lines_by (λ r. r.members) member_items members-apply default ls k a

  pub contains-groups :
      (k a : Text)
      → contains (get_list (parse_lines default ls).groups k) a
        ≡ any (λ l. contains (group_items (line_directive l) k) a) ls
  unfolding get_list get
  contains-groups k a =
      contains-parse_lines_by (λ r. r.groups) group_items groups-apply default ls k a

  pub contains-tools :
      (k : Text × Text) (a : Text)
      → contains (get_list (parse_lines default ls).role_tools k) a
        ≡ any (λ l. contains (tool_items (line_directive l) k) a) ls
  unfolding get_list get
  contains-tools k a =
      contains-parse_lines_by (λ r. r.role_tools) tool_items tools-apply default ls k a

has_tools_from :
    (r : Rights) (ls : List Text) (k : Text × Text)
    → contains_key (parse_lines r ls).role_tools k
      ≡ contains_key r.role_tools k || any (λ l. names_tools (line_directive l) k) ls
unfolding parse_lines
has_tools_from r [] k = ground arith
has_tools_from r (l ∷ ls) k = ground (
  arith,
  has_tools_from (apply r (line_directive l)) ls k,
  has_tools-apply r (line_directive l) k,
)

pub has_tools :
    (ls : List Text) (k : Text × Text)
    → contains_key (parse_lines default ls).role_tools k
      ≡ any (λ l. names_tools (line_directive l) k) ls
unfolding contains_key
has_tools ls k = has_tools_from default ls k
