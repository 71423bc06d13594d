-- ===== src/Rights/Parse/Keys.antt =====
-- src/rights.rs: each map of the rights that are read from a file has distinct keys.
use glasir_control.Prelude.{
  inl, inr, not, ◌&&◌, List, [], ◌∷◌, Bool-cases, is_empty, nat_eq, list_eq, pair_eq,
}
use glasir_control.Text.{Text}
use glasir_control.Text.Lines.{lines}
use glasir_control.HashMap.{HasDistinctKeys, extend-HasDistinctKeys}
use glasir_control.Rights.{Rights, default}
use glasir_control.Rights.Parse.{
  Directive, tree_line, malformed, apply, line_directive, parse_lines, parse,
}

pub record IsWellFormed (r : Rights) : Type 0 where
  pub grants : HasDistinctKeys r.grants
  pub roles : HasDistinctKeys r.roles
  pub members : HasDistinctKeys r.members
  pub role_tools : HasDistinctKeys r.role_tools
  pub groups : HasDistinctKeys r.groups
  pub workspaces : HasDistinctKeys r.workspaces
  pub workspace_packages : HasDistinctKeys r.workspace_packages
  pub tenants : HasDistinctKeys r.tenants
  pub tenant_admins : HasDistinctKeys r.tenant_admins

tree_line-IsWellFormed :
    (r : Rights) (name addr token : Text)
    → IsWellFormed r
    → IsWellFormed (apply r (tree_line name addr token))
unfolding apply
tree_line-IsWellFormed r name addr token h =
    elim (Bool-cases (not (is_empty name) && not (is_empty addr) && not (is_empty token))) [
      | inl kept ↦ rw kept (assumption)
      | inr dropped ↦ rw dropped h
    ]

apply-IsWellFormed : (r : Rights) (d : Directive) → IsWellFormed r → IsWellFormed (apply r d)
unfolding apply
apply-IsWellFormed r (tree_line name addr token) h = tree_line-IsWellFormed r name addr token h
apply-IsWellFormed r malformed h = h
apply-IsWellFormed r _ h = search extend-HasDistinctKeys

parse_lines-IsWellFormed :
    (r : Rights) (ls : List Text) → IsWellFormed r → IsWellFormed (parse_lines r ls)
unfolding parse_lines
parse_lines-IsWellFormed r [] h = h
parse_lines-IsWellFormed r (l ∷ ls) h =
    parse_lines-IsWellFormed (apply r (line_directive l)) ls
      (apply-IsWellFormed r (line_directive l) h)

default-IsWellFormed : IsWellFormed default
default-IsWellFormed = assumption tt

-- Whatever the text, no map of the parsed rights has two entries of one key.
pub parse-IsWellFormed : (text : Text) → IsWellFormed (parse text)
unfolding parse
parse-IsWellFormed text = parse_lines-IsWellFormed default (lines text) default-IsWellFormed
