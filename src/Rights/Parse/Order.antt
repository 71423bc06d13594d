-- ===== src/Rights/Parse/Order.antt =====
-- src/rights.rs: access depends on which lines the file has, not on their order, and grows with
-- them: "Roles are additive to direct grants; there is deliberately no deny rule".
use glasir_control.Prelude.{
  ◌≡◌, sym, ◌∙◌, Bool, true, List, any, contains, any_of_contains, any-witness, nat_eq, list_eq,
  pair_eq,
}
use glasir_control.Text.{Text}
use glasir_control.Text.Lines.{lines}
use glasir_control.Rights.{default, may_with_groups}
use glasir_control.Rights.Access.{
  IsAssigned, by_member, by_group, Reaches, by_grant, by_role, may_iff,
}
use glasir_control.Rights.Parse.{parse_lines, parse}
use glasir_control.Rights.Parse.Effects.{
  contains-grants, contains-roles, contains-members, contains-groups,
}

abbrev AllIn : List Text → List Text → Type 0
AllIn xs ys = (l : Text) → contains xs l ≡ true → contains ys l ≡ true

any-AllIn : (p : Text → Bool) (xs ys : List Text) → AllIn xs ys → any p xs ≡ true → any p ys ≡ true
any-AllIn p xs ys sub h =
    let (l, has, hit) = any-witness p xs h in any_of_contains p ys l (sub l has) hit

module _ (xs ys : List Text) (sub : AllIn xs ys) where
  module _ (user : Text) (idp_groups : List Text) where
    IsAssigned-AllIn :
        {role : Text}
        → IsAssigned (parse_lines default xs) user idp_groups role
        → IsAssigned (parse_lines default ys) user idp_groups role
    IsAssigned-AllIn {role} (by_member m) = by_member (
        contains-members ys user role
        ∙ any-AllIn _ xs ys sub (sym (contains-members xs user role) ∙ m))
    IsAssigned-AllIn {role} (by_group g among m) =
        by_group g among
          (contains-groups ys g role ∙ any-AllIn _ xs ys sub (sym (contains-groups xs g role) ∙ m))

    Reaches-AllIn :
        {t : Text}
        → Reaches (parse_lines default xs) user idp_groups t
        → Reaches (parse_lines default ys) user idp_groups t
    Reaches-AllIn {t} (by_grant m) =
        by_grant
          (contains-grants ys user t ∙ any-AllIn _ xs ys sub (sym (contains-grants xs user t) ∙ m))
    Reaches-AllIn {t} (by_role role has m) =
        by_role role (IsAssigned-AllIn has)
          (contains-roles ys role t ∙ any-AllIn _ xs ys sub (sym (contains-roles xs role t) ∙ m))

-- A rights file that has every line of another one, in whatever order and place, gives every user
-- at least the access that the other gives.
pub may-parse_mono :
    (a b user : Text) (idp_groups : List Text) (t : Text)
    → ((l : Text) → contains (lines a) l ≡ true → contains (lines b) l ≡ true)
    → may_with_groups (parse a) user idp_groups t ≡ true
    → may_with_groups (parse b) user idp_groups t ≡ true
unfolding parse
may-parse_mono a b user idp_groups t sub h =
    (may_iff (parse_lines default (lines b)) user idp_groups t).1 (
      Reaches-AllIn (lines a) (lines b) sub user idp_groups
        ((may_iff (parse_lines default (lines a)) user idp_groups t).0 h))
