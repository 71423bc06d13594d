-- ===== src/Rights/Tests.antt =====
-- src/rights.rs: the rights file of its tests run through the model, and the theorems about it at
-- that file.
use glasir_control.Prelude.{
  list_beq, pair_beq, ◌≡◌, refl, ◌↔◌, true, false, ◌&&◌, some, List, [], ◌∷◌, arith, contains,
  nat_eq, Bool_eq, list_eq, pair_eq, ok, err,
}
use glasir_control.Text.{Text, codes}
use glasir_control.Text.Lines.{lines, unlines}
use glasir_control.Text.Order.{sorted_set}
use glasir_control.HashMap.{get, get_list, extend}
use glasir_control.Rights.{
  in_trees, roles_for, may_with_groups, may, is_admin_with_groups, admin_scope,
  may_tool_with_groups,
}
use glasir_control.Rights.Access.{Reaches, Uses, may_iff, may_tool_iff}
use glasir_control.Rights.Parse.{parse}
use glasir_control.Rights.Parse.Keys.{parse-IsWellFormed}
use glasir_control.Rights.Parse.Order.{may-parse_mono}
use glasir_control.Rights.Restrict.{restricted_to, may-restricted_to}
use glasir_control.Rights.Scope.{scoped_text, compose}
use glasir_control.Rights.Scope.Isolation.{compose-isolates, compose-admin}

abbrev active_file : Text
active_file =
    codes
      "tree\talpha\t127.0.0.1:7001\tsecret-a\ntree\tbeta\t127.0.0.1:7002\tsecret-b\nrole\tadmin\talpha,beta\nrole\tpay-dev\talpha\nmember\troot\tadmin\nmember\tanna\tpay-dev\nrole-tool\tpay-dev\talpha\tquery_graph\ngrant\tcarla\tbeta\ntenant\tpayments\talpha\ntenant-admin\tpaula\tpayments\n"

-- What computes in the tests below.
unfoldable run : Unit {0}
unfolding may may_tool_with_groups is_admin_with_groups admin_scope roles_for parse sorted_set
    get_list get extend list_beq pair_beq compose scoped_text unlines
run = tt

carla_reaches_beta : may (parse active_file) (codes "carla") (codes "beta") ≡ true
unfolding run
carla_reaches_beta = refl

anna_misses_beta : may (parse active_file) (codes "anna") (codes "beta") ≡ false
unfolding run
anna_misses_beta = refl

anna_queries :
    may_tool_with_groups (parse active_file) (codes "anna") [] (codes "alpha") (codes "query_graph")
    ≡ true
unfolding run
anna_queries = refl

paula_is_scoped :
    admin_scope (parse active_file) (codes "paula") [] ≡ some (in_trees (codes "alpha" ∷ []))
unfolding run
paula_is_scoped = refl

abbrev alpha_only : List Text
alpha_only = codes "alpha" ∷ []

abbrev edit : Text
edit = codes "role\tpay-dev\talpha\nmember\tdora\tpay-dev\n"

abbrev edited_file : Text
edited_file =
    codes
      "tree\talpha\t127.0.0.1:7001\tsecret-a\ntree\tbeta\t127.0.0.1:7002\tsecret-b\nrole\tadmin\talpha,beta\nmember\troot\tadmin\ngrant\tcarla\tbeta\ntenant\tpayments\talpha\ntenant-admin\tpaula\tpayments\nrole\tpay-dev\talpha\nmember\tdora\tpay-dev\n"

edit_composes : compose active_file edit alpha_only ≡ ok edited_file
unfolding run
edit_composes = refl

-- An edit that names the role `admin` is refused at its line.
edit_refused : compose active_file (codes "\nmember\tpaula\tadmin\n") alpha_only ≡ err 2
unfolding run
edit_refused = refl

may_iff_example :
    (may_with_groups (parse active_file) (codes "anna") [] (codes "alpha") ≡ true)
    ↔ Reaches (parse active_file) (codes "anna") [] (codes "alpha")
may_iff_example = may_iff (parse active_file) (codes "anna") [] (codes "alpha")

may_tool_iff_example :
    (may_tool_with_groups
        (parse active_file)
        (codes "anna")
        []
        (codes "alpha")
        (codes "query_graph")
      ≡ true)
    ↔ Uses (parse active_file) (codes "anna") [] (codes "alpha") (codes "query_graph")
may_tool_iff_example =
    may_tool_iff (parse active_file) (codes "anna") [] (codes "alpha") (codes "query_graph")

may-restricted_to_example :
    may_with_groups (restricted_to (parse active_file) alpha_only) (codes "carla") [] (codes "beta")
    ≡ contains alpha_only (codes "beta")
      && may_with_groups (parse active_file) (codes "carla") [] (codes "beta")
may-restricted_to_example =
    may-restricted_to (parse active_file) alpha_only (parse-IsWellFormed active_file)
      (codes "carla") [] (codes "beta")

grant_kept :
    (l : Text)
    → contains (lines (codes "grant\tcarla\tbeta\n")) l ≡ true
    → contains (lines active_file) l ≡ true
unfolding lines
grant_kept l h = ground (arith, h)

carla_granted :
    may_with_groups (parse (codes "grant\tcarla\tbeta\n")) (codes "carla") [] (codes "beta") ≡ true
unfolding run
carla_granted = refl

may-parse_mono_example :
    may_with_groups (parse active_file) (codes "carla") [] (codes "beta") ≡ true
may-parse_mono_example =
    may-parse_mono (codes "grant\tcarla\tbeta\n") active_file (codes "carla") [] (codes "beta")
      grant_kept carla_granted

compose-isolates_example :
    may_with_groups (parse edited_file) (codes "carla") [] (codes "beta")
    ≡ may_with_groups (parse active_file) (codes "carla") [] (codes "beta")
unfolding run
compose-isolates_example =
    compose-isolates active_file edit alpha_only edited_file (codes "carla") [] (codes "beta")
      edit_composes refl

compose-admin_example :
    is_admin_with_groups (parse edited_file) (codes "root") []
    ≡ is_admin_with_groups (parse active_file) (codes "root") []
compose-admin_example =
    compose-admin active_file edit alpha_only edited_file (codes "root") [] edit_composes
