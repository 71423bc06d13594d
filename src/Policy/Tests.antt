-- ===== src/Policy/Tests.antt =====
-- src/policy.rs: the rights file of its tests, a proposal and its approval run through the model, and
-- the theorems about them there.
use glasir_control.Prelude.{
  list_beq, ◌≡◌, refl, ◌↔◌, none, some, List, [], ◌∷◌, map, nat_eq, Bool_eq, list_eq, pair_eq, ok,
  err,
}
use glasir_control.Text.{Text, codes}
use glasir_control.Text.Lines.{unlines}
use glasir_control.Text.Order.{sorted_set}
use glasir_control.Text.Utf8.{as_bytes}
use glasir_control.HashMap.{get, contains_key, insert, get_list, extend}
use glasir_control.Rights.{global, in_trees, may_with_groups, is_admin_with_groups}
use glasir_control.Rights.Parse.{parse}
use glasir_control.Rights.Scope.{scoped_text, compose}
use glasir_control.Security.{is_valid_identifier}
use glasir_control.Crypto.{sha256_hex}
use glasir_control.Rights.Validate.{validate_text, is_valid}
use glasir_control.Policy.{
  Proposal, Store, own_proposal, beyond_trees, covers_proposal, pending_proposal, create, is_text,
  approved, approve, read, Summary, summary, list,
}
use glasir_control.Policy.Approval.{IsApproval, approve_iff}
use glasir_control.Policy.Isolation.{tenant_change-isolates, tenant_change-admin}
use glasir_control.Policy.History.{
  creation, approval, start, next, IsSafe, Run-IsSafe, approve_once,
}
use glasir_control.Policy.View.{IsInsideView, read-inside}
use glasir_control.Crossrepo.Membership.{In}
use glasir_control.Policy.Ordering.{IsSorted}
use glasir_control.Policy.Listing.{IsOf, count, count_covered, list_lem}

abbrev active_file : Text
active_file =
    codes
      "tree\talpha\t127.0.0.1:7001\tsecret-a\ntree\tbeta\t127.0.0.1:7002\tsecret-b\nrole\tadmin\talpha,beta\nrole\tpay-dev\talpha\nmember\troot\tadmin\nmember\tanna\tpay-dev\ngrant\tcarla\tbeta\ntenant\tpayments\talpha\ntenant-admin\tpaula\tpayments\ntenant-admin\tpeter\tpayments\n"

abbrev edit : Text
edit = codes "role\tpay-dev\talpha\nmember\tdora\tpay-dev\n"

abbrev edited_file : Text
edited_file =
    codes
      "tree\talpha\t127.0.0.1:7001\tsecret-a\ntree\tbeta\t127.0.0.1:7002\tsecret-b\nrole\tadmin\talpha,beta\nmember\troot\tadmin\ngrant\tcarla\tbeta\ntenant\tpayments\talpha\ntenant-admin\tpaula\tpayments\ntenant-admin\tpeter\tpayments\nrole\tpay-dev\talpha\nmember\tdora\tpay-dev\n"

abbrev alpha_only : List Text
alpha_only = codes "alpha" ∷ []

abbrev before : Store
before = record { active = active_file; proposals = [] }

abbrev proposed : Store
proposed = record before {
  proposals =
      (
        codes "p1",
        some (
            pending_proposal before (codes "p1") (codes "paula") 10 (edited_file, some alpha_only)),
      )
      ∷ [];
}

abbrev agreed : Store
agreed = record {
  active = edited_file;
  proposals =
      (
        codes "p1",
        some (
            approved
              (pending_proposal before (codes "p1") (codes "paula") 10
                (edited_file, some alpha_only))
              (codes "peter") 20),
      )
      ∷ [];
}

-- What computes in the tests below.
unfoldable run : Unit {0}
unfolding create approve read covers_proposal compose scoped_text validate_text is_valid parse
    sorted_set get get_list extend insert contains_key list_beq sha256_hex as_bytes unlines
    is_valid_identifier
run = tt

paula_proposes :
    create before (codes "p1") (codes "paula") edit (in_trees alpha_only) 10 ≡ ok proposed
unfolding run
paula_proposes = refl

paula_alone :
    approve proposed (codes "p1") (codes "paula") (in_trees alpha_only) 20 ≡ err own_proposal
unfolding run
paula_alone = refl

sven_outside :
    approve proposed (codes "p1") (codes "sven") (in_trees (codes "beta" ∷ [])) 20
    ≡ err beyond_trees
unfolding run
sven_outside = refl

peter_approves : approve proposed (codes "p1") (codes "peter") (in_trees alpha_only) 20 ≡ ok agreed
unfolding run
peter_approves = refl

approve_iff_example :
    (approve proposed (codes "p1") (codes "peter") (in_trees alpha_only) 20 ≡ ok agreed)
    ↔ IsApproval proposed agreed (codes "p1") (codes "peter") (in_trees alpha_only) 20
approve_iff_example =
    approve_iff proposed agreed (codes "p1") (codes "peter") (in_trees alpha_only) 20

tenant_change-isolates_example :
    may_with_groups (parse edited_file) (codes "carla") [] (codes "beta")
    ≡ may_with_groups (parse active_file) (codes "carla") [] (codes "beta")
unfolding run
tenant_change-isolates_example =
    tenant_change-isolates before proposed proposed agreed (codes "p1") (codes "paula") edit
      (codes "peter") alpha_only (in_trees alpha_only) 10 20 (codes "carla") [] (codes "beta")
      paula_proposes refl peter_approves (λ same. refl) refl

tenant_change-admin_example :
    is_admin_with_groups (parse edited_file) (codes "root") []
    ≡ is_admin_with_groups (parse active_file) (codes "root") []
tenant_change-admin_example =
    tenant_change-admin before proposed proposed agreed (codes "p1") (codes "paula") edit
      (codes "peter") alpha_only (in_trees alpha_only) 10 20 (codes "root") [] paula_proposes refl
      peter_approves (λ same. refl)

before-IsSafe : IsSafe before
unfolding run
before-IsSafe = record { active_valid = refl; reviewed = λ k v at_k done. cc at_k }

Run-IsSafe_example : IsSafe agreed
Run-IsSafe_example = Run-IsSafe before agreed before-IsSafe (
    next
      (next start
        (creation (codes "p1") (codes "paula") edit (in_trees alpha_only) 10 paula_proposes))
      (approval (codes "p1") (codes "peter") (in_trees alpha_only) 20 peter_approves))

approve_once_example : ¬ (approve agreed (codes "p1") (codes "root") global 30 ≡ ok agreed)
approve_once_example =
    approve_once proposed agreed agreed agreed (codes "p1") (codes "peter") (codes "root")
      (in_trees alpha_only) global 20 30 peter_approves start

abbrev alpha_view : Text
alpha_view = codes "role\tpay-dev\talpha\nmember\tanna\tpay-dev\n"

abbrev shown_proposal : Proposal
shown_proposal =
    record (pending_proposal before (codes "p1") (codes "paula") 10
      (edited_file, some alpha_only)) { rights = some edit }

peter_reads : read proposed (codes "p1") (in_trees alpha_only) ≡ ok (shown_proposal, alpha_view)
unfolding run
peter_reads = refl

read-inside_example : IsInsideView proposed (codes "p1") alpha_only edit alpha_view
read-inside_example =
    read-inside proposed (codes "p1") alpha_only shown_proposal edit alpha_view peter_reads refl

-- Two proposals for alpha, of which the second is newer, and one for all trees.
abbrev three : Store
three = record {
  active = active_file;
  proposals =
      (codes "p1", some (record shown_proposal { created_at = some 5 }))
      ∷ (codes "p2", some (record shown_proposal { id = some (codes "p2"); created_at = some 9 }))
      ∷ (codes "p3", some (record shown_proposal { id = some (codes "p3"); scope = none }))
      ∷ [];
}

listed_ids :
    map (λ (x : Summary). x.id) (list three (in_trees alpha_only))
    ≡ some (codes "p2") ∷ some (codes "p1") ∷ []
unfolding run list
listed_ids = refl

abbrev p1_summary : Summary
p1_summary = summary (record shown_proposal { created_at = some 5 })

list_lem_example :
    IsSorted (list three (in_trees alpha_only))
    × (In p1_summary (list three (in_trees alpha_only))
        ↔ IsOf (in_trees alpha_only) three.proposals p1_summary)
    × (count (λ x. is_text x.author (codes "paula")) (list three (in_trees alpha_only))
        ≡ count_covered
            (in_trees alpha_only)
            (λ x. is_text x.author (codes "paula"))
            three.proposals)
list_lem_example =
    list_lem three (in_trees alpha_only) p1_summary (λ x. is_text x.author (codes "paula"))
