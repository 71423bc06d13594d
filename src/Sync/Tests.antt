-- ===== src/Sync/Tests.antt =====
-- src/sync.rs: a mapping file and a rights file run through the model, and the theorem about it there.
use glasir_control.Prelude.{
  list_beq, ◌≡◌, refl, false, some, [], ◌∷◌, contains, nat_eq, Bool_eq, list_eq, pair_eq, ok, err,
}
use glasir_control.Text.{Text, codes, is_whitespace}
use glasir_control.Text.Lines.{lines}
use glasir_control.HashMap.{HashMap, get_list, extend}
use glasir_control.Rights.Parse.{parse}
use glasir_control.Security.{is_valid_identifier}
use glasir_control.Sync.{duplicate_repository, load_repo_mapping, resolve_tree}
use glasir_control.Sync.Payload.{SyncAction, set_tree_grants}
use glasir_control.Sync.Mutate.{no_sections, sort_lines, apply_sync_actions}
use glasir_control.Sync.Rewrite.{HasPlainNames}
use glasir_control.Sync.Applied.{apply_sync_actions-grants}

abbrev file : Text
file = codes "# repositories\ngithub:acme/api\talpha\ngitlab:group/web\tbeta\n"

abbrev mapping : HashMap Text Text
mapping = (codes "github:acme/api", codes "alpha") ∷ (codes "gitlab:group/web", codes "beta") ∷ []

unfoldable run : Unit {0}
unfolding load_repo_mapping resolve_tree list_beq sort_lines apply_sync_actions is_whitespace lines
    is_valid_identifier extend
run = tt

loads : load_repo_mapping file ≡ ok mapping
unfolding run
loads = refl

twice_refused :
    load_repo_mapping (codes "github:a/b\tx\ngithub:a/b\ty\n") ≡ err (duplicate_repository 2)
unfolding run
twice_refused = refl

web_found : resolve_tree mapping (codes "gitlab:group/web") ≡ some (codes "beta")
unfolding run
web_found = refl

abbrev grants_file : Text
grants_file =
    codes "tree\talpha\t127.0.0.1:7001\tsecret-a\ngrant\tanna\talpha,beta\ngrant\tbea\talpha\n"

abbrev for_alpha : SyncAction
for_alpha = set_tree_grants (codes "alpha") (codes "bea" ∷ codes "carla" ∷ [])

abbrev written_file : Text
written_file =
    codes
      "tree\talpha\t127.0.0.1:7001\tsecret-a\ngrant\tanna\tbeta\ngrant\tbea\talpha\ngrant\tcarla\talpha\n"

plain_names : HasPlainNames (sort_lines no_sections (lines grants_file)).user_grants
unfolding run
plain_names = refl

writes : apply_sync_actions (some grants_file) (for_alpha ∷ []) ≡ some written_file
unfolding run
writes = refl

apply_sync_actions-grants_example :
    contains (get_list (parse written_file).grants (codes "anna")) (codes "alpha") ≡ false
unfolding run
apply_sync_actions-grants_example =
    apply_sync_actions-grants grants_file written_file for_alpha (codes "anna") (codes "alpha")
      plain_names writes
