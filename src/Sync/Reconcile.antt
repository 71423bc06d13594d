-- ===== src/Sync/Reconcile.antt =====
-- src/sync.rs, `reconcile_remote`: the direct grants of every mapped tree, replaced by the members that the
-- code hosts list. `fetch` is one page of a host's answer for a repository or a group and a token, if the
-- request succeeds and the answer is a list.
use glasir_control.Prelude.{
  ℕ, zero, suc, ◌+◌, ◌≡◌, refl, true, false, Option, none, some, List, [], ◌∷◌, ◌++◌, map, ltb,
  if◌then◌else◌, if_both, and_intro, length, all, nat_eq, Bool_eq, list_eq, pair_eq, Result, ok,
  err, ◌>>=◌, ok_of_bind, ok-injective, ok_or,
}
use glasir_control.Text.{Text, codes, strip_prefix}
use glasir_control.Text.Order.{sorted_set}
use glasir_control.HashMap.{HashMap, extend}
use glasir_control.Security.{is_valid_identifier, percent_encode}
use glasir_control.Json.{Value, index, as_str}
use glasir_control.Audit.Queue.{rounds}
use glasir_control.Sync.Payload.{SyncAction, set_tree_grants}
use glasir_control.Sync.Mutate.{apply_sync_actions}

pub data ReconcileError : Type 0 where
  no_token : ReconcileError
  unsupported : ReconcileError
  request_failed : ReconcileError
  no_name : ReconcileError
  too_many_pages : ReconcileError
  refused : ReconcileError

-- The names of one page that are identifiers; an entry without a name fails.
unfoldable pub names_of : Text → List Value → Result (List Text) ReconcileError
unfolding index is_valid_identifier
names_of key [] = ok []
names_of key (v ∷ vs) = do
  name ← ok_or (as_str (index v key)) no_name
  more ← names_of key vs
  ok (if is_valid_identifier name then name ∷ more else more)

-- The members from a page on, behind those of the pages before it; `rounds` pages are left of the 1000.
unfoldable pub members_from :
    Text → (ℕ → Option (List Value)) → ℕ → ℕ → List Text → Result (List Text) ReconcileError
unfolding names_of sorted_set
members_from key fetch zero page users = err too_many_pages
members_from key fetch (suc rounds) page users = do
  values ← ok_or (fetch page) request_failed
  names ← names_of key values
  elim (ltb (length values) 100) [
    | true ↦ ok (sorted_set (users ++ names))
    | false ↦ members_from key fetch rounds (page + 1) (users ++ names)
  ]

abbrev pub max_pages : ℕ
max_pages = 1000

module _ (github_page gitlab_page : Text → Text → ℕ → Option (List Value)) where
  unfoldable pub github_members : Text → Text → Result (List Text) ReconcileError
  unfolding members_from
  github_members repo token = members_from (codes "login") (github_page repo token) max_pages 1 []

  unfoldable pub gitlab_members : Text → Text → Result (List Text) ReconcileError
  unfolding members_from percent_encode
  gitlab_members group token =
      members_from (codes "username") (gitlab_page (percent_encode group) token) max_pages 1 []

  module _ (github_token gitlab_token : Option Text) where
    abbrev pub gitlab_users : Option Text → Result (List Text) ReconcileError
    gitlab_users none = err unsupported
    gitlab_users (some group) = do token ← ok_or gitlab_token no_token; gitlab_members group token

    abbrev pub github_users : Option Text → Text → Result (List Text) ReconcileError
    github_users none source = gitlab_users (strip_prefix source (codes "gitlab:"))
    github_users (some repo) source = do
      token ← ok_or github_token no_token
      github_members repo token

    -- The members of a repository or a group of the mapping.
    unfoldable pub users_of : Text → Result (List Text) ReconcileError
    unfolding github_members gitlab_members
    users_of source = github_users (strip_prefix source (codes "github:")) source

    unfoldable pub desired_users :
        List (Text × Text)
        → HashMap Text (List Text)
        → Result (HashMap Text (List Text)) ReconcileError
    unfolding users_of
    desired_users [] desired = ok desired
    desired_users ((source, tree_name) ∷ more) desired = do
      users ← users_of source
      desired_users more (extend tree_name users desired)

    abbrev pub set_action : Text × List Text → SyncAction
    set_action (tree_name, users) = set_tree_grants tree_name users

    -- The new rights file, and how many trees it sets.
    unfoldable pub reconcile_remote :
        Option Text → HashMap Text Text → Result (Text × ℕ) ReconcileError
    unfolding desired_users apply_sync_actions
    reconcile_remote file mapping = do
      desired ← desired_users mapping []
      text ← ok_or (apply_sync_actions file (map set_action desired)) refused
      ok (text, length desired)

-- Whatever a code host answers, the names that are read of it are identifiers.
names_of-valid :
    (key : Text) (vs : List Value) (names : List Text)
    → names_of key vs ≡ ok names
    → all is_valid_identifier names ≡ true
unfolding names_of
names_of-valid key [] names h = rw (← ok-injective h) refl
names_of-valid key (v ∷ vs) names h =
    let (name, read_name, rest) = ok_of_bind (ok_or (as_str (index v key)) no_name) _ h in
    let (more, read_more, made) = ok_of_bind (names_of key vs) _ rest in
    rw (← ok-injective made) (
      if_both (λ (ns : List Text). all is_valid_identifier ns ≡ true) (is_valid_identifier name)
        (λ e.
          and_intro (is_valid_identifier name) (all is_valid_identifier more) e
            (names_of-valid key vs more read_more))
        (λ e. names_of-valid key vs more read_more))
