-- ===== src/Http/Provider.antt =====
-- src/main.rs: the review of a pull request or a merge request that a signed webhook announces. Nobody is
-- signed in: what is reviewed is the one workspace that has the repository's tree.
use glasir_control.Prelude.{
  ℕ, Bool, Option, none, some, List, [], ◌∷◌, ◌++◌, map, ltb, if◌then◌else◌, length, nat_eq,
  Bool_eq, list_eq, pair_eq, Result, ok, err, ◌>>=◌, ok_or, require, and_then,
}
use glasir_control.Text.{Text, codes}
use glasir_control.HashMap.{get, get_list}
use glasir_control.Rights.{Tree, Rights, unique_workspace_for_tree}
use glasir_control.Security.{is_valid_revision}
use glasir_control.Proxy.{Request, show}
use glasir_control.Policy.{summary}
use glasir_control.Sync.{resolve_tree}
use glasir_control.Proxy.Reply.{extract_status}
use glasir_control.Json.{Value, number_value, string_value, index, items_of, object_of}
use glasir_control.Sync.Events.{
  ReviewEvent, EventError, github_review_event, gitlab_review_event, github_check,
  gitlab_commit_status,
}
use glasir_control.Http.{Config, Moment}
use glasir_control.Http.Admin.{evidence}
use glasir_control.Http.Surfaces.{workspace_evidence, evidence_or_empty}
use glasir_control.Http.Review.{known_trees, tool_call}

pub data ReviewFailure : Type 0 where
  not_mapped : ReviewFailure
  unknown_workspace : ReviewFailure
  invalid_revision : ReviewFailure
  unknown_tree : ReviewFailure

abbrev pub join_lines : List Text → Text
join_lines [] = []
join_lines (l ∷ []) = l
join_lines (l ∷ k ∷ ls) = l ++ (codes "\n" ++ join_lines (k ∷ ls))

abbrev pub tree_line : Text → Option (List ℕ) → Text
tree_line name none = codes "- `" ++ (name ++ codes "`: unavailable")
tree_line name (some reply) =
    codes "- `"
    ++ (name
        ++ (if ltb (extract_status reply) 400
            then codes "`: impact analyzed"
            else codes "`: Core returned HTTP " ++ show (extract_status reply)))

abbrev pub contract_line : Value → Text
contract_line evidence =
    codes "- contract edges: "
    ++ (show (length (items_of (index evidence (codes "edges"))))
        ++ (codes "; unresolved contracts: "
            ++ show (length (items_of (index evidence (codes "unresolved"))))))

-- The workspace that a repository stands for.
abbrev pub workspace_of : Config → Moment → Text → Result Text ReviewFailure
workspace_of cfg m key =
    ok_or (and_then (resolve_tree cfg.repo_mapping key) (unique_workspace_for_tree m.rights))
      not_mapped

module _ (to_string : Value → Text) (from_str : Text → Option Value)
    (forward : Tree → Request → Option (List ℕ)) where
  abbrev pub detect_changes : Text → Request
  detect_changes rev =
      tool_call to_string (codes "detect_changes")
        (object_of ((codes "rev", string_value rev) ∷ (codes "depth", number_value 3) ∷ []))

  unfoldable pub provider_workspace_review :
      Config → Rights → Text → Text → Result Text ReviewFailure
  unfolding known_trees get get_list is_valid_revision workspace_evidence extract_status show
  provider_workspace_review cfg r workspace rev = do
    names ← ok_or (get r.workspaces workspace) unknown_workspace
    _ ← require (is_valid_revision rev) invalid_revision
    ts ← ok_or (known_trees r names) unknown_tree
    ok (
        join_lines (
          (codes "Workspace `" ++ (workspace ++ (codes "` — revision `" ++ (rev ++ codes "`"))))
          ∷ (map (λ t. tree_line t.name (forward t (detect_changes rev))) ts
              ++ contract_line (
                  evidence_or_empty cfg.cross_repo_evidence
                    (get_list r.workspace_packages workspace))
                ∷ [])))

  abbrev pub reviewed : Config → Moment → Text → ReviewEvent → Result Text ReviewFailure
  reviewed cfg m host e = do
    workspace ← workspace_of cfg m (host ++ e.repository)
    provider_workspace_review cfg m.rights workspace e.revision

  module _ (post : Text → Text → Text → Text → Bool) where
    abbrev pub github_body : Config → ReviewEvent → Result Text ReviewFailure → Text
    github_body cfg e (err why) =
        codes "{\"status\":\"ignored\",\"message\":\"repository workspace mapping unavailable\"}"
    github_body cfg e (ok summary) = published cfg.github_token
      where
        published : Option Text → Text
        published none = codes "{\"status\":\"error\",\"message\":\"github token not configured\"}"
        published (some token) =
            if github_check post e.repository e.revision summary token
            then to_string (
                object_of (
                  (codes "status", string_value (codes "completed"))
                  ∷ (codes "workspace", string_value summary)
                  ∷ []))
            else codes "{\"status\":\"error\",\"message\":\"check publication failed\"}"

    -- What the webhook of a pull request answers.
    unfoldable pub github_review : Config → Moment → Text → Text
    unfolding github_review_event provider_workspace_review github_check resolve_tree
        unique_workspace_for_tree
    github_review cfg m payload = body_of (github_review_event from_str payload)
      where
        body_of : Result (Option ReviewEvent) EventError → Text
        body_of (err e) =
            codes "{\"status\":\"error\",\"message\":\"malformed pull request payload\"}"
        body_of (ok none) = codes "{\"status\":\"ignored\"}"
        body_of (ok (some e)) = github_body cfg e (reviewed cfg m (codes "github:") e)

    abbrev pub gitlab_body : Config → ReviewEvent → Result Text ReviewFailure → Text
    gitlab_body cfg e (err why) =
        codes "{\"status\":\"ignored\",\"message\":\"review unavailable\"}"
    gitlab_body cfg e (ok summary) = published cfg.gitlab_token
      where
        published : Option Text → Text
        published none = codes "{\"status\":\"error\",\"message\":\"gitlab token not configured\"}"
        published (some token) =
            if gitlab_commit_status post e.repository e.revision summary token
            then codes "{\"status\":\"completed\"}"
            else codes "{\"status\":\"ignored\",\"message\":\"review unavailable\"}"

    -- What the webhook of a merge request answers.
    unfoldable pub gitlab_review : Config → Moment → Text → Text
    unfolding gitlab_review_event provider_workspace_review gitlab_commit_status resolve_tree
        unique_workspace_for_tree
    gitlab_review cfg m payload = body_of (gitlab_review_event from_str payload)
      where
        body_of : Result (Option ReviewEvent) EventError → Text
        body_of (err e) =
            codes "{\"status\":\"error\",\"message\":\"malformed merge request payload\"}"
        body_of (ok none) = codes "{\"status\":\"ignored\"}"
        body_of (ok (some e)) = gitlab_body cfg e (reviewed cfg m (codes "gitlab:") e)
