-- ===== src/Sync/Events.antt =====
-- src/sync.rs: the events of a pull request and of a merge request, and what is published about them.
-- `from_str` is serde_json's parser, and `post` the call of the code host, which tells whether it succeeded.
use glasir_control.Prelude.{
  ℕ, Bool, not, ◌&&◌, ◌||◌, Option, none, some, List, [], ◌∷◌, ltb, if◌then◌else◌, is_empty,
  contains, nat_eq, Bool_eq, list_eq, pair_eq, Result, ok, ◌>>=◌, ok_or,
}
use glasir_control.Text.{Text, codes, text_of, byte_len}
use glasir_control.Security.{percent_encode}
use glasir_control.Policy.{summary}
use glasir_control.Json.{Value, index, as_str, as_u64}

pub record ReviewEvent : Type 0 where
  pub provider : Text
  pub repository : Text
  pub number : ℕ
  pub revision : Text

pub data EventError : Type 0 where
  malformed : EventError
  no_repository : EventError
  no_number : EventError
  no_revision : EventError

-- `value["a"]["b"]`
abbrev pub index_path : Value → List Text → Value
index_path v [] = v
index_path v (key ∷ keys) = index_path (index v key) keys

abbrev pub github_event_of : Value → Result (Option ReviewEvent) EventError
github_event_of value =
    if contains (codes "opened" ∷ codes "synchronize" ∷ codes "reopened" ∷ [])
      (text_of (as_str (index value (codes "action"))))
    then (do
      repository ←
          ok_or (as_str (index_path value (codes "repository" ∷ codes "full_name" ∷ [])))
            no_repository
      number ← ok_or (as_u64 (index value (codes "number"))) no_number
      revision ←
          ok_or (as_str (index_path value (codes "pull_request" ∷ codes "head" ∷ codes "sha" ∷ [])))
            no_revision
      ok (
          some (record {
            provider = codes "github";
            repository = repository;
            number = number;
            revision = revision;
          })))
    else ok none

abbrev pub gitlab_event_of : Value → Result (Option ReviewEvent) EventError
gitlab_event_of value =
    let attrs = index value (codes "object_attributes") in
    if contains (codes "open" ∷ codes "reopen" ∷ codes "update" ∷ [])
      (text_of (as_str (index attrs (codes "action"))))
    then (do
      repository ←
          ok_or (as_str (index_path value (codes "project" ∷ codes "path_with_namespace" ∷ [])))
            no_repository
      number ← ok_or (as_u64 (index attrs (codes "iid"))) no_number
      revision ←
          ok_or (as_str (index_path attrs (codes "last_commit" ∷ codes "id" ∷ []))) no_revision
      ok (
          some (record {
            provider = codes "gitlab";
            repository = repository;
            number = number;
            revision = revision;
          })))
    else ok none

unfoldable pub github_review_event :
    (Text → Option Value) → Text → Result (Option ReviewEvent) EventError
unfolding index
github_review_event from_str payload = ok_or (from_str payload) malformed >>= github_event_of

unfoldable pub gitlab_review_event :
    (Text → Option Value) → Text → Result (Option ReviewEvent) EventError
unfolding index
gitlab_review_event from_str payload = ok_or (from_str payload) malformed >>= gitlab_event_of

-- Whether a check run was published.
unfoldable pub github_check : (Text → Text → Text → Text → Bool) → Text → Text → Text → Text → Bool
github_check post repo sha summary token =
    not (is_empty repo || ltb 128 (byte_len sha) || ltb 60000 (byte_len summary))
    && post repo sha summary token

-- Whether a commit status was published.
unfoldable pub gitlab_commit_status :
    (Text → Text → Text → Text → Bool) → Text → Text → Text → Text → Bool
unfolding percent_encode
gitlab_commit_status post project sha summary token =
    not (is_empty project || ltb 128 (byte_len sha) || ltb 4000 (byte_len summary))
    && post (percent_encode project) sha summary token
