-- ===== src/Http/Webhooks.antt =====
-- src/main.rs: the webhooks of the code hosts. `lossy` is `String::from_utf8_lossy`; `review` is the review of
-- a pull request or a merge request, of Http/Provider.
use glasir_control.Prelude.{
  ℕ, not, Option, none, some, List, [], ◌∷◌, if◌then◌else◌, ◌==◌, nat_eq, Bool_eq, list_eq, pair_eq,
  Result, ok, err,
}
use glasir_control.Text.{Text, codes}
use glasir_control.HashMap.{HashMap}
use glasir_control.Proxy.{Request, header}
use glasir_control.Crypto.Signatures.{verify_github_signature, verify_gitlab_token}
use glasir_control.Policy.{Store}
use glasir_control.Sync.Payload.{
  SyncAction, WebhookError, handle_github_webhook, handle_gitlab_webhook,
}
use glasir_control.Sync.Mutate.{apply_sync_actions}
use glasir_control.Http.{Answer, answer, Outcome, unaudited}

abbrev pub webhook_answer : ℕ → Text → Answer
webhook_answer status body =
    answer (if status == 200 then codes "200 OK" else codes "400 Bad Request") body

abbrev pub written : Store → Option Text → Outcome
written s none =
    unaudited s
      (webhook_answer 500 (codes "{\"status\":\"error\",\"message\":\"failed to update rights\"}"))
written s (some text) =
    unaudited (record s { active = text })
      (webhook_answer 200 (codes "{\"status\":\"ok\",\"applied\":true}"))

-- The rights file behind an action of a webhook, and the answer.
unfoldable pub applied : Store → Result (Option SyncAction) WebhookError → Outcome
unfolding apply_sync_actions
applied s (err e) =
    unaudited s
      (webhook_answer 400 (codes "{\"status\":\"error\",\"message\":\"malformed payload\"}"))
applied s (ok none) = unaudited s (webhook_answer 200 (codes "{\"status\":\"ignored\"}"))
applied s (ok (some action)) = written s (apply_sync_actions (some s.active) (action ∷ []))

abbrev pub forbidden : Text → Answer
forbidden body = answer (codes "403 Forbidden") body

abbrev pub bad_signature : Text → Answer
bad_signature body = answer (codes "401 Unauthorized") body

-- `unwrap_or("member")`
abbrev pub event_of : Option Text → Text
event_of none = codes "member"
event_of (some event) = event

abbrev pub accepted : Store → Text → Outcome
accepted s body = unaudited s (answer (codes "202 Accepted") body)

module _ (lossy : List ℕ → Text) (review : Text → Text) where
  abbrev pub github_event : HashMap Text Text → Text → Text → Store → Outcome
  github_event repos event payload s =
      if event == codes "pull_request"
      then accepted s (review payload)
      else applied s (handle_github_webhook event payload repos)

  -- POST /api/sync/webhook/github
  unfoldable pub github_webhook : Option Text → HashMap Text Text → Request → Store → Outcome
  unfolding verify_github_signature header
  github_webhook none repos req s =
      unaudited s (forbidden (codes "github webhook secret not configured"))
  github_webhook (some secret) repos req s =
      if not (verify_github_signature secret req.body (header req (codes "x-hub-signature-256")))
      then unaudited s (bad_signature (codes "invalid webhook signature"))
      else github_event repos (event_of (header req (codes "x-github-event"))) (lossy req.body) s

  abbrev pub gitlab_event : HashMap Text Text → Text → Text → Store → Outcome
  gitlab_event repos event payload s =
      if event == codes "Merge Request Hook"
      then accepted s (review payload)
      else applied s (handle_gitlab_webhook payload repos)

  -- POST /api/sync/webhook/gitlab
  unfoldable pub gitlab_webhook : Option Text → HashMap Text Text → Request → Store → Outcome
  unfolding verify_gitlab_token header
  gitlab_webhook none repos req s =
      unaudited s (forbidden (codes "gitlab webhook secret not configured"))
  gitlab_webhook (some secret) repos req s =
      if not (verify_gitlab_token secret (header req (codes "x-gitlab-token")))
      then unaudited s (bad_signature (codes "invalid gitlab webhook token"))
      else gitlab_event repos (event_of (header req (codes "x-gitlab-event"))) (lossy req.body) s
