-- ===== src/Http/Paths.antt =====
-- src/main.rs: by which paths `handle` answers, for the proofs about all of them.
use glasir_control.Prelude.{
  ◌≡◌, refl, ◌⊎◌, inl, inr, true, not, ◌||◌, Option, none, some, not-false, if_both, ◌==◌, nat_eq,
  Bool_eq, list_eq, pair_eq, Result,
}
use glasir_control.Text.{Text, codes}
use glasir_control.Proxy.{Request, header}
use glasir_control.Crypto.Signatures.{verify_github_signature, verify_gitlab_token}
use glasir_control.Policy.{Store}
use glasir_control.Sync.Payload.{
  SyncAction, WebhookError, handle_github_webhook, handle_gitlab_webhook,
}
use glasir_control.Http.{Answer, answer, Config, Moment, Outcome, unavailable, unaudited, is_post}
use glasir_control.Http.Webhooks.{
  applied, forbidden, bad_signature, event_of, github_webhook, gitlab_webhook,
}
use glasir_control.Http.Guards.{
  Outside, origin_allowed, is_at, health, mirror_fresh, ready, metrics, no_content, identity_of,
  call_of,
}
use glasir_control.Http.Handler.{
  console, signed_in, pull_request_review, merge_request_review, open_paths, handle,
}

-- A request that is signed with the secret of a code host.
abbrev pub IsSigned : Config → Request → Type 0
IsSigned cfg req =
    ((secret : Text) × (cfg.github_secret ≡ some secret)
      × (verify_github_signature secret req.body (header req (codes "x-hub-signature-256")) ≡ true))
    ⊎ ((secret : Text) × (cfg.gitlab_secret ≡ some secret)
        × (verify_gitlab_token secret (header req (codes "x-gitlab-token")) ≡ true))

module _ (P : Outcome → Type 0) (o : Outside) (cfg : Config) (m : Moment) (req : Request)
    (s : Store) (early : (a : Answer) → P (unaudited s a)) (healthy : P (health cfg m req s))
    (applies : (action : Result (Option SyncAction) WebhookError)
      → IsSigned cfg req
      → P (applied s action))
    (behind : P (console o (call_of cfg m req (identity_of cfg m req)) s)) where
  github_webhook-ends :
      (key : Option Text)
      → cfg.github_secret ≡ key
      → P (github_webhook o.lossy (pull_request_review o cfg m) key cfg.repo_mapping req s)
  unfolding github_webhook
  github_webhook-ends none h = early (forbidden (codes "github webhook secret not configured"))
  github_webhook-ends (some secret) h =
      let event = event_of (header req (codes "x-github-event")) in
      if_both P
        (not (verify_github_signature secret req.body (header req (codes "x-hub-signature-256"))))
        (λ e. early (bad_signature (codes "invalid webhook signature")))
        (λ e.
          if_both P (event == codes "pull_request")
            (λ f.
              early
                (answer (codes "202 Accepted") ((pull_request_review o cfg m) (o.lossy req.body))))
            (λ f.
              applies (handle_github_webhook event (o.lossy req.body) cfg.repo_mapping)
                (inl (secret, h, not-false _ e))))

  gitlab_webhook-ends :
      (key : Option Text)
      → cfg.gitlab_secret ≡ key
      → P (gitlab_webhook o.lossy (merge_request_review o cfg m) key cfg.repo_mapping req s)
  unfolding gitlab_webhook
  gitlab_webhook-ends none h = early (forbidden (codes "gitlab webhook secret not configured"))
  gitlab_webhook-ends (some secret) h =
      if_both P (not (verify_gitlab_token secret (header req (codes "x-gitlab-token"))))
        (λ e. early (bad_signature (codes "invalid gitlab webhook token")))
        (λ e.
          if_both P (event_of (header req (codes "x-gitlab-event")) == codes "Merge Request Hook")
            (λ f.
              early
                (answer (codes "202 Accepted") (merge_request_review o cfg m (o.lossy req.body))))
            (λ f.
              applies (handle_gitlab_webhook (o.lossy req.body) cfg.repo_mapping)
                (inr (secret, h, not-false _ e))))

  signed_in-ends : P (signed_in o cfg m req s)
  unfolding signed_in
  signed_in-ends =
      if_both P (not (mirror_fresh cfg m))
        (λ e. early (unavailable (codes "permission mirror is stale"))) (λ e. behind)

  open_paths-ends : P (open_paths o cfg m req s)
  unfolding open_paths ready metrics
  open_paths-ends =
      if_both P (is_at req (codes "/health") || is_at req (codes "/healthz")) (λ e. healthy)
        (λ e.
          if_both P (is_at req (codes "/ready")) (λ e. early _)
            (λ e.
              if_both P (is_at req (codes "/metrics")) (λ e. early _)
                (λ e.
                  if_both P (req.method == codes "OPTIONS") (λ e. early no_content)
                    (λ e.
                      if_both P (is_post req (codes "/api/sync/webhook/github"))
                        (λ e. github_webhook-ends cfg.github_secret refl)
                        (λ e.
                          if_both P (is_post req (codes "/api/sync/webhook/gitlab"))
                            (λ e. gitlab_webhook-ends cfg.gitlab_secret refl)
                            (λ e. signed_in-ends))))))

  pub handle-ends : P (handle o cfg m req s)
  unfolding handle
  handle-ends =
      if_both P (not m.within_limit) (λ e. early _)
        (λ e.
          if_both P (not (origin_allowed (header req (codes "origin")) cfg.allowed_origin))
            (λ e. early _) (λ e. open_paths-ends))
