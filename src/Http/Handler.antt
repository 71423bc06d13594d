-- ===== src/Http/Handler.antt =====
-- src/main.rs: `handle`, from the guards in front of it to the call of a backend.
use glasir_control.Prelude.{
  ℕ, not, ◌||◌, Option, none, some, List, if◌then◌else◌, length, ◌==◌, nat_eq, Bool_eq, list_eq,
  pair_eq,
}
use glasir_control.Text.{Text, codes}
use glasir_control.Proxy.{Request, header, tree_of, to_tree, unauthenticated, route}
use glasir_control.Policy.{Store}
use glasir_control.Proxy.Reply.{extract_status}
use glasir_control.Http.{
  answer, relayed, Config, Moment, Call, Outcome, audit_record, json_ok, unavailable, Ending,
  unaudited, no_credential, is_get, is_post,
}
use glasir_control.Http.Console.{session, workspaces, trees}
use glasir_control.Http.Admin.{
  proposals_path, read_path, approve_path, list_proposals, access, audit_events, create_proposal,
  read_proposal, approve_proposal, sync_status, evidence,
}
use glasir_control.Http.Review.{identifier_in, impact}
use glasir_control.Http.Provider.{github_review, gitlab_review}
use glasir_control.Http.Webhooks.{forbidden, github_webhook, gitlab_webhook}
use glasir_control.Http.Guards.{
  Outside, forward_of, origin_allowed, is_at, health, mirror_fresh, ready, metrics, no_content,
  sso_answer, identity_of, call_of, mcp_tool_name, is_refused,
}

module _ (o : Outside) where
  abbrev pub reply_ending : Option (List ℕ) → Ending
  reply_ending none = (502, 21, answer (codes "502 Bad Gateway") (codes "tree is not answering"))
  reply_ending (some reply) = (extract_status reply, length reply, relayed reply)

  abbrev pub route_ending : Call → glasir_control.Proxy.Route → Ending
  route_ending c unauthenticated = no_credential
  route_ending c glasir_control.Proxy.not_found =
      (404, 12, answer (codes "404 Not Found") (codes "no such tree"))
  route_ending c (to_tree t) =
      if is_refused c.moment.rights c.groups c.who (tree_of c.req.path)
        (mcp_tool_name o.from_slice c.req)
      then (403, 20, answer (codes "403 Forbidden") (codes "tool not permitted"))
      else reply_ending (forward_of o t c.req)

  -- A request for a tree: the end of `handle`.
  unfoldable pub proxied : Call → Store → Outcome
  unfolding route
  proxied c s =
      let (status, bytes, reply) = route_ending c (route c.moment.rights c.who c.req.path) in
      record {
        reply = reply;
        store = s;
        audited = audit_record c (tree_of c.req.path) status bytes;
      }

  -- An approval of the proposal that the path names, or what comes behind it.
  unfoldable pub approve_or_status : Option Text → Call → Store → Outcome
  unfolding approve_proposal sync_status evidence trees proxied
  approve_or_status (some id) c s = approve_proposal o.to_string o.from_slice id c s
  approve_or_status none c s =
      if is_get c.req (codes "/api/sync/status")
      then sync_status o.to_string o.from_slice c s
      else if is_get c.req (codes "/api/cross-repo/evidence")
      then evidence o.to_string o.from_slice c s
      else if is_at c.req (codes "/trees")
      then trees c s
      else proxied c s

  abbrev pub approved_in : Request → Option Text
  approved_in req = if req.method == codes "POST" then approve_path req.path else none

  unfoldable pub read_or_approve : Option Text → Call → Store → Outcome
  unfolding read_proposal approve_or_status
  read_or_approve (some id) c s = read_proposal o.to_string o.from_slice id c s
  read_or_approve none c s = approve_or_status (approved_in c.req) c s

  abbrev pub read_in : Request → Option Text
  read_in req = if req.method == codes "GET" then identifier_in (read_path req.path) else none

  -- The handlers that come behind the identification of the caller, in their order.
  unfoldable pub dispatch : Call → Store → Outcome
  unfolding session list_proposals impact workspaces access audit_events create_proposal
      read_or_approve
  dispatch c s =
      if is_get c.req (codes "/api/session")
      then session o.to_string c s
      else if is_get c.req proposals_path
      then list_proposals o.to_string o.from_slice c s
      else if is_post c.req (codes "/api/review/impact")
      then impact o.to_string o.from_slice (forward_of o) c s
      else if is_get c.req (codes "/workspaces")
      then workspaces o.to_string c s
      else if is_get c.req (codes "/api/admin/access-review")
      then access o.to_string o.from_slice c s
      else if is_get c.req (codes "/api/admin/audit")
      then audit_events o.to_string o.from_slice c s
      else if is_post c.req proposals_path
      then create_proposal o.to_string o.from_slice c s
      else read_or_approve (read_in c.req) c s

  -- The files of the console and the settings of the sign-on, or the handlers behind them.
  unfoldable pub console : Call → Store → Outcome
  unfolding dispatch
  console c s =
      if (is_get c.req (codes "/review") || is_get c.req (codes "/admin"))
      then unaudited s (json_ok c.cfg.console_html)
      else if is_get c.req (codes "/console.css")
      then unaudited s (json_ok c.cfg.console_css)
      else if is_get c.req (codes "/console.js")
      then unaudited s (json_ok c.cfg.console_js)
      else if is_get c.req (codes "/api/sso")
      then unaudited s (sso_answer c.cfg.sso)
      else dispatch c s

  unfoldable pub signed_in : Config → Moment → Request → Store → Outcome
  unfolding identity_of console
  signed_in cfg m req s =
      if not (mirror_fresh cfg m)
      then unaudited s (unavailable (codes "permission mirror is stale"))
      else console (call_of cfg m req (identity_of cfg m req)) s

  abbrev pub pull_request_review : Config → Moment → Text → Text
  pull_request_review cfg m = github_review o.to_string o.from_str (forward_of o) o.post_check cfg m

  abbrev pub merge_request_review : Config → Moment → Text → Text
  merge_request_review cfg m =
      gitlab_review o.to_string o.from_str (forward_of o) o.post_status cfg m

  -- What is answered before a caller is identified.
  unfoldable pub open_paths : Config → Moment → Request → Store → Outcome
  unfolding health ready metrics github_webhook gitlab_webhook signed_in github_review gitlab_review
  open_paths cfg m req s =
      if is_at req (codes "/health") || is_at req (codes "/healthz")
      then health cfg m req s
      else if is_at req (codes "/ready")
      then ready cfg m s
      else if is_at req (codes "/metrics")
      then metrics cfg m s
      else if req.method == codes "OPTIONS"
      then unaudited s no_content
      else if is_post req (codes "/api/sync/webhook/github")
      then github_webhook o.lossy (pull_request_review cfg m) cfg.github_secret cfg.repo_mapping req
          s
      else if is_post req (codes "/api/sync/webhook/gitlab")
      then gitlab_webhook o.lossy (merge_request_review cfg m) cfg.gitlab_secret cfg.repo_mapping
          req s
      else signed_in cfg m req s

  -- handle, for a request that could be read
  unfoldable pub handle : Config → Moment → Request → Store → Outcome
  unfolding origin_allowed open_paths
  handle cfg m req s =
      if not m.within_limit
      then unaudited s (answer (codes "429 Too Many Requests") (codes "rate limit exceeded\n"))
      else if not (origin_allowed (header req (codes "origin")) cfg.allowed_origin)
      then unaudited s (forbidden (codes "origin not allowed"))
      else open_paths cfg m req s
