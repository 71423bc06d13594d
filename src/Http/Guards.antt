-- ===== src/Http/Guards.antt =====
-- src/main.rs: what `handle` uses of the outside, what it answers without a caller, and who the caller is.
-- serde_json, `String::from_utf8_lossy`, the calls of the code hosts and the connections to the backends
-- are in `Outside`.
use glasir_control.Prelude.{
  ℕ, Bool, true, false, not, ◌&&◌, ◌||◌, Option, none, some, List, [], ◌++◌, if◌then◌else◌,
  is_some_and, length, is_empty, ◌==◌, nat_eq, Bool_eq, list_eq, pair_eq, and_then,
}
use glasir_control.Text.{Text, codes, starts_with, strip_prefix}
use glasir_control.Rights.{Tree, Rights, may_tool_with_groups}
use glasir_control.Proxy.{Request, header, show}
use glasir_control.Policy.{Store}
use glasir_control.Auth.{Entry, identify}
use glasir_control.Proxy.Reply.{forward}
use glasir_control.Json.{Value, get_value, as_str}
use glasir_control.Http.{
  Identity, Answer, answer, Config, Moment, Call, Outcome, json_ok, unavailable, ending, unaudited,
  found,
}

pub record Outside : Type 0 where
  pub to_string : Value → Text
  pub from_slice : List ℕ → Option Value
  pub lossy : List ℕ → Text
  pub from_str : Text → Option Value
  -- Whether a check run, and a commit status, could be posted.
  pub post_check : Text → Text → Text → Text → Bool
  pub post_status : Text → Text → Text → Text → Bool
  -- The connection to a backend: what an address answers to bytes.
  pub exchange : Text → List ℕ → Option (List ℕ)

abbrev pub forward_of : Outside → Tree → Request → Option (List ℕ)
forward_of o = forward o.exchange

-- A browser's origin has to be the one that is allowed; a client without one passes.
unfoldable pub origin_allowed : Option Text → Option Text → Bool
origin_allowed none allowed_origin = true
origin_allowed (some origin) allowed_origin = is_some_and allowed_origin (λ v. v == origin)

abbrev pub is_at : Request → Text → Bool
is_at req path = req.path == path

abbrev pub quote_text : Text → Text
quote_text t = codes "\"" ++ (t ++ codes "\"")

abbrev pub health_text : Config → Moment → Text
health_text cfg m =
    codes "{\"status\":\"ok\",\"version\":"
    ++ (quote_text cfg.version
        ++ (codes ",\"uptime_secs\":"
            ++ (show m.uptime_secs
                ++ (codes ",\"active_connections\":"
                    ++ (show m.active_connections
                        ++ (codes ",\"configured_trees\":"
                            ++ (show (length m.rights.trees)
                                ++ (codes ",\"configured_tokens\":"
                                    ++ (show (length m.tokens)
                                        ++ (codes ",\"audit_dropped\":"
                                            ++ (show m.audit_dropped
                                                ++ (codes ",\"audit_remote_failed\":"
                                                    ++ (show m.remote_failed
                                                        ++ codes "}")))))))))))))

-- A request of nobody: `who` is none, also where a credential was sent.
abbrev pub anonymous : Config → Moment → Request → Call
anonymous cfg m req = record { cfg = cfg; moment = m; req = req; who = none; groups = [] }

-- GET /health and /healthz, with any method
unfoldable pub health : Config → Moment → Request → Store → Outcome
unfolding show
health cfg m req s = ending (anonymous cfg m req) s (found (health_text cfg m))

-- `cfg.sync_max_age.is_none_or(|max_age| cfg.rights.is_fresh(max_age))`
abbrev pub mirror_fresh : Config → Moment → Bool
mirror_fresh cfg m = not cfg.needs_fresh_mirror || m.mirror_is_fresh

abbrev pub has_oidc : Config → Bool
has_oidc cfg = elim cfg.oidc [ none ↦ false | some verify_token ↦ true ]

abbrev pub is_ready : Config → Moment → Bool
is_ready cfg m =
    mirror_fresh cfg m && (has_oidc cfg || not (is_empty m.tokens)) && not (is_empty m.rights.trees)

-- /ready
unfoldable pub ready : Config → Moment → Store → Outcome
ready cfg m s = unaudited s (
    if is_ready cfg m
    then json_ok (codes "{\"status\":\"ready\"}")
    else unavailable (codes "{\"status\":\"not_ready\"}"))

abbrev pub metric : Text → Text → ℕ → Text
metric name kind n =
    codes "# TYPE glasir_control_"
    ++ (name
        ++ (codes " "
            ++ (kind
                ++ (codes "\nglasir_control_" ++ (name ++ (codes " " ++ (show n ++ codes "\n")))))))

-- /metrics
unfoldable pub metrics : Config → Moment → Store → Outcome
unfolding show
metrics cfg m s = unaudited s (
    json_ok (
      metric (codes "active_connections") (codes "gauge") m.active_connections
      ++ (metric (codes "configured_trees") (codes "gauge") (length m.rights.trees)
          ++ (metric (codes "audit_dropped_total") (codes "counter") m.audit_dropped
              ++ (metric (codes "audit_remote_failed_total") (codes "counter") m.remote_failed
                  ++ metric (codes "permission_mirror_fresh") (codes "gauge")
                      (if mirror_fresh cfg m then 1 else 0))))))

abbrev pub no_content : Answer
no_content = answer (codes "204 No Content") []

abbrev pub sso_answer : Option Text → Answer
sso_answer none = no_content
sso_answer (some public_json) = json_ok public_json

abbrev pub bearer_of : Request → Option Text
bearer_of req =
    and_then (header req (codes "authorization")) (λ v. strip_prefix v (codes "Bearer "))

abbrev pub by_tokens : List Entry → ℕ → Option Text → Option Identity
by_tokens entries at_time none = none
by_tokens entries at_time (some token) = named (identify entries token at_time)
  where
    named : Option Text → Option Identity
    named none = none
    named (some name) = some (record { subject = name; groups = [] })

-- With OIDC a static token is not tried.
unfoldable pub identity_of : Config → Moment → Request → Option Identity
unfolding header identify
identity_of cfg m req = elim cfg.oidc [
  | none ↦ by_tokens m.tokens m.now (bearer_of req)
  | some verify_token ↦ verify_token (bearer_of req)
]

abbrev pub call_of : Config → Moment → Request → Option Identity → Call
call_of cfg m req none = anonymous cfg m req
call_of cfg m req (some i) = record {
  cfg = cfg;
  moment = m;
  req = req;
  who = some i.subject;
  groups = i.groups;
}

abbrev pub tool_in : Option Value → Option Text
tool_in none = none
tool_in (some v) =
    if is_some_and (and_then (get_value v (codes "method")) as_str)
      (λ name. name == codes "tools/call")
    then and_then (and_then (get_value v (codes "params")) (λ p. get_value p (codes "name"))) as_str
    else none

-- The tool that a request calls, if it is a `tools/call`.
unfoldable pub mcp_tool_name : (List ℕ → Option Value) → Request → Option Text
mcp_tool_name from_slice req =
    if not (req.method == codes "POST") || not (starts_with req.path (codes "/mcp/"))
    then none
    else tool_in (from_slice req.body)

abbrev pub is_refused : Rights → List Text → Option Text → Option Text → Option Text → Bool
is_refused r groups (some user) (some tree_name) (some tool) =
    not (may_tool_with_groups r user groups tree_name tool)
is_refused r groups _ _ _ = false
