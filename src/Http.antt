-- ===== src/Http.antt =====
-- src/main.rs: the handler of a request, `handle`, as what it answers, what it leaves of the policy, and
-- what it hands to the audit log. Serialising JSON, the connection to a backend and the verification of an OIDC
-- token are code of others, and parameters.
pub mod Console
pub mod Admin
pub mod Surfaces
pub mod Review
pub mod Provider
pub mod Webhooks
pub mod Guards
pub mod Handler
pub mod Codes
pub mod Endings
pub mod Dispatch
pub mod Paths
pub mod Changes
pub mod Requests
pub mod Answers
pub mod Denials
pub mod Reach
pub mod Isolation
mod Tests
use glasir_control.Prelude.{
  ℕ, Bool, ◌&&◌, Option, none, some, List, [], ◌∷◌, if◌then◌else◌, ◌==◌, nat_eq, Bool_eq, list_eq,
  pair_eq, and_then,
}
use glasir_control.Text.{Text, codes, byte_len}
use glasir_control.HashMap.{HashMap}
use glasir_control.Rights.{Rights, AdminScope, admin_scope}
use glasir_control.Proxy.{Request}
use glasir_control.Policy.{Store}
use glasir_control.Auth.{Entry}
use glasir_control.Json.{Value}
use glasir_control.Audit.{Record}

-- auth::Identity
pub record Identity : Type 0 where
  pub subject : Text
  pub groups : List Text

-- What is written to the socket: a response of the handlers' own, by its status line and its body,
-- or the reply of a backend as it came. `panicked` is a thread that ends without an answer.
pub data Answer : Type 0 where
  answer : (status body : Text) → Answer
  relayed : (reply : List ℕ) → Answer
  panicked : Answer

pub record Config : Type 0 where
  pub allowed_origin : Option Text
  pub oidc : Option (Option Text → Option Identity)
  -- `sso.public_json()`
  pub sso : Option Text
  pub console_html : Text
  pub console_css : Text
  pub console_js : Text
  pub version : Text
  pub audits : Bool
  pub github_secret : Option Text
  pub gitlab_secret : Option Text
  pub github_token : Option Text
  pub gitlab_token : Option Text
  pub repo_mapping : HashMap Text Text
  pub cross_repo_evidence : Option Value
  pub needs_fresh_mirror : Bool

-- What the clock, the limiter and the file system say while the request is handled.
pub record Moment : Type 0 where
  pub start_ts : ℕ
  pub now : ℕ
  pub duration_ms : ℕ
  pub client_addr : Text
  pub within_limit : Bool
  pub mirror_is_fresh : Bool
  pub audit_text : Option Text
  pub proposals_are_readable : Bool
  pub uptime_secs : ℕ
  pub active_connections : ℕ
  pub audit_dropped : ℕ
  pub remote_failed : ℕ
  -- `cfg.rights.current()` and `cfg.tokens.current()`
  pub rights : Rights
  pub tokens : List Entry

-- A request behind the identification of its caller.
pub record Call : Type 0 where
  pub cfg : Config
  pub moment : Moment
  pub req : Request
  pub who : Option Text
  pub groups : List Text

pub record Outcome : Type 0 where
  pub reply : Answer
  pub store : Store
  pub audited : List Record

-- `if let Some(audit) = &cfg.audit { audit.record(…) }`
abbrev pub audit_record : Call → Option Text → ℕ → ℕ → List Record
audit_record c tree_name status bytes =
    if c.cfg.audits
    then record {
      ts = c.moment.start_ts;
      who = c.who;
      tree_name = tree_name;
      method = c.req.method;
      path = c.req.path;
      status = status;
      bytes = bytes;
      duration_ms = c.moment.duration_ms;
      client_addr = c.moment.client_addr;
    }
      ∷ []
    else []

-- `respond_json(&mut stream, 200, "200 OK", body)` and what the other endings of a handler answer.
abbrev pub json_ok : Text → Answer
json_ok body = answer (codes "200 OK") body

abbrev pub not_found_answer : Answer
not_found_answer = answer (codes "404 Not Found") (codes "not found")

abbrev pub unauthorized : Answer
unauthorized = answer (codes "401 Unauthorized") (codes "bad, expired or missing credential")

abbrev pub unavailable : Text → Answer
unavailable body = answer (codes "503 Service Unavailable") body

abbrev pub bad_request : Text → Answer
bad_request body = answer (codes "400 Bad Request") body

-- The status, the bytes that are logged, and the answer.
abbrev pub Ending : Type 0
Ending = ℕ × ℕ × Answer

-- The end of a handler that changes nothing and is audited.
abbrev pub ending : Call → Store → Ending → Outcome
ending c s (status, bytes, reply) = record {
  reply = reply;
  store = s;
  audited = audit_record c none status bytes;
}

-- An answer that is not audited.
abbrev pub unaudited : Store → Answer → Outcome
unaudited s reply = record { reply = reply; store = s; audited = [] }

abbrev pub no_credential : Ending
no_credential = (401, 34, unauthorized)

abbrev pub found : Text → Ending
found body = (200, byte_len body, json_ok body)

-- For a known caller, or 401.
abbrev pub for_user : Option Text → (Text → Ending) → Ending
for_user none f = no_credential
for_user (some user) f = f user

-- The scope in which the caller is an administrator.
abbrev pub scope_of : Call → Option AdminScope
scope_of c = and_then c.who (λ user. admin_scope c.moment.rights user c.groups)

-- For an administrator; 404 for another caller, and 401 for none.
abbrev pub for_admin : Option Text → Option AdminScope → ℕ → (AdminScope → Ending) → Ending
for_admin none scope bytes f = no_credential
for_admin (some user) none bytes f = (404, bytes, not_found_answer)
for_admin (some user) (some scope) bytes f = f scope

abbrev pub is_get : Request → Text → Bool
is_get req path = req.path == path && req.method == codes "GET"

abbrev pub is_post : Request → Text → Bool
is_post req path = req.path == path && req.method == codes "POST"
