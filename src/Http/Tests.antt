-- ===== src/Http/Tests.antt =====
-- src/main.rs: requests of a user of one tree run through the model, and the theorems about them there.
use glasir_control.Prelude.{
  list_beq, pair_beq, ℕ, ◌≡◌, refl, inl, inr, Bool, true, false, Option, none, some, List, [], ◌∷◌,
  ◌++◌, if◌then◌else◌, Bool-cases, ◌==◌, eq_iff, nat_eq, Bool_eq, list_eq, pair_eq,
}
use glasir_control.Text.{Text, codes, to_ascii_lowercase}
use glasir_control.Text.Order.{text_leb, sort_by, sorted_set}
use glasir_control.HashMap.{get, get_list, extend}
use glasir_control.Rights.{
  Tree, Rights, in_trees, tree, roles_for, may_with_groups, may, admin_scope, may_tool_with_groups,
  visible_workspaces,
}
use glasir_control.Rights.Parse.{parse}
use glasir_control.Security.{is_valid_revision, is_valid_principal, is_valid_identifier}
use glasir_control.Proxy.{Request, header, tree_of, route}
use glasir_control.Policy.{Store, summary}
use glasir_control.Policy.History.{AllReviewed}
use glasir_control.Json.{Value, string_value, get_field, get_value, index, object_of}
use glasir_control.Proxy.Reply.{extract_status, forward}
use glasir_control.Sync.Payload.{handle_gitlab_webhook}
use glasir_control.Sync.Mutate.{apply_sync_actions}
use glasir_control.Http.{relayed, panicked, Config, Moment, Call, scope_of}
use glasir_control.Http.Console.{visible_trees}
use glasir_control.Http.Admin.{sees_event}
use glasir_control.Http.Review.{known_trees, impact}
use glasir_control.Http.Webhooks.{applied}
use glasir_control.Http.Guards.{Outside, anonymous, mcp_tool_name}
use glasir_control.Http.Handler.{proxied, dispatch, handle}
use glasir_control.Http.Codes.{IsCode}
use glasir_control.Http.Changes.{Change, handle-Change}
use glasir_control.Http.Requests.{Arrival, serve, serve-AllReviewed}
use glasir_control.Http.Answers.{IsLogged, handle-IsLogged}
use glasir_control.Http.Denials.{IsUnauthorized, dispatch_denied, dispatch_hides}
use glasir_control.Http.Reach.{IsForwarded, proxied_sound}
use glasir_control.Http.Isolation.{impact-agree}

abbrev alpha : Tree
alpha = record { name = codes "alpha"; addr = codes "127.0.0.1:7001"; token = codes "secret-a" }

abbrev rights_file : Text
rights_file =
    codes
      "tree\talpha\t127.0.0.1:7001\tsecret-a\ntree\tbeta\t127.0.0.1:7002\tsecret-b\ngrant\tcarla\talpha\nworkspace\tpay\talpha\n"

abbrev file_store : Store
file_store = record { active = rights_file; proposals = [] }

abbrev other_store : Store
other_store = record { active = []; proposals = (codes "p1", none) ∷ [] }

abbrev config : Config
config = record {
  allowed_origin = some (codes "https://console.example");
  oidc = some (λ bearer. some (record { subject = codes "carla"; groups = [] }));
  sso = none;
  console_html = [];
  console_css = [];
  console_js = [];
  version = codes "0.1.0";
  audits = true;
  github_secret = none;
  gitlab_secret = some (codes "hook-secret");
  github_token = none;
  gitlab_token = none;
  repo_mapping = (codes "gitlab:group/api", codes "beta") ∷ [];
  cross_repo_evidence = none;
  needs_fresh_mirror = false;
}

abbrev moment : Moment
moment = record {
  start_ts = 100;
  now = 100;
  duration_ms = 2;
  client_addr = codes "127.0.0.1:50000";
  within_limit = true;
  mirror_is_fresh = true;
  audit_text = none;
  proposals_are_readable = true;
  uptime_secs = 7;
  active_connections = 1;
  audit_dropped = 0;
  remote_failed = 0;
  rights = parse rights_file;
  tokens = [];
}

abbrev reply_bytes : List ℕ
reply_bytes = codes "HTTP/1.1 200 OK"

abbrev answers_all : Text → List ℕ → Option (List ℕ)
answers_all addr sent = some reply_bytes

-- Each tree answers.
abbrev answers : Tree → Request → Option (List ℕ)
answers t req = some reply_bytes

-- Each tree but beta answers.
abbrev answers_without_beta : Tree → Request → Option (List ℕ)
answers_without_beta t req = if t.name == codes "beta" then none else some reply_bytes

abbrev review_input_value : Value
review_input_value = object_of (
    (codes "workspace", string_value (codes "pay"))
    ∷ (codes "rev", string_value (codes "HEAD"))
    ∷ [])

abbrev no_text : Value → Text
no_text v = []

abbrev no_json : List ℕ → Option Value
no_json body = none

abbrev review_json : List ℕ → Option Value
review_json body = some review_input_value

abbrev no_value : Text → Option Value
no_value text = none

abbrev no_post : Text → Text → Text → Text → Bool
no_post repo sha summary token = false

abbrev outside : Outside
outside = record {
  to_string = no_text;
  from_slice = no_json;
  lossy = λ body. body;
  from_str = no_value;
  post_check = no_post;
  post_status = no_post;
  exchange = answers_all;
}

abbrev mcp_request : Request
mcp_request = record { method = codes "POST"; path = codes "/mcp/alpha"; headers = []; body = [] }

abbrev list_request : Request
list_request = record {
  method = codes "GET";
  path = codes "/api/admin/policy/proposals";
  headers = [];
  body = [];
}

abbrev hook_request : Request
hook_request = record {
  method = codes "POST";
  path = codes "/api/sync/webhook/gitlab";
  headers = (codes "x-gitlab-token", codes "hook-secret") ∷ [];
  body =
      codes
        "{\"event_name\":\"user_add_to_team\",\"user_username\":\"dora\",\"group_path\":\"group/api\"}";
}

abbrev carla : Request → Call
carla req = record {
  cfg = config;
  moment = moment;
  req = req;
  who = some (codes "carla");
  groups = [];
}

unfoldable run : Unit {0}
unfolding proxied route may tree tree_of parse header mcp_tool_name is_valid_identifier roles_for
    sorted_set get_list get extend to_ascii_lowercase list_beq admin_scope may_with_groups
    extract_status applied handle_gitlab_webhook apply_sync_actions is_valid_principal forward
    impact index known_trees visible_workspaces is_valid_revision get_value get_field sort_by
    text_leb may_tool_with_groups pair_beq
run = tt

relays : (proxied outside (carla mcp_request) file_store).reply ≡ relayed reply_bytes
unfolding run
relays = refl

hook_grants :
    (applied file_store (handle_gitlab_webhook hook_request.body config.repo_mapping)).store.active
    ≡ codes
        "workspace\tpay\talpha\ntree\talpha\t127.0.0.1:7001\tsecret-a\ntree\tbeta\t127.0.0.1:7002\tsecret-b\ngrant\tcarla\talpha\ngrant\tdora\tbeta\n"
unfolding run
hook_grants = refl

abbrev ghost_rights : Rights
ghost_rights = parse (codes "grant\tcarla\tghost\nworkspace\tpay\tghost\n")

-- A workspace whose tree is granted and not configured ends the handler's thread.
unknown_tree_panics :
    (impact no_text review_json answers
      (record {
        cfg = config;
        moment = record moment { rights = ghost_rights };
        req = list_request;
        who = some (codes "carla");
        groups = [];
      })
      file_store).reply
    ≡ panicked
unfolding run
unknown_tree_panics = refl

abbrev group_rights : Rights
group_rights =
    parse (codes "tree\talpha\t127.0.0.1:7001\tsecret-a\nrole\tdev\talpha\ngroup\teng\tdev\n")

abbrev dora : Call
dora = record {
  cfg = config;
  moment = record moment { rights = group_rights };
  req = mcp_request;
  who = some (codes "dora");
  groups = codes "eng" ∷ [];
}

-- A tree that comes through a group of the sign-in is listed, and a request to it answers 404.
group_tree_listed : visible_trees group_rights (codes "dora") dora.groups ≡ alpha ∷ []
unfolding run
group_tree_listed = refl

group_tree_refused : IsCode (proxied outside dora file_store).reply 404
unfolding run
group_tree_refused = refl

-- erin reaches alpha through a role that may call one tool.
abbrev tool_rights : Rights
tool_rights = parse (
    codes
      "tree\talpha\t127.0.0.1:7001\tsecret-a\nrole\tanalyst\talpha\nrole-tool\tanalyst\talpha\tquery_graph\nmember\terin\tanalyst\n")

abbrev tool_call : Text → Value
tool_call name = object_of (
    (codes "method", string_value (codes "tools/call"))
    ∷ (codes "params", object_of ((codes "name", string_value name) ∷ []))
    ∷ [])

-- The body holds the name of the tool alone, and the reader makes the call of it.
abbrev tools_outside : Outside
tools_outside = record outside { from_slice = λ body. some (tool_call body) }

abbrev erin : Text → Text → Call
erin path name = record {
  cfg = config;
  moment = record moment { rights = tool_rights };
  req = record mcp_request { path = path; body = name };
  who = some (codes "erin");
  groups = [];
}

permitted_tool :
    (proxied tools_outside (erin (codes "/mcp/alpha") (codes "query_graph")) file_store).reply
    ≡ relayed reply_bytes
unfolding run
permitted_tool = refl

forbidden_tool :
    IsCode
      (proxied tools_outside (erin (codes "/mcp/alpha") (codes "delete_graph")) file_store).reply
      403
unfolding run
forbidden_tool = refl

-- With an escape in the path, the same call reaches the backend.
escaped_path_relayed :
    (proxied tools_outside (erin (codes "/%6dcp/alpha") (codes "delete_graph")) file_store).reply
    ≡ relayed reply_bytes
unfolding run
escaped_path_relayed = refl

-- A failure of a backend whose 64th byte begins a character of two bytes is logged as 200.
cut_reply_logged :
    extract_status (
      codes "HTTP/1.1 502 Bad Gateway\r\nX-A: aaaaaaaaaaaaaaaaaaaaaaaaaaaaaaaa" ++ (195 ∷ 164 ∷ []))
    ≡ 200
unfolding run
cut_reply_logged = refl

abbrev plain_event : Value
plain_event = object_of ((codes "tree", string_value (codes "alpha")) ∷ [])

-- The administrator of alpha sees its event in a plain log, and not in a signed one.
event_seen : sees_event (in_trees (codes "alpha" ∷ [])) plain_event ≡ true
unfolding run
event_seen = refl

signed_event_hidden :
    sees_event (in_trees (codes "alpha" ∷ [])) (
      object_of (
        (codes "event", plain_event)
        ∷ (codes "previous_hmac", string_value [])
        ∷ (codes "hmac", string_value [])
        ∷ []))
    ≡ false
unfolding run
signed_event_hidden = refl

hides_from_carla : scope_of (carla list_request) ≡ none
unfolding run
hides_from_carla = refl

beta_withheld : may_with_groups (parse rights_file) (codes "carla") [] (codes "beta") ≡ false
unfolding run
beta_withheld = refl

agree_on_granted :
    (t : Tree) (req : Request)
    → may_with_groups (parse rights_file) (codes "carla") [] t.name ≡ true
    → answers t req ≡ answers_without_beta t req
agree_on_granted t req h = elim (Bool-cases (t.name == codes "beta")) [
  | inl here ↦ cc (beta_withheld, rw ((eq_iff t.name (codes "beta")).0 here) at h)
  | inr there ↦ rw there refl
]

proxied_sound_example :
    (t : Tree) × IsForwarded tools_outside
      (erin (codes "/mcp/alpha") (codes "query_graph"))
      t
      reply_bytes
proxied_sound_example =
    proxied_sound tools_outside (erin (codes "/mcp/alpha") (codes "query_graph")) file_store
      reply_bytes permitted_tool

impact-agree_example :
    impact no_text review_json answers (carla list_request) file_store
    ≡ impact no_text review_json answers_without_beta (carla list_request) file_store
impact-agree_example =
    impact-agree no_text review_json answers answers_without_beta (carla list_request)
      (codes "carla") agree_on_granted file_store refl

dispatch_hides_example :
    (dispatch outside (carla list_request) file_store).reply
    ≡ (dispatch outside (carla list_request) other_store).reply
dispatch_hides_example =
    dispatch_hides outside (carla list_request) file_store other_store hides_from_carla

dispatch_denied_example :
    IsUnauthorized config file_store
      (dispatch outside (anonymous config moment mcp_request) file_store)
dispatch_denied_example = dispatch_denied outside config moment mcp_request file_store

handle-IsLogged_example :
    IsLogged moment list_request (handle outside config moment list_request file_store)
handle-IsLogged_example = handle-IsLogged outside config moment list_request file_store

handle-Change_example :
    Change config moment hook_request file_store
      (handle outside config moment hook_request file_store).store
handle-Change_example = handle-Change outside config moment hook_request file_store

abbrev arrivals : List Arrival
arrivals =
    record { cfg = config; moment = moment; req = hook_request }
    ∷ record { cfg = config; moment = moment; req = list_request }
    ∷ []

none_stored : AllReviewed file_store
unfolding get
none_stored k v at_k done = cc at_k

serve-AllReviewed_example : AllReviewed (serve outside arrivals file_store)
serve-AllReviewed_example = serve-AllReviewed outside arrivals file_store none_stored
