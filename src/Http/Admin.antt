-- ===== src/Http/Admin.antt =====
-- src/main.rs: what an administrator asks for, and how a proposal is made and approved.
use mathlib.Core.Option
use glasir_control.Prelude.{
  ℕ, Bool, true, false, not, Option, none, some, List, [], ◌∷◌, ◌++◌, map, if◌then◌else◌,
  is_some_and, is_empty, contains, ◌==◌, nat_eq, Bool_eq, list_eq, pair_eq, Result, ok, err,
  and_then,
}
use glasir_control.Text.{Text, codes, strip_prefix}
use glasir_control.Text.Utf8.{as_bytes}
use glasir_control.Rights.{Rights, AdminScope, global, in_trees, is_admin_with_groups}
use glasir_control.Rights.Restrict.{restricted_to}
use glasir_control.Security.{is_valid_identifier}
use glasir_control.Proxy.{Request}
use glasir_control.Policy.{
  Proposal, Store, PolicyError, create, approve, active_view, Summary, list,
}
use glasir_control.Json.{
  Value, bool_value, string_value, or_null, index, as_str, object_of, array_of, string_or_null,
  number_or_null, strings,
}
use glasir_control.Rights.Review.{access_review}
use glasir_control.Audit.Log.{recent}
use glasir_control.Http.{
  Answer, answer, Call, Outcome, audit_record, json_ok, not_found_answer, unauthorized, unavailable,
  Ending, ending, found, for_user, scope_of, for_admin,
}

abbrev pub scope_value : Option (List Text) → Value
scope_value none = string_value (codes "global")
scope_value (some ts) = strings ts

-- The metadata that `policy::list` gives of a proposal.
abbrev pub summary_value : Summary → Value
summary_value x = object_of (
    (codes "id", string_or_null x.id)
    ∷ (codes "author", string_or_null x.author)
    ∷ (codes "created_at", number_or_null x.created_at)
    ∷ (codes "scope", scope_value x.scope)
    ∷ (codes "state", string_or_null x.state)
    ∷ (codes "approver", string_or_null x.approver)
    ∷ (codes "approved_at", number_or_null x.approved_at)
    ∷ [])

abbrev pub proposal_value : Proposal → Value
proposal_value x = object_of (
    (codes "schema", string_value (codes "glasir.policy-proposal.v1"))
    ∷ (codes "id", string_or_null x.id)
    ∷ (codes "author", string_or_null x.author)
    ∷ (codes "created_at", number_or_null x.created_at)
    ∷ (codes "rights", string_or_null x.rights)
    ∷ (codes "rights_sha256", string_or_null x.rights_sha256)
    ∷ (codes "base_sha256", string_or_null x.base_sha256)
    ∷ (codes "scope", scope_value x.scope)
    ∷ (codes "state", string_or_null x.state)
    ∷ (codes "approver", string_or_null x.approver)
    ∷ (codes "approved_at", number_or_null x.approved_at)
    ∷ [])

abbrev pub proposals_path : Text
proposals_path = codes "/api/admin/policy/proposals"

-- str::strip_suffix
unfoldable pub strip_suffix : Text → Text → Option Text
strip_suffix [] p = if is_empty p then some [] else none
strip_suffix (c ∷ s) p =
    let rest = strip_suffix s p in if (c ∷ s) == p then some [] else Option.map (λ t. c ∷ t) rest

abbrev pub read_path : Text → Option Text
read_path path = strip_prefix path (proposals_path ++ codes "/")

abbrev pub approve_path : Text → Option Text
approve_path path = and_then (read_path path) (λ rest. strip_suffix rest (codes "/approve"))

-- The end of the two handlers that change the store: the code decides about the answer.
abbrev pub changed : Call → Store → ℕ → ℕ → ℕ → Answer → ℕ → Text → Outcome
changed c s status good good_bytes done bad_bytes rejected = record {
  reply =
      if status == good
      then done
      else if status == 401
      then unauthorized
      else answer (if status == 404 then codes "404 Not Found" else codes "400 Bad Request")
          rejected;
  store = s;
  audited = audit_record c none status (if status == good then good_bytes else bad_bytes);
}

-- The store and the code behind an operation of the policy.
abbrev pub settle : Store → ℕ → Result Store PolicyError → Store × ℕ
settle s good (ok s') = (s', good)
settle s good (err e) = (s, 400)

abbrev pub review_of : Rights → AdminScope → Rights
review_of r global = r
review_of r (in_trees ts) = restricted_to r ts

abbrev pub sees_event : AdminScope → Value → Bool
sees_event global event = true
sees_event (in_trees ts) event = is_some_and (as_str (index event (codes "tree"))) (contains ts)

abbrev pub propose :
    Call → Store → Option Text → Option AdminScope → Option Text → Option Text → Store × ℕ
propose c s none scope id text = (s, 401)
propose c s (some user) none id text = (s, 404)
propose c s (some user) (some scope) (some id) (some text) =
    if is_valid_identifier id
    then settle s 201 (create s id user text scope c.moment.now)
    else (s, 400)
propose c s (some user) (some scope) _ _ = (s, 400)

abbrev pub agree : Call → Store → Text → Option Text → Option AdminScope → Store × ℕ
agree c s id none scope = (s, 401)
agree c s id (some user) none = (s, 404)
agree c s id (some user) (some scope) =
    if is_valid_identifier id then settle s 200 (approve s id user scope c.moment.now) else (s, 404)

-- For a user with the role `admin`, whatever their tenants.
abbrev pub for_global : Call → Store → Ending → Ending
for_global c s done = for_user c.who λ user.
    if is_admin_with_groups c.moment.rights user c.groups then done else (404, 12, not_found_answer)

abbrev pub is_set : Option Text → Bool
is_set none = false
is_set (some t) = true

module _ (to_string : Value → Text) (from_slice : List ℕ → Option Value) where
  -- GET /api/admin/policy/proposals
  unfoldable pub list_proposals : Call → Store → Outcome
  list_proposals c s = ending c s (
      for_admin c.who (scope_of c) 9 λ scope.
        if not c.moment.proposals_are_readable
        then (503, 21, unavailable (codes "proposals unavailable"))
        else found (
            to_string (
              object_of (
                (codes "proposals", array_of (map summary_value (list s scope)))
                ∷ (codes "active_rights", string_value (active_view s.active scope))
                ∷ []))))

  -- GET /api/admin/access-review
  unfoldable pub access : Call → Store → Outcome
  access c s = ending c s (
      for_admin c.who (scope_of c) 12
        λ scope. found (to_string (access_review (review_of c.moment.rights scope))))

  abbrev pub audit_ending : Call → AdminScope → Ending
  audit_ending c scope =
      if not c.cfg.audits
      then (503, 14, unavailable (codes "audit disabled"))
      else elim c.moment.audit_text [
        | none ↦ (503, 17, unavailable (codes "audit unavailable"))
        | some text ↦ found (
            to_string (
              object_of (
                (
                  codes "events",
                  array_of
                      (recent (λ line. from_slice (as_bytes line)) text 100 (sees_event scope)),
                )
                ∷ [])))
      ]

  -- GET /api/admin/audit
  unfoldable pub audit_events : Call → Store → Outcome
  audit_events c s = ending c s (for_admin c.who (scope_of c) 9 (audit_ending c))

  abbrev pub input_of : Request → Value
  input_of req = or_null (from_slice req.body)

  -- POST /api/admin/policy/proposals
  unfoldable pub create_proposal : Call → Store → Outcome
  create_proposal c s =
      let input = input_of c.req in
      let (s', status) =
        propose c s c.who (scope_of c) (as_str (index input (codes "id")))
          (as_str (index input (codes "rights"))) in
      changed c s' status 201 20 (answer (codes "201 Created") (codes "{\"status\":\"pending\"}"))
        23 (codes "policy proposal rejected")

  abbrev pub read_ending : Result (Proposal × Text) PolicyError → Ending
  read_ending (err e) = (404, 9, not_found_answer)
  read_ending (ok (x, active)) = found (
      to_string (
        object_of (
          (codes "proposal", proposal_value x)
          ∷ (codes "active_rights", string_value active)
          ∷ [])))

  -- GET /api/admin/policy/proposals/<id>
  unfoldable pub read_proposal : Text → Call → Store → Outcome
  read_proposal id c s =
      ending c s (
        for_admin c.who (scope_of c) 9 λ scope. read_ending (glasir_control.Policy.read s id scope))

  -- POST /api/admin/policy/proposals/<id>/approve
  unfoldable pub approve_proposal : Text → Call → Store → Outcome
  approve_proposal id c s =
      let (s', status) = agree c s id c.who (scope_of c) in
      changed c s' status 200 21 (json_ok (codes "{\"status\":\"approved\"}")) 24
        (codes "policy approval rejected")

  -- GET /api/sync/status
  unfoldable pub sync_status : Call → Store → Outcome
  sync_status c s = ending c s (
      for_global c s (
        found (
          to_string (
            object_of (
              (codes "github_webhook_configured", bool_value (is_set c.cfg.github_secret))
              ∷ (codes "gitlab_webhook_configured", bool_value (is_set c.cfg.gitlab_secret))
              ∷ [])))))

  abbrev pub evidence_ending : Option Value → Ending
  evidence_ending none = (503, 20, unavailable (codes "evidence unavailable"))
  evidence_ending (some v) = found (to_string v)

  -- GET /api/cross-repo/evidence
  unfoldable pub evidence : Call → Store → Outcome
  evidence c s = ending c s (for_global c s (evidence_ending c.cfg.cross_repo_evidence))
