-- ===== src/Http/Denials.antt =====
-- src/main.rs: what `handle` answers behind the sign-in to somebody without a credential, and to a caller
-- who is no administrator.
use glasir_control.Prelude.{
  ℕ, ◌≡◌, refl, ap, inl, inr, Bool, true, false, not, Option, none, some, List, [], ◌∷◌, map,
  if◌then◌else◌, Bool-cases, if_both, nat_eq, Bool_eq, list_eq, pair_eq,
}
use glasir_control.Text.{Text, codes, text_of}
use glasir_control.Rights.{Tree, AdminScope}
use glasir_control.Security.{is_valid_revision}
use glasir_control.Proxy.{Request, tree_of, route}
use glasir_control.Policy.{Store}
use glasir_control.Json.{Value, index, as_str}
use glasir_control.Audit.{Record}
use glasir_control.Http.{
  answer, Config, Moment, Call, Outcome, audit_record, json_ok, unauthorized, Ending, ending,
  no_credential, scope_of, for_admin, is_get, is_post,
}
use glasir_control.Http.Console.{session, workspaces, trees}
use glasir_control.Http.Admin.{
  proposals_path, changed, propose, agree, list_proposals, access, audit_events, input_of,
  create_proposal, read_proposal, approve_proposal, sync_status, evidence,
}
use glasir_control.Http.Review.{
  known_trees, asked_workspace, review_trees, review_workspace, review_input, impact_for, impact,
}
use glasir_control.Http.Guards.{Outside, forward_of, is_at, anonymous}
use glasir_control.Http.Handler.{
  proxied, approve_or_status, approved_in, read_or_approve, read_in, dispatch,
}

-- 401, with nothing changed, and no other code in the audit log.
abbrev pub IsUnauthorized : Config → Store → Outcome → Type 0
IsUnauthorized cfg s out =
    (out.reply ≡ unauthorized)
    × (out.store ≡ s)
    × (map (λ (r : Record). r.status) out.audited ≡ (if cfg.audits then 401 ∷ [] else []))

statuses :
    (c : Call) (tree_name : Option Text) (bytes : ℕ)
    → map (λ (r : Record). r.status) (audit_record c tree_name 401 bytes)
      ≡ (if c.cfg.audits then 401 ∷ [] else [])
statuses c tree_name bytes = elim (Bool-cases c.cfg.audits) [
  | inl on ↦ rw on refl
  | inr off ↦ rw off refl
]

module _ (o : Outside) (cfg : Config) (m : Moment) (req : Request) (s : Store) where
  abbrev nobody : Call
  nobody = anonymous cfg m req

  abbrev Denied : Outcome → Type 0
  Denied = IsUnauthorized cfg s

  denied : Denied (ending nobody s no_credential)
  denied = (refl, refl, statuses nobody none 34)

  approve_or_status-Denied : (id : Option Text) → Denied (approve_or_status o id nobody s)
  unfolding approve_or_status approve_proposal sync_status evidence trees proxied route
  approve_or_status-Denied (some id) = (refl, refl, statuses nobody none 24)
  approve_or_status-Denied none =
      if_both Denied (is_get req (codes "/api/sync/status")) (λ e. denied)
        (λ e.
          if_both Denied (is_get req (codes "/api/cross-repo/evidence")) (λ e. denied)
            (λ e.
              if_both Denied (is_at req (codes "/trees")) (λ e. denied)
                (λ e. (refl, refl, statuses nobody (tree_of req.path) 34))))

  read_or_approve-Denied : (id : Option Text) → Denied (read_or_approve o id nobody s)
  unfolding read_or_approve read_proposal
  read_or_approve-Denied (some id) = denied
  read_or_approve-Denied none = approve_or_status-Denied (approved_in o req)

  -- Without a caller, each path behind the sign-in answers 401, tree or not, the store stays as it is, and
  -- an audit log that is on gets one record, with 401.
  pub dispatch_denied : IsUnauthorized cfg s (dispatch o (anonymous cfg m req) s)
  unfolding dispatch session list_proposals impact workspaces access audit_events create_proposal
  dispatch_denied =
      if_both Denied (is_get req (codes "/api/session")) (λ e. denied)
        (λ e.
          if_both Denied (is_get req proposals_path) (λ e. denied)
            (λ e.
              if_both Denied (is_post req (codes "/api/review/impact")) (λ e. denied)
                (λ e.
                  if_both Denied (is_get req (codes "/workspaces")) (λ e. denied)
                    (λ e.
                      if_both Denied (is_get req (codes "/api/admin/access-review")) (λ e. denied)
                        (λ e.
                          if_both Denied (is_get req (codes "/api/admin/audit")) (λ e. denied)
                            (λ e.
                              if_both Denied (is_post req proposals_path)
                                (λ e. (refl, refl, statuses nobody none 23))
                                (λ e. read_or_approve-Denied (read_in o req))))))))

-- Two outcomes with the same answer.
record IsAlike (x y : Outcome) : Type 0 where
  same : x.reply ≡ y.reply

abbrev alike : {x y : Outcome} → x.reply ≡ y.reply → IsAlike x y
alike h = record { same = h }

alike_if :
    (b : Bool) {x x' y y' : Outcome}
    → IsAlike x x'
    → IsAlike y y'
    → IsAlike (if b then x else y) (if b then x' else y')
alike_if true p q = p
alike_if false p q = q

for_admin_alike :
    (who : Option Text) (scope : Option AdminScope) (bytes : ℕ) (f g : AdminScope → Ending)
    → scope ≡ none
    → for_admin who scope bytes f ≡ for_admin who scope bytes g
for_admin_alike none none bytes f g h = refl
for_admin_alike (some user) none bytes f g h = refl
for_admin_alike who (some scope) bytes f g h = cc h

propose_alike :
    (c : Call) (s s' : Store) (who : Option Text) (scope : Option AdminScope)
    (id text : Option Text)
    → scope ≡ none
    → (propose c s who scope id text).1 ≡ (propose c s' who scope id text).1
propose_alike c s s' none none id text h = refl
propose_alike c s s' (some user) none id text h = refl
propose_alike c s s' who (some scope) id text h = cc h

agree_alike :
    (c : Call) (s s' : Store) (id : Text) (who : Option Text) (scope : Option AdminScope)
    → scope ≡ none
    → (agree c s id who scope).1 ≡ (agree c s' id who scope).1
agree_alike c s s' id none none h = refl
agree_alike c s s' id (some user) none h = refl
agree_alike c s s' id who (some scope) h = cc h

module _ (o : Outside) (c : Call) (s s' : Store) (outsider : scope_of c ≡ none) where
  review_trees_alike :
      (name rev : Text) (depth : ℕ) (ts : Option (List Tree))
      → IsAlike
          (review_trees o.to_string o.from_slice (forward_of o) c s name rev depth ts)
          (review_trees o.to_string o.from_slice (forward_of o) c s' name rev depth ts)
  review_trees_alike name rev depth none = alike refl
  review_trees_alike name rev depth (some ts) = alike refl

  review_workspace_alike :
      (rev : Text) (depth : ℕ) (w : Option (Text × List Text))
      → IsAlike
          (review_workspace o.to_string o.from_slice (forward_of o) c s rev depth w)
          (review_workspace o.to_string o.from_slice (forward_of o) c s' rev depth w)
  review_workspace_alike rev depth none = alike refl
  review_workspace_alike rev depth (some (name, names)) =
      review_trees_alike name rev depth (known_trees c.moment.rights names)

  review_input_alike :
      (user : Text) (input : Option Value)
      → IsAlike
          (review_input o.to_string o.from_slice (forward_of o) c s user input)
          (review_input o.to_string o.from_slice (forward_of o) c s' user input)
  review_input_alike user none = alike refl
  review_input_alike user (some input) =
      alike_if (not (is_valid_revision (text_of (as_str (index input (codes "rev")))))) (alike refl)
        (review_workspace_alike _ _ (asked_workspace c user input))

  impact_alike :
      (who : Option Text)
      → IsAlike
          (impact_for o.to_string o.from_slice (forward_of o) c s who)
          (impact_for o.to_string o.from_slice (forward_of o) c s' who)
  impact_alike none = alike refl
  impact_alike (some user) = review_input_alike user (o.from_slice c.req.body)

  approve_or_status_alike :
      (id : Option Text) → IsAlike (approve_or_status o id c s) (approve_or_status o id c s')
  unfolding approve_or_status approve_proposal sync_status evidence trees proxied
  approve_or_status_alike (some id) = alike (
      ap
        (λ n.
          (changed c s n 200 21 (json_ok (codes "{\"status\":\"approved\"}")) 24
            (codes "policy approval rejected")).reply)
        (agree_alike c s s' id c.who (scope_of c) outsider))
  approve_or_status_alike none = alike_if (is_get c.req (codes "/api/sync/status")) (alike refl) (
      alike_if (is_get c.req (codes "/api/cross-repo/evidence")) (alike refl)
        (alike_if (is_at c.req (codes "/trees")) (alike refl) (alike refl)))

  read_or_approve_alike :
      (id : Option Text) → IsAlike (read_or_approve o id c s) (read_or_approve o id c s')
  unfolding read_or_approve read_proposal
  read_or_approve_alike (some id) =
      alike (ap (λ (e : Ending). e.2) (for_admin_alike c.who (scope_of c) 9 _ _ outsider))
  read_or_approve_alike none = approve_or_status_alike (approved_in o c.req)

  dispatch_alike : IsAlike (dispatch o c s) (dispatch o c s')
  unfolding dispatch session list_proposals impact workspaces access audit_events create_proposal
  dispatch_alike =
      let input = input_of o.to_string o.from_slice c.req in
      alike_if (is_get c.req (codes "/api/session")) (alike refl) (
        alike_if (is_get c.req proposals_path)
          (alike (ap (λ (e : Ending). e.2) (for_admin_alike c.who (scope_of c) 9 _ _ outsider)))
          (alike_if (is_post c.req (codes "/api/review/impact")) (impact_alike c.who) (
            alike_if (is_get c.req (codes "/workspaces")) (alike refl) (
              alike_if (is_get c.req (codes "/api/admin/access-review")) (alike refl) (
                alike_if (is_get c.req (codes "/api/admin/audit")) (alike refl) (
                  alike_if (is_post c.req proposals_path)
                    (alike (
                      ap
                        (λ n.
                          (changed c s n 201 20
                            (answer (codes "201 Created") (codes "{\"status\":\"pending\"}")) 23
                            (codes "policy proposal rejected")).reply)
                        (propose_alike c s s' c.who (scope_of c) (as_str (index input (codes "id")))
                          (as_str (index input (codes "rights"))) outsider)))
                    (read_or_approve_alike (read_in o c.req))))))))

  -- To a caller who is no administrator, each path behind the sign-in answers the same whatever the store
  -- holds: under the same rights in force, neither the text of the rights file nor a proposal shows, nor
  -- whether a proposal exists.
  pub dispatch_hides : (dispatch o c s).reply ≡ (dispatch o c s').reply
  dispatch_hides = dispatch_alike.same
