-- ===== src/Http/Dispatch.antt =====
-- src/main.rs: what holds of each handler behind the sign-in holds of `handle` there.
use glasir_control.Prelude.{
  ℕ, refl, not, ◌||◌, Option, none, some, List, if_both, nat_eq, Bool_eq, list_eq, pair_eq,
}
use glasir_control.Text.{Text, codes, text_of}
use glasir_control.Rights.{Tree}
use glasir_control.Security.{is_valid_revision}
use glasir_control.Policy.{Store}
use glasir_control.Json.{Value, index, as_str}
use glasir_control.Http.{
  Answer, panicked, Call, Outcome, json_ok, not_found_answer, bad_request, Ending, ending,
  unaudited, no_credential, is_get, is_post,
}
use glasir_control.Http.Admin.{proposals_path, create_proposal, approve_proposal}
use glasir_control.Http.Review.{
  known_trees, asked_workspace, review_trees, review_workspace, review_input, impact_for, impact,
}
use glasir_control.Http.Guards.{Outside, forward_of, is_at, sso_answer}
use glasir_control.Http.Handler.{
  proxied, approve_or_status, approved_in, read_or_approve, read_in, dispatch, console,
}
use glasir_control.Http.Endings.{
  IsCoherent, session-ends, workspaces-ends, trees-ends, list_proposals-ends, access-ends,
  audit_events-ends, read_proposal-ends, sync_status-ends, evidence-ends,
}

module _ (P : Outcome → Type 0) (o : Outside) (c : Call) (s : Store)
    (with_ending : (e : Ending) → IsCoherent e → P (ending c s e))
    (early : (a : Answer) → P (unaudited s a)) where
  review_trees-ends :
      (name rev : Text) (depth : ℕ) (ts : Option (List Tree))
      → P (review_trees o.to_string o.from_slice (forward_of o) c s name rev depth ts)
  review_trees-ends name rev depth none = early panicked
  review_trees-ends name rev depth (some ts) = with_ending _ refl

  review_workspace-ends :
      (rev : Text) (depth : ℕ) (w : Option (Text × List Text))
      → P (review_workspace o.to_string o.from_slice (forward_of o) c s rev depth w)
  review_workspace-ends rev depth none = early not_found_answer
  review_workspace-ends rev depth (some (name, names)) =
      review_trees-ends name rev depth (known_trees c.moment.rights names)

  review_input-ends :
      (user : Text) (input : Option Value)
      → P (review_input o.to_string o.from_slice (forward_of o) c s user input)
  review_input-ends user none = early (bad_request (codes "invalid review request"))
  review_input-ends user (some input) =
      let rev = text_of (as_str (index input (codes "rev"))) in
      if_both P (not (is_valid_revision rev)) (λ e. early (bad_request (codes "invalid revision")))
        (λ e. review_workspace-ends rev _ (asked_workspace c user input))

  impact_for-ends :
      (who : Option Text) → P (impact_for o.to_string o.from_slice (forward_of o) c s who)
  impact_for-ends none = with_ending no_credential refl
  impact_for-ends (some user) = review_input-ends user (o.from_slice c.req.body)

  impact-ends : P (impact o.to_string o.from_slice (forward_of o) c s)
  unfolding impact
  impact-ends = impact_for-ends c.who

  module _ (creates : P (create_proposal o.to_string o.from_slice c s))
      (agrees : (id : Text) → P (approve_proposal o.to_string o.from_slice id c s))
      (forwards : P (proxied o c s)) where
    approve_or_status-ends : (id : Option Text) → P (approve_or_status o id c s)
    unfolding approve_or_status
    approve_or_status-ends (some id) = agrees id
    approve_or_status-ends none =
        if_both P (is_get c.req (codes "/api/sync/status"))
          (λ e. sync_status-ends P c s with_ending o.to_string o.from_slice)
          (λ e.
            if_both P (is_get c.req (codes "/api/cross-repo/evidence"))
              (λ e. evidence-ends P c s with_ending o.to_string o.from_slice)
              (λ e.
                if_both P (is_at c.req (codes "/trees"))
                  (λ e. trees-ends P c s with_ending o.to_string o.from_slice) (λ e. forwards)))

    read_or_approve-ends : (asked : Option Text) → P (read_or_approve o asked c s)
    unfolding read_or_approve
    read_or_approve-ends (some id) =
        read_proposal-ends P c s with_ending o.to_string o.from_slice id
    read_or_approve-ends none = approve_or_status-ends (approved_in o c.req)

    pub dispatch-ends : P (dispatch o c s)
    unfolding dispatch
    dispatch-ends =
        if_both P (is_get c.req (codes "/api/session"))
          (λ e. session-ends P c s with_ending o.to_string o.from_slice)
          (λ e.
            if_both P (is_get c.req proposals_path)
              (λ e. list_proposals-ends P c s with_ending o.to_string o.from_slice)
              (λ e.
                if_both P (is_post c.req (codes "/api/review/impact")) (λ e. impact-ends)
                  (λ e.
                    if_both P (is_get c.req (codes "/workspaces"))
                      (λ e. workspaces-ends P c s with_ending o.to_string o.from_slice)
                      (λ e.
                        if_both P (is_get c.req (codes "/api/admin/access-review"))
                          (λ e. access-ends P c s with_ending o.to_string o.from_slice)
                          (λ e.
                            if_both P (is_get c.req (codes "/api/admin/audit"))
                              (λ e. audit_events-ends P c s with_ending o.to_string o.from_slice)
                              (λ e.
                                if_both P (is_post c.req proposals_path) (λ e. creates)
                                  (λ e. read_or_approve-ends (read_in o c.req))))))))

    pub console-ends : P (console o c s)
    unfolding console
    console-ends =
        if_both P (is_get c.req (codes "/review") || is_get c.req (codes "/admin"))
          (λ e. early (json_ok c.cfg.console_html))
          (λ e.
            if_both P (is_get c.req (codes "/console.css")) (λ e. early (json_ok c.cfg.console_css))
              (λ e.
                if_both P (is_get c.req (codes "/console.js"))
                  (λ e. early (json_ok c.cfg.console_js))
                  (λ e.
                    if_both P (is_get c.req (codes "/api/sso")) (λ e. early (sso_answer c.cfg.sso))
                      (λ e. dispatch-ends))))
