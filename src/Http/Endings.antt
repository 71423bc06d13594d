-- ===== src/Http/Endings.antt =====
-- src/main.rs: by which endings a handler can end, for the proofs about all of them.
use glasir_control.Prelude.{
  ℕ, refl, inl, inr, not, Option, none, some, List, if◌then◌else◌, if_both, Option-cases, nat_eq,
  Bool_eq, list_eq, pair_eq, Result, ok, err,
}
use glasir_control.Text.{Text}
use glasir_control.Rights.{AdminScope, is_admin_with_groups}
use glasir_control.Policy.{Proposal, Store, PolicyError}
use glasir_control.Json.{Value}
use glasir_control.Http.{
  Call, Outcome, not_found_answer, Ending, ending, no_credential, for_user, scope_of, for_admin,
}
use glasir_control.Http.Console.{session, workspaces, trees}
use glasir_control.Http.Admin.{
  for_global, list_proposals, access, audit_ending, audit_events, read_ending, read_proposal,
  sync_status, evidence_ending, evidence,
}
use glasir_control.Http.Codes.{IsCode}

-- An ending that logs the code that it answers.
abbrev pub IsCoherent : Ending → Type 0
IsCoherent e = IsCode e.2 e.0

module _ (P : Outcome → Type 0) (c : Call) (s : Store)
    (with_ending : (e : Ending) → IsCoherent e → P (ending c s e)) where
  pub for_user-ends :
      (who : Option Text) (f : Text → Ending)
      → ((user : Text) → IsCoherent (f user))
      → P (ending c s (for_user who f))
  for_user-ends none f h = with_ending no_credential refl
  for_user-ends (some user) f h = with_ending (f user) (h user)

  pub for_admin-ends :
      (who : Option Text) (scope : Option AdminScope) (bytes : ℕ) (f : AdminScope → Ending)
      → ((a : AdminScope) → IsCoherent (f a))
      → P (ending c s (for_admin who scope bytes f))
  for_admin-ends none scope bytes f h = with_ending no_credential refl
  for_admin-ends (some user) none bytes f h = with_ending (404, bytes, not_found_answer) refl
  for_admin-ends (some user) (some scope) bytes f h = with_ending (f scope) (h scope)

  pub for_global-ends : (done : Ending) → IsCoherent done → P (ending c s (for_global c s done))
  for_global-ends done h =
      for_user-ends c.who
        (λ user.
          if is_admin_with_groups c.moment.rights user c.groups
          then done
          else (404, 12, not_found_answer))
        (λ user.
          if_both IsCoherent (is_admin_with_groups c.moment.rights user c.groups) (λ e. h)
            (λ e. refl))

  -- The handlers that end so, whoever calls.
  module _ (to_string : Value → Text) (from_slice : List ℕ → Option Value) where
    pub session-ends : P (session to_string c s)
    unfolding session
    session-ends = for_user-ends c.who _ (λ user. refl)

    pub workspaces-ends : P (workspaces to_string c s)
    unfolding workspaces
    workspaces-ends = for_user-ends c.who _ (λ user. refl)

    pub trees-ends : P (trees c s)
    unfolding trees
    trees-ends = for_user-ends c.who _ (λ user. refl)

    pub list_proposals-ends : P (list_proposals to_string from_slice c s)
    unfolding list_proposals
    list_proposals-ends =
        for_admin-ends c.who (scope_of c) 9 _ (λ scope.
          if_both IsCoherent (not c.moment.proposals_are_readable) (λ e. refl) (λ e. refl))

    pub access-ends : P (access to_string from_slice c s)
    unfolding access
    access-ends = for_admin-ends c.who (scope_of c) 12 _ (λ scope. refl)

    audit_ending-IsCoherent :
        (scope : AdminScope) → IsCoherent (audit_ending to_string from_slice c scope)
    audit_ending-IsCoherent scope =
        if_both IsCoherent (not c.cfg.audits) (λ e. refl)
          (λ e. elim (Option-cases c.moment.audit_text) [
            | inl missing ↦ rw missing refl
            | inr (text, there) ↦ rw there refl
          ])

    pub audit_events-ends : P (audit_events to_string from_slice c s)
    unfolding audit_events
    audit_events-ends =
        for_admin-ends c.who (scope_of c) 9 (audit_ending to_string from_slice c)
          audit_ending-IsCoherent

    read_ending-IsCoherent :
        (out : Result (Proposal × Text) PolicyError)
        → IsCoherent (read_ending to_string from_slice out)
    read_ending-IsCoherent (ok value) = refl
    read_ending-IsCoherent (err e) = refl

    pub read_proposal-ends : (id : Text) → P (read_proposal to_string from_slice id c s)
    unfolding read_proposal
    read_proposal-ends id =
        for_admin-ends c.who (scope_of c) 9 _
          (λ scope. read_ending-IsCoherent (glasir_control.Policy.read s id scope))

    pub sync_status-ends : P (sync_status to_string from_slice c s)
    unfolding sync_status
    sync_status-ends = for_global-ends _ refl

    evidence_ending-IsCoherent :
        (v : Option Value) → IsCoherent (evidence_ending to_string from_slice v)
    evidence_ending-IsCoherent none = refl
    evidence_ending-IsCoherent (some v) = refl

    pub evidence-ends : P (evidence to_string from_slice c s)
    unfolding evidence
    evidence-ends = for_global-ends _ (evidence_ending-IsCoherent c.cfg.cross_repo_evidence)
