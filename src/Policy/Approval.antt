-- ===== src/Policy/Approval.antt =====
-- src/policy.rs, `create` and `approve`: when they succeed, and what they leave behind.
use mathlib.Core.Option.{some-injective}
use glasir_control.Prelude.{
  ℕ, ◌≡◌, refl, sym, ap, ◌≢◌, ◌↔◌, inl, inr, Bool, true, false, not, Option, none, some, List,
  arith, Bool-cases, ◌==◌, eq_iff, nat_eq, Bool_eq, list_eq, pair_eq, Result, ok, ok_of_bind,
  ok-injective, ok_or, require, ok_of_require, ok_of_ok_or, bind_ok, require_ok, ok_or_some,
}
use glasir_control.Text.{Text, codes}
use glasir_control.HashMap.{get, contains_key, insert}
use glasir_control.Rights.{AdminScope}
use glasir_control.Rights.Validate.{validate_text, is_valid}
use glasir_control.Policy.{
  Proposal, Store, PolicyError, invalid_rights, already_exists, invalid_proposal, own_proposal,
  not_pending, beyond_trees, policy_changed, no_longer_valid, covers_proposal, composed,
  fingerprint, pending_proposal, create, loaded, load, is_text, approved, approve,
}

is_text_iff : (o : Option Text) (t : Text) → (is_text o t ≡ true) ↔ (o ≡ some t)
is_text_iff none t = (λ h. cc h, λ e. cc e)
is_text_iff (some v) t =
    (λ h. ap some ((eq_iff v t).0 h), λ e. (eq_iff v t).1 (some-injective v t e))

differ_iff : (a b : Text) → (not (a == b) ≡ true) ↔ (a ≢ b)
differ_iff a b = elim (Bool-cases (a == b)) [
  | inl same ↦ rw same (λ h. cc h, λ other. absurd (other ((eq_iff a b).0 same)))
  | inr other ↦ rw other (λ h e. cc (other, (eq_iff a b).1 e), λ h. refl)
]

pub loaded-ok :
    (o : Option (Option Proposal)) (value : Proposal) → loaded o ≡ ok value → o ≡ some (some value)
loaded-ok none value h = cc h
loaded-ok (some none) value h = cc h
loaded-ok (some (some v)) value h = cc h

-- What an approval takes, and what it leaves behind.
pub record IsApproval (s s' : Store) (asked by : Text) (scope_of : AdminScope) (now : ℕ)
    : Type 0 where
  pub value : Proposal
  pub wrote : Text
  pub text : Text
  pub stored : get s.proposals asked ≡ some (some value)
  pub authored : value.author ≡ some wrote
  pub second : wrote ≢ by
  pub waiting : value.state ≡ some (codes "pending")
  pub in_scope : covers_proposal scope_of value ≡ true
  pub based : value.base_sha256 ≡ some (fingerprint s.active)
  pub proposed : value.rights ≡ some text
  pub sound : is_valid (validate_text text) ≡ true
  pub left : s' ≡ record {
    active = text;
    proposals = insert asked (some (approved value by now)) s.proposals;
  }

module _ (s s' : Store) (asked by : Text) (scope_of : AdminScope) (now : ℕ) where
  approve_sound : approve s asked by scope_of now ≡ ok s' → IsApproval s s' asked by scope_of now
  unfolding approve
  approve_sound h =
      let (value, at_load, h1) = ok_of_bind (load s asked) _ h in
      let (wrote, at_author, h2) = ok_of_bind (ok_or value.author invalid_proposal) _ h1 in
      let (u3, at_own, h3) = ok_of_bind (require (not (wrote == by)) own_proposal) _ h2 in
      let (u4, at_state, h4) =
        ok_of_bind (require (is_text value.state (codes "pending")) not_pending) _ h3 in
      let (u5, at_scope, h5) =
        ok_of_bind (require (covers_proposal scope_of value) beyond_trees) _ h4 in
      let (u6, at_base, h6) =
        ok_of_bind (require (is_text value.base_sha256 (fingerprint s.active)) policy_changed) _
          h5 in
      let (text, at_rights, h7) = ok_of_bind (ok_or value.rights invalid_proposal) _ h6 in
      let (u8, at_valid, h8) =
        ok_of_bind (require (is_valid (validate_text text)) no_longer_valid) _ h7 in
      record {
        value = value;
        wrote = wrote;
        text = text;
        stored = loaded-ok _ value at_load;
        authored = ok_of_ok_or _ invalid_proposal wrote at_author;
        second = (differ_iff wrote by).0 (ok_of_require (not (wrote == by)) own_proposal u3 at_own);
        waiting =
            (is_text_iff value.state (codes "pending")).0 (ok_of_require _ not_pending u4 at_state);
        in_scope = ok_of_require _ beyond_trees u5 at_scope;
        based =
            (is_text_iff value.base_sha256 (fingerprint s.active)).0
              (ok_of_require _ policy_changed u6 at_base);
        proposed = ok_of_ok_or _ invalid_proposal text at_rights;
        sound = ok_of_require _ no_longer_valid u8 at_valid;
        left = sym (ok-injective h8);
      }

  approve_complete : IsApproval s s' asked by scope_of now → approve s asked by scope_of now ≡ ok s'
  unfolding approve
  approve_complete a = bind_ok _ (ap loaded a.stored) (
      bind_ok _ (ok_or_some _ a.authored) (
        bind_ok _ (require_ok _ ((differ_iff a.wrote by).1 a.second)) (
          bind_ok _ (require_ok _ ((is_text_iff a.value.state (codes "pending")).1 a.waiting)) (
            bind_ok _ (require_ok _ a.in_scope) (
              bind_ok _
                (require_ok _ ((is_text_iff a.value.base_sha256 (fingerprint s.active)).1 a.based))
                (bind_ok _ (ok_or_some _ a.proposed)
                  (bind_ok _ (require_ok _ a.sound) (ap ok (sym a.left)))))))))

  -- An approval succeeds exactly when the proposal is stored, has an author other than the approver,
  -- is pending, lies within the approver's scope, was made against the rights that are active, and
  -- validates; then its rights are active, and it is stored as approved by the approver.
  pub approve_iff :
      (approve s asked by scope_of now ≡ ok s') ↔ IsApproval s s' asked by scope_of now
  approve_iff = (approve_sound, approve_complete)

-- What a creation takes, and what it leaves behind.
pub record IsCreation (s s' : Store) (new_id by submitted : Text) (scope_of : AdminScope) (now : ℕ)
    : Type 0 where
  pub made : Text × Option (List Text)
  pub built :
      ◌≡◌ {A = Result (Text × Option (List Text)) PolicyError}
        (composed s.active submitted scope_of)
        (ok made)
  pub sound : is_valid (validate_text made.0) ≡ true
  pub fresh : contains_key s.proposals new_id ≡ false
  pub left : s' ≡ record s {
    proposals = insert new_id (some (pending_proposal s new_id by now made)) s.proposals;
  }

not-false : (b : Bool) → not b ≡ true → b ≡ false
not-false b h = ground (arith, h)

pub create_sound :
    (s s' : Store) (new_id by submitted : Text) (scope_of : AdminScope) (now : ℕ)
    → create s new_id by submitted scope_of now ≡ ok s'
    → IsCreation s s' new_id by submitted scope_of now
unfolding create
create_sound s s' new_id by submitted scope_of now h =
    let (made, at_compose, h1) = ok_of_bind (composed s.active submitted scope_of) _ h in
    let (u2, at_valid, h2) =
      ok_of_bind (require (is_valid (validate_text made.0)) invalid_rights) _ h1 in
    let (u3, at_fresh, h3) =
      ok_of_bind (require (not (contains_key s.proposals new_id)) already_exists) _ h2 in
    record {
      made = made;
      built = at_compose;
      sound = ok_of_require _ invalid_rights u2 at_valid;
      fresh =
          not-false _
            (ok_of_require (not (contains_key s.proposals new_id)) already_exists u3 at_fresh);
      left = sym (ok-injective h3);
    }
