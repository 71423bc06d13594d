-- ===== src/Policy/Isolation.antt =====
-- src/policy.rs: a tenant administrator's proposal, from its creation to its approval.
use mathlib.Core.Option.{some-injective}
use glasir_control.Prelude.{
  ℕ, ◌≡◌, refl, sym, ap, ◌∙◌, false, Option, some, List, contains, eq_refl, nat_eq, Bool_eq,
  list_eq, pair_eq, Result, ok, err, ok-injective,
}
use glasir_control.Text.{Text}
use glasir_control.HashMap.{get, get-insert}
use glasir_control.Rights.{AdminScope, in_trees, may_with_groups, is_admin_with_groups}
use glasir_control.Rights.Parse.{parse}
use glasir_control.Rights.Scope.{compose}
use glasir_control.Rights.Scope.Isolation.{compose-isolates, compose-admin}
use glasir_control.Policy.{
  Proposal, Store, PolicyError, with_scope, fingerprint, pending_proposal, create, approve,
}
use glasir_control.Policy.Approval.{approve_iff, create_sound}

with_scope-ok :
    (ts : List Text) (step : Result Text ℕ) (made : Text × Option (List Text))
    → ◌≡◌ {A = Result (Text × Option (List Text)) PolicyError} (with_scope ts step) (ok made)
    → step ≡ ok (made.0)
with_scope-ok ts (err line) made h = cc h
with_scope-ok ts (ok text) made h =
    ap (λ (p : Text × Option (List Text)). ok (p.0)) (ok-injective h)

-- Whatever happens in between, a proposal that is approved as it was created installs what its
-- author's lines compose to with the rights that are active at the approval.
module _ (s s1 s2 s3 : Store) (new_id author submitted by : Text) (ts : List Text)
    (scope_of : AdminScope) (then_at now : ℕ) where
  installed :
      create s new_id author submitted (in_trees ts) then_at ≡ ok s1
      → get s2.proposals new_id ≡ get s1.proposals new_id
      → approve s2 new_id by scope_of now ≡ ok s3
      → (fingerprint s.active ≡ fingerprint s2.active → s.active ≡ s2.active)
      → compose s2.active submitted ts ≡ ok s3.active
  installed made kept done collision_free =
      let c = create_sound s s1 new_id author submitted (in_trees ts) then_at made in
      let a = (approve_iff s2 s3 new_id by scope_of now).0 done in
      let written = pending_proposal s new_id author then_at c.made in
      let at_creation : get s1.proposals new_id ≡ some (some written) =
        ap (λ (v : Store). get v.proposals new_id) c.left
        ∙ get-insert new_id (some written) s.proposals new_id
        ∙ rw (eq_refl new_id) refl in
      let same : a.value ≡ written =
        some-injective _ _ (some-injective _ _ (sym a.stored ∙ kept ∙ at_creation)) in
      let based : some (fingerprint s.active) ≡ some (fingerprint s2.active) =
        ap (λ (v : Proposal). v.base_sha256) (sym same) ∙ a.based in
      let base = collision_free (some-injective _ _ based) in
      let text_is : c.made.0 ≡ a.text =
        some-injective _ _ (ap (λ (v : Proposal). v.rights) (sym same) ∙ a.proposed) in
      ap (λ (t : Text). compose t submitted ts) (sym base)
      ∙ with_scope-ok ts (compose s.active submitted ts) c.made c.built
      ∙ ap ok (text_is ∙ ap (λ (v : Store). v.active) (sym a.left))

  -- When a tenant administrator's proposal is approved, by whomever and after whatever else happened
  -- to the store, access of every user to a tree outside the author's trees stays what it was just
  -- before: if the stored proposal is the created one, and the two rights files, the one at the
  -- creation and the one at the approval, do not collide under SHA-256.
  pub tenant_change-isolates :
      (user : Text) (idp_groups : List Text) (t : Text)
      → create s new_id author submitted (in_trees ts) then_at ≡ ok s1
      → get s2.proposals new_id ≡ get s1.proposals new_id
      → approve s2 new_id by scope_of now ≡ ok s3
      → (fingerprint s.active ≡ fingerprint s2.active → s.active ≡ s2.active)
      → contains ts t ≡ false
      → may_with_groups (parse s3.active) user idp_groups t
        ≡ may_with_groups (parse s2.active) user idp_groups t
  tenant_change-isolates user idp_groups t made kept done collision_free outside =
      compose-isolates s2.active submitted ts s3.active user idp_groups t
        (installed made kept done collision_free) outside

  -- Under the same conditions nobody becomes an administrator by the approval, or ceases to be one.
  pub tenant_change-admin :
      (user : Text) (idp_groups : List Text)
      → create s new_id author submitted (in_trees ts) then_at ≡ ok s1
      → get s2.proposals new_id ≡ get s1.proposals new_id
      → approve s2 new_id by scope_of now ≡ ok s3
      → (fingerprint s.active ≡ fingerprint s2.active → s.active ≡ s2.active)
      → is_admin_with_groups (parse s3.active) user idp_groups
        ≡ is_admin_with_groups (parse s2.active) user idp_groups
  tenant_change-admin user idp_groups made kept done collision_free =
      compose-admin s2.active submitted ts s3.active user idp_groups
        (installed made kept done collision_free)
