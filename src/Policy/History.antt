-- ===== src/Policy/History.antt =====
-- src/policy.rs: what holds after any sequence of creations and approvals, by whomever.
use mathlib.Core.Option.{some-injective}
use glasir_control.Prelude.{
  ℕ, ◌≡◌, refl, sym, ap, ◌∙◌, subst, ◌≢◌, ◌⊎◌, inl, inr, true, false, Option, none, some,
  Bool-cases, ◌==◌, eq_refl, eq_iff, nat_eq, Bool_eq, list_eq, pair_eq, ok,
}
use glasir_control.Text.{Text, codes}
use glasir_control.HashMap.{HashMap, get, get_of_contains_key-false, insert, get-insert}
use glasir_control.Rights.{AdminScope}
use glasir_control.Rights.Validate.{validate_text, is_valid}
use glasir_control.Policy.{Proposal, Store, pending_proposal, create, approved, approve}
use glasir_control.Policy.Approval.{approve_iff, create_sound}

pub data Step (s s' : Store) : Type 0 where
  creation :
      (new_id by submitted : Text) (scope_of : AdminScope) (now : ℕ)
      → create s new_id by submitted scope_of now ≡ ok s'
      → Step s s'
  approval :
      (asked by : Text) (scope_of : AdminScope) (now : ℕ)
      → approve s asked by scope_of now ≡ ok s'
      → Step s s'

pub data Run (s : Store) : Store → Type 0 where
  start : Run s s
  next : {s' s'' : Store} → Run s s' → Step s' s'' → Run s s''

-- Four eyes: an approved proposal has an author and an approver, and they differ.
pub record IsReviewed (v : Proposal) : Type 0 where
  pub wrote : Text
  pub agreed : Text
  pub authored : v.author ≡ some wrote
  pub approved_by : v.approver ≡ some agreed
  pub differ : wrote ≢ agreed

abbrev pub IsApproved : Proposal → Type 0
IsApproved v = v.state ≡ some (codes "approved")

abbrev pub AllReviewed : Store → Type 0
AllReviewed s =
    (k : Text) (v : Proposal) → get s.proposals k ≡ some (some v) → IsApproved v → IsReviewed v

pub record IsSafe (s : Store) : Type 0 where
  pub active_valid : is_valid (validate_text s.active) ≡ true
  pub reviewed : AllReviewed s

states_differ : some (codes "pending") ≡ some (codes "approved") → ⊥
states_differ e = cc e

none-some : {A : Type 0} {a : A} → none ≡ some a → ⊥
none-some e = cc e

get-insert_same :
    (k : Text) (v : Option Proposal) (m : HashMap Text (Option Proposal))
    → get (insert k v m) k ≡ some v
get-insert_same k v m = get-insert k v m k ∙ rw (eq_refl k) refl

get-insert_other :
    (k : Text) (v : Option Proposal) (m : HashMap Text (Option Proposal)) (j : Text)
    → (k == j) ≡ false
    → get (insert k v m) j ≡ get m j
get-insert_other k v m j other = get-insert k v m j ∙ rw other refl

-- What is stored at a key after an insertion: the new entry, or what was there.
insert-cases :
    (k : Text) (v : Option Proposal) (m : HashMap Text (Option Proposal)) (j : Text)
    (o : Option (Option Proposal))
    → get (insert k v m) j ≡ o
    → (some v ≡ o) ⊎ (get m j ≡ o)
insert-cases k v m j o h = elim (Bool-cases (k == j)) [
  | inl same ↦ inl (sym (get-insert_same k v m) ∙ ap (get (insert k v m)) ((eq_iff k j).0 same) ∙ h)
  | inr other ↦ inr (sym (get-insert_other k v m j other) ∙ h)
]

pub Step-AllReviewed : (s s' : Store) → AllReviewed s → Step s s' → AllReviewed s'
Step-AllReviewed s s' reviewed (creation new_id by submitted scope_of now h) =
    let c = create_sound s s' new_id by submitted scope_of now h in
    let fresh = pending_proposal s new_id by now c.made in
    subst AllReviewed (sym c.left) λ k v at_k done.
      elim (insert-cases new_id (some fresh) s.proposals k (some (some v)) at_k) [
        | inl new ↦
            let same : fresh ≡ v = some-injective _ _ (some-injective _ _ new) in
            absurd (states_differ (ap (λ (p : Proposal). p.state) same ∙ done))
        | inr old ↦ reviewed k v old done
      ]
Step-AllReviewed s s' reviewed (approval asked by scope_of now h) =
    let a = (approve_iff s s' asked by scope_of now).0 h in
    let agreed = approved a.value by now in
    subst AllReviewed (sym a.left) λ k v at_k done.
      elim (insert-cases asked (some agreed) s.proposals k (some (some v)) at_k) [
        | inl new ↦
            let same : agreed ≡ v = some-injective _ _ (some-injective _ _ new) in
            subst IsReviewed same record {
              wrote = a.wrote;
              agreed = by;
              authored = a.authored;
              approved_by = refl;
              differ = a.second;
            }
        | inr old ↦ reviewed k v old done
      ]

Step-valid :
    (s s' : Store)
    → is_valid (validate_text s.active) ≡ true
    → Step s s'
    → is_valid (validate_text s'.active) ≡ true
Step-valid s s' h (creation new_id by submitted scope_of now made) =
    let c = create_sound s s' new_id by submitted scope_of now made in
    subst (λ (x : Store). is_valid (validate_text x.active) ≡ true) (sym c.left) h
Step-valid s s' h (approval asked by scope_of now made) =
    let a = (approve_iff s s' asked by scope_of now).0 made in
    subst (λ (x : Store). is_valid (validate_text x.active) ≡ true) (sym a.left) a.sound

Step-IsSafe : (s s' : Store) → IsSafe s → Step s s' → IsSafe s'
Step-IsSafe s s' safe taken = record {
  active_valid = Step-valid s s' safe.active_valid taken;
  reviewed = Step-AllReviewed s s' safe.reviewed taken;
}

-- If the active rights validate and every approved proposal has an author and another approver, this
-- holds after any sequence of creations and approvals.
pub Run-IsSafe : (s s' : Store) → IsSafe s → Run s s' → IsSafe s'
Run-IsSafe s s' safe start = safe
Run-IsSafe s s' safe (next {s' = mid} before last) =
    Step-IsSafe mid s' (Run-IsSafe s mid safe before) last

Step-keeps :
    (s s' : Store) (k : Text) (v : Proposal)
    → get s.proposals k ≡ some (some v)
    → IsApproved v
    → Step s s'
    → get s'.proposals k ≡ some (some v)
Step-keeps s s' k v at_k done (creation new_id by submitted scope_of now h) =
    let c = create_sound s s' new_id by submitted scope_of now h in
    let fresh = pending_proposal s new_id by now c.made in
    elim (Bool-cases (new_id == k)) [
      | inl same ↦
          let missing = get_of_contains_key-false s.proposals new_id c.fresh in
          absurd (none-some (sym missing ∙ ap (get s.proposals) ((eq_iff new_id k).0 same) ∙ at_k))
      | inr other ↦
          ap (λ (t : Store). get t.proposals k) c.left
          ∙ get-insert_other new_id (some fresh) s.proposals k other
          ∙ at_k
    ]
Step-keeps s s' k v at_k done (approval asked by scope_of now h) =
    let a = (approve_iff s s' asked by scope_of now).0 h in
    elim (Bool-cases (asked == k)) [
      | inl same ↦
          let here : a.value ≡ v = some-injective _ _ (
            some-injective _ _
              (sym a.stored ∙ ap (get s.proposals) ((eq_iff asked k).0 same) ∙ at_k)) in
          absurd (states_differ (sym a.waiting ∙ ap (λ (p : Proposal). p.state) here ∙ done))
      | inr other ↦
          ap (λ (t : Store). get t.proposals k) a.left
          ∙ get-insert_other asked (some (approved a.value by now)) s.proposals k other
          ∙ at_k
    ]

Run-keeps :
    (s s' : Store) (k : Text) (v : Proposal)
    → get s.proposals k ≡ some (some v)
    → IsApproved v
    → Run s s'
    → get s'.proposals k ≡ some (some v)
Run-keeps s s' k v at_k done start = at_k
Run-keeps s s' k v at_k done (next {s' = mid} before last) =
    Step-keeps mid s' k v (Run-keeps s mid k v at_k done before) done last

-- A proposal is approved at most once: after an approval, and whatever else is created and approved,
-- no approval of the same proposal succeeds.
pub approve_once :
    (s s' later last : Store) (asked by by' : Text) (scope_of scope_of' : AdminScope) (now now' : ℕ)
    → approve s asked by scope_of now ≡ ok s'
    → Run s' later
    → ¬ (approve later asked by' scope_of' now' ≡ ok last)
approve_once s s' later last asked by by' scope_of scope_of' now now' first run again =
    let a = (approve_iff s s' asked by scope_of now).0 first in
    let b = (approve_iff later last asked by' scope_of' now').0 again in
    let agreed = approved a.value by now in
    let stored : get s'.proposals asked ≡ some (some agreed) =
      ap (λ (t : Store). get t.proposals asked) a.left
      ∙ get-insert_same asked (some agreed) s.proposals in
    let kept = Run-keeps s' later asked agreed stored refl run in
    let same : b.value ≡ agreed = some-injective _ _ (some-injective _ _ (sym b.stored ∙ kept)) in
    states_differ (sym b.waiting ∙ ap (λ (p : Proposal). p.state) same)
