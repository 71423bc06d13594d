-- ===== src/Policy.antt =====
-- src/policy.rs: proposals of a new rights file. The store is the active rights file and the files
-- of the proposals' directory by their id. A file is what serde_json reads from it: `none` for one
-- that is no JSON, and otherwise the fields that the program asks for, each with what `as_str`,
-- `as_u64` or `as_array` gives.
use mathlib.Core.Option
pub mod Approval
pub mod Isolation
pub mod History
pub mod View
pub mod Ordering
pub mod Listing
mod Tests
use glasir_control.Prelude.{
  ℕ, Bool, true, false, not, ◌&&◌, Option, none, some, List, [], ◌∷◌, map, leb, if◌then◌else◌,
  is_some_and, ◌==◌, nat_eq, Bool_eq, list_eq, pair_eq, Result, ok, err, ◌>>=◌, ok_or, require,
}
use glasir_control.Text.{Text, codes}
use glasir_control.Text.Order.{text_leb}
use glasir_control.Text.Utf8.{as_bytes}
use glasir_control.HashMap.{HashMap, get, contains_key, insert}
use glasir_control.Rights.{AdminScope, global, in_trees, covers}
use glasir_control.Rights.Scope.{scoped_text, compose}
use glasir_control.Crypto.{sha256_hex}
use glasir_control.Rights.Validate.{validate_text, is_valid}

pub record Proposal : Type 0 where
  pub id : Option Text
  pub author : Option Text
  pub created_at : Option ℕ
  pub rights : Option Text
  pub rights_sha256 : Option Text
  pub base_sha256 : Option Text
  pub scope : Option (List Text)
  pub state : Option Text
  pub approver : Option Text
  pub approved_at : Option ℕ

pub record Store : Type 0 where
  pub active : Text
  pub proposals : HashMap Text (Option Proposal)

pub data PolicyError : Type 0 where
  unreadable : PolicyError
  outside_trees : ℕ → PolicyError
  invalid_rights : PolicyError
  already_exists : PolicyError
  invalid_proposal : PolicyError
  own_proposal : PolicyError
  not_pending : PolicyError
  beyond_trees : PolicyError
  policy_changed : PolicyError
  no_longer_valid : PolicyError
  not_found : PolicyError

unfoldable pub covers_proposal : AdminScope → Proposal → Bool
unfolding covers
covers_proposal global value = true
covers_proposal (in_trees ts) value = is_some_and value.scope (covers (in_trees ts))

-- The proposed rights file, and the `scope` that is stored beside it.
abbrev pub with_scope : List Text → Result Text ℕ → Result (Text × Option (List Text)) PolicyError
with_scope ts (err line) = err (outside_trees line)
with_scope ts (ok text) = ok (text, some ts)

abbrev pub composed : Text → Text → AdminScope → Result (Text × Option (List Text)) PolicyError
composed current rights global = ok (rights, none)
composed current rights (in_trees ts) = with_scope ts (compose current rights ts)

abbrev pub fingerprint : Text → Text
fingerprint text = sha256_hex (as_bytes text)

abbrev pub pending_proposal : Store → Text → Text → ℕ → Text × Option (List Text) → Proposal
pending_proposal s new_id by now (text, scope_value) = record {
  id = some new_id;
  author = some by;
  created_at = some now;
  rights = some text;
  rights_sha256 = some (fingerprint text);
  base_sha256 = some (fingerprint s.active);
  scope = scope_value;
  state = some (codes "pending");
  approver = none;
  approved_at = none;
}

-- `now` is `auth::now()`.
unfoldable pub create : Store → Text → Text → Text → AdminScope → ℕ → Result Store PolicyError
create s new_id by text scope_of now = do
  made ← composed s.active text scope_of
  _ ← require (is_valid (validate_text made.0)) invalid_rights
  _ ← require (not (contains_key s.proposals new_id)) already_exists
  ok (record s {
    proposals = insert new_id (some (pending_proposal s new_id by now made)) s.proposals;
  })

abbrev pub loaded : Option (Option Proposal) → Result Proposal PolicyError
loaded (some (some value)) = ok value
loaded _ = err unreadable

abbrev pub load : Store → Text → Result Proposal PolicyError
load s asked = loaded (get s.proposals asked)

abbrev pub is_text : Option Text → Text → Bool
is_text o t = is_some_and o (λ v. v == t)

abbrev pub approved : Proposal → Text → ℕ → Proposal
approved value by now = record value {
  state = some (codes "approved");
  approver = some by;
  approved_at = some now;
}

unfoldable pub approve : Store → Text → Text → AdminScope → ℕ → Result Store PolicyError
approve s asked by scope_of now = do
  value ← load s asked
  wrote ← ok_or value.author invalid_proposal
  _ ← require (not (wrote == by)) own_proposal
  _ ← require (is_text value.state (codes "pending")) not_pending
  _ ← require (covers_proposal scope_of value) beyond_trees
  _ ← require (is_text value.base_sha256 (fingerprint s.active)) policy_changed
  text ← ok_or value.rights invalid_proposal
  _ ← require (is_valid (validate_text text)) no_longer_valid
  ok (record { active = text; proposals = insert asked (some (approved value by now)) s.proposals })

-- A rights text as the given administrator may see it.
unfoldable pub active_view : Text → AdminScope → Text
active_view text global = text
active_view text (in_trees ts) = scoped_text text ts

-- The proposal and the active rights, as the administrator may see them.
unfoldable pub read : Store → Text → AdminScope → Result (Proposal × Text) PolicyError
unfolding active_view
read s asked scope_of = do
  value ← load s asked
  _ ← require (covers_proposal scope_of value) not_found
  ok (
    record value { rights = Option.map (λ text. active_view text scope_of) value.rights },
    active_view s.active scope_of,
  )

-- What `list` tells of a proposal.
pub record Summary : Type 0 where
  pub id : Option Text
  pub author : Option Text
  pub created_at : Option ℕ
  pub scope : Option (List Text)
  pub state : Option Text
  pub approver : Option Text
  pub approved_at : Option ℕ

abbrev pub summary : Proposal → Summary
summary value = record {
  id = value.id;
  author = value.author;
  created_at = value.created_at;
  scope = value.scope;
  state = value.state;
  approver = value.approver;
  approved_at = value.approved_at;
}

-- The loop of `list` over the files of the directory.
unfoldable pub visible : AdminScope → HashMap Text (Option Proposal) → List Summary
unfolding covers_proposal
visible scope_of [] = []
visible scope_of ((name, none) ∷ files) = visible scope_of files
visible scope_of ((name, some value) ∷ files) =
    let rest = visible scope_of files in
    if not (covers_proposal scope_of value) then rest else summary value ∷ rest

-- The order of options, `None` first
abbrev pub option_leb : {A : Type 0} → (A → A → Bool) → Option A → Option A → Bool
option_leb leb_of none b = true
option_leb leb_of (some a) none = false
option_leb leb_of (some a) (some b) = leb_of a b

-- `a` may stand before `b`: it is newer, or as old and its id is not greater.
unfoldable pub newest_first : Summary → Summary → Bool
unfolding text_leb
newest_first a b =
    if option_leb leb a.created_at b.created_at
    then option_leb leb b.created_at a.created_at && option_leb text_leb a.id b.id
    else true

unfoldable pub insert_sorted : Summary → List Summary → List Summary
unfolding newest_first
insert_sorted x [] = x ∷ []
insert_sorted x (y ∷ ys) =
    let rest = insert_sorted x ys in if newest_first x y then x ∷ y ∷ ys else y ∷ rest

-- `sort_by`, which keeps the order of equal elements.
unfoldable pub sort_newest : List Summary → List Summary
unfolding insert_sorted
sort_newest [] = []
sort_newest (x ∷ xs) = insert_sorted x (sort_newest xs)

-- The directory is there, or nothing was proposed yet and its listing is empty.
unfoldable pub list : Store → AdminScope → List Summary
unfolding visible sort_newest
list s scope_of = sort_newest (visible scope_of s.proposals)
