-- ===== src/Http/Changes.antt =====
-- src/main.rs: what a request can change of the policy, and who has to have sent it.
use glasir_control.Prelude.{
  ℕ, ◌≡◌, refl, true, Option, none, some, List, [], ◌∷◌, if_both, nat_eq, Bool_eq, list_eq, pair_eq,
  Result, ok, err,
}
use glasir_control.Text.{Text, codes}
use glasir_control.Rights.{AdminScope}
use glasir_control.Security.{is_valid_identifier}
use glasir_control.Proxy.{Request}
use glasir_control.Policy.{Store, PolicyError, create, approve}
use glasir_control.Json.{Value, index, as_str}
use glasir_control.Sync.Payload.{SyncAction, WebhookError}
use glasir_control.Sync.Mutate.{apply_sync_actions}
use glasir_control.Http.{Config, Moment, Call, Outcome, scope_of}
use glasir_control.Http.Admin.{settle, propose, agree, input_of, create_proposal, approve_proposal}
use glasir_control.Http.Webhooks.{written, applied}
use glasir_control.Http.Guards.{Outside, health, identity_of, call_of}
use glasir_control.Http.Handler.{proxied, console, handle}
use glasir_control.Http.Dispatch.{console-ends}
use glasir_control.Http.Paths.{IsSigned, handle-ends}

-- What a caller behind the sign-in can do to the store.
pub data CallChange (c : Call) (s s' : Store) : Type 0 where
  kept : s' ≡ s → CallChange c s s'
  created :
      (user : Text) (scope : AdminScope) (id text : Text)
      → c.who ≡ some user
      → scope_of c ≡ some scope
      → is_valid_identifier id ≡ true
      → create s id user text scope c.moment.now ≡ ok s'
      → CallChange c s s'
  agreed :
      (user : Text) (scope : AdminScope) (id : Text)
      → c.who ≡ some user
      → scope_of c ≡ some scope
      → is_valid_identifier id ≡ true
      → approve s id user scope c.moment.now ≡ ok s'
      → CallChange c s s'

pub data Change (cfg : Config) (m : Moment) (req : Request) (s s' : Store) : Type 0 where
  untouched : s' ≡ s → Change cfg m req s s'
  by_caller : CallChange (call_of cfg m req (identity_of cfg m req)) s s' → Change cfg m req s s'
  by_webhook :
      (action : SyncAction) (text : Text)
      → IsSigned cfg req
      → apply_sync_actions (some s.active) (action ∷ []) ≡ some text
      → s' ≡ record s { active = text }
      → Change cfg m req s s'

settled :
    (c : Call) (s : Store) (good : ℕ) (result : Result Store PolicyError)
    → ((s' : Store) → result ≡ ok s' → CallChange c s s')
    → CallChange c s ((settle s good result).0)
settled c s good (ok s') f = f s' refl
settled c s good (err e) f = kept refl

propose-CallChange :
    (c : Call) (s : Store) (who : Option Text) (scope : Option AdminScope) (id text : Option Text)
    → c.who ≡ who
    → scope_of c ≡ scope
    → CallChange c s ((propose c s who scope id text).0)
propose-CallChange c s none scope id text w a = kept refl
propose-CallChange c s (some user) none id text w a = kept refl
propose-CallChange c s (some user) (some scope) none text w a = kept refl
propose-CallChange c s (some user) (some scope) (some id) none w a = kept refl
propose-CallChange c s (some user) (some scope) (some id) (some text) w a =
    if_both (λ (x : Store × ℕ). CallChange c s (x.0)) (is_valid_identifier id)
      (λ v.
        settled c s 201 (create s id user text scope c.moment.now)
          (λ s' made. created user scope id text w a v made))
      (λ v. kept refl)

agree-CallChange :
    (c : Call) (s : Store) (id : Text) (who : Option Text) (scope : Option AdminScope)
    → c.who ≡ who
    → scope_of c ≡ scope
    → CallChange c s ((agree c s id who scope).0)
agree-CallChange c s id none scope w a = kept refl
agree-CallChange c s id (some user) none w a = kept refl
agree-CallChange c s id (some user) (some scope) w a =
    if_both (λ (x : Store × ℕ). CallChange c s (x.0)) (is_valid_identifier id)
      (λ v.
        settled c s 200 (approve s id user scope c.moment.now)
          (λ s' made. agreed user scope id w a v made))
      (λ v. kept refl)

create_proposal-CallChange :
    (to_string : Value → Text) (from_slice : List ℕ → Option Value) (c : Call) (s : Store)
    → CallChange c s (create_proposal to_string from_slice c s).store
unfolding create_proposal
create_proposal-CallChange to_string from_slice c s =
    let input = input_of to_string from_slice c.req in
    propose-CallChange c s c.who (scope_of c) (as_str (index input (codes "id")))
      (as_str (index input (codes "rights"))) refl refl

approve_proposal-CallChange :
    (to_string : Value → Text) (from_slice : List ℕ → Option Value) (id : Text) (c : Call)
    (s : Store)
    → CallChange c s (approve_proposal to_string from_slice id c s).store
unfolding approve_proposal
approve_proposal-CallChange to_string from_slice id c s =
    agree-CallChange c s id c.who (scope_of c) refl refl

-- Behind the sign-in, a request leaves the store as it is, or it is a proposal or an approval by a known
-- caller who is an administrator, with that administrator's scope.
pub console-CallChange : (o : Outside) (c : Call) (s : Store) → CallChange c s (console o c s).store
console-CallChange o c s =
    console-ends (λ out. CallChange c s out.store) o c s (λ e h. kept refl) (λ a. kept refl)
      (create_proposal-CallChange o.to_string o.from_slice c s)
      (λ id. approve_proposal-CallChange o.to_string o.from_slice id c s)
      (unfold proxied in kept refl)

module _ (o : Outside) (cfg : Config) (m : Moment) (req : Request) (s : Store) where
  abbrev Leaves : Outcome → Type 0
  Leaves out = Change cfg m req s out.store

  applied-Change :
      (action : Result (Option SyncAction) WebhookError)
      → IsSigned cfg req
      → Leaves (applied s action)
  unfolding applied
  applied-Change (err e) signed = untouched refl
  applied-Change (ok none) signed = untouched refl
  applied-Change (ok (some action)) signed =
      written-Change (apply_sync_actions (some s.active) (action ∷ [])) refl
    where
      written-Change :
          (text : Option Text)
          → apply_sync_actions (some s.active) (action ∷ []) ≡ text
          → Leaves (written s text)
      written-Change none h = untouched refl
      written-Change (some text) h = by_webhook action text signed h refl

  -- Whatever is requested, the policy changes in three ways only: a proposal or an approval that succeeds,
  -- by the caller whom the credential identifies, with that caller's administrator scope, or the action of
  -- a webhook whose signature or token is right under the configured secret.
  pub handle-Change : Change cfg m req s (handle o cfg m req s).store
  handle-Change =
      handle-ends Leaves o cfg m req s (λ a. untouched refl) (unfold health in untouched refl)
        applied-Change
        (by_caller (console-CallChange o (call_of cfg m req (identity_of cfg m req)) s))
