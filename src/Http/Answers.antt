-- ===== src/Http/Answers.antt =====
-- src/main.rs: what is logged of a request, and what a caller without rights is answered.
use glasir_control.Prelude.{
  ℕ, ◌≡◌, refl, sym, subst, ◌⊎◌, inl, inr, false, Option, none, some, List, [], ◌∷◌, if◌then◌else◌,
  Bool-cases, if_both, ◌==◌, eq_refl, eq_iff, nat_eq, Bool_eq, list_eq, pair_eq, Result, ok, err,
}
use glasir_control.Text.{Text, codes}
use glasir_control.Rights.{AdminScope}
use glasir_control.Security.{is_valid_identifier}
use glasir_control.Proxy.{Request, tree_of, to_tree, unauthenticated, route}
use glasir_control.Policy.{Store, PolicyError, create, approve}
use glasir_control.Json.{Value, index, as_str}
use glasir_control.Audit.{Record}
use glasir_control.Sync.Payload.{SyncAction, WebhookError}
use glasir_control.Sync.Mutate.{apply_sync_actions}
use glasir_control.Http.{
  Identity, Answer, answer, Config, Moment, Call, Outcome, audit_record, unauthorized, scope_of,
}
use glasir_control.Http.Admin.{settle, propose, agree, input_of, create_proposal, approve_proposal}
use glasir_control.Http.Webhooks.{written, applied}
use glasir_control.Http.Guards.{
  Outside, forward_of, anonymous, health, identity_of, call_of, mcp_tool_name, is_refused,
}
use glasir_control.Http.Handler.{reply_ending, route_ending, proxied, console, handle}
use glasir_control.Http.Codes.{IsCode, extract_status-IsCode}
use glasir_control.Http.Endings.{IsCoherent}
use glasir_control.Http.Dispatch.{console-ends}
use glasir_control.Http.Paths.{handle-ends}

-- Nothing is logged, or one record, which has the request's time, method and path, and a code that agrees
-- with the answer.
abbrev pub IsLogged : Moment → Request → Outcome → Type 0
IsLogged m req out =
    (out.audited ≡ [])
    ⊎ ((r : Record) × (out.audited ≡ r ∷ [])
        × IsCode out.reply r.status
        × (r.ts ≡ m.start_ts)
        × (r.method ≡ req.method)
        × (r.path ≡ req.path))

record-IsLogged :
    (c : Call) (tree_name : Option Text) (status bytes : ℕ) (reply : Answer) (s : Store)
    → IsCode reply status
    → IsLogged c.moment c.req
        (record { reply = reply; store = s; audited = audit_record c tree_name status bytes })
record-IsLogged c tree_name status bytes reply s h =
    if_both
      (λ (rs : List Record).
        IsLogged c.moment c.req (record { reply = reply; store = s; audited = rs }))
      c.cfg.audits (λ e. inr (_, refl, h, refl, refl, refl)) (λ e. inl refl)

-- The codes of a change that is refused.
abbrev IsRefusal : ℕ → Type 0
IsRefusal n = (n ≡ 401) ⊎ ((n ≡ 404) ⊎ (n ≡ 400))

-- What the two handlers that change the store answer with a code.
abbrev verdict : ℕ → ℕ → Answer → Text → Answer
verdict status good done rejected =
    if status == good
    then done
    else if status == 401
    then unauthorized
    else answer (if status == 404 then codes "404 Not Found" else codes "400 Bad Request") rejected

refusal-IsCode :
    (status good : ℕ) (done : Answer) (rejected : Text)
    → (status == good) ≡ false
    → IsRefusal status
    → IsCode (verdict status good done rejected) status
refusal-IsCode status good done rejected other (inl denied) = rw (other, denied) refl
refusal-IsCode status good done rejected other (inr (inl hidden)) = rw (other, hidden) refl
refusal-IsCode status good done rejected other (inr (inr bad)) = rw (other, bad) refl

verdict-IsCode :
    (status good : ℕ) (done : Answer) (rejected : Text)
    → IsCode done good
    → ((status == good) ≡ false → IsRefusal status)
    → IsCode (verdict status good done rejected) status
verdict-IsCode status good done rejected h refusal = elim (Bool-cases (status == good)) [
  | inl same ↦ rw same (subst (IsCode done) (sym ((eq_iff status good).0 same)) h)
  | inr other ↦ refusal-IsCode status good done rejected other (refusal other)
]

settle-IsRefusal :
    (s : Store) (good : ℕ) (result : Result Store PolicyError)
    → ((settle s good result).1 == good) ≡ false
    → IsRefusal ((settle s good result).1)
settle-IsRefusal s good (ok s') other = cc (other, eq_refl good)
settle-IsRefusal s good (err e) other = inr (inr refl)

propose-IsRefusal :
    (c : Call) (s : Store) (who : Option Text) (scope : Option AdminScope) (id text : Option Text)
    → ((propose c s who scope id text).1 == 201) ≡ false
    → IsRefusal ((propose c s who scope id text).1)
propose-IsRefusal c s none scope id text other = inl refl
propose-IsRefusal c s (some user) none id text other = inr (inl refl)
propose-IsRefusal c s (some user) (some scope) none text other = inr (inr refl)
propose-IsRefusal c s (some user) (some scope) (some id) none other = inr (inr refl)
propose-IsRefusal c s (some user) (some scope) (some id) (some text) other =
    if_both (λ (x : Store × ℕ). (x.1 == 201) ≡ false → IsRefusal (x.1)) (is_valid_identifier id)
      (λ e. settle-IsRefusal s 201 (create s id user text scope c.moment.now))
      (λ e h. inr (inr refl)) other

agree-IsRefusal :
    (c : Call) (s : Store) (id : Text) (who : Option Text) (scope : Option AdminScope)
    → ((agree c s id who scope).1 == 200) ≡ false
    → IsRefusal ((agree c s id who scope).1)
agree-IsRefusal c s id none scope other = inl refl
agree-IsRefusal c s id (some user) none other = inr (inl refl)
agree-IsRefusal c s id (some user) (some scope) other =
    if_both (λ (x : Store × ℕ). (x.1 == 200) ≡ false → IsRefusal (x.1)) (is_valid_identifier id)
      (λ e. settle-IsRefusal s 200 (approve s id user scope c.moment.now)) (λ e h. inr (inl refl))
      other

create_proposal-IsLogged :
    (to_string : Value → Text) (from_slice : List ℕ → Option Value) (c : Call) (s : Store)
    → IsLogged c.moment c.req (create_proposal to_string from_slice c s)
unfolding create_proposal
create_proposal-IsLogged to_string from_slice c s =
    let input = input_of to_string from_slice c.req in
    record-IsLogged c none _ _ _ (create_proposal to_string from_slice c s).store (
      verdict-IsCode _ 201 _ (codes "policy proposal rejected") refl (
        propose-IsRefusal c s c.who (scope_of c) (as_str (index input (codes "id")))
          (as_str (index input (codes "rights")))))

approve_proposal-IsLogged :
    (to_string : Value → Text) (from_slice : List ℕ → Option Value) (id : Text) (c : Call)
    (s : Store)
    → IsLogged c.moment c.req (approve_proposal to_string from_slice id c s)
unfolding approve_proposal
approve_proposal-IsLogged to_string from_slice id c s =
    record-IsLogged c none _ _ _ (approve_proposal to_string from_slice id c s).store (
      verdict-IsCode _ 200 _ (codes "policy approval rejected") refl
        (agree-IsRefusal c s id c.who (scope_of c)))

module _ (o : Outside) where
  route_ending-IsCoherent :
      (c : Call) (r : glasir_control.Proxy.Route) → IsCoherent (route_ending o c r)
  route_ending-IsCoherent c unauthenticated = refl
  route_ending-IsCoherent c glasir_control.Proxy.not_found = refl
  route_ending-IsCoherent c (to_tree t) =
      if_both IsCoherent
        (is_refused c.moment.rights c.groups c.who (tree_of c.req.path)
          (mcp_tool_name o.from_slice c.req))
        (λ e. refl) (λ e. reply_ending-IsCoherent (forward_of o t c.req))
    where
      reply_ending-IsCoherent : (reply : Option (List ℕ)) → IsCoherent (reply_ending o reply)
      reply_ending-IsCoherent none = refl
      reply_ending-IsCoherent (some reply) = extract_status-IsCode reply

  proxied-IsLogged : (c : Call) (s : Store) → IsLogged c.moment c.req (proxied o c s)
  unfolding proxied
  proxied-IsLogged c s =
      record-IsLogged c (tree_of c.req.path) _ _ _ s
        (route_ending-IsCoherent c (route c.moment.rights c.who c.req.path))

  console-IsLogged : (c : Call) (s : Store) → IsLogged c.moment c.req (console o c s)
  console-IsLogged c s =
      console-ends (IsLogged c.moment c.req) o c s (λ e h. record-IsLogged c none e.0 e.1 e.2 s h)
        (λ a. inl refl) (create_proposal-IsLogged o.to_string o.from_slice c s)
        (λ id. approve_proposal-IsLogged o.to_string o.from_slice id c s) (proxied-IsLogged c s)

  module _ (cfg : Config) (m : Moment) (req : Request) (s : Store) where
    call-IsLogged : (i : Option Identity) → IsLogged m req (console o (call_of cfg m req i) s)
    call-IsLogged none = console-IsLogged (call_of cfg m req none) s
    call-IsLogged (some i) = console-IsLogged (call_of cfg m req (some i)) s

    applied-IsLogged :
        (action : Result (Option SyncAction) WebhookError) → IsLogged m req (applied s action)
    unfolding applied
    applied-IsLogged (err e) = inl refl
    applied-IsLogged (ok none) = inl refl
    applied-IsLogged (ok (some action)) =
        written-IsLogged (apply_sync_actions (some s.active) (action ∷ []))
      where
        written-IsLogged : (text : Option Text) → IsLogged m req (written s text)
        written-IsLogged none = inl refl
        written-IsLogged (some text) = inl refl

    health-IsLogged : IsLogged m req (health cfg m req s)
    unfolding health
    health-IsLogged =
        record-IsLogged (anonymous cfg m req) none 200 _ (health cfg m req s).reply s refl

    -- A request leaves at most one record in the audit log, and that record has the request's time, method
    -- and path, and the status code at the beginning of the status line that the answer sends; for a backend's
    -- reply whose first 64 bytes are ASCII and which begins with `HTTP/1.1 `, three digits and a space, the code
    -- is these digits.
    pub handle-IsLogged : IsLogged m req (handle o cfg m req s)
    handle-IsLogged =
        handle-ends (IsLogged m req) o cfg m req s (λ a. inl refl) health-IsLogged
          (λ action signed. applied-IsLogged action) (call-IsLogged (identity_of cfg m req))
