-- ===== src/Http/Reach.antt =====
-- src/main.rs: which backend a request reaches: the one that it names, and those of a reviewed workspace.
use glasir_control.Prelude.{
  list_beq, ℕ, ◌≡◌, refl, inl, inr, Bool, true, false, not, ◌||◌, Option, none, some, List, ◌++◌,
  if◌then◌else◌, not-false, Bool-cases, ◌==◌, nat_eq, Bool_eq, list_eq, pair_eq,
}
use glasir_control.Text.{Text, codes, starts_with}
use glasir_control.Rights.{Tree, may_tool_with_groups}
use glasir_control.Proxy.{Request, tree_of, to_tree, unauthenticated, route}
use glasir_control.Proxy.Routing.{IsRouted, route_iff}
use glasir_control.Policy.{Store}
use glasir_control.Json.{Value, string_value, get_value}
use glasir_control.Http.{relayed, Call}
use glasir_control.Http.Guards.{Outside, forward_of, tool_in, mcp_tool_name, is_refused}
use glasir_control.Http.Handler.{reply_ending, route_ending, proxied}

-- A POST to a path that begins with /mcp/ as it is written, the body of which is one JSON-RPC call of the tool.
pub record IsToolCall (from_slice : List ℕ → Option Value) (req : Request) (tool : Text)
    : Type 0 where
  pub rest : Text
  pub value : Value
  pub params : Value
  pub posted : req.method ≡ codes "POST"
  pub at_mcp : req.path ≡ codes "/mcp/" ++ rest
  pub parsed : from_slice req.body ≡ some value
  pub called : get_value value (codes "method") ≡ some (string_value (codes "tools/call"))
  pub with_params : get_value value (codes "params") ≡ some params
  pub named : get_value params (codes "name") ≡ some (string_value tool)

tool_of_call :
    (from_slice : List ℕ → Option Value) (method path rest : Text) (body : List ℕ) (tool : Text)
    (value params : Value)
    → method ≡ codes "POST"
    → path ≡ codes "/mcp/" ++ rest
    → from_slice body ≡ some value
    → get_value value (codes "method") ≡ some (string_value (codes "tools/call"))
    → get_value value (codes "params") ≡ some params
    → get_value params (codes "name") ≡ some (string_value tool)
    → (if not (method == codes "POST") || not (starts_with path (codes "/mcp/"))
        then none
        else tool_in (from_slice body))
      ≡ some tool
unfolding starts_with list_beq
tool_of_call from_slice method path rest body tool value params post at body_of call with_params
      name =
    rw (post, at, body_of, call, with_params, name) refl

-- Such a call is seen by the program's own test.
mcp_tool_name-IsToolCall :
    (from_slice : List ℕ → Option Value) (req : Request) (tool : Text)
    → IsToolCall from_slice req tool
    → mcp_tool_name from_slice req ≡ some tool
unfolding mcp_tool_name
mcp_tool_name-IsToolCall from_slice req tool h =
    tool_of_call from_slice req.method req.path h.rest req.body tool h.value h.params h.posted
      h.at_mcp h.parsed h.called h.with_params h.named

-- What it takes for a reply to be the one of a backend.
pub record IsForwarded (o : Outside) (c : Call) (t : Tree) (reply : List ℕ) : Type 0 where
  pub routed : IsRouted c.moment.rights c.who c.req.path t
  pub permitted :
      (user tool : Text)
      → c.who ≡ some user
      → IsToolCall o.from_slice c.req tool
      → may_tool_with_groups c.moment.rights user c.groups t.name tool ≡ true
  pub answered : forward_of o t c.req ≡ some reply

module _ (o : Outside) (c : Call) where
  abbrev refused : Bool
  refused =
      is_refused c.moment.rights c.groups c.who (tree_of c.req.path)
        (mcp_tool_name o.from_slice c.req)

  relayed_of_reply :
      (got : Option (List ℕ)) (reply : List ℕ)
      → (reply_ending o got).2 ≡ relayed reply
      → got ≡ some reply
  relayed_of_reply none reply h = cc h
  relayed_of_reply (some bytes) reply h = cc h

  relayed_of_route :
      (r : glasir_control.Proxy.Route) (reply : List ℕ)
      → (route_ending o c r).2 ≡ relayed reply
      → (t : Tree) × (r ≡ to_tree t) × (refused ≡ false) × (forward_of o t c.req ≡ some reply)
  relayed_of_route unauthenticated reply h = cc h
  relayed_of_route glasir_control.Proxy.not_found reply h = cc h
  relayed_of_route (to_tree t) reply h = elim (Bool-cases refused) [
    | inl denied ↦ cc (denied, h)
    | inr free ↦ (t, refl, free, relayed_of_reply (forward_of o t c.req) reply (rw free at h))
  ]

  permitted_of_refused :
      (user name tool : Text) (who asked called : Option Text)
      → who ≡ some user
      → asked ≡ some name
      → called ≡ some tool
      → is_refused c.moment.rights c.groups who asked called ≡ false
      → may_tool_with_groups c.moment.rights user c.groups name tool ≡ true
  permitted_of_refused user name tool who asked called w a t h =
      not-false (may_tool_with_groups c.moment.rights user c.groups name tool) (rw (w, a, t) at h)

  -- The reply of a backend goes to the client only when the client is known, the path names the backend's
  -- tree, and the rights grant that tree to the client; where the request is a POST to a path that begins with
  -- `/mcp/` as it is written and its body is one `tools/call`, the rights also grant the tool that it names;
  -- and the reply is what that backend answered to this request, cut at 32 MiB.
  pub proxied_sound :
      (s : Store) (reply : List ℕ)
      → (proxied o c s).reply ≡ relayed reply
      → (t : Tree) × IsForwarded o c t reply
  unfolding proxied
  proxied_sound s reply h =
      let (t, routed, free, answered) =
        relayed_of_route (route c.moment.rights c.who c.req.path) reply h in
      let is_routed = (route_iff c.moment.rights c.who c.req.path t).0 routed in
      (
        t,
        record {
          routed = is_routed;
          permitted = λ user tool w called.
              permitted_of_refused user t.name tool c.who (tree_of c.req.path)
                (mcp_tool_name o.from_slice c.req) w is_routed.asked
                (mcp_tool_name-IsToolCall o.from_slice c.req tool called) free;
          answered = answered;
        },
      )
