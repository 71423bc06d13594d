-- ===== src/Http/Review.antt =====
-- src/main.rs: the review of a change in all trees of a workspace, POST /api/review/impact.
-- `forward` is what a backend answers, if it does, and `from_slice` and `to_string` are serde_json.
use glasir_control.Prelude.{
  ℕ, not, Option, none, some, List, [], ◌∷◌, map, ltb, if◌then◌else◌, length, ◌==◌, nat_eq, Bool_eq,
  list_eq, pair_eq, and_then,
}
use glasir_control.Text.{Text, codes, text_of}
use glasir_control.Text.Utf8.{as_bytes}
use glasir_control.HashMap.{get_list}
use glasir_control.Rights.{Tree, Rights, tree, visible_workspaces}
use glasir_control.Security.{is_valid_revision, is_valid_identifier}
use glasir_control.Proxy.{Request}
use glasir_control.Policy.{Store}
use glasir_control.Crossrepo.{Surface, concat_map, links, callers_of_changes}
use glasir_control.Proxy.Reply.{extract_status}
use glasir_control.Json.{
  Value, number_value, string_value, index, as_str, as_u64, items_of, object_of, array_of,
}
use glasir_control.Http.{
  panicked, Call, Outcome, not_found_answer, bad_request, ending, unaudited, no_credential, found,
}
use glasir_control.Http.Surfaces.{
  evidence_or_empty, strings_in, json_of_reply, surface_of, called_value,
}

abbrev pub push_tree : Option Tree → Option (List Tree) → Option (List Tree)
push_tree (some t) (some ts) = some (t ∷ ts)
push_tree _ _ = none

-- The trees of a workspace, if all are configured: `expect("validated workspace tree")`.
unfoldable pub known_trees : Rights → List Text → Option (List Tree)
unfolding tree
known_trees r [] = some []
known_trees r (name ∷ names) = push_tree (tree r name) (known_trees r names)

abbrev pub find_workspace : Text → List (Text × List Text) → Option (Text × List Text)
find_workspace wanted [] = none
find_workspace wanted (w ∷ ws) = if w.0 == wanted then some w else find_workspace wanted ws

-- `filter(|name| is_valid_identifier(name))`
abbrev pub identifier_in : Option Text → Option Text
identifier_in none = none
identifier_in (some name) = if is_valid_identifier name then some name else none

-- `as_u64().unwrap_or(3).clamp(1, 10)`
abbrev pub depth_of : Option ℕ → ℕ
depth_of none = 3
depth_of (some n) = if ltb n 1 then 1 else if ltb 10 n then 10 else n

abbrev pub reply_value : Option Value → Value
reply_value none = object_of ((codes "error", string_value (codes "invalid core response")) ∷ [])
reply_value (some v) = v

abbrev pub content_of : Value → Value
content_of v = index (index v (codes "result")) (codes "structuredContent")

abbrev pub result_value : Text → Option (ℕ × Value) → Value
result_value name none = object_of (
    (codes "tree", string_value name)
    ∷ (codes "status", number_value 502)
    ∷ (codes "error", string_value (codes "tree is not answering"))
    ∷ [])
result_value name (some (status, v)) = object_of (
    (codes "tree", string_value name)
    ∷ (codes "status", number_value status)
    ∷ (codes "result", v)
    ∷ [])

abbrev pub changed_in : Text → Option (ℕ × Value) → List (Text × List Text)
changed_in name none = []
changed_in name (some (status, v)) =
    (name, strings_in (items_of (index (content_of v) (codes "changed_symbols")))) ∷ []

abbrev pub surface_in : Text → Option (ℕ × Value) → List Surface
surface_in name none = []
surface_in name (some (status, v)) = surface_of name (content_of v) ∷ []

abbrev pub review_value :
    Call → Text → Text → ℕ → List (Text × Option (ℕ × Value)) → List Surface → Value
review_value c name rev depth results surfaces =
    let all_links = links surfaces in
    object_of (
      (codes "workspace", string_value name)
      ∷ (codes "rev", string_value rev)
      ∷ (codes "depth", number_value depth)
      ∷ (codes "repositories", array_of (map (λ x. result_value (x.0) (x.1)) results))
      ∷ (
        codes "cross_repo_evidence",
        evidence_or_empty c.cfg.cross_repo_evidence
            (get_list c.moment.rights.workspace_packages name),
      )
      ∷ (codes "cross_repo_routes", number_value (length all_links))
      ∷ (
        codes "cross_repo_callers",
        array_of (
            map called_value
              (callers_of_changes all_links (concat_map (λ x. changed_in (x.0) (x.1)) results))),
      )
      ∷ [])

abbrev pub asked_workspace : Call → Text → Value → Option (Text × List Text)
asked_workspace c user input =
    and_then (identifier_in (as_str (index input (codes "workspace"))))
      λ wanted. find_workspace wanted (visible_workspaces c.moment.rights user c.groups)

-- A call of a tool, as the control plane sends it.
abbrev pub tool_call : (Value → Text) → Text → Value → Request
tool_call to_string tool arguments = record {
  method = codes "POST";
  path = codes "/mcp/internal";
  headers = [];
  body = as_bytes (
      to_string (
        object_of (
          (codes "jsonrpc", string_value (codes "2.0"))
          ∷ (codes "id", number_value 1)
          ∷ (codes "method", string_value (codes "tools/call"))
          ∷ (
            codes "params",
            object_of ((codes "name", string_value tool) ∷ (codes "arguments", arguments) ∷ []),
          )
          ∷ [])));
}

module _ (to_string : Value → Text) (from_slice : List ℕ → Option Value)
    (forward : Tree → Request → Option (List ℕ)) where
  abbrev pub reply_parts : Option (List ℕ) → Option (ℕ × Value)
  reply_parts none = none
  reply_parts (some reply) =
      some (extract_status reply, reply_value (from_slice (json_of_reply reply)))

  -- The status and the reply of a tree to one call of a tool.
  abbrev pub call_tree : Tree → Text → Value → Option (ℕ × Value)
  call_tree t tool arguments = reply_parts (forward t (tool_call to_string tool arguments))

  -- What the trees report as changed, and, where there is more than one, what they serve and request.
  abbrev pub results_of : List Tree → Value → List (Text × Option (ℕ × Value))
  results_of ts arguments = map (λ t. (t.name, call_tree t (codes "detect_changes") arguments)) ts

  abbrev pub surfaces_of : List Tree → List Surface
  surfaces_of ts =
      if ltb 1 (length ts)
      then concat_map (λ t. surface_in t.name (call_tree t (codes "http_surface") (object_of [])))
          ts
      else []

  -- What the review of a workspace answers.
  unfoldable pub review : Call → Text × List Tree → Text → ℕ → Value
  review c (name, ts) rev depth =
      let arguments =
        object_of ((codes "rev", string_value rev) ∷ (codes "depth", number_value depth) ∷ []) in
      review_value c name rev depth (results_of ts arguments) (surfaces_of ts)

  abbrev pub review_trees : Call → Store → Text → Text → ℕ → Option (List Tree) → Outcome
  review_trees c s name rev depth none = unaudited s panicked
  review_trees c s name rev depth (some ts) =
      ending c s (found (to_string (review c (name, ts) rev depth)))

  abbrev pub review_workspace : Call → Store → Text → ℕ → Option (Text × List Text) → Outcome
  review_workspace c s rev depth none = unaudited s not_found_answer
  review_workspace c s rev depth (some (name, names)) =
      review_trees c s name rev depth (known_trees c.moment.rights names)

  abbrev pub review_input : Call → Store → Text → Option Value → Outcome
  review_input c s user none = unaudited s (bad_request (codes "invalid review request"))
  review_input c s user (some input) =
      let rev = text_of (as_str (index input (codes "rev"))) in
      if not (is_valid_revision rev)
      then unaudited s (bad_request (codes "invalid revision"))
      else review_workspace c s rev (depth_of (as_u64 (index input (codes "depth"))))
          (asked_workspace c user input)

  abbrev pub impact_for : Call → Store → Option Text → Outcome
  impact_for c s none = ending c s no_credential
  impact_for c s (some user) = review_input c s user (from_slice c.req.body)

  -- POST /api/review/impact
  unfoldable pub impact : Call → Store → Outcome
  impact c s = impact_for c s c.who
