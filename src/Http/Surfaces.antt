-- ===== src/Http/Surfaces.antt =====
-- src/main.rs: what the review of a workspace reads of the report on its packages and of the trees' replies.
use glasir_control.Prelude.{
  ℕ, Bool, ◌&&◌, Option, none, some, List, [], ◌∷◌, map, if◌then◌else◌, is_some_and, any, filter,
  contains, ◌==◌, nat_eq, Bool_eq, list_eq, pair_eq,
}
use glasir_control.Text.{Text, codes, starts_with}
use glasir_control.Rights.Validate.{report}
use glasir_control.Json.{Value, string_value, index, as_str, items_of, object_of, array_of}
use glasir_control.Crossrepo.{RouteJson, RequestJson, Surface, Caller, Called}

abbrev pub allowed : List Text → Value → Bool
allowed packages v = is_some_and (as_str v) (contains packages)

abbrev pub starts_with_one : List Text → Value → Bool
starts_with_one packages v = is_some_and (as_str v) (λ text. any (starts_with text) packages)

unfoldable pub workspace_evidence : Value → List Text → Value
unfolding index
workspace_evidence report packages = object_of (
    (codes "schema", string_value (codes "glasir.cross-repo-report.v1"))
    ∷ (
      codes "edges",
      array_of (
          filter
            (λ e.
              allowed packages (index e (codes "source"))
              && allowed packages (index e (codes "target")))
            (items_of (index report (codes "edges")))),
    )
    ∷ (
      codes "unresolved",
      array_of (filter (starts_with_one packages) (items_of (index report (codes "unresolved")))),
    )
    ∷ [])

abbrev pub evidence_or_empty : Option Value → List Text → Value
evidence_or_empty none packages =
    object_of ((codes "edges", array_of []) ∷ (codes "unresolved", array_of []) ∷ [])
evidence_or_empty (some report) packages = workspace_evidence report packages

-- The elements that are strings.
abbrev pub strings_in : List Value → List Text
strings_in [] = []
strings_in (string_value t ∷ vs) = t ∷ strings_in vs
strings_in (v ∷ vs) = strings_in vs

-- The bytes from the first one that is `b`.
abbrev pub from_byte : ℕ → List ℕ → Option (List ℕ)
from_byte b [] = none
from_byte b (x ∷ xs) = if x == b then some (x ∷ xs) else from_byte b xs

abbrev pub tail_or : List ℕ → Option (List ℕ) → List ℕ
tail_or whole (some (x ∷ rest)) = rest
tail_or whole _ = whole

-- The reply behind its first line, from its first brace.
unfoldable pub json_of_reply : List ℕ → List ℕ
json_of_reply reply =
    let body = tail_or reply (from_byte 10 reply) in
    elim (from_byte 123 body) [ none ↦ body | some text ↦ text ]

abbrev pub route_json : Value → RouteJson
route_json v = record {
  handler = as_str (index v (codes "handler"));
  verb = as_str (index v (codes "verb"));
  segments = strings_in (items_of (index v (codes "segments")));
}

abbrev pub request_json : Value → RequestJson
request_json v = record {
  sender = as_str (index v (codes "sender"));
  verb = as_str (index v (codes "verb"));
  segments = strings_in (items_of (index v (codes "segments")));
  path = index v (codes "path");
}

abbrev pub surface_of : Text → Value → Surface
surface_of tree_name v = record {
  tree_name = tree_name;
  routes = map route_json (items_of (index v (codes "routes")));
  requests = map request_json (items_of (index v (codes "requests")));
}

abbrev pub caller_value : Caller → Value
caller_value l = object_of (
    (codes "tree", string_value l.tree_name)
    ∷ (codes "sender", string_value l.sender)
    ∷ (codes "verb", string_value l.verb)
    ∷ (codes "path", l.path)
    ∷ [])

abbrev pub called_value : Called → Value
called_value l = object_of (
    (codes "tree", string_value l.tree_name)
    ∷ (codes "handler", string_value l.handler)
    ∷ (codes "callers", array_of (map caller_value l.callers))
    ∷ [])
