-- ===== src/Crossrepo.antt =====
-- src/crossrepo.rs: the requests of one tree that reach a route of another. A surface is what the
-- program reads from the JSON of a tree's Core: each field with what `as_str` gives, and each list of
-- segments with its strings.
pub mod Membership
pub mod Linking
mod Tests
use glasir_control.Prelude.{
  ℕ, Bool, true, not, ◌&&◌, ◌||◌, Option, none, some, List, [], ◌∷◌, ◌++◌, map, leb, if◌then◌else◌,
  is_some_and, length, is_empty, filter, ◌==◌, nat_eq, Bool_eq, list_eq, pair_eq,
}
use glasir_control.Text.{Text, codes}
use glasir_control.Rights.Scope.{reached}
use glasir_control.Json.{Value}

pub record RouteJson : Type 0 where
  pub handler : Option Text
  pub verb : Option Text
  pub segments : List Text

pub record RequestJson : Type 0 where
  pub sender : Option Text
  pub verb : Option Text
  pub segments : List Text
  pub path : Value

pub record Surface : Type 0 where
  pub tree_name : Text
  pub routes : List RouteJson
  pub requests : List RequestJson

pub record Route : Type 0 where
  pub tree_name : Text
  pub handler : Text
  pub verb : Text
  pub segments : List Text

pub record Link : Type 0 where
  pub from_tree : Text
  pub sender : Text
  pub verb : Text
  pub path : Value
  pub to_tree : Text
  pub handler : Text

abbrev pub concat_map : {A B : Type 0} → (A → List B) → List A → List B
concat_map f [] = []
concat_map f (x ∷ xs) = f x ++ concat_map f xs

abbrev pub wildcard : Text
wildcard = codes "*"

-- The segments in pairs, as `zip` gives them.
unfoldable pub segments_reach : List Text → List Text → Bool
segments_reach (q ∷ qs) (r ∷ rs) =
    (r == wildcard || (not (q == wildcard) && q == r)) && segments_reach qs rs
segments_reach _ _ = true

unfoldable pub reaches : Text → List Text → Text → List Text → Bool
unfolding segments_reach
reaches verb asked route_verb segments =
    (verb == codes "ANY" || route_verb == codes "ANY" || verb == route_verb)
    && length asked == length segments
    && segments_reach asked segments

abbrev pub route_of : Text → List Text → Option Text → Option Text → List Route
route_of tree_name segments (some handler) (some verb) =
    record { tree_name = tree_name; handler = handler; verb = verb; segments = segments } ∷ []
route_of tree_name segments _ _ = []

-- The first `collect` of `links`.
unfoldable pub routes_of : List Surface → List Route
routes_of surfaces =
    concat_map (λ s. concat_map (λ r. route_of s.tree_name r.segments r.handler r.verb) s.routes)
      surfaces

-- How many segments of a route are literal.
unfoldable pub literal : Route → ℕ
literal r = length (filter (λ s. not (s == wildcard)) r.segments)

abbrev pub greater_of : ℕ → Option ℕ → ℕ
greater_of n none = n
greater_of n (some m) = if leb n m then m else n

-- Iterator::max
unfoldable pub max_of : List ℕ → Option ℕ
max_of [] = none
max_of (n ∷ ns) = some (greater_of n (max_of ns))

abbrev pub is_reached : Text → Text → List Text → Route → Bool
is_reached tree_name verb asked r =
    not (r.tree_name == tree_name) && reaches verb asked r.verb r.segments

abbrev pub link_to : Text → Text → Text → Value → Route → Link
link_to tree_name sender verb path r = record {
  from_tree = tree_name;
  sender = sender;
  verb = verb;
  path = path;
  to_tree = r.tree_name;
  handler = r.handler;
}

abbrev pub is_best : Option ℕ → Route → Bool
is_best best r = is_some_and best (λ b. literal r == b)

-- The routes that a request reaches, and of them the ones with the most literal segments.
unfoldable pub best_routes : List Route → Text → Text → List Text → List Route
unfolding reaches max_of literal
best_routes routes tree_name verb asked =
    let reached = filter (is_reached tree_name verb asked) routes in
    filter (is_best (max_of (map literal reached))) reached

abbrev pub request_links :
    List Route → Text → List Text → Value → Option Text → Option Text → List Link
request_links routes tree_name asked path (some sender) (some verb) =
    if is_empty asked
    then []
    else map (link_to tree_name sender verb path) (best_routes routes tree_name verb asked)
request_links routes tree_name asked path _ _ = []

unfoldable pub links : List Surface → List Link
unfolding routes_of best_routes
links surfaces =
    concat_map
      (λ s.
        concat_map
          (λ q. request_links (routes_of surfaces) s.tree_name q.segments q.path q.sender q.verb)
          s.requests)
      surfaces

-- A handler that changed, and who calls it.
pub record Caller : Type 0 where
  pub tree_name : Text
  pub sender : Text
  pub verb : Text
  pub path : Value

pub record Called : Type 0 where
  pub tree_name : Text
  pub handler : Text
  pub callers : List Caller

abbrev pub caller_of : Link → Caller
caller_of l = record { tree_name = l.from_tree; sender = l.sender; verb = l.verb; path = l.path }

abbrev pub callers_of : List Link → Text → Text → List Caller
callers_of all_links tree_name symbol =
    map caller_of (filter (λ l. l.to_tree == tree_name && l.handler == symbol) all_links)

abbrev pub called : Text → Text → List Caller → List Called
called tree_name symbol callers =
    if is_empty callers
    then []
    else record { tree_name = tree_name; handler = symbol; callers = callers } ∷ []

unfoldable pub callers_of_changes : List Link → List (Text × List Text) → List Called
callers_of_changes all_links changed =
    concat_map
      (λ c. concat_map (λ symbol. called (c.0) symbol (callers_of all_links (c.0) symbol)) (c.1))
      changed
