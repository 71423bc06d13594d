-- ===== src/Proxy.antt =====
-- src/proxy.rs: the tree that a path names, the decision about a request, and the head of the
-- request that goes to a backend.
pub mod Routing
pub mod Head
pub mod Reply
mod Tests
use glasir_control.Prelude.{
  ℕ, zero, suc, ◌+◌, ◌/◌, ◌%◌, not, ◌||◌, Option, none, some, List, [], ◌∷◌, ◌++◌, map,
  if◌then◌else◌, length, contains, ◌==◌, nat_eq, Bool_eq, list_eq, pair_eq,
}
use glasir_control.Text.{Text, codes, strip_prefix, split_by, to_ascii_lowercase}
use glasir_control.Rights.{Tree, Rights, tree, may}
use glasir_control.Security.{url_decode, is_valid_identifier, Header}

pub record Request : Type 0 where
  pub method : Text
  pub path : Text
  pub headers : List Header
  pub body : List ℕ

abbrev pub find_header : Text → List Header → Option Text
find_header name [] = none
find_header name ((k, v) ∷ more) =
    if map to_ascii_lowercase k == map to_ascii_lowercase name
    then some v
    else find_header name more

-- Request::header
unfoldable pub header : Request → Text → Option Text
header req name = find_header name req.headers

infixl 5 ◌>>=◌
abbrev ◌>>=◌ {ℓ κ} : {A : Type ℓ} {B : Type κ} → Option A → (A → Option B) → Option B
none >>= f = none
some a >>= f = f a

-- `split(..).next().unwrap_or(rest)`
abbrev pub first_or : Text → List Text → Text
first_or rest [] = rest
first_or rest (piece ∷ pieces) = piece

-- The piece up to the first separator, if it is an identifier.
abbrev pub named_tree : Text → Option Text
named_tree rest =
    let name = first_or rest (split_by (λ c. c == b'/' || c == b'?') rest) in
    if not (is_valid_identifier name) then none else some name

unfoldable pub tree_of : Text → Option Text
unfolding url_decode strip_prefix split_by is_valid_identifier
tree_of path = do
  decoded ← url_decode path
  rest ← strip_prefix decoded (codes "/mcp/")
  named_tree rest

pub data Route : Type 0 where
  to_tree : Tree → Route
  unauthenticated : Route
  not_found : Route

abbrev pub configured : Option Tree → Route
configured none = not_found
configured (some t) = to_tree t

abbrev pub granted : Rights → Text → Option Text → Route
granted r user none = not_found
granted r user (some name) = if not (may r user name) then not_found else configured (tree r name)

unfoldable pub route : Rights → Option Text → Text → Route
unfolding may tree
route r none path = unauthenticated
route r (some user) path = granted r user (tree_of path)

-- The headers that `backend_head` does not copy.
abbrev pub dropped_headers : List Text
dropped_headers =
    codes "authorization"
    ∷ codes "proxy-authorization"
    ∷ codes "cookie"
    ∷ codes "host"
    ∷ codes "content-length"
    ∷ codes "connection"
    ∷ codes "transfer-encoding"
    ∷ codes "upgrade"
    ∷ codes "x-forwarded-for"
    ∷ codes "x-forwarded-proto"
    ∷ codes "x-forwarded-host"
    ∷ codes "origin"
    ∷ []

-- A number as `format!` prints it.
unfoldable pub digits_from : ℕ → ℕ → Text → Text
digits_from zero n out = out
digits_from (suc fuel) n out =
    let out' = (b'0' + n % 10) ∷ out in
    let more = digits_from fuel (n / 10) out' in if n / 10 == 0 then out' else more

unfoldable pub show : ℕ → Text
unfolding digits_from
show n = digits_from (suc n) n []

unfoldable pub header_line : Header → Text
header_line (k, v) = k ++ codes ": " ++ v ++ codes "\r\n"

-- The loop over the caller's headers.
unfoldable pub copied_headers : List Header → Text
copied_headers [] = []
copied_headers ((k, v) ∷ more) =
    let rest = copied_headers more in
    if contains dropped_headers (map to_ascii_lowercase k) then rest else header_line (k, v) ++ rest

unfoldable pub backend_head : Tree → Request → Text
unfolding copied_headers show header_line
backend_head t req =
    req.method
    ++ codes " /mcp HTTP/1.1\r\n"
    ++ copied_headers req.headers
    ++ header_line (codes "Host", t.addr)
    ++ header_line (codes "Authorization", codes "Bearer " ++ t.token)
    ++ header_line (codes "Content-Length", show (length req.body))
    ++ codes "Connection: close\r\n\r\n"
