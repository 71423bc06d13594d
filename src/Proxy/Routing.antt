-- ===== src/Proxy/Routing.antt =====
-- src/proxy.rs, `tree_of` and `route`.
use mathlib.Core.Option.{some-injective}
use glasir_control.Prelude.{
  ℕ, ◌≡◌, refl, sym, ap, ◌∙◌, ◌↔◌, inl, inr, Bool, true, false, not, ◌||◌, Option, none, some, List,
  [], ◌∷◌, ◌++◌, arith, Bool-cases, and-true, and_intro, Option-cases, any, all, ◌==◌, eq_refl,
  eq_iff, nat_eq, Bool_eq, list_eq, pair_eq,
}
use glasir_control.Text.{Text, codes, strip_prefix, split_by}
use glasir_control.Text.Pieces.{split_by-whole}
use glasir_control.Text.Utf8.{is_scalar, from_utf8, from_utf8-as_bytes}
use glasir_control.Rights.{Tree, Rights, find_tree, tree, may}
use glasir_control.Security.{
  push_byte, decode_bytes, utf8_of, url_decode, is_identifier_char, is_valid_identifier,
}
use glasir_control.Security.Names.{is_valid_identifier_iff}
use glasir_control.Security.Decoding.{decode_plain, is_ascii, as_bytes_ascii}
use glasir_control.Proxy.{first_or, named_tree, tree_of, to_tree, granted, route}

named_tree-valid :
    (rest name : Text) → named_tree rest ≡ some name → is_valid_identifier name ≡ true
named_tree-valid rest name h =
    let found = first_or rest (split_by (λ c. c == b'/' || c == b'?') rest) in
    elim (Bool-cases (is_valid_identifier found)) [
      | inl valid ↦
          let same : found ≡ name = some-injective found name (rw valid at h) in rw same at valid
      | inr odd ↦ cc (odd, h)
    ]

-- Whatever a path decodes to, the tree that it names is a valid identifier.
pub tree_of-valid : (path name : Text) → tree_of path ≡ some name → is_valid_identifier name ≡ true
unfolding tree_of
tree_of-valid path name h = elim (Option-cases (url_decode path)) [
  | inl broken ↦ cc (broken, h)
  | inr (decoded, e) ↦ elim (Option-cases (strip_prefix decoded (codes "/mcp/"))) [
    | inl other ↦ cc (e, other, h)
    | inr (rest, e') ↦ named_tree-valid rest name (rw (e, e') at h)
  ]
]

pub strip_prefix-append : (p s : Text) → strip_prefix (p ++ s) p ≡ some s
unfolding strip_prefix
strip_prefix-append [] [] = refl
strip_prefix-append [] (c ∷ s) = refl
strip_prefix-append (c ∷ p) s = rw (eq_refl c) (strip_prefix-append p s)

identifier_char_plain :
    (c : ℕ)
    → is_identifier_char c ≡ true
    → ((c == b'/' || c == b'?') ≡ false)
      × (c == b'%' ≡ false)
      × (is_ascii c ≡ true)
      × (is_scalar c ≡ true)
unfolding is_identifier_char is_scalar
identifier_char_plain c h = (ground arith, ground arith, ground arith, ground arith)

all_mono :
    (p q : ℕ → Bool) (s : Text)
    → ((c : ℕ) → p c ≡ true → q c ≡ true)
    → all p s ≡ true
    → all q s ≡ true
all_mono p q [] f h = refl
all_mono p q (c ∷ s) f h =
    let (here, later) = and-true (p c) (all p s) h in
    and_intro _ _ (f c here) (all_mono p q s f later)

no_separator :
    (s : Text) → all is_identifier_char s ≡ true → any (λ c. c == b'/' || c == b'?') s ≡ false
no_separator [] h = refl
no_separator (c ∷ s) h =
    let (here, later) = and-true (is_identifier_char c) (all is_identifier_char s) h in
    rw ((identifier_char_plain c here).0) (no_separator s later)

decode_bytes-plain : (s : Text) → all (λ c. not (c == b'%')) s ≡ true → decode_bytes s ≡ some s
decode_bytes-plain [] h = unfold decode_bytes in refl
decode_bytes-plain (c ∷ s) h =
    let (here, later) = and-true (not (c == b'%')) (all (λ d. not (d == b'%')) s) h in
    decode_plain c s (ground (arith, here)) ∙ ap (push_byte c) (decode_bytes-plain s later)

-- An ASCII text without a percent sign decodes to itself.
url_decode-plain :
    (s : Text)
    → all is_ascii s ≡ true
    → all is_scalar s ≡ true
    → all (λ c. not (c == b'%')) s ≡ true
    → url_decode s ≡ some s
unfolding url_decode
url_decode-plain s ascii scalar plain =
    let same = as_bytes_ascii s ascii in
    ap (λ (t : List ℕ). utf8_of (decode_bytes t)) same
    ∙ ap utf8_of (decode_bytes-plain s plain)
    ∙ ap from_utf8 (sym same)
    ∙ from_utf8-as_bytes s scalar

abbrev prefix : Text
prefix = codes "/mcp/"

url_decode-mcp :
    (name : Text)
    → all is_identifier_char name ≡ true
    → url_decode (prefix ++ name) ≡ some (prefix ++ name)
unfolding is_scalar
url_decode-mcp name h =
    url_decode-plain (prefix ++ name)
      (all_mono is_identifier_char is_ascii name (λ c p. (identifier_char_plain c p).2) h)
      (unfold is_scalar in
        all_mono is_identifier_char is_scalar name (λ c p. (identifier_char_plain c p).3) h)
      (all_mono is_identifier_char (λ c. not (c == b'%')) name
        (λ c p. ground (arith, (identifier_char_plain c p).1)) h)

-- The path `/mcp/<name>` names the tree, for every valid identifier.
pub tree_of-mcp :
    (name : Text) → is_valid_identifier name ≡ true → tree_of (codes "/mcp/" ++ name) ≡ some name
unfolding tree_of
tree_of-mcp name h =
    let plain = ((is_valid_identifier_iff name).0 h).plain in
    rw (url_decode-mcp name plain) (
      rw (strip_prefix-append prefix name)
        (rw (split_by-whole _ name (no_separator name plain), h)))

pub find_tree-name :
    (ts : List Tree) (name : Text) (t : Tree) → find_tree ts name ≡ some t → t.name ≡ name
find_tree-name [] name t h = cc h
find_tree-name (u ∷ ts) name t h = elim (Bool-cases (u.name == name)) [
  | inl here ↦
      ap (λ (v : Tree). v.name) (sym (some-injective u t (rw here at h)))
      ∙ (eq_iff u.name name).0 here
  | inr there ↦ find_tree-name ts name t (rw there at h)
]

-- What it takes to be forwarded to a tree.
pub record IsRouted (r : Rights) (user : Option Text) (path : Text) (t : Tree) : Type 0 where
  pub caller : Text
  pub signed_in : user ≡ some caller
  pub asked : tree_of path ≡ some t.name
  pub allowed : may r caller t.name ≡ true
  pub known : tree r t.name ≡ some t

granted_sound :
    (r : Rights) (caller name path : Text) (user : Option Text) (t : Tree)
    → user ≡ some caller
    → tree_of path ≡ some name
    → granted r caller (some name) ≡ to_tree t
    → IsRouted r user path t
granted_sound r caller name path user t e asked h = elim (Bool-cases (may r caller name)) [
  | inl allowed ↦ elim (Option-cases (tree r name)) [
    | inl missing ↦ cc (allowed, missing, h)
    | inr (u, found) ↦
        let same : u ≡ t = cc (allowed, found, h) in
        let named : t.name ≡ name =
          unfold tree in find_tree-name r.trees name t (found ∙ ap some same) in
        record {
          caller = caller;
          signed_in = e;
          asked = rw named asked;
          allowed = rw named allowed;
          known = ap (tree r) named ∙ found ∙ ap some same;
        }
  ]
  | inr denied ↦ cc (denied, h)
]

route_sound :
    (r : Rights) (user : Option Text) (path : Text) (t : Tree)
    → route r user path ≡ to_tree t
    → IsRouted r user path t
unfolding route
route_sound r none path t h = cc h
route_sound r (some caller) path t h = elim (Option-cases (tree_of path)) [
  | inl odd ↦ cc (odd, h)
  | inr (name, asked) ↦ granted_sound r caller name path (some caller) t refl asked (rw asked at h)
]

route_complete :
    (r : Rights) (user : Option Text) (path : Text) (t : Tree)
    → IsRouted r user path t
    → route r user path ≡ to_tree t
unfolding route
route_complete r user path t w = rw (w.signed_in, w.asked, w.allowed, w.known)

-- A request is forwarded to a tree exactly when the caller is known, the path names the tree, the
-- rights grant it to the caller, and it is configured under that name.
pub route_iff :
    (r : Rights) (user : Option Text) (path : Text) (t : Tree)
    → (route r user path ≡ to_tree t) ↔ IsRouted r user path t
route_iff r user path t = (route_sound r user path t, route_complete r user path t)

-- To a known caller, a tree that they may not reach answers as it would under any rights in which
-- no tree has that name.
pub route_hides :
    (r r' : Rights) (caller path name : Text)
    → tree_of path ≡ some name
    → may r caller name ≡ false
    → tree r' name ≡ none
    → route r (some caller) path ≡ route r' (some caller) path
unfolding route
route_hides r r' caller path name asked denied missing = elim (Bool-cases (may r' caller name)) [
  | inl allowed ↦ rw (asked, denied, allowed, missing)
  | inr denied' ↦ rw (asked, denied, denied')
]
