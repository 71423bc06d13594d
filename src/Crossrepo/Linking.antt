-- ===== src/Crossrepo/Linking.antt =====
-- src/crossrepo.rs, `links`: which links there are.
use mathlib.Core.Option.{some-injective}
use glasir_control.Prelude.{
  ℕ, ◌≤◌, ◌≡◌, refl, sym, ap, ◌∙◌, subst, ◌↔◌, ◌⊎◌, inl, inr, true, false, Option, none, some, List,
  [], ◌∷◌, map, arith, leb, Bool-cases, Option-cases, is_empty, filter, ◌==◌, nat_eq, Bool_eq,
  list_eq, pair_eq,
}
use glasir_control.Text.{Text}
use glasir_control.Crossrepo.{
  RequestJson, Surface, Route, Link, concat_map, routes_of, literal, greater_of, max_of, is_reached,
  link_to, is_best, best_routes, request_links, links,
}
use glasir_control.Crossrepo.Membership.{In, In-concat_map, In-map, In-filter}

abbrev IsAtMost : ℕ → Option ℕ → Type 0
IsAtMost n none = ⊥
IsAtMost n (some b) = n ≤ b

greater_left : (n : ℕ) (m : Option ℕ) → n ≤ greater_of n m
greater_left n none = omega arith
greater_left n (some b) = ground arith

greater_right : (n k : ℕ) (m : Option ℕ) → IsAtMost k m → k ≤ greater_of n m
greater_right n k none h = absurd h
greater_right n k (some b) h = ground (arith, h)

max_upper : (rs : List Route) (r : Route) → In r rs → IsAtMost (literal r) (max_of (map literal rs))
unfolding max_of
max_upper [] r at = absurd at
max_upper (x ∷ rs) r (inl here) =
    subst (λ (y : Route). literal y ≤ greater_of (literal x) (max_of (map literal rs))) (sym here)
      (greater_left (literal x) (max_of (map literal rs)))
max_upper (x ∷ rs) r (inr there) =
    greater_right (literal x) (literal r) (max_of (map literal rs)) (max_upper rs r there)

greater_attained : (n : ℕ) (m : Option ℕ) → (greater_of n m ≡ n) ⊎ (m ≡ some (greater_of n m))
greater_attained n none = inl refl
greater_attained n (some b) = elim (Bool-cases (leb n b)) [
  | inl more ↦ inr (rw more refl)
  | inr less ↦ inl (rw less refl)
]

max_attained :
    (rs : List Route) (b : ℕ)
    → max_of (map literal rs) ≡ some b
    → (r : Route) × In r rs × (literal r ≡ b)
unfolding max_of
max_attained [] b h = cc h
max_attained (x ∷ rs) b h =
    let top = some-injective (greater_of (literal x) (max_of (map literal rs))) b h in
    elim (greater_attained (literal x) (max_of (map literal rs))) [
      | inl first ↦ (x, inl refl, sym first ∙ top)
      | inr later ↦ let (r, at, e) = max_attained rs b (later ∙ ap some top) in (r, inr at, e)
    ]

-- No route has more literal segments.
abbrev pub IsMostLiteral : Route → List Route → Type 0
IsMostLiteral r rs = (other : Route) → In other rs → literal other ≤ literal r

is_best_iff :
    (rs : List Route) (r : Route)
    → In r rs
    → (is_best (max_of (map literal rs)) r ≡ true) ↔ IsMostLiteral r rs
is_best_iff rs r at = elim (Option-cases (max_of (map literal rs))) [
  | inl missing ↦ absurd (subst (IsAtMost (literal r)) missing (max_upper rs r at))
  | inr (b, top) ↦
      let (first, among, e) = max_attained rs b top in
      let below : literal r ≤ b = subst (IsAtMost (literal r)) top (max_upper rs r at) in
      (
        λ h other o.
            let le : literal other ≤ b =
              subst (IsAtMost (literal other)) top (max_upper rs other o) in
            let same : (literal r == b) ≡ true = ap (λ (m : Option ℕ). is_best m r) (sym top) ∙ h in
            ground (arith, le, same),
        λ most.
            let le = most first among in
            ap (λ (m : Option ℕ). is_best m r) top ∙ ground (arith, le, e, below),
      )
]

-- The routes of other trees that a request reaches.
abbrev pub others : List Surface → Text → Text → List Text → List Route
others surfaces tree_name verb asked = filter (is_reached tree_name verb asked) (routes_of surfaces)

-- What a link stands for.
pub record IsLink (surfaces : List Surface) (l : Link) : Type 0 where
  pub surface : Surface
  pub request : RequestJson
  pub route : Route
  pub sender : Text
  pub verb : Text
  pub in_surfaces : In surface surfaces
  pub in_requests : In request surface.requests
  pub has_sender : request.sender ≡ some sender
  pub has_verb : request.verb ≡ some verb
  pub asks : is_empty request.segments ≡ false
  pub in_routes : In route (routes_of surfaces)
  pub reached : is_reached surface.tree_name verb request.segments route ≡ true
  pub most_literal : IsMostLiteral route (others surfaces surface.tree_name verb request.segments)
  pub link : l ≡ link_to surface.tree_name sender verb request.path route

module _ (surfaces : List Surface) where
  best_iff :
      (tree_name verb : Text) (asked : List Text) (r : Route)
      → In r (best_routes (routes_of surfaces) tree_name verb asked) ↔ (
          In r (others surfaces tree_name verb asked)
          × IsMostLiteral r (others surfaces tree_name verb asked))
  unfolding best_routes
  best_iff tree_name verb asked r =
      let among = others surfaces tree_name verb asked in
      let iff = In-filter (is_best (max_of (map literal among))) r among in
      (
        λ h. let (at, best) = iff.0 h in (at, (is_best_iff among r at).0 best),
        λ w. let (at, most) = w in iff.1 (at, (is_best_iff among r at).1 most),
      )

  -- The links of one request, which has a sender and a verb or gives none.
  request_sound :
      (s : Surface) (q : RequestJson) (l : Link) (sender verb : Option Text)
      → In s surfaces
      → In q s.requests
      → q.sender ≡ sender
      → q.verb ≡ verb
      → In l (request_links (routes_of surfaces) s.tree_name q.segments q.path sender verb)
      → IsLink surfaces l
  request_sound s q l none verb at_s at_q e e' h = absurd h
  request_sound s q l (some sender) none at_s at_q e e' h = absurd h
  request_sound s q l (some sender) (some verb) at_s at_q e e' h =
      elim (Bool-cases (is_empty q.segments)) [
        | inl blank ↦ absurd (rw blank at h)
        | inr asks ↦
            let (r, at_r, same) =
              (In-map (link_to s.tree_name sender verb q.path) l
                  (best_routes (routes_of surfaces) s.tree_name verb q.segments)).0
                (rw asks at h) in
            let (among, most) = (best_iff s.tree_name verb q.segments r).0 at_r in
            let (in_routes, reached) =
              (In-filter (is_reached s.tree_name verb q.segments) r (routes_of surfaces)).0 among in
            record {
              surface = s;
              request = q;
              route = r;
              sender = sender;
              verb = verb;
              in_surfaces = at_s;
              in_requests = at_q;
              has_sender = e;
              has_verb = e';
              asks = asks;
              in_routes = in_routes;
              reached = reached;
              most_literal = most;
              link = same;
            }
      ]

  abbrev links_of : Surface → RequestJson → List Link
  links_of s q = request_links (routes_of surfaces) s.tree_name q.segments q.path q.sender q.verb

  link_complete : (l : Link) (w : IsLink surfaces l) → In l (links_of w.surface w.request)
  link_complete l w =
      let among =
        (In-filter (is_reached w.surface.tree_name w.verb w.request.segments) w.route
            (routes_of surfaces)).1
          (w.in_routes, w.reached) in
      let best =
        (best_iff w.surface.tree_name w.verb w.request.segments w.route).1
          (among, w.most_literal) in
      let made =
        (In-map (link_to w.surface.tree_name w.sender w.verb w.request.path) l
            (best_routes (routes_of surfaces) w.surface.tree_name w.verb w.request.segments)).1
          (w.route, best, w.link) in
      rw (w.has_sender, w.has_verb, w.asks) made

  -- A link is reported exactly when a request of one tree, with a sender, a verb and a segment at least,
  -- reaches a route of another tree, and reaches no route of another tree with more literal segments.
  pub links_iff : (l : Link) → In l (links surfaces) ↔ IsLink surfaces l
  unfolding links
  links_iff l = (
    λ h.
        let (s, at_s, more) =
          (In-concat_map (λ s. concat_map (links_of s) s.requests) l surfaces).0 h in
        let (q, at_q, has) = (In-concat_map (links_of s) l s.requests).0 more in
        request_sound s q l q.sender q.verb at_s at_q refl refl has,
    λ w. (In-concat_map (λ s. concat_map (links_of s) s.requests) l surfaces).1 (
      w.surface,
      w.in_surfaces,
      (In-concat_map (links_of w.surface) l w.surface.requests).1
          (w.request, w.in_requests, link_complete l w),
    ),
  )
