-- ===== src/Rights/Validate/Roles.antt =====
-- src/rights.rs: in a rights file that validates, no member has a role that reaches nothing.
use glasir_control.Prelude.{
  ℕ, ◌+◌, ◌≡◌, refl, sym, ◌∙◌, inl, inr, Bool, true, false, not, ◌&&◌, ◌||◌, List, [], ◌∷◌, ◌++◌,
  map, arith, Bool-cases, and-true, or-true, is_empty, any, filter, any-append, contains,
  any_of_contains, any-witness, contains-filter, ◌==◌, eq_refl, nat_eq, Bool_eq, list_eq, pair_eq,
}
use glasir_control.Text.{Text, codes, trim, starts_with}
use glasir_control.Text.Lines.{lines}
use glasir_control.HashMap.{get_list}
use glasir_control.Rights.Parse.{
  Directive, tree_line, role_line, member_line, malformed, fields, directive, line_directive, parse,
}
use glasir_control.Rights.Parse.Effects.{role_items, member_items, contains-roles, contains-members}
use glasir_control.Rights.Validate.{
  Problem, undefined_role, Message, Declared, Scan, nothing, entry, declare, scan_lines, distinct,
  undefined, names_of, validate_text, is_valid,
}

is_empty-append : {A : Type 0} (xs ys : List A) → is_empty (xs ++ ys) ≡ is_empty xs && is_empty ys
is_empty-append [] ys = refl
is_empty-append (x ∷ xs) ys = refl

is_empty-map : {A B : Type 0} (f : A → B) (xs : List A) → is_empty (map f xs) ≡ is_empty xs
is_empty-map f [] = refl
is_empty-map f (x ∷ xs) = refl

-- A fact about the state of the scan that each directive adds to, and nothing takes away.
module _ (seen : Scan → Bool) (hit : Directive → Bool) (none_hit : hit malformed ≡ false)
    (step : (s : Scan) (n : ℕ) (d : Directive) → seen (declare s n d) ≡ seen s || hit d) where
  seen-scan_lines :
      (s : Scan) (n : ℕ) (ls : List Text)
      → seen (scan_lines s n ls) ≡ seen s || any (λ l. hit (line_directive l)) ls
  unfolding scan_lines line_directive
  seen-scan_lines s n [] = ground arith
  seen-scan_lines s n (l ∷ ls) =
      elim (Bool-cases (is_empty (trim l) || starts_with (trim l) (codes "#"))) [
        | inl skipped ↦ rw skipped (ground (arith, none_hit, seen-scan_lines s (n + 1) ls))
        | inr read ↦ rw read (
            ground (
              arith,
              seen-scan_lines (declare s (n + 1) (directive (fields (trim l)))) (n + 1) ls,
              step s (n + 1) (directive (fields (trim l))),
            ))
      ]

abbrev is_member : Text → Text → Declared → Bool
is_member user role d = d.name == user && contains d.targets role

members-declare :
    (user role : Text) (s : Scan) (n : ℕ) (d : Directive)
    → any (is_member user role) (declare s n d).members
      ≡ any (is_member user role) s.members || contains (member_items d user) role
unfolding declare
members-declare user role s n (tree_line name addr token) = ground arith
members-declare user role s n (member_line u list) =
    ground (arith, any-append (is_member user role) s.members (entry n u list ∷ []))
members-declare user role s n malformed = ground arith
members-declare user role s n _ = ground arith

abbrev is_role : Text → Declared → Bool
is_role role d = d.name == role

roles-declare :
    (role : Text) (s : Scan) (n : ℕ) (d : Directive)
    → any (is_role role) (declare s n d).roles
      ≡ any (is_role role) s.roles || not (is_empty (role_items d role))
unfolding declare
roles-declare role s n (tree_line name addr token) = ground arith
roles-declare role s n (role_line r list) =
    ground (arith, any-append (is_role role) s.roles (entry n r list ∷ []))
roles-declare role s n malformed = ground arith
roles-declare role s n _ = ground arith

empty_misses : (xs : List Text) (x : Text) → is_empty xs ≡ true → contains xs x ≡ true → ⊥
empty_misses [] x e h = cc h
empty_misses (y ∷ ys) x e h = cc e

none_missing :
    (names targets : List Text) (role : Text)
    → is_empty (filter (λ target. not (contains names target)) targets) ≡ true
    → contains targets role ≡ true
    → contains names role ≡ true
none_missing names targets role clean hit = elim (Bool-cases (contains names role)) [
  | inl found ↦ found
  | inr lost ↦
      let missing = filter (λ target. not (contains names target)) targets in
      let still : contains missing role ≡ true =
        contains-filter (λ target. not (contains names target)) targets role
        ∙ ground (arith, lost, hit) in
      absurd (empty_misses missing role clean still)
]

undefined-none :
    (problem : Text → Problem) (names : List Text) (ds : List Declared) (user role : Text)
    → is_empty (undefined problem names ds) ≡ true
    → any (is_member user role) ds ≡ true
    → contains names role ≡ true
unfolding undefined
undefined-none problem names [] user role clean hit = cc hit
undefined-none problem names (d ∷ ds) user role clean hit =
    let missing = filter (λ target. not (contains names target)) d.targets in
    let (here, later) =
      and-true (is_empty (map {B = Message} (λ target. (d.line, problem target)) missing))
        (is_empty (undefined problem names ds))
        (sym (
            is_empty-append (map {B = Message} (λ target. (d.line, problem target)) missing)
              (undefined problem names ds))
          ∙ clean) in
    elim (or-true (is_member user role d) (any (is_member user role) ds) hit) [
      | inl mine ↦
          let clean' : is_empty missing ≡ true =
            sym (is_empty-map {B = Message} (λ target. (d.line, problem target)) missing) ∙ here in
          let target : contains d.targets role ≡ true =
            (and-true (d.name == user) (contains d.targets role) mine).1 in
          none_missing names d.targets role clean' target
      | inr other ↦ undefined-none problem names ds user role later other
    ]

contains-distinct :
    (xs : List Text) (x : Text) → contains (distinct xs) x ≡ true → contains xs x ≡ true
unfolding distinct
contains-distinct [] x h = h
contains-distinct (y ∷ ys) x h = ground (arith, h, contains-distinct ys x)

contains-names_of : (ds : List Declared) (x : Text) → contains (names_of ds) x ≡ any (is_role x) ds
contains-names_of [] x = refl
contains-names_of (d ∷ ds) x = ground (arith, contains-names_of ds x)

nonempty_contains : (xs : List Text) → is_empty xs ≡ false → (x : Text) × (contains xs x ≡ true)
nonempty_contains [] h = cc h
nonempty_contains (x ∷ xs) h = (x, ground (arith, eq_refl x))

contains_nonempty : (xs : List Text) (x : Text) → contains xs x ≡ true → is_empty xs ≡ false
contains_nonempty [] x h = cc h
contains_nonempty (y ∷ ys) x h = refl

module _ (text user role : Text) where
  abbrev scanned : Scan
  scanned = scan_lines nothing 0 (lines text)

  member_scanned :
      contains (get_list (parse text).members user) role ≡ true
      → any (is_member user role) scanned.members ≡ true
  unfolding parse
  member_scanned h =
      seen-scan_lines (λ s. any (is_member user role) s.members)
        (λ d. contains (member_items d user) role) refl (members-declare user role) nothing 0
        (lines text)
      ∙ sym (contains-members (lines text) user role)
      ∙ h

  role_parsed :
      any (is_role role) scanned.roles ≡ true → is_empty (get_list (parse text).roles role) ≡ false
  unfolding parse
  role_parsed h =
      let declared_at =
        sym (
          seen-scan_lines (λ s. any (is_role role) s.roles)
            (λ d. not (is_empty (role_items d role))) refl (roles-declare role) nothing 0
            (lines text))
        ∙ h in
      let (l, among, full) =
        any-witness (λ l. not (is_empty (role_items (line_directive l) role))) (lines text)
          declared_at in
      let (t, has) =
        nonempty_contains (role_items (line_directive l) role) (ground (arith, full)) in
      contains_nonempty _ t (
        contains-roles (lines text) role t
        ∙ any_of_contains (λ k. contains (role_items (line_directive k) role) t) (lines text) l
            among has)

  -- In a rights file that validates, every role that a user is given as a member reaches at least one
  -- tree.
  pub valid_roles :
      is_valid (validate_text text) ≡ true
      → contains (get_list (parse text).members user) role ≡ true
      → is_empty (get_list (parse text).roles role) ≡ false
  unfolding is_valid validate_text
  valid_roles valid h =
      let names = distinct (names_of scanned.roles) in
      let (first, rest) = and-true _ _ (sym (is_empty-append scanned.errors _) ∙ valid) in
      let (members_clean, others) =
        and-true _ _
          (sym (is_empty-append (undefined undefined_role names scanned.members) _) ∙ rest) in
      let defined =
        undefined-none undefined_role names scanned.members user role members_clean
          (member_scanned h) in
      role_parsed (
        sym (contains-names_of scanned.roles role)
        ∙ contains-distinct (names_of scanned.roles) role defined)
