-- ===== src/Sync/Grants.antt =====
-- src/sync.rs, `mutate_rights_content`: who has which tree behind an action, in the map that it prints.
use glasir_control.Prelude.{
  list_beq, ◌≡◌, refl, sym, ap, ◌∙◌, inl, inr, Bool, true, false, not, ◌&&◌, ◌||◌, List, [], ◌∷◌,
  arith, if◌then◌else◌, Bool-cases, if_both, is_empty, any, filter, contains, contains-append, ◌==◌,
  eq_refl, eq_iff, nat_eq, Bool_eq, list_eq, pair_eq,
}
use glasir_control.Text.{Text, codes, trim, starts_with}
use glasir_control.Text.Lines.{lines}
use glasir_control.HashMap.{HashMap, get, get_list, extend, get_list-extend}
use glasir_control.Rights.Parse.{fields, items, directive, line_directive, parse}
use glasir_control.Rights.Parse.Effects.{grant_items, contains-grants}
use glasir_control.Sync.Payload.{SyncAction, grant, revoke, set_tree_grants}
use glasir_control.Sync.Mutate.{
  Sections, no_sections, other_line, tree_or, file_line, sort_lines, remove_tree, add_tree, change,
}

-- What an action makes of whether a user has a tree.
abbrev pub granted_after : SyncAction → Text → Text → Bool → Bool
granted_after (grant user tree_name) u t before = before || (user == u && tree_name == t)
granted_after (revoke user tree_name) u t before = before && not (u == user && t == tree_name)
granted_after (set_tree_grants tree_name users) u t before =
    if t == tree_name then contains users u else before

contains-filter :
    (p : Text → Bool) (xs : List Text) (a : Text) → contains (filter p xs) a ≡ contains xs a && p a
contains-filter p [] a = refl
contains-filter p (x ∷ xs) a = elim (Bool-cases (x == a)) [
  | inl here ↦ rw ((eq_iff x a).0 here) (ground (arith, contains-filter p xs a, eq_refl a))
  | inr there ↦ ground (arith, contains-filter p xs a)
]

contains-get_list-extend :
    (k : Text) (x : Text) (m : HashMap Text (List Text)) (u t : Text)
    → contains (get_list (extend k (x ∷ []) m) u) t
      ≡ contains (get_list m u) t || (k == u && x == t)
contains-get_list-extend k x m u t =
    rw
      (
        get_list-extend k (x ∷ []) m u,
        contains-append (get_list m u) (if k == u then x ∷ [] else []) t,
      )
      (ground arith)

contains-get_list-remove_tree :
    (p : Text → Bool) (x : Text) (m : HashMap Text (List Text)) (u t : Text)
    → contains (get_list (remove_tree p x m) u) t ≡ contains (get_list m u) t && not (p u && t == x)
unfolding remove_tree get_list get
contains-get_list-remove_tree p x [] u t = refl
contains-get_list-remove_tree p x ((user, ts) ∷ more) u t = elim (Bool-cases (user == u)) [
  | inl here ↦
      rw here
        (ground (arith, ap p ((eq_iff user u).0 here), contains-filter (λ v. not (v == x)) ts t))
  | inr there ↦ rw there (contains-get_list-remove_tree p x more u t)
]

contains-get_list-add_tree :
    (users : List Text) (x : Text) (m : HashMap Text (List Text)) (u t : Text)
    → contains (get_list (add_tree users x m) u) t
      ≡ contains (get_list m u) t || (contains users u && x == t)
unfolding add_tree
contains-get_list-add_tree [] x m u t = ground arith
contains-get_list-add_tree (user ∷ users) x m u t =
    contains-get_list-add_tree users x (extend user (x ∷ []) m) u t
    ∙ ground (arith, contains-get_list-extend user x m u t)

-- A webhook's action changes the direct grants as it says: for each user and tree, a grant adds exactly the
-- one pair, a revocation takes exactly the one away, and setting the users of a tree leaves that tree to
-- exactly these users and every other tree as it was.
pub change_lem :
    (action : SyncAction) (m : HashMap Text (List Text)) (u t : Text)
    → contains (get_list (change action m) u) t
      ≡ granted_after action u t (contains (get_list m u) t)
unfolding change
change_lem (grant user tree_name) m u t = contains-get_list-extend user tree_name m u t
change_lem (revoke user tree_name) m u t =
    contains-get_list-remove_tree (λ v. v == user) tree_name m u t
change_lem (set_tree_grants tree_name users) m u t =
    contains-get_list-add_tree users tree_name
      (remove_tree (λ v. not (contains users v)) tree_name m) u t
    ∙ ground (
      arith,
      contains-get_list-remove_tree (λ v. not (contains users v)) tree_name m u t,
      eq_iff tree_name t,
      eq_iff t tree_name,
    )

-- Whether a line of the file grants the tree to the user.
abbrev pub grants_tree : Text → Text → Text → Bool
grants_tree u t l = contains (grant_items (line_directive l) u) t

has_extended :
    (k : Text) (xs : List Text) (m : HashMap Text (List Text)) (u t : Text)
    → contains (get_list (extend k xs m) u) t
      ≡ contains (get_list m u) t || contains (if k == u then xs else []) t
has_extended k xs m u t =
    rw (get_list-extend k xs m u, contains-append (get_list m u) (if k == u then xs else []) t) refl

pub tree_or-keeps :
    (s : Sections) (word line : Text)
    → (tree_or word s line (other_line s line)).user_grants ≡ s.user_grants
tree_or-keeps s word line =
    if_both (λ (x : Sections). x.user_grants ≡ s.user_grants) (word == codes "tree") (λ e. refl)
      (λ e. refl)

-- What a line with three fields grants.
pub grant_items_of_three :
    (word a b u : Text)
    → grant_items (directive (word ∷ a ∷ b ∷ [])) u
      ≡ (if word == codes "grant" then (if a == u then items b else []) else [])
unfolding directive
grant_items_of_three word a b u = elim (Bool-cases (word == codes "grant")) [
  | inl here ↦ rw here refl
  | inr other ↦ rw other (ground arith)
]

pub grant_items_of_four :
    (word a b c u : Text) → grant_items (directive (word ∷ a ∷ b ∷ c ∷ [])) u ≡ []
unfolding directive
grant_items_of_four word a b c u = ground arith

kept_grants :
    (s : Sections) (word line u t : Text)
    → contains (get_list (tree_or word s line (other_line s line)).user_grants u) t
      ≡ contains (get_list s.user_grants u) t || false
kept_grants s word line u t =
    ap (λ m. contains (get_list m u) t) (tree_or-keeps s word line) ∙ ground arith

pub grant_not_tree : (word : Text) → word == codes "grant" ≡ true → word == codes "tree" ≡ false
unfolding list_beq
grant_not_tree word h = rw ((eq_iff word (codes "grant")).0 h) refl

-- A line's fields, as the loop takes them and as `parse` does.
file_line_grants :
    (s : Sections) (line : Text) (parts : List Text) (u t : Text)
    → contains (get_list (file_line s line parts).user_grants u) t
      ≡ contains (get_list s.user_grants u) t || contains (grant_items (directive parts) u) t
file_line_grants s line [] u t = unfold directive in ground arith
file_line_grants s line (word ∷ []) u t = unfold directive in kept_grants s word line u t
file_line_grants s line (word ∷ a ∷ []) u t = unfold directive in kept_grants s word line u t
file_line_grants s line (word ∷ a ∷ b ∷ []) u t = elim (Bool-cases (word == codes "grant")) [
  | inl here ↦
      rw (grant_items_of_three word a b u, grant_not_tree word here, here)
        (has_extended a (items b) s.user_grants u t)
  | inr other ↦ rw (grant_items_of_three word a b u, other) (kept_grants s word line u t)
]
file_line_grants s line (word ∷ a ∷ b ∷ c ∷ []) u t =
    rw (grant_items_of_four word a b c u) (kept_grants s word line u t)
file_line_grants s line (word ∷ a ∷ b ∷ c ∷ d ∷ more) u t =
    unfold directive in kept_grants s word line u t

line_grants :
    (s : Sections) (line u t : Text)
    → contains
        (get_list
          (if is_empty (trim line) || starts_with (trim line) (codes "#")
            then other_line s line
            else file_line s line (fields (trim line))).user_grants
          u)
        t
      ≡ contains (get_list s.user_grants u) t || grants_tree u t line
unfolding line_directive
line_grants s line u t =
    elim (Bool-cases (is_empty (trim line) || starts_with (trim line) (codes "#"))) [
      | inl skipped ↦ rw skipped (ground arith)
      | inr read_line ↦ rw read_line (file_line_grants s line (fields (trim line)) u t)
    ]

sort_lines_grants :
    (s : Sections) (ls : List Text) (u t : Text)
    → contains (get_list (sort_lines s ls).user_grants u) t
      ≡ contains (get_list s.user_grants u) t || any (grants_tree u t) ls
unfolding sort_lines
sort_lines_grants s [] u t = ground arith
sort_lines_grants s (line ∷ more) u t =
    sort_lines_grants
      (if is_empty (trim line) || starts_with (trim line) (codes "#")
        then other_line s line
        else file_line s line (fields (trim line)))
      more u t
    ∙ ground (arith, line_grants s line u t)

-- The map of grants that is to be printed after a webhook's action has the grants that `parse` reads of the
-- rights file, changed as the action says.
pub change-sort_lines :
    (text : Text) (action : SyncAction) (u t : Text)
    → contains (get_list (change action (sort_lines no_sections (lines text)).user_grants) u) t
      ≡ granted_after action u t (contains (get_list (parse text).grants u) t)
unfolding parse
change-sort_lines text action u t =
    change_lem action (sort_lines no_sections (lines text)).user_grants u t
    ∙ ap (granted_after action u t) (
        unfold get_list get in
        sort_lines_grants no_sections (lines text) u t ∙ sym (contains-grants (lines text) u t))
