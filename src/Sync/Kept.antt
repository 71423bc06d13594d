-- ===== src/Sync/Kept.antt =====
-- src/sync.rs, `mutate_rights_content`: what the loop over the lines keeps, and the map of grants.
-- The entry of a user that has a tree.
use glasir_control.Prelude.{
  ◌≡◌, refl, ap, ◌∙◌, inl, inr, Bool, true, false, not, ◌&&◌, ◌||◌, List, [], ◌∷◌, ◌++◌, arith,
  if◌then◌else◌, Bool-cases, if_both, and-true, is_empty, any, all, all-append, contains, ◌==◌,
  eq_iff, nat_eq, Bool_eq, list_eq, pair_eq,
}
use glasir_control.Text.{Text, codes, trim, starts_with}
use glasir_control.HashMap.{
  HashMap, get, contains_key, HasDistinctKeys, get_list, extend, extend-HasDistinctKeys,
}
use glasir_control.Rights.Parse.{fields, items, directive, line_directive}
use glasir_control.Rights.Parse.Effects.{grant_items}
use glasir_control.Sync.Payload.{SyncAction, grant, revoke, set_tree_grants}
use glasir_control.Sync.Mutate.{
  Sections, other_line, tree_or, file_line, sort_lines, remove_tree, add_tree, change,
}
use glasir_control.Sync.Grants.{
  grants_tree, grant_items_of_three, grant_items_of_four, grant_not_tree,
}

abbrev pub has_tree : Text → Text → Text × List Text → Bool
has_tree u x (user, ts) = user == u && contains ts x

absent_user :
    (u x : Text) (m : HashMap Text (List Text))
    → contains_key m u ≡ false
    → any (has_tree u x) m ≡ false
unfolding contains_key
absent_user u x [] h = refl
absent_user u x ((j, v) ∷ m) h =
    let here : j == u ≡ false = ground (arith, h) in
    let later : contains_key m u ≡ false = ground (arith, h) in
    rw (here, absent_user u x m later) refl

-- With distinct keys, the entries tell what `get` finds.
pub any-has_tree :
    (u x : Text) (m : HashMap Text (List Text))
    → HasDistinctKeys m
    → any (has_tree u x) m ≡ contains (get_list m u) x
unfolding get_list get
any-has_tree u x [] h = refl
any-has_tree u x ((j, v) ∷ m) (fresh, h) = elim (Bool-cases (j == u)) [
  | inl same ↦
      let gone : contains_key m u ≡ false = rw (← (eq_iff j u).0 same) fresh in
      rw (same, absent_user u x m gone) (ground arith)
  | inr other ↦ rw other (any-has_tree u x m h)
]

contains_key-remove_tree :
    (p : Text → Bool) (x : Text) (m : HashMap Text (List Text)) (k : Text)
    → contains_key (remove_tree p x m) k ≡ contains_key m k
unfolding remove_tree contains_key
contains_key-remove_tree p x [] k = refl
contains_key-remove_tree p x ((j, v) ∷ m) k = rw (contains_key-remove_tree p x m k) refl

remove_tree-HasDistinctKeys :
    (p : Text → Bool) (x : Text) (m : HashMap Text (List Text))
    → HasDistinctKeys m
    → HasDistinctKeys (remove_tree p x m)
unfolding remove_tree
remove_tree-HasDistinctKeys p x [] h = tt
remove_tree-HasDistinctKeys p x ((j, v) ∷ m) (fresh, h) =
    (contains_key-remove_tree p x m j ∙ fresh, remove_tree-HasDistinctKeys p x m h)

add_tree-HasDistinctKeys :
    (users : List Text) (x : Text) (m : HashMap Text (List Text))
    → HasDistinctKeys m
    → HasDistinctKeys (add_tree users x m)
unfolding add_tree
add_tree-HasDistinctKeys [] x m h = h
add_tree-HasDistinctKeys (user ∷ users) x m h =
    add_tree-HasDistinctKeys users x (extend user (x ∷ []) m)
      (extend-HasDistinctKeys user (x ∷ []) m h)

pub change-HasDistinctKeys :
    (action : SyncAction) (m : HashMap Text (List Text))
    → HasDistinctKeys m
    → HasDistinctKeys (change action m)
unfolding change
change-HasDistinctKeys (grant user x) m h = extend-HasDistinctKeys user (x ∷ []) m h
change-HasDistinctKeys (revoke user x) m h = remove_tree-HasDistinctKeys (λ v. v == user) x m h
change-HasDistinctKeys (set_tree_grants x users) m h =
    add_tree-HasDistinctKeys users x _
      (remove_tree-HasDistinctKeys (λ v. not (contains users v)) x m h)

-- A line without a line feed that does not grant the tree to the user.
abbrev pub is_other : Text → Text → Text → Bool
is_other u x l = not (contains l b'\n') && not (grants_tree u x l)

-- The lines that are kept as they are grant nothing, and the map has one entry for each user.
abbrev pub IsKept : Text → Text → Sections → Type 0
IsKept u x s =
    (all (is_other u x) s.comments ≡ true)
    × (all (is_other u x) s.tree_lines ≡ true)
    × HasDistinctKeys s.user_grants

module _ (u x : Text) (s : Sections) (line : Text) (sorted : IsKept u x s) where
  added :
      (ls : List Text)
      → is_other u x line ≡ true
      → all (is_other u x) ls ≡ true
      → all (is_other u x) (ls ++ line ∷ []) ≡ true
  added ls h k = all-append (is_other u x) ls (line ∷ []) ∙ rw (k, h) refl

  other_line-IsKept : is_other u x line ≡ true → IsKept u x (other_line s line)
  other_line-IsKept h = (added s.comments h sorted.0, sorted.1, sorted.2)

  tree_or-IsKept :
      (word : Text) (other : Sections)
      → is_other u x line ≡ true
      → IsKept u x other
      → IsKept u x (tree_or word s line other)
  tree_or-IsKept word other h k =
      if_both (IsKept u x) (word == codes "tree")
        (λ e. (sorted.0, added s.tree_lines h sorted.1, sorted.2)) (λ e. k)

  unchanged-IsKept :
      (word : Text)
      → is_other u x line ≡ true
      → IsKept u x (tree_or word s line (other_line s line))
  unchanged-IsKept word h = tree_or-IsKept word (other_line s line) h (other_line-IsKept h)

  module _ (is_line : contains line b'\n' ≡ false) where
    grants_nothing : grants_tree u x line ≡ false → is_other u x line ≡ true
    grants_nothing h = rw (is_line, h) refl

    file_line-IsKept :
        (parts : List Text)
        → grants_tree u x line ≡ contains (grant_items (directive parts) u) x
        → IsKept u x (file_line s line parts)
    file_line-IsKept [] g = unfold directive in other_line-IsKept (grants_nothing g)
    file_line-IsKept (word ∷ []) g = unfold directive in unchanged-IsKept word (grants_nothing g)
    file_line-IsKept (word ∷ a ∷ []) g =
        unfold directive in unchanged-IsKept word (grants_nothing g)
    file_line-IsKept (word ∷ a ∷ b ∷ []) g = elim (Bool-cases (word == codes "grant")) [
      | inl here ↦
          rw (grant_not_tree word here, here)
            (sorted.0, sorted.1, extend-HasDistinctKeys a (items b) s.user_grants sorted.2)
      | inr other ↦ rw other (
          unchanged-IsKept word (
            grants_nothing (
              g
              ∙ ap (λ (ts : List Text). contains ts x) (grant_items_of_three word a b u)
              ∙ rw other refl)))
    ]
    file_line-IsKept (word ∷ a ∷ b ∷ c ∷ []) g = unchanged-IsKept word (
        grants_nothing
          (g ∙ ap (λ (ts : List Text). contains ts x) (grant_items_of_four word a b c u)))
    file_line-IsKept (word ∷ a ∷ b ∷ c ∷ d ∷ more) g =
        unfold directive in unchanged-IsKept word (grants_nothing g)

    one_line-IsKept : IsKept u x (
        if is_empty (trim line) || starts_with (trim line) (codes "#")
        then other_line s line
        else file_line s line (fields (trim line)))
    unfolding line_directive
    one_line-IsKept =
        elim (Bool-cases (is_empty (trim line) || starts_with (trim line) (codes "#"))) [
          | inl skipped ↦ rw skipped (other_line-IsKept (grants_nothing (rw skipped refl)))
          | inr read_line ↦ rw read_line (file_line-IsKept (fields (trim line)) (rw read_line refl))
        ]

pub sort_lines-IsKept :
    (u x : Text) (s : Sections) (ls : List Text)
    → all (λ l. not (contains l b'\n')) ls ≡ true
    → IsKept u x s
    → IsKept u x (sort_lines s ls)
unfolding sort_lines
sort_lines-IsKept u x s [] h sorted = sorted
sort_lines-IsKept u x s (line ∷ more) h sorted =
    let (here, later) = and-true (not (contains line b'\n')) _ h in
    sort_lines-IsKept u x
      (if is_empty (trim line) || starts_with (trim line) (codes "#")
        then other_line s line
        else file_line s line (fields (trim line)))
      more later (one_line-IsKept u x s line sorted (ground (arith, here)))
