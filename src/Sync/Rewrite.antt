-- ===== src/Sync/Rewrite.antt =====
-- src/sync.rs, `mutate_rights_content` and `apply_sync_actions`: what `parse` reads of the file that is written.
-- Each entry's user and trees can be written in a line.
use glasir_control.Prelude.{
  ℕ, ◌≡◌, refl, sym, ◌∙◌, inl, inr, Bool, true, false, not, ◌&&◌, List, [], ◌∷◌, arith, Bool-cases,
  and-true, is_empty, any, all, filter, all-append, contains, all-contains, all_intro, ◌==◌, nat_eq,
  Bool_eq, list_eq, pair_eq,
}
use glasir_control.Text.{Text, is_whitespace}
use glasir_control.Text.Order.{sorted_set, contains-sorted_set}
use glasir_control.HashMap.{HashMap, extend}
use glasir_control.Security.{is_identifier_char, is_valid_identifier}
use glasir_control.Security.Names.{is_valid_identifier_iff}
use glasir_control.Sync.Payload.{SyncAction, grant, revoke, set_tree_grants}
use glasir_control.Sync.Mutate.{
  remove_tree, add_tree, change, grant_text, grant_lines, action_names,
}
use glasir_control.Sync.Grants.{grants_tree}
use glasir_control.Sync.Written.{is_plain, grants_tree-grant_text, grant_text-IsLine}
use glasir_control.Sync.Kept.{has_tree}

abbrev pub is_plain_entry : Text × List Text → Bool
is_plain_entry (user, ts) = is_plain user && all is_plain ts

abbrev pub HasPlainNames : HashMap Text (List Text) → Type 0
HasPlainNames m = all is_plain_entry m ≡ true

identifier_char-plain :
    (c : ℕ) → is_identifier_char c ≡ true → (is_whitespace c ≡ false) × (c == b',' ≡ false)
unfolding is_identifier_char is_whitespace
identifier_char-plain c h = (ground (arith, h), ground (arith, h))

identifier_chars-plain :
    (s : Text)
    → all is_identifier_char s ≡ true
    → (any is_whitespace s ≡ false) × (any (λ c. c == b',') s ≡ false)
identifier_chars-plain [] h = (refl, refl)
identifier_chars-plain (c ∷ s) h =
    let (here, later) = and-true (is_identifier_char c) (all is_identifier_char s) h in
    let (space, comma) = identifier_char-plain c here in
    let (spaces, commas) = identifier_chars-plain s later in
    (rw (space, spaces) refl, rw (comma, commas) refl)

identifier-plain : (name : Text) → is_valid_identifier name ≡ true → is_plain name ≡ true
identifier-plain name h =
    let i = (is_valid_identifier_iff name).0 h in
    let (spaces, commas) = identifier_chars-plain name i.plain in
    rw (i.nonempty, spaces, commas) refl

identifiers-plain :
    (names : List Text) → all is_valid_identifier names ≡ true → all is_plain names ≡ true
identifiers-plain [] h = refl
identifiers-plain (n ∷ ns) h =
    let (here, later) = and-true (is_valid_identifier n) (all is_valid_identifier ns) h in
    rw (identifier-plain n here, identifiers-plain ns later) refl

all-filter : (q p : Text → Bool) (xs : List Text) → all q xs ≡ true → all q (filter p xs) ≡ true
all-filter q p [] h = refl
all-filter q p (x ∷ xs) h =
    let (here, later) = and-true (q x) (all q xs) h in
    elim (Bool-cases (p x)) [
      | inl keeps ↦ rw keeps (rw (here, all-filter q p xs later) refl)
      | inr drops ↦ rw drops (all-filter q p xs later)
    ]

extend-HasPlainNames :
    (k : Text) (xs : List Text) (m : HashMap Text (List Text))
    → is_plain k ≡ true
    → all is_plain xs ≡ true
    → HasPlainNames m
    → HasPlainNames (extend k xs m)
unfolding extend
extend-HasPlainNames k xs [] hk hx h = rw (hk, hx) refl
extend-HasPlainNames k xs ((j, v) ∷ m) hk hx h =
    let (here, later) = and-true (is_plain_entry (j, v)) (all is_plain_entry m) h in
    let (hj, hv) = and-true (is_plain j) (all is_plain v) here in
    elim (Bool-cases (j == k)) [
      | inl same ↦ rw same (rw (hj, all-append is_plain v xs, hv, hx, later) refl)
      | inr other ↦ rw other (rw (here, extend-HasPlainNames k xs m hk hx later) refl)
    ]

remove_tree-HasPlainNames :
    (p : Text → Bool) (x : Text) (m : HashMap Text (List Text))
    → HasPlainNames m
    → HasPlainNames (remove_tree p x m)
unfolding remove_tree
remove_tree-HasPlainNames p x [] h = refl
remove_tree-HasPlainNames p x ((j, v) ∷ m) h =
    let (here, later) = and-true (is_plain_entry (j, v)) (all is_plain_entry m) h in
    let (hj, hv) = and-true (is_plain j) (all is_plain v) here in
    let rest = remove_tree-HasPlainNames p x m later in
    elim (Bool-cases (p j)) [
      | inl matched ↦ rw (matched, hj, all-filter is_plain (λ t. not (t == x)) v hv, rest) refl
      | inr other ↦ rw (other, hj, hv, rest) refl
    ]

add_tree-HasPlainNames :
    (users : List Text) (x : Text) (m : HashMap Text (List Text))
    → all is_plain users ≡ true
    → is_plain x ≡ true
    → HasPlainNames m
    → HasPlainNames (add_tree users x m)
unfolding add_tree
add_tree-HasPlainNames [] x m hu hx h = h
add_tree-HasPlainNames (user ∷ users) x m hu hx h =
    let (here, later) = and-true (is_plain user) (all is_plain users) hu in
    add_tree-HasPlainNames users x (extend user (x ∷ []) m) later hx
      (extend-HasPlainNames user (x ∷ []) m here (rw hx refl) h)

pub change-HasPlainNames :
    (action : SyncAction) (m : HashMap Text (List Text))
    → action_names action ≡ true
    → HasPlainNames m
    → HasPlainNames (change action m)
unfolding change
change-HasPlainNames (grant user x) m a h =
    let (hu, hx) = and-true (is_valid_identifier user) (is_valid_identifier x) a in
    extend-HasPlainNames user (x ∷ []) m (identifier-plain user hu)
      (rw (identifier-plain x hx) refl) h
change-HasPlainNames (revoke user x) m a h = remove_tree-HasPlainNames (λ v. v == user) x m h
change-HasPlainNames (set_tree_grants x users) m a h =
    let (hx, hu) = and-true (is_valid_identifier x) (all is_valid_identifier users) a in
    add_tree-HasPlainNames users x _ (identifiers-plain users hu) (identifier-plain x hx)
      (remove_tree-HasPlainNames (λ v. not (contains users v)) x m h)

-- A line of grants grants what it was written from, and is one line.
grant_text_lem :
    (user : Text) (ts : List Text) (u x : Text)
    → is_empty ts ≡ false
    → is_plain user ≡ true
    → all is_plain ts ≡ true
    → (grants_tree u x (grant_text user ts) ≡ user == u && contains ts x)
      × (contains (grant_text user ts) b'\n' ≡ false)
grant_text_lem user [] u x e hu ht = cc e
grant_text_lem user (t ∷ ts) u x e hu ht =
    (grants_tree-grant_text user t ts u x hu ht, grant_text-IsLine user t ts hu ht)

module _ (user : Text) (ts : List Text) (here : is_plain_entry (user, ts) ≡ true) where
  plain_parts : (is_plain user ≡ true) × (all is_plain (sorted_set ts) ≡ true)
  plain_parts =
      let (hu, ht) = and-true (is_plain user) (all is_plain ts) here in
      (
        hu,
        all_intro is_plain (sorted_set ts)
            (λ a k. all-contains is_plain ts a ht (sym (contains-sorted_set ts a) ∙ k)),
      )

  nothing_granted : (x : Text) → is_empty (sorted_set ts) ≡ true → contains ts x ≡ false
  nothing_granted x e = sym (contains-sorted_set ts x) ∙ contains_of_empty (sorted_set ts) e
    where
      contains_of_empty : (l : List Text) → is_empty l ≡ true → contains l x ≡ false
      contains_of_empty [] e' = refl
      contains_of_empty (c ∷ l) e' = cc e'

pub any-grant_lines :
    (m : HashMap Text (List Text)) (u x : Text)
    → HasPlainNames m
    → any (grants_tree u x) (grant_lines m) ≡ any (has_tree u x) m
unfolding grant_lines
any-grant_lines [] u x h = refl
any-grant_lines ((user, ts) ∷ m) u x h =
    let (here, later) = and-true (is_plain_entry (user, ts)) (all is_plain_entry m) h in
    let (hu, ht) = plain_parts user ts here in
    elim (Bool-cases (is_empty (sorted_set ts))) [
      | inl gone ↦
          rw (gone, nothing_granted user ts here x gone, any-grant_lines m u x later) (ground arith)
      | inr some_left ↦
          rw
            (
              some_left,
              (grant_text_lem user (sorted_set ts) u x some_left hu ht).0,
              contains-sorted_set ts x,
              any-grant_lines m u x later,
            )
            refl
    ]

pub grant_lines-AreLines :
    (m : HashMap Text (List Text))
    → HasPlainNames m
    → all (λ l. not (contains l b'\n')) (grant_lines m) ≡ true
unfolding grant_lines
grant_lines-AreLines [] h = refl
grant_lines-AreLines ((user, ts) ∷ m) h =
    let (here, later) = and-true (is_plain_entry (user, ts)) (all is_plain_entry m) h in
    let (hu, ht) = plain_parts user ts here in
    elim (Bool-cases (is_empty (sorted_set ts))) [
      | inl gone ↦ rw gone (grant_lines-AreLines m later)
      | inr some_left ↦ rw some_left (
          rw
            (
              (grant_text_lem user (sorted_set ts) [] [] some_left hu ht).1,
              grant_lines-AreLines m later,
            )
            refl)
    ]
