-- ===== src/Sync/Mutate.antt =====
-- src/sync.rs, `mutate_rights_content` and `apply_sync_actions`: a member event of a code host becomes a
-- change of the direct grants of the rights file.
use glasir_control.Prelude.{
  Bool, not, ◌&&◌, ◌||◌, Option, none, some, List, [], ◌∷◌, ◌++◌, if◌then◌else◌, is_empty, all,
  filter, contains, ◌==◌, nat_eq, Bool_eq, list_eq, pair_eq,
}
use glasir_control.Text.{Text, codes, text_of, trim, starts_with}
use glasir_control.Text.Lines.{lines, unlines}
use glasir_control.Text.Order.{text_leb, sort_by, sorted_set}
use glasir_control.HashMap.{HashMap, extend}
use glasir_control.Rights.Parse.{fields, items}
use glasir_control.Security.{is_valid_identifier}
use glasir_control.Sync.Payload.{SyncAction, grant, revoke, set_tree_grants}

-- The local variables of the loop; a `HashSet` is a list, of which only the elements matter.
pub record Sections : Type 0 where
  pub comments : List Text
  pub tree_lines : List Text
  pub user_grants : HashMap Text (List Text)

abbrev pub no_sections : Sections
no_sections = record { comments = []; tree_lines = []; user_grants = [] }

abbrev pub other_line : Sections → Text → Sections
other_line s line = record s { comments = s.comments ++ line ∷ [] }

abbrev pub tree_or : Text → Sections → Text → Sections → Sections
tree_or word s line other =
    if word == codes "tree" then record s { tree_lines = s.tree_lines ++ line ∷ [] } else other

-- The match on `parts.as_slice()`.
abbrev pub file_line : Sections → Text → List Text → Sections
file_line s line [] = other_line s line
file_line s line (word ∷ user ∷ list ∷ []) = tree_or word s line (
    if word == codes "grant"
    then record s { user_grants = extend user (items list) s.user_grants }
    else other_line s line)
file_line s line (word ∷ more) = tree_or word s line (other_line s line)

unfoldable pub sort_lines : Sections → List Text → Sections
unfolding items fields
sort_lines s [] = s
sort_lines s (line ∷ more) =
    let l = trim line in
    sort_lines
      (if is_empty l || starts_with l (codes "#")
        then other_line s line
        else file_line s line (fields l))
      more

-- `set.remove(tree)`, of each user that passes the test
unfoldable pub remove_tree :
    (Text → Bool) → Text → HashMap Text (List Text) → HashMap Text (List Text)
remove_tree p tree_name [] = []
remove_tree p tree_name ((user, ts) ∷ more) =
    let rest = remove_tree p tree_name more in
    (user, if p user then filter (λ t. not (t == tree_name)) ts else ts) ∷ rest

unfoldable pub add_tree : List Text → Text → HashMap Text (List Text) → HashMap Text (List Text)
add_tree [] tree_name m = m
add_tree (user ∷ users) tree_name m = add_tree users tree_name (extend user (tree_name ∷ []) m)

unfoldable pub change : SyncAction → HashMap Text (List Text) → HashMap Text (List Text)
unfolding remove_tree add_tree
change (grant user tree_name) m = extend user (tree_name ∷ []) m
change (revoke user tree_name) m = remove_tree (λ u. u == user) tree_name m
change (set_tree_grants tree_name users) m =
    add_tree users tree_name (remove_tree (λ u. not (contains users u)) tree_name m)

-- `join(",")`
unfoldable pub join_comma : List Text → Text
join_comma [] = []
join_comma (t ∷ []) = t
join_comma (t ∷ u ∷ ts) = t ++ (b',' ∷ join_comma (u ∷ ts))

abbrev pub grant_text : Text → List Text → Text
grant_text user ts = codes "grant\t" ++ (user ++ (codes "\t" ++ join_comma ts))

-- The lines of the users, those without a tree left out.
unfoldable pub grant_lines : List (Text × List Text) → List Text
unfolding join_comma sorted_set
grant_lines [] = []
grant_lines ((user, ts) ∷ more) =
    let rest = grant_lines more in
    if is_empty (sorted_set ts) then rest else grant_text user (sorted_set ts) ∷ rest

unfoldable pub mutate_rights_content : Text → SyncAction → Text
unfolding sort_lines change grant_lines sort_by text_leb lines unlines
mutate_rights_content text action =
    let s = sort_lines no_sections (lines text) in
    unlines (
      s.comments
      ++ (s.tree_lines
          ++ grant_lines (sort_by (λ a b. text_leb (a.0) (b.0)) (change action s.user_grants))))

abbrev pub action_names : SyncAction → Bool
action_names (grant user tree_name) = is_valid_identifier user && is_valid_identifier tree_name
action_names (revoke user tree_name) = is_valid_identifier user && is_valid_identifier tree_name
action_names (set_tree_grants tree_name users) =
    is_valid_identifier tree_name && all is_valid_identifier users

abbrev pub mutate_all : Text → List SyncAction → Text
mutate_all text [] = text
mutate_all text (a ∷ more) = mutate_all (mutate_rights_content text a) more

-- The rights file after the actions, or none if a name is refused. A file that cannot be read counts as
-- an empty one.
unfoldable pub apply_sync_actions : Option Text → List SyncAction → Option Text
unfolding mutate_rights_content is_valid_identifier
apply_sync_actions file actions =
    if all action_names actions then some (mutate_all (text_of file) actions) else none
