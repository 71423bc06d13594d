-- ===== src/Sync.antt =====
-- src/sync.rs, `load_repo_mapping` and `resolve_tree`: which local tree a repository of a code host
-- stands for.
pub mod Mapping
pub mod Payload
pub mod Mutate
pub mod Events
pub mod Grants
pub mod Written
pub mod Kept
pub mod Rewrite
pub mod Applied
pub mod Reconcile
mod Tests
use glasir_control.Prelude.{
  ℕ, ◌+◌, not, ◌&&◌, ◌||◌, Option, none, some, List, [], ◌∷◌, if◌then◌else◌, is_empty, ◌==◌, nat_eq,
  Bool_eq, list_eq, pair_eq, Result, ok, err, ◌>>=◌,
}
use glasir_control.Text.{Text, codes, trim, starts_with}
use glasir_control.Text.Lines.{lines}
use glasir_control.HashMap.{HashMap, get, contains_key, insert}
use glasir_control.Security.{is_valid_identifier}

pub data MappingError : Type 0 where
  no_tab : ℕ → MappingError
  unknown_provider : ℕ → MappingError
  invalid_tree : ℕ → MappingError
  duplicate_repository : ℕ → MappingError

abbrev pub behind : ℕ → Option (Text × Text) → Option (Text × Text)
behind c none = none
behind c (some (left, right)) = some (c ∷ left, right)

-- str::split_once, at a character
unfoldable pub split_once : ℕ → Text → Option (Text × Text)
split_once sep [] = none
split_once sep (c ∷ s) =
    let rest = split_once sep s in if c == sep then some ([], s) else behind c rest

-- One line that is no comment.
abbrev pub map_line :
    HashMap Text Text → ℕ → Option (Text × Text) → Result (HashMap Text Text) MappingError
map_line out n none = err (no_tab n)
map_line out n (some (repo, tree_name)) =
    if not (starts_with repo (codes "github:")) && not (starts_with repo (codes "gitlab:"))
    then err (unknown_provider n)
    else if not (is_valid_identifier (trim tree_name))
    then err (invalid_tree n)
    else if contains_key out (trim repo)
    then err (duplicate_repository n)
    else ok (insert (trim repo) (trim tree_name) out)

-- The loop over the lines.
unfoldable pub map_lines :
    HashMap Text Text → ℕ → List Text → Result (HashMap Text Text) MappingError
unfolding split_once trim starts_with is_valid_identifier contains_key insert
map_lines out n [] = ok out
map_lines out n (line ∷ more) =
    let l = trim line in
    let skipped = map_lines out (n + 1) more in
    if is_empty l || starts_with l (codes "#")
    then skipped
    else (do out' ← map_line out (n + 1) (split_once b'\t' l); map_lines out' (n + 1) more)

unfoldable pub load_repo_mapping : Text → Result (HashMap Text Text) MappingError
unfolding map_lines lines
load_repo_mapping text = map_lines [] 0 (lines text)

-- SyncConfig::resolve_tree, with the configuration's mapping
unfoldable pub resolve_tree : HashMap Text Text → Text → Option Text
unfolding get
resolve_tree repo_mapping repo = get repo_mapping repo
