-- ===== src/Sync/Mapping.antt =====
-- src/sync.rs: the trees that a mapping gives are names of trees.
use mathlib.Core.Option.{some-injective}
use glasir_control.Prelude.{
  ℕ, ◌+◌, ◌≡◌, sym, ap, ◌∙◌, subst, inl, inr, true, not, ◌&&◌, ◌||◌, Option, none, some, List, [],
  ◌∷◌, Bool-cases, is_empty, ◌==◌, nat_eq, Bool_eq, list_eq, pair_eq, Result, ok, ok_of_bind,
  ok-injective,
}
use glasir_control.Text.{Text, codes, trim, starts_with}
use glasir_control.Text.Lines.{lines}
use glasir_control.HashMap.{HashMap, get, contains_key, insert, get-insert}
use glasir_control.Security.{is_valid_identifier}
use glasir_control.Sync.{
  MappingError, split_once, map_line, map_lines, load_repo_mapping, resolve_tree,
}

abbrev pub IsSound : HashMap Text Text → Type 0
IsSound m =
    (repo tree_name : Text) → get m repo ≡ some tree_name → is_valid_identifier tree_name ≡ true

insert-IsSound :
    (m : HashMap Text Text) (repo tree_name : Text)
    → is_valid_identifier tree_name ≡ true
    → IsSound m
    → IsSound (insert repo tree_name m)
insert-IsSound m repo tree_name valid sound k t h = elim (Bool-cases (repo == k)) [
  | inl same ↦
      let e = some-injective tree_name t (rw (get-insert repo tree_name m k, same) at h) in
      ap is_valid_identifier (sym e) ∙ valid
  | inr other ↦ sound k t (rw (get-insert repo tree_name m k, other) at h)
]

map_line-IsSound :
    (m out : HashMap Text Text) (n : ℕ) (pair : Option (Text × Text))
    → IsSound m
    → ◌≡◌ {A = Result (HashMap Text Text) MappingError} (map_line m n pair) (ok out)
    → IsSound out
map_line-IsSound m out n none sound h = cc h
map_line-IsSound m out n (some (repo, tree_name)) sound h =
    elim (Bool-cases
      (not (starts_with repo (codes "github:")) && not (starts_with repo (codes "gitlab:")))) [
        | inl odd ↦ cc (odd, h)
        | inr provider ↦ elim (Bool-cases (is_valid_identifier (trim tree_name))) [
          | inr bad ↦ cc (provider, bad, h)
          | inl valid ↦ elim (Bool-cases (contains_key m (trim repo))) [
            | inl twice ↦ cc (provider, valid, twice, h)
            | inr fresh ↦
                let made : insert (trim repo) (trim tree_name) m ≡ out =
                  cc (provider, valid, fresh, h) in
                subst IsSound made (insert-IsSound m (trim repo) (trim tree_name) valid sound)
          ]
        ]
      ]

map_lines-IsSound :
    (m out : HashMap Text Text) (n : ℕ) (ls : List Text)
    → IsSound m
    → map_lines m n ls ≡ ok out
    → IsSound out
unfolding map_lines
map_lines-IsSound m out n [] sound h = subst IsSound (ok-injective h) sound
map_lines-IsSound m out n (line ∷ more) sound h =
    elim (Bool-cases (is_empty (trim line) || starts_with (trim line) (codes "#"))) [
      | inl skipped ↦ map_lines-IsSound m out (n + 1) more sound (rw skipped at h)
      | inr stays ↦
          let (m', made, later) =
            ok_of_bind (map_line m (n + 1) (split_once b'\t' (trim line)))
              (λ m'. map_lines m' (n + 1) more) (rw stays at h) in
          map_lines-IsSound m' out (n + 1) more
            (map_line-IsSound m m' (n + 1) (split_once b'\t' (trim line)) sound made) later
    ]

-- The tree that a loaded mapping gives for a repository is a valid identifier.
pub resolve_tree-valid :
    (text : Text) (out : HashMap Text Text) (repo tree_name : Text)
    → load_repo_mapping text ≡ ok out
    → resolve_tree out repo ≡ some tree_name
    → is_valid_identifier tree_name ≡ true
unfolding load_repo_mapping resolve_tree
resolve_tree-valid text out repo tree_name h found =
    map_lines-IsSound [] out 0 (lines text) (λ k t none_there. cc none_there) h repo tree_name found
