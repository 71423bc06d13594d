-- ===== src/Sync/Payload.antt =====
-- src/sync.rs: the fields of a webhook's payload, and the action that it stands for.
use mathlib.Core.Option
use glasir_control.Prelude.{
  ℕ, zero, suc, ◌-◌, Bool, true, false, not, ◌&&◌, ◌||◌, Option, none, some, List, [], ◌∷◌, ◌++◌,
  if◌then◌else◌, length, is_empty, ◌==◌, nat_eq, Bool_eq, list_eq, pair_eq, Result, ok, ◌>>=◌,
  ok_or, require, or_else, and_then,
}
use glasir_control.Text.{
  Text, codes, text_of, is_whitespace, trim_start, trim, starts_with, strip_prefix,
}
use glasir_control.HashMap.{HashMap}
use glasir_control.Security.{escaped, is_valid_principal, is_valid_identifier}
use glasir_control.Crypto.{drop}
use glasir_control.Sync.{split_once, resolve_tree}

-- The text before the closing quotation mark, its escapes as they stand; without one the text is empty.
abbrev pub until_quote : Bool → Text → Option Text
until_quote escaped [] = none
until_quote true (c ∷ s) = Option.map (λ t. c ∷ t) (until_quote false s)
until_quote false (c ∷ s) =
    let escaped_next = Option.map (λ t. c ∷ t) (until_quote true s) in
    let more = Option.map (λ t. c ∷ t) (until_quote false s) in
    if c == b'\\' then escaped_next else if c == b'"' then some [] else more

abbrev pub ends_value : ℕ → Bool
ends_value c = c == b',' || c == b'}' || c == b']' || is_whitespace c

abbrev pub take_until : (ℕ → Bool) → Text → Text
take_until p [] = []
take_until p (c ∷ s) = let rest = take_until p s in if p c then [] else c ∷ rest

abbrev pub string_value_of : Option Text → Text → Text
string_value_of (some after_quote) plain = text_of (until_quote false after_quote)
string_value_of none plain = trim (take_until ends_value plain)

-- What stands behind the colon.
abbrev pub value_part : Text → Text
value_part s = string_value_of (strip_prefix s (codes "\"")) s

abbrev pub at_colon : Option (Text × Text) → Option Text → Option Text
at_colon none later = later
at_colon (some (before, behind_colon)) later =
    if not (is_empty (trim before)) then later else some (value_part (trim_start behind_colon))

-- The loop of `extract_json_field`, with how many characters are to be skipped before the next search.
unfoldable pub search_field : Text → ℕ → Text → Option Text
unfolding starts_with trim trim_start strip_prefix split_once is_whitespace
search_field needle skip [] = none
search_field needle (suc skip) (c ∷ s) = search_field needle skip s
search_field needle zero (c ∷ s) =
    let plain = search_field needle 0 s in
    let later = search_field needle (length needle - 1) s in
    if starts_with (c ∷ s) needle
    then at_colon (split_once b':' (drop (length needle) (c ∷ s))) later
    else plain

abbrev pub needle_of : Text → Text
needle_of name = codes "\"" ++ (name ++ codes "\"")

unfoldable pub extract_json_field : Text → Text → Option Text
unfolding search_field
extract_json_field json name = search_field (needle_of name) 0 json

-- `&s[s.find(p)?..]`
abbrev pub find_from : Text → Text → Option Text
find_from [] p = if is_empty p then some [] else none
find_from (c ∷ s) p =
    let later = find_from s p in if starts_with (c ∷ s) p then some (c ∷ s) else later

-- One round of `extract_nested_field`: the slice from the brace behind the key on.
abbrev pub enter : Text → Text → Option Text
enter slice key =
    and_then (find_from slice (needle_of key))
      (λ s. find_from (drop (length (needle_of key)) s) (codes "{"))

-- A path is a key, or more than one.
unfoldable pub extract_nested_field : Text → List Text → Option Text
unfolding extract_json_field starts_with
extract_nested_field json [] = none
extract_nested_field json (key ∷ []) = extract_json_field json key
extract_nested_field json (key ∷ second ∷ path) =
    and_then (enter json key) (λ slice. extract_nested_field slice (second ∷ path))

pub data SyncAction : Type 0 where
  grant : (user tree_name : Text) → SyncAction
  revoke : (user tree_name : Text) → SyncAction
  set_tree_grants : (tree_name : Text) (users : List Text) → SyncAction

pub data WebhookError : Type 0 where
  missing_action : WebhookError
  missing_user : WebhookError
  missing_repository : WebhookError
  invalid_identifier : WebhookError

abbrev pub check_names : Text → Text → Result (Unit {0}) WebhookError
check_names user tree_name =
    require (is_valid_principal user && is_valid_identifier tree_name) invalid_identifier

abbrev pub github_action : Text → Text → Text → Option SyncAction
github_action action user tree_name =
    if action == codes "added"
    then some (grant user tree_name)
    else if action == codes "removed" || action == codes "deleted"
    then some (revoke user tree_name)
    else none

abbrev pub for_tree :
    Option Text
    → (Text → Result (Option SyncAction) WebhookError)
    → Result (Option SyncAction) WebhookError
for_tree none f = ok none
for_tree (some tree_name) f = f tree_name

unfoldable pub handle_github_webhook :
    Text → Text → HashMap Text Text → Result (Option SyncAction) WebhookError
unfolding extract_json_field extract_nested_field resolve_tree
handle_github_webhook event payload mapping =
    if event == codes "member"
    then (do
      action ← ok_or (extract_json_field payload (codes "action")) missing_action
      user ← ok_or (extract_nested_field payload (codes "member" ∷ codes "login" ∷ [])) missing_user
      repo ←
          ok_or (extract_nested_field payload (codes "repository" ∷ codes "full_name" ∷ []))
            missing_repository
      for_tree (resolve_tree mapping (codes "github:" ++ repo))
          λ tree_name. do _ ← check_names user tree_name; ok (github_action action user tree_name))
    else ok none

abbrev pub gitlab_member :
    Text → HashMap Text Text → (Text → Text → SyncAction) → Result (Option SyncAction) WebhookError
gitlab_member payload mapping made = do
  user ←
      ok_or
        (or_else (extract_json_field payload (codes "user_username"))
          (extract_json_field payload (codes "username")))
        missing_user
  group ← ok_or (extract_json_field payload (codes "group_path")) missing_repository
  for_tree (resolve_tree mapping (codes "gitlab:" ++ group))
      λ tree_name. do _ ← check_names user tree_name; ok (some (made user tree_name))

unfoldable pub handle_gitlab_webhook :
    Text → HashMap Text Text → Result (Option SyncAction) WebhookError
unfolding extract_json_field resolve_tree
handle_gitlab_webhook payload mapping =
    let event_name = text_of (
      or_else (extract_json_field payload (codes "event_name"))
        (extract_json_field payload (codes "object_kind"))) in
    if event_name == codes "user_add_to_team" || event_name == codes "user_add_to_group"
    then gitlab_member payload mapping grant
    else if event_name == codes "user_remove_from_team"
        || event_name == codes "user_remove_from_group"
    then gitlab_member payload mapping revoke
    else ok none
