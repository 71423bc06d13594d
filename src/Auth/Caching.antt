-- ===== src/Auth/Caching.antt =====
-- src/auth.rs, `Tokens`: the cached entries are those of the file.
use glasir_control.Prelude.{ℕ, ◌≡◌, sym, ap, Option, none, List, nat_eq, Bool_eq, list_eq, pair_eq}
use glasir_control.Text.{Text}
use glasir_control.FileCache.{after_calls, refresh-after_calls}
use glasir_control.Auth.{read, new, current}

-- If a change of the file moves its modification time, so that the text is a function of it, and a
-- file without one cannot be read, then after any calls `current` gives the entries of the file.
pub current-after_calls :
    (content : Option ℕ → Option Text) (times : List (Option ℕ)) (mtime : Option ℕ)
    → content none ≡ none
    → (current mtime (content mtime) (after_calls read content times new)).value
      ≡ read (content mtime)
unfolding current
current-after_calls content times mtime absent =
    refresh-after_calls read content times mtime new (unfold read in sym (ap read absent))
