-- ===== src/Rights/Watched.antt =====
-- src/rights.rs, `Watched`: the rights that are in force are those of the file.
use glasir_control.Prelude.{ℕ, ◌≡◌, sym, ap, Option, none, List, nat_eq, Bool_eq, list_eq, pair_eq}
use glasir_control.Text.{Text, text_of}
use glasir_control.FileCache.{Cached, refresh, after_calls, refresh-after_calls}
use glasir_control.Rights.{Rights, default}
use glasir_control.Rights.Parse.{parse}

abbrev pub Watched : Type 0
Watched = Cached Rights

-- Watched::new
abbrev pub watched_new : Watched
watched_new = record { mtime = none; value = default }

-- `parse(&read_to_string(path).unwrap_or_default())`
abbrev pub rights_in : Option Text → Rights
rights_in text = parse (text_of text)

-- Watched::current; the rights are those of the cache that it leaves.
unfoldable pub watched_current : Option ℕ → Option Text → Watched → Watched
unfolding refresh parse
watched_current = refresh rights_in

-- If a change of the file moves its modification time, so that the text is a function of it, and a file
-- without one cannot be read, then after any calls the rights in force are those of the file: a revoked
-- access is gone without a restart.
pub watched_current-after_calls :
    (content : Option ℕ → Option Text) (times : List (Option ℕ)) (mtime : Option ℕ)
    → content none ≡ none
    → (watched_current mtime
        (content mtime)
        (after_calls rights_in content times watched_new)).value
      ≡ parse (text_of (content mtime))
unfolding watched_current
watched_current-after_calls content times mtime absent =
    refresh-after_calls rights_in content times mtime watched_new
      (unfold parse in sym (ap rights_in absent))
