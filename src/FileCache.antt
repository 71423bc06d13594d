-- ===== src/FileCache.antt =====
-- What auth::Tokens (src/auth.rs) and rights::Watched (src/rights.rs) keep of a file: what was read of it,
-- and the modification time that the file had then.
use glasir_control.Prelude.{
  ℕ, ◌≡◌, refl, ap, ◌∙◌, inl, inr, Bool, true, false, not, Option, none, some, List, [], ◌∷◌,
  if◌then◌else◌, Bool-cases, ◌==◌, eq_iff, nat_eq, Bool_eq, list_eq, pair_eq,
}
use glasir_control.Text.{Text}

pub record Cached (A : Type 0) : Type 0 where
  pub mtime : Option ℕ
  pub value : A

unfoldable pub same_time : Option ℕ → Option ℕ → Bool
same_time none none = true
same_time (some a) (some b) = a == b
same_time _ _ = false

same_time_sound : (a b : Option ℕ) → same_time a b ≡ true → a ≡ b
unfolding same_time
same_time_sound none none h = refl
same_time_sound none (some b) h = cc h
same_time_sound (some a) none h = cc h
same_time_sound (some a) (some b) h = ap some ((eq_iff a b).0 h)

module _ {A : Type 0} (reads : Option Text → A) where
  -- One call, at a time when the file has this modification time and this text.
  unfoldable pub refresh : Option ℕ → Option Text → Cached A → Cached A
  unfolding same_time
  refresh mtime text c =
      if not (same_time c.mtime mtime) then record { mtime = mtime; value = reads text } else c

  -- The cache has what the file had at the modification time that the cache keeps.
  abbrev pub IsFresh : (Option ℕ → Option Text) → Cached A → Type 0
  IsFresh content c = c.value ≡ reads (content c.mtime)

  refresh-reads :
      (content : Option ℕ → Option Text) (mtime : Option ℕ) (c : Cached A)
      → IsFresh content c
      → IsFresh content (refresh mtime (content mtime) c)
        × ((refresh mtime (content mtime) c).value ≡ reads (content mtime))
  unfolding refresh
  refresh-reads content mtime c h = elim (Bool-cases (same_time c.mtime mtime)) [
    | inl same ↦
        let e = same_time_sound c.mtime mtime same in
        rw same (h, h ∙ ap (λ (t : Option ℕ). reads (content t)) e)
    | inr moved ↦ rw moved (refl, refl)
  ]

  -- The cache after calls at these modification times.
  unfoldable pub after_calls : (Option ℕ → Option Text) → List (Option ℕ) → Cached A → Cached A
  unfolding refresh
  after_calls content [] c = c
  after_calls content (mtime ∷ more) c = after_calls content more (refresh mtime (content mtime) c)

  after_calls-IsFresh :
      (content : Option ℕ → Option Text) (times : List (Option ℕ)) (c : Cached A)
      → IsFresh content c
      → IsFresh content (after_calls content times c)
  unfolding after_calls
  after_calls-IsFresh content [] c h = h
  after_calls-IsFresh content (mtime ∷ more) c h =
      after_calls-IsFresh content more _ ((refresh-reads content mtime c h).0)

  pub refresh-after_calls :
      (content : Option ℕ → Option Text) (times : List (Option ℕ)) (mtime : Option ℕ) (c : Cached A)
      → IsFresh content c
      → (refresh mtime (content mtime) (after_calls content times c)).value ≡ reads (content mtime)
  refresh-after_calls content times mtime c h =
      (refresh-reads content mtime (after_calls content times c)
        (after_calls-IsFresh content times c h)).1
