-- ===== src/Text/Pieces.antt =====
-- str::split and trim on texts that are put together from pieces.
use glasir_control.Prelude.{
  ℕ, ◌≡◌, refl, ap, ◌∙◌, Bool, true, false, not, ◌&&◌, [], ◌∷◌, ◌++◌, arith, is_empty, any, nat_eq,
  Bool_eq, list_eq, pair_eq,
}
use glasir_control.Text.{Text, is_whitespace, trim_start, trim_end, trim, split_by}

pub split_by-whole : (sep : ℕ → Bool) (s : Text) → any sep s ≡ false → split_by sep s ≡ s ∷ []
unfolding split_by
split_by-whole sep [] h = refl
split_by-whole sep (c ∷ s) h =
    let here : sep c ≡ false = ground arith in
    let later : any sep s ≡ false = ground arith in rw (here, split_by-whole sep s later)

-- What a separator ends is the first piece.
pub split_by-piece :
    (sep : ℕ → Bool) (p : Text) (d : ℕ) (s : Text)
    → any sep p ≡ false
    → sep d ≡ true
    → split_by sep (p ++ d ∷ s) ≡ p ∷ split_by sep s
unfolding split_by
split_by-piece sep [] d s h k = rw k refl
split_by-piece sep (c ∷ p) d s h k =
    let here : sep c ≡ false = ground arith in
    let later : any sep p ≡ false = ground arith in rw (here, split_by-piece sep p d s later k) refl

-- A text that is not empty and holds no white space.
abbrev pub is_word : Text → Bool
is_word s = not (is_empty s) && not (any is_whitespace s)

trim_end-word : (c : ℕ) (s : Text) → any is_whitespace (c ∷ s) ≡ false → trim_end (c ∷ s) ≡ c ∷ s
unfolding trim_end
trim_end-word c [] h = ground arith
trim_end-word c (d ∷ s) h =
    let later : any is_whitespace (d ∷ s) ≡ false = ground arith in
    rw (trim_end-word d s later) refl

not_empty-append : (p : Text) (c : ℕ) (s : Text) → is_empty (p ++ c ∷ s) ≡ false
not_empty-append [] c s = refl
not_empty-append (d ∷ p) c s = refl

trim_end-append :
    (p : Text) (c : ℕ) (s : Text)
    → any is_whitespace (c ∷ s) ≡ false
    → trim_end (p ++ c ∷ s) ≡ p ++ c ∷ s
unfolding trim_end
trim_end-append [] c s h = trim_end-word c s h
trim_end-append (d ∷ p) c s h = rw (trim_end-append p c s h, not_empty-append p c s) refl

trim_start-plain : (c : ℕ) (s : Text) → is_whitespace c ≡ false → trim_start (c ∷ s) ≡ c ∷ s
unfolding trim_start
trim_start-plain c s h = rw h refl

-- What begins with no white space and ends in a word has nothing to trim.
pub trim-framed :
    (d : ℕ) (p s : Text)
    → is_whitespace d ≡ false
    → is_word s ≡ true
    → trim (d ∷ p ++ s) ≡ d ∷ p ++ s
unfolding trim
trim-framed d p [] h w = cc w
trim-framed d p (c ∷ s) h w =
    let plain : any is_whitespace (c ∷ s) ≡ false = ground (arith, w) in
    ap trim_start (trim_end-append (d ∷ p) c s plain) ∙ trim_start-plain d (p ++ c ∷ s) h

pub trim-word : (s : Text) → is_word s ≡ true → trim s ≡ s
unfolding trim
trim-word [] w = cc
trim-word (c ∷ s) w =
    let plain : any is_whitespace (c ∷ s) ≡ false = ground (arith, w) in
    let here : is_whitespace c ≡ false = ground (arith, plain) in
    ap trim_start (trim_end-word c s plain) ∙ trim_start-plain c s here
