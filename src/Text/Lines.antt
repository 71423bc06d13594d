-- ===== src/Text/Lines.antt =====
-- str::lines, and the lines of a text that is put together from lines.
use glasir_control.Prelude.{
  ◌≡◌, refl, ap, ◌∙◌, inl, inr, true, false, List, [], ◌∷◌, ◌++◌, map, append_assoc, append-nil,
  arith, if◌then◌else◌, Bool-cases, or-true, is_empty, contains, contains-append, ◌==◌, eq_iff,
  eq_refl, nat_eq, list_eq, pair_eq,
}
use glasir_control.Text.{Text, trim_end, trim}

-- A line that a line feed ends loses one carriage return before it.
unfoldable pub strip_cr : Text → Text
strip_cr [] = []
strip_cr (c ∷ []) = if c == b'\r' then [] else c ∷ []
strip_cr (c ∷ d ∷ s) = c ∷ strip_cr (d ∷ s)

-- The lines from here on, with what was read of the current line before it.
unfoldable pub lines_from : Text → Text → List Text
unfolding strip_cr
lines_from cur [] = if is_empty cur then [] else cur ∷ []
lines_from cur (c ∷ s) =
    let ended = strip_cr cur ∷ lines_from [] s in
    let longer = lines_from (cur ++ c ∷ []) s in if c == b'\n' then ended else longer

unfoldable pub lines : Text → List Text
unfolding lines_from
lines s = lines_from [] s

-- Each line with a line feed behind it, as the program writes lines out.
unfoldable pub unlines : List Text → Text
unlines [] = []
unlines (l ∷ ls) = l ++ b'\n' ∷ unlines ls

abbrev pub IsLine : Text → Type 0
IsLine s = contains s b'\n' ≡ false

trim_end-strip_cr : (s : Text) → trim_end (strip_cr s) ≡ trim_end s
unfolding strip_cr trim_end
trim_end-strip_cr [] = refl
trim_end-strip_cr (c ∷ []) = ground (arith, eq_iff c b'\r')
trim_end-strip_cr (c ∷ d ∷ s) = rw (trim_end-strip_cr (d ∷ s))

-- A carriage return at the end of a line is white space.
pub trim-strip_cr : (s : Text) → trim (strip_cr s) ≡ trim s
unfolding trim
trim-strip_cr s = rw (trim_end-strip_cr s)

strip_cr-IsLine : (s : Text) → IsLine s → IsLine (strip_cr s)
unfolding strip_cr
strip_cr-IsLine [] h = refl
strip_cr-IsLine (c ∷ []) h = ground arith
strip_cr-IsLine (c ∷ d ∷ s) h = ground (arith, strip_cr-IsLine (d ∷ s))

lines_from-IsLine :
    (cur s : Text) → IsLine cur → (l : Text) → contains (lines_from cur s) l ≡ true → IsLine l
unfolding lines_from
lines_from-IsLine cur [] h l m = ground (arith, eq_iff cur l)
lines_from-IsLine cur (c ∷ s) h l m = elim (Bool-cases (c == b'\n')) [
  | inl ended ↦ elim (or-true (strip_cr cur == l) (contains (lines_from [] s) l) (ground arith)) [
    | inl first ↦ rw (← (eq_iff (strip_cr cur) l).0 first) (strip_cr-IsLine cur h)
    | inr later ↦ lines_from-IsLine [] s refl l later
  ]
  | inr longer ↦
      lines_from-IsLine (cur ++ c ∷ []) s (ground (arith, contains-append cur (c ∷ []) b'\n')) l
        (ground arith)
]

-- No line holds a line feed.
pub lines-IsLine : (s l : Text) → contains (lines s) l ≡ true → IsLine l
unfolding lines
lines-IsLine s l m = lines_from-IsLine [] s refl l m

lines_from-line :
    (cur l rest : Text)
    → IsLine l
    → lines_from cur (l ++ b'\n' ∷ rest) ≡ strip_cr (cur ++ l) ∷ lines rest
unfolding lines_from lines
lines_from-line cur [] rest h = rw (append-nil cur)
lines_from-line cur (c ∷ l) rest h =
    ground (arith, lines_from-line (cur ++ c ∷ []) l rest, append_assoc cur (c ∷ []) l)

-- A line that is written out is read back, but for a carriage return at its end.
pub lines-line : (l rest : Text) → IsLine l → lines (l ++ b'\n' ∷ rest) ≡ strip_cr l ∷ lines rest
lines-line l rest h = unfold lines in lines_from-line [] l rest h

abbrev pub AreLines : List Text → Type 0
AreLines ls = (l : Text) → contains ls l ≡ true → IsLine l

pub lines-unlines : (ls : List Text) → AreLines ls → lines (unlines ls) ≡ map strip_cr ls
unfolding unlines lines
lines-unlines [] h = refl
lines-unlines (l ∷ ls) h =
    unfold lines in
    lines-line l (unlines ls) (h l (ground (arith, eq_refl l)))
    ∙ ap (λ (t : List Text). strip_cr l ∷ t) (lines-unlines ls (λ k m. h k (ground (arith, m))))
