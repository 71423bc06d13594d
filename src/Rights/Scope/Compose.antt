-- ===== src/Rights/Scope/Compose.antt =====
-- src/rights.rs, `compose`: the lines of its result.
use glasir_control.Prelude.{
  ℕ, ◌+◌, ◌≡◌, refl, sym, ◌∙◌, inl, inr, true, false, not, List, [], ◌∷◌, ◌++◌, map, arith,
  Bool-cases, and-true, or-true, is_empty, filter, contains, contains-append, contains-filter, ◌==◌,
  eq_iff, eq_refl, nat_eq, list_eq, pair_eq, ok, ok_of_bind, ok-injective,
}
use glasir_control.Text.{Text, trim_end, trim}
use glasir_control.Text.Lines.{
  strip_cr, lines, unlines, IsLine, trim-strip_cr, lines-IsLine, AreLines, lines-unlines,
}
use glasir_control.Rights.{Rights, default}
use glasir_control.Rights.Parse.{apply, line_directive, parse_lines, parse}
use glasir_control.Rights.Scope.{is_inside, both_rights, accept, compose}

line_directive-strip_cr : (l : Text) → line_directive (strip_cr l) ≡ line_directive l
unfolding line_directive
line_directive-strip_cr l = rw (trim-strip_cr l)

parse_lines-strip_cr :
    (r : Rights) (ls : List Text) → parse_lines r (map strip_cr ls) ≡ parse_lines r ls
unfolding parse_lines
parse_lines-strip_cr r [] = refl
parse_lines-strip_cr r (l ∷ ls) =
    rw (line_directive-strip_cr l, parse_lines)
      (parse_lines-strip_cr (apply r (line_directive l)) ls)

-- Reading back what was written line by line.
pub parse-unlines : (ls : List Text) → AreLines ls → parse (unlines ls) ≡ parse_lines default ls
unfolding parse
parse-unlines ls h = rw (lines-unlines ls h) (parse_lines-strip_cr default ls)

contains-trim_end : (s : Text) (c : ℕ) → contains s c ≡ false → contains (trim_end s) c ≡ false
unfolding trim_end
contains-trim_end [] c h = refl
contains-trim_end (d ∷ s) c h = ground (arith, contains-trim_end s c)

-- The lines that `accept` takes lie inside the trees, and are lines.
pub record IsAccepted (r : Rights) (ts ls : List Text) : Type 0 where
  pub inside : (l : Text) → contains ls l ≡ true → is_inside r ts l ≡ true
  pub single : AreLines ls

accept_cons :
    (r : Rights) (ts : List Text) (l : Text) (ls : List Text)
    → is_inside r ts l ≡ true
    → IsLine l
    → IsAccepted r ts ls
    → IsAccepted r ts (l ∷ ls)
accept_cons r ts l ls i p h = record {
  inside = λ k m. elim (or-true (l == k) (contains ls k) m) [
    | inl same ↦ rw (← (eq_iff l k).0 same) i
    | inr later ↦ h.inside k later
  ];
  single = λ k m. elim (or-true (l == k) (contains ls k) m) [
    | inl same ↦ rw (← (eq_iff l k).0 same) p
    | inr later ↦ h.single k later
  ];
}

pub accept-IsAccepted :
    (r : Rights) (ts : List Text) (n : ℕ) (ls accepted : List Text)
    → AreLines ls
    → accept r ts n ls ≡ ok accepted
    → IsAccepted r ts accepted
unfolding accept
accept-IsAccepted r ts n [] accepted lines_ok h =
    rw (← ok-injective h) (record { inside = λ l m. cc m; single = λ l m. cc m })
accept-IsAccepted r ts n (line ∷ more) accepted lines_ok h =
    elim (Bool-cases (is_empty (trim (trim_end line)))) [
      | inl blank ↦
          accept-IsAccepted r ts (n + 1) more accepted (λ l m. lines_ok l (ground (arith, m)))
            (rw blank at h)
      | inr full ↦ elim (Bool-cases (is_inside r ts (trim_end line))) [
        | inl near ↦
            let (rest, taken, same) =
              ok_of_bind (accept r ts (n + 1) more) (λ tail. ok (trim_end line ∷ tail))
                (rw (full, near) at h) in
            rw (← ok-injective same) (
              accept_cons r ts (trim_end line) rest near
                (contains-trim_end line b'\n' (lines_ok line (ground (arith, eq_refl line))))
                (accept-IsAccepted r ts (n + 1) more rest (λ l m. lines_ok l (ground (arith, m)))
                  taken))
        | inr far ↦ cc (full, far, h)
      ]
    ]

kept-AreLines :
    (active : Text) (r : Rights) (ts accepted : List Text)
    → IsAccepted r ts accepted
    → AreLines (filter (λ line. not (is_inside r ts line)) (lines active) ++ accepted)
kept-AreLines active r ts accepted good l m =
    let kept = filter (λ line. not (is_inside r ts line)) (lines active) in
    elim (or-true _ _ (sym (contains-append kept accepted l) ∙ m)) [
      | inl old ↦
          lines-IsLine active l
            (and-true _ _
              (sym (contains-filter (λ line. not (is_inside r ts line)) (lines active) l) ∙ old)).1
      | inr new ↦ good.single l new
    ]

-- A composed text is the lines of the active text outside the trees, and accepted lines.
pub compose-lines :
    (active submitted : Text) (ts : List Text) (out : Text)
    → compose active submitted ts ≡ ok out
    → (accepted : List Text) × IsAccepted (both_rights active submitted) ts accepted
      × (parse out
          ≡ parse_lines default (
              filter (λ line. not (is_inside (both_rights active submitted) ts line)) (lines active)
              ++ accepted))
unfolding compose
compose-lines active submitted ts out h =
    let both = both_rights active submitted in
    let kept = filter (λ line. not (is_inside both ts line)) (lines active) in
    let (accepted, taken, same) =
      ok_of_bind (accept both ts 0 (lines submitted)) (λ more. ok (unlines (kept ++ more))) h in
    let good : IsAccepted both ts accepted =
      accept-IsAccepted both ts 0 (lines submitted) accepted (lines-IsLine submitted) taken in
    (
      accepted,
      good,
      rw (← ok-injective same)
          (parse-unlines (kept ++ accepted) (kept-AreLines active both ts accepted good)),
    )
