-- ===== src/Sync/Applied.antt =====
-- src/sync.rs, `apply_sync_actions`: who has which tree by the rights file that is written.
use mathlib.Core.Option.{some-injective}
use glasir_control.Prelude.{
  ◌≡◌, refl, sym, ap, ◌∙◌, inl, inr, Bool, true, false, not, some, List, [], ◌∷◌, ◌++◌, map, arith,
  Bool-cases, and-true, any, all, any-append, all-append, contains, all-contains, all_intro, nat_eq,
  Bool_eq, list_eq, pair_eq,
}
use glasir_control.Text.{Text}
use glasir_control.Text.Lines.{strip_cr, lines, unlines, lines-IsLine, lines-unlines}
use glasir_control.Text.Order.{text_leb, sort_by, any-sort_by, all-sort_by}
use glasir_control.HashMap.{HashMap, HasDistinctKeys, get_list}
use glasir_control.Rights.Parse.{parse}
use glasir_control.Rights.Parse.Effects.{grant_items, contains-grants}
use glasir_control.Rights.Validate.{distinct}
use glasir_control.Sync.Payload.{SyncAction}
use glasir_control.Sync.Mutate.{
  no_sections, sort_lines, change, grant_lines, mutate_rights_content, action_names,
  apply_sync_actions,
}
use glasir_control.Sync.Grants.{granted_after, grants_tree, change-sort_lines}
use glasir_control.Sync.Written.{line_directive-strip_cr}
use glasir_control.Sync.Kept.{
  has_tree, any-has_tree, change-HasDistinctKeys, is_other, sort_lines-IsKept,
}
use glasir_control.Sync.Rewrite.{
  is_plain_entry, HasPlainNames, change-HasPlainNames, any-grant_lines, grant_lines-AreLines,
}

sort_by-HasPlainNames :
    (le : Text × List Text → Text × List Text → Bool) (es : List (Text × List Text))
    → HasPlainNames es
    → HasPlainNames (sort_by le es)
sort_by-HasPlainNames le es h = all-sort_by le is_plain_entry es ∙ h

any-strip_cr :
    (u x : Text) (ls : List Text)
    → any (grants_tree u x) (map strip_cr ls) ≡ any (grants_tree u x) ls
any-strip_cr u x [] = refl
any-strip_cr u x (l ∷ ls) = rw (grants_tree-strip_cr l, any-strip_cr u x ls) refl
  where
    grants_tree-strip_cr : (k : Text) → grants_tree u x (strip_cr k) ≡ grants_tree u x k
    grants_tree-strip_cr k = ap (λ d. contains (grant_items d u) x) (line_directive-strip_cr k)

-- What `parse` reads of lines that are written.
parse-unlines :
    (ls : List Text) (u x : Text)
    → all (λ l. not (contains l b'\n')) ls ≡ true
    → contains (get_list (parse (unlines ls)).grants u) x ≡ any (grants_tree u x) ls
unfolding parse
parse-unlines ls u x h =
    contains-grants (lines (unlines ls)) u x
    ∙ ap (any (grants_tree u x)) (
        lines-unlines ls (λ l m.
          let line_of = all-contains (λ k. not (contains k b'\n')) ls l h m in
          ground (arith, line_of)))
    ∙ any-strip_cr u x ls

no_grants :
    (u x : Text) (ls : List Text) → all (is_other u x) ls ≡ true → any (grants_tree u x) ls ≡ false
no_grants u x [] h = refl
no_grants u x (l ∷ ls) h =
    let (here, later) = and-true (is_other u x l) (all (is_other u x) ls) h in
    let nothing : grants_tree u x l ≡ false = ground (arith, here) in
    rw (nothing, no_grants u x ls later) refl

others-AreLines :
    (u x : Text) (ls : List Text)
    → all (is_other u x) ls ≡ true
    → all (λ l. not (contains l b'\n')) ls ≡ true
others-AreLines u x [] h = refl
others-AreLines u x (l ∷ ls) h =
    let (here, later) = and-true (is_other u x l) (all (is_other u x) ls) h in
    rw ((and-true (not (contains l b'\n')) _ here).0, others-AreLines u x ls later) refl

lines-AreLines : (text : Text) → all (λ l. not (contains l b'\n')) (lines text) ≡ true
lines-AreLines text =
    all_intro (λ l. not (contains l b'\n')) (lines text) (λ l m. ap not (lines-IsLine text l m))

-- The kept lines and the lines of a map of grants, as `parse` reads them.
written_grants :
    (u x : Text) (comments trees : List Text) (m : HashMap Text (List Text))
    → all (is_other u x) comments ≡ true
    → all (is_other u x) trees ≡ true
    → HasDistinctKeys m
    → HasPlainNames m
    → contains
        (get_list
          (parse (
            unlines (
              comments ++ (trees ++ grant_lines (sort_by (λ a b. text_leb (a.0) (b.0)) m))))).grants
          u)
        x
      ≡ contains (get_list m u) x
written_grants u x comments trees m hc ht distinct plain =
    let le = λ (a b : Text × List Text). text_leb (a.0) (b.0) in
    let g = grants_tree u x in
    let es = sort_by le m in
    let plain_es : HasPlainNames es = sort_by-HasPlainNames le m plain in
    let are_lines : all (λ l. not (contains l b'\n')) (comments ++ (trees ++ grant_lines es))
        ≡ true =
      all-append _ comments (trees ++ grant_lines es)
      ∙ rw
          (
            all-append (λ (l : Text). not (contains l b'\n')) trees (grant_lines es),
            others-AreLines u x comments hc,
            others-AreLines u x trees ht,
            grant_lines-AreLines es plain_es,
          )
          refl in
    parse-unlines (comments ++ (trees ++ grant_lines es)) u x are_lines
    ∙ any-append g comments (trees ++ grant_lines es)
    ∙ rw (any-append g trees (grant_lines es), no_grants u x comments hc, no_grants u x trees ht)
        (any-grant_lines es u x plain_es
          ∙ any-sort_by le (has_tree u x) m
          ∙ any-has_tree u x m distinct)

pub mutate_rights_content-grants :
    (text : Text) (action : SyncAction) (u t : Text)
    → HasPlainNames (sort_lines no_sections (lines text)).user_grants
    → action_names action ≡ true
    → contains (get_list (parse (mutate_rights_content text action)).grants u) t
      ≡ granted_after action u t (contains (get_list (parse text).grants u) t)
unfolding mutate_rights_content
mutate_rights_content-grants text action u t plain names =
    let s = sort_lines no_sections (lines text) in
    let (hc, ht, distinct) =
      sort_lines-IsKept u t no_sections (lines text) (lines-AreLines text) (refl, refl, tt) in
    written_grants u t s.comments s.tree_lines (change action s.user_grants) hc ht
      (change-HasDistinctKeys action s.user_grants distinct)
      (change-HasPlainNames action s.user_grants names plain)
    ∙ change-sort_lines text action u t

-- When `apply_sync_actions` accepts an action, `parse` reads of the text that it writes the direct grants of the
-- text before, changed as the action says: for each user and tree, a grant adds exactly the one pair, a revocation
-- takes exactly the one away, and setting the users of a tree leaves that tree to exactly these users and every
-- other tree as it was. The condition is that the users and the trees in the grant lines of the text before are
-- words without white space and commas.
pub apply_sync_actions-grants :
    (text out : Text) (action : SyncAction) (u t : Text)
    → HasPlainNames (sort_lines no_sections (lines text)).user_grants
    → apply_sync_actions (some text) (action ∷ []) ≡ some out
    → contains (get_list (parse out).grants u) t
      ≡ granted_after action u t (contains (get_list (parse text).grants u) t)
unfolding apply_sync_actions
apply_sync_actions-grants text out action u t plain h = elim (Bool-cases (action_names action)) [
  | inl names ↦
      let same : mutate_rights_content text action ≡ out =
        some-injective (mutate_rights_content text action) out (rw names at h) in
      ap (λ (file : Text). contains (get_list (parse file).grants u) t) (sym same)
      ∙ mutate_rights_content-grants text action u t plain names
  | inr refused ↦ cc (refused, h)
]
