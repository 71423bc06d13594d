-- ===== src/Policy/View.antt =====
-- src/policy.rs, `read` and `list`: what an administrator sees of the policy and of proposals.
use mathlib.Core.Option.{some-injective}
use mathlib.Core.Option
use glasir_control.Prelude.{
  ◌≡◌, refl, sym, ap, ◌∙◌, inl, inr, Bool, true, Option, none, some, List, [], ◌∷◌, map, Bool-cases,
  and-true, all, filter, contains, contains-filter, nat_eq, Bool_eq, list_eq, pair_eq, ok,
  ok_of_bind, ok-injective, require, ok_of_require,
}
use glasir_control.Text.{Text}
use glasir_control.Text.Lines.{
  strip_cr, lines, unlines, IsLine, trim-strip_cr, lines-IsLine, lines-unlines,
}
use glasir_control.HashMap.{get}
use glasir_control.Rights.{Rights, in_trees}
use glasir_control.Rights.Parse.{parse}
use glasir_control.Rights.Scope.{is_inside, scoped_text}
use glasir_control.Policy.{Proposal, Store, not_found, covers_proposal, load, active_view, read}
use glasir_control.Policy.Approval.{loaded-ok}

strip_cr-inside :
    (r : Rights) (ts : List Text) (l : Text) → is_inside r ts (strip_cr l) ≡ is_inside r ts l
unfolding is_inside
strip_cr-inside r ts l = rw (trim-strip_cr l) refl

all_of-filter : (p : Text → Bool) (ls : List Text) → all p (filter p ls) ≡ true
all_of-filter p [] = refl
all_of-filter p (l ∷ ls) = elim (Bool-cases (p l)) [
  | inl kept ↦ rw kept (rw kept (all_of-filter p ls))
  | inr lost ↦ rw lost (all_of-filter p ls)
]

all-strip_cr :
    (r : Rights) (ts : List Text) (ls : List Text)
    → all (is_inside r ts) (map strip_cr ls) ≡ all (is_inside r ts) ls
all-strip_cr r ts [] = refl
all-strip_cr r ts (l ∷ ls) = rw (strip_cr-inside r ts l, all-strip_cr r ts ls)

filtered-AreLines :
    (p : Text → Bool) (text : Text) (l : Text)
    → contains (filter p (lines text)) l ≡ true
    → IsLine l
filtered-AreLines p text l h =
    lines-IsLine text l
      ((and-true (p l) (contains (lines text) l) (sym (contains-filter p (lines text) l) ∙ h)).1)

-- Each line of a tenant's view reaches only the tenant's trees.
scoped_text-inside :
    (text : Text) (ts : List Text)
    → all (is_inside (parse text) ts) (lines (scoped_text text ts)) ≡ true
unfolding scoped_text
scoped_text-inside text ts =
    let kept = filter (is_inside (parse text) ts) (lines text) in
    let back : lines (unlines kept) ≡ map strip_cr kept =
      lines-unlines kept (filtered-AreLines (is_inside (parse text) ts) text) in
    ap (all (is_inside (parse text) ts)) back
    ∙ all-strip_cr (parse text) ts kept
    ∙ all_of-filter (is_inside (parse text) ts) (lines text)

-- What a tenant's administrator is shown: a proposal that reaches into their trees only, and of it and
-- of the active policy the lines that do.
pub record IsInsideView (s : Store) (asked : Text) (ts : List Text) (shown text : Text)
    : Type 0 where
  pub stored : Proposal
  pub original : Text
  pub at_key : get s.proposals asked ≡ some (some stored)
  pub proposed : stored.rights ≡ some original
  pub covered : covers_proposal (in_trees ts) stored ≡ true
  pub active_lines : all (is_inside (parse s.active) ts) (lines text) ≡ true
  pub proposed_lines : all (is_inside (parse original) ts) (lines shown) ≡ true

map-some :
    (f : Text → Text) (o : Option Text) (b : Text)
    → Option.map f o ≡ some b
    → (a : Text) × (o ≡ some a) × (f a ≡ b)
map-some f none b h = cc h
map-some f (some a) b h = (a, refl, some-injective (f a) b h)

-- If a tenant's administrator reads a proposal that has rights, the stored proposal lies within the
-- trees, and each line that is shown of the active and of the proposed rights reaches only the trees.
pub read-inside :
    (s : Store) (asked : Text) (ts : List Text) (value : Proposal) (shown text : Text)
    → read s asked (in_trees ts) ≡ ok (value, text)
    → value.rights ≡ some shown
    → IsInsideView s asked ts shown text
unfolding read active_view
read-inside s asked ts value shown text h has =
    let (stored, at_load, h1) = ok_of_bind (load s asked) _ h in
    let (u2, at_scope, h2) =
      ok_of_bind (require (covers_proposal (in_trees ts) stored) not_found) _ h1 in
    let pair = ok-injective h2 in
    let view : Option.map (λ t. scoped_text t ts) stored.rights ≡ some shown =
      ap (λ (p : Proposal × Text). (p.0).rights) pair ∙ has in
    let (original, proposed, same) = map-some (λ t. scoped_text t ts) stored.rights shown view in
    record {
      stored = stored;
      original = original;
      at_key = loaded-ok (get s.proposals asked) stored at_load;
      proposed = proposed;
      covered = ok_of_require _ not_found u2 at_scope;
      active_lines =
          ap (λ (t : Text). all (is_inside (parse s.active) ts) (lines t))
            (sym (ap (λ (p : Proposal × Text). p.1) pair))
          ∙ scoped_text-inside s.active ts;
      proposed_lines =
          ap (λ (t : Text). all (is_inside (parse original) ts) (lines t)) (sym same)
          ∙ scoped_text-inside original ts;
    }
