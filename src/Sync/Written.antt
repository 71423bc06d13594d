-- ===== src/Sync/Written.antt =====
-- src/sync.rs, `mutate_rights_content`: the lines that are written, as `parse` reads them again.
-- A name that a line of grants can hold: not empty, without white space and without a comma.
use glasir_control.Prelude.{
  ℕ, ◌≡◌, refl, sym, ap, ◌∙◌, inl, inr, Bool, true, false, not, ◌&&◌, ◌||◌, List, [], ◌∷◌, ◌++◌,
  map, append_assoc, arith, if◌then◌else◌, Bool-cases, and-true, and_intro, is_empty, any, all,
  filter, any-append, contains, contains-append, ◌==◌, eq_refl, eq_iff, nat_eq, Bool_eq, list_eq,
  pair_eq,
}
use glasir_control.Text.{Text, codes, is_whitespace, trim, starts_with, split_by, split_trimmed}
use glasir_control.Text.Lines.{strip_cr, trim-strip_cr}
use glasir_control.Text.Pieces.{split_by-whole, split_by-piece, is_word, trim-framed, trim-word}
use glasir_control.Rights.Parse.{malformed, fields, items, directive, line_directive}
use glasir_control.Rights.Parse.Effects.{grant_items}
use glasir_control.Sync.Mutate.{join_comma, grant_text}
use glasir_control.Sync.Grants.{grants_tree, grant_items_of_three}

abbrev pub is_plain : Text → Bool
is_plain name = is_word name && not (any (λ c. c == b',') name)

plain_word : (s : Text) → is_plain s ≡ true → is_word s ≡ true
plain_word s h = (and-true (is_word s) (not (any (λ c. c == b',') s)) h).0

no_space : (s : Text) → is_word s ≡ true → any is_whitespace s ≡ false
no_space s h = ground (arith, h)

-- White space that is absent from a text is absent one character by another.
no_char :
    (d : ℕ) (s : Text)
    → is_whitespace d ≡ true
    → any is_whitespace s ≡ false
    → any (λ c. c == d) s ≡ false
no_char d [] w h = refl
no_char d (c ∷ s) w h =
    let later : any is_whitespace s ≡ false = ground (arith, h) in
    let here : is_whitespace c ≡ false = ground (arith, h) in
    elim (Bool-cases (c == d)) [
      | inl same ↦ cc (w, rw ((eq_iff c d).0 same) at here)
      | inr other ↦ rw other (no_char d s w later)
    ]

no_char-contains : (d : ℕ) (s : Text) → any (λ c. c == d) s ≡ false → contains s d ≡ false
no_char-contains d [] h = refl
no_char-contains d (c ∷ s) h = ground (arith, h, no_char-contains d s)

comma_plain : is_whitespace b',' ≡ false
unfolding is_whitespace
comma_plain = refl

joined_words : (a b : Text) → is_word a ≡ true → is_word b ≡ true → is_word (a ++ b',' ∷ b) ≡ true
joined_words [] b wa wb = cc wa
joined_words (c ∷ a) b wa wb =
    let spaces : any is_whitespace (c ∷ a ++ b',' ∷ b) ≡ false =
      any-append is_whitespace (c ∷ a) (b',' ∷ b)
      ∙ rw (no_space (c ∷ a) wa, comma_plain, no_space b wb) refl in
    ap not spaces

-- The names of a list, between commas.
join_comma-word :
    (t : Text) (ts : List Text)
    → all is_plain (t ∷ ts) ≡ true
    → is_word (join_comma (t ∷ ts)) ≡ true
unfolding join_comma
join_comma-word t [] h = plain_word t (and-true (is_plain t) true h).0
join_comma-word t (u ∷ ts) h =
    let (here, later) = and-true (is_plain t) (all is_plain (u ∷ ts)) h in
    let rest = join_comma-word u ts later in
    joined_words t (join_comma (u ∷ ts)) (plain_word t here) rest

split_by-join_comma :
    (t : Text) (ts : List Text)
    → all is_plain (t ∷ ts) ≡ true
    → split_by (λ c. c == b',') (join_comma (t ∷ ts)) ≡ t ∷ ts
unfolding join_comma
split_by-join_comma t [] h = split_by-whole _ t (ground (arith, h))
split_by-join_comma t (u ∷ ts) h =
    let (here, later) = and-true (is_plain t) (all is_plain (u ∷ ts)) h in
    split_by-piece _ t b',' (join_comma (u ∷ ts)) (ground (arith, here)) refl
    ∙ ap (λ (ps : List Text). t ∷ ps) (split_by-join_comma u ts later)

trimmed_words :
    (ws : List Text)
    → all is_word ws ≡ true
    → filter (λ piece. not (is_empty piece)) (map trim ws) ≡ ws
trimmed_words [] h = refl
trimmed_words (w ∷ ws) h =
    let (here, later) = and-true (is_word w) (all is_word ws) h in
    let full : not (is_empty w) ≡ true = ground (arith, here) in
    rw (trim-word w here, full) (ap (λ (ps : List Text). w ∷ ps) (trimmed_words ws later))

plain_words : (ts : List Text) → all is_plain ts ≡ true → all is_word ts ≡ true
plain_words [] h = refl
plain_words (t ∷ ts) h =
    let (here, later) = and-true (is_plain t) (all is_plain ts) h in
    and_intro _ _ (plain_word t here) (plain_words ts later)

items-join_comma :
    (t : Text) (ts : List Text)
    → all is_plain (t ∷ ts) ≡ true
    → items (join_comma (t ∷ ts)) ≡ t ∷ ts
unfolding items split_trimmed
items-join_comma t ts h =
    ap (λ (ps : List Text). filter (λ piece. not (is_empty piece)) (map trim ps))
      (split_by-join_comma t ts h)
    ∙ trimmed_words (t ∷ ts) (plain_words (t ∷ ts) h)

fields_of_three :
    (a b c : Text)
    → is_word a ≡ true
    → is_word b ≡ true
    → is_word c ≡ true
    → fields (a ++ b'\t' ∷ (b ++ b'\t' ∷ c)) ≡ a ∷ b ∷ c ∷ []
unfolding fields split_trimmed
fields_of_three a b c ha hb hc =
    let tab : is_whitespace b'\t' ≡ true = unfold is_whitespace in refl in
    let pieces : split_by (λ d. d == b'\t') (a ++ b'\t' ∷ (b ++ b'\t' ∷ c)) ≡ a ∷ b ∷ c ∷ [] =
      split_by-piece _ a b'\t' (b ++ b'\t' ∷ c) (no_char b'\t' a tab (no_space a ha)) refl
      ∙ ap (λ (ps : List Text). a ∷ ps)
          (split_by-piece _ b b'\t' c (no_char b'\t' b tab (no_space b hb)) refl
            ∙ ap (λ (ps : List Text). b ∷ ps)
                (split_by-whole _ c (no_char b'\t' c tab (no_space c hc)))) in
    ap (λ (ps : List Text). filter (λ piece. not (is_empty piece)) (map trim ps)) pieces
    ∙ trimmed_words (a ∷ b ∷ c ∷ []) (rw (ha, hb, hc) refl)

line_directive_of :
    (l : Text) (c : ℕ) (s : Text)
    → trim l ≡ c ∷ s
    → c == b'#' ≡ false
    → line_directive l ≡ directive (fields (c ∷ s))
unfolding line_directive starts_with
line_directive_of l c s e h =
    ap
      (λ (x : Text).
        if is_empty x || starts_with x (codes "#") then malformed else directive (fields x))
      e
    ∙ rw h refl

read_line :
    (user t : Text) (ts : List Text) (u x names : Text)
    → items names ≡ t ∷ ts
    → contains (grant_items (directive (codes "grant" ∷ user ∷ names ∷ [])) u) x
      ≡ user == u && contains (t ∷ ts) x
read_line user t ts u x names got =
    ap (λ (xs : List Text). contains xs x) (grant_items_of_three (codes "grant") user names u)
    ∙ rw (eq_refl (codes "grant"), got) (ground arith)

trim-grant_text :
    (user names : Text)
    → is_word names ≡ true
    → trim (codes "grant\t" ++ (user ++ (codes "\t" ++ names)))
      ≡ codes "grant\t" ++ (user ++ (codes "\t" ++ names))
trim-grant_text user names h =
    let same : codes "grant\t" ++ (user ++ (codes "\t" ++ names))
        ≡ b'g' ∷ ((codes "rant\t" ++ (user ++ codes "\t")) ++ names) =
      ap (λ (l : Text). codes "grant\t" ++ l) (sym (append_assoc user (codes "\t") names)) in
    ap trim same
    ∙ trim-framed b'g' (codes "rant\t" ++ (user ++ codes "\t")) names (unfold is_whitespace in refl)
        h
    ∙ sym same

-- A written line grants its trees to its user and nothing else.
pub grants_tree-grant_text :
    (user t : Text) (ts : List Text) (u x : Text)
    → is_plain user ≡ true
    → all is_plain (t ∷ ts) ≡ true
    → grants_tree u x (grant_text user (t ∷ ts)) ≡ user == u && contains (t ∷ ts) x
grants_tree-grant_text user t ts u x plain all_plain =
    let names = join_comma (t ∷ ts) in
    let names_word = join_comma-word t ts all_plain in
    let grant_word : is_word (codes "grant") ≡ true = unfold is_whitespace in refl in
    let trimmed : trim (grant_text user (t ∷ ts)) ≡ grant_text user (t ∷ ts) =
      trim-grant_text user names names_word in
    let parts : fields (grant_text user (t ∷ ts)) ≡ codes "grant" ∷ user ∷ names ∷ [] =
      fields_of_three (codes "grant") user names grant_word (plain_word user plain) names_word in
    ap (λ d. contains (grant_items d u) x)
      (line_directive_of (grant_text user (t ∷ ts)) _ _ trimmed refl ∙ ap directive parts)
    ∙ read_line user t ts u x names (items-join_comma t ts all_plain)

-- A written line is one line.
pub grant_text-IsLine :
    (user t : Text) (ts : List Text)
    → is_plain user ≡ true
    → all is_plain (t ∷ ts) ≡ true
    → contains (grant_text user (t ∷ ts)) b'\n' ≡ false
grant_text-IsLine user t ts hu ht =
    let feed : is_whitespace b'\n' ≡ true = unfold is_whitespace in refl in
    let names = join_comma (t ∷ ts) in
    let in_user =
      no_char-contains b'\n' user (no_char b'\n' user feed (no_space user (plain_word user hu))) in
    let in_names =
      no_char-contains b'\n' names
        (no_char b'\n' names feed (no_space names (join_comma-word t ts ht))) in
    contains-append (codes "grant\t") (user ++ (codes "\t" ++ names)) b'\n'
    ∙ rw (contains-append user (codes "\t" ++ names) b'\n', in_user, in_names) refl

-- A carriage return at the end of a line changes nothing.
pub line_directive-strip_cr : (l : Text) → line_directive (strip_cr l) ≡ line_directive l
unfolding line_directive
line_directive-strip_cr l = rw (trim-strip_cr l) refl
