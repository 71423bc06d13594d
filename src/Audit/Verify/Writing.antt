-- ===== src/Audit/Verify/Writing.antt =====
-- src/audit.rs: a log that the writer has signed from its first line on verifies.
use glasir_control.Prelude.{
  ℕ, ◌+◌, ◌≤◌, ◌<◌, ◌≡◌, refl, sym, ap, ◌∙◌, subst, false, Option, none, some, List, [], ◌∷◌, ◌++◌,
  map, append_assoc, append-nil, arith, leb, length, is_empty, nat_eq, Bool_eq, list_eq, pair_eq,
  ok, bind_ok, require_ok, ok_or_some, or_else,
}
use glasir_control.Text.{Text, codes, text_of, byte_len}
use glasir_control.Text.Lines.{lines, unlines}
use glasir_control.Json.{Value}
use glasir_control.Audit.Log.{
  Disk, max_bytes, rotate_segment, rotate, last_match, short_key, unreadable, line_hmac,
  segment_hmac, last_hmac, write_record, verify_lines, verify_backup, verify,
}
use glasir_control.Audit.Chain.{
  Event, Signed, line_of, sign, chain, last_of, AllRead, AllRead-append, chain-append,
}
use glasir_control.Audit.Verify.{verify_lines-chain}
use glasir_control.Audit.Verify.Reading.{lines-chain, last-chain}

-- The log after the events, each written with the key.
abbrev pub write_all : (Text → Option Value) → List ℕ → Disk → List Event → Disk
write_all from_str key disk [] = disk
write_all from_str key disk (e ∷ es) =
    write_all from_str key ((write_record from_str disk (e.0) (e.1) (some key)).0) es

abbrev pub no_log : Disk
no_log = record { live = none; backup = none }

-- The text of the log that has these events.
abbrev pub log_text : List ℕ → List Event → Text
log_text key es = unlines (map line_of (chain key [] es))

record IsLog (key : List ℕ) (disk : Disk) (done : List Event) : Type 0 where
  pub content : text_of disk.live ≡ log_text key done
  pub not_rotated : disk.backup ≡ none

byte_len-append : (a b : Text) → byte_len (a ++ b) ≡ byte_len a + byte_len b
unfolding byte_len
byte_len-append [] b = omega arith
byte_len-append (c ∷ a) b = omega (arith, byte_len-append a b)

unlines-append : (xs ys : List Text) → unlines (xs ++ ys) ≡ unlines xs ++ unlines ys
unfolding unlines
unlines-append [] ys = refl
unlines-append (l ∷ xs) ys =
    ap (λ (t : Text). l ++ (b'\n' ∷ t)) (unlines-append xs ys)
    ∙ sym (append_assoc l (b'\n' ∷ unlines xs) (unlines ys))

lines_of-append : (xs ys : List Signed) → map line_of (xs ++ ys) ≡ map line_of xs ++ map line_of ys
lines_of-append [] ys = refl
lines_of-append (l ∷ xs) ys = ap (λ (t : List Text). line_of l ∷ t) (lines_of-append xs ys)

log_text-append :
    (key : List ℕ) (xs ys : List Event)
    → log_text key (xs ++ ys)
      ≡ log_text key xs ++ unlines (map line_of (chain key (last_of key [] xs) ys))
log_text-append key xs ys =
    ap (λ (t : List Signed). unlines (map line_of t)) (chain-append key [] xs ys)
    ∙ ap unlines (lines_of-append (chain key [] xs) (chain key (last_of key [] xs) ys))
    ∙ unlines-append (map line_of (chain key [] xs))
        (map line_of (chain key (last_of key [] xs) ys))

rotate_segment_small :
    (live backup : Option Text)
    → byte_len (text_of live) < max_bytes
    → rotate_segment live backup ≡ record { live = live; backup = backup }
rotate_segment_small none backup h = refl
rotate_segment_small (some text) backup h =
    let small : leb max_bytes (byte_len text) ≡ false = ground (arith, h) in rw small refl

rotate_small : (disk : Disk) → byte_len (text_of disk.live) < max_bytes → rotate disk ≡ disk
unfolding rotate
rotate_small disk h = rotate_segment_small disk.live disk.backup h

live_text :
    (live : Option Text) (text : Text)
    → text_of live ≡ text
    → is_empty text ≡ false
    → live ≡ some text
live_text none text h full = cc (h, full)
live_text (some t) text h full = ap some h

module _ (from_str : Text → Option Value) (key : List ℕ) where
  segment_lines :
      (live : Option Text)
      → text_of (or_else (segment_hmac from_str live) none)
        ≡ text_of (last_match (line_hmac from_str) (lines (text_of live)))
  unfolding lines
  segment_lines none = refl
  segment_lines (some text) = go (last_match (line_hmac from_str) (lines text))
    where
      go : (o : Option Text) → text_of (or_else o none) ≡ text_of o
      go none = refl
      go (some a) = refl

  last_hmac-log :
      (disk : Disk) (done : List Event)
      → IsLog key disk done
      → AllRead from_str (chain key [] done)
      → text_of (last_hmac from_str disk) ≡ last_of key [] done
  unfolding last_hmac
  last_hmac-log disk done log reads =
      ap (λ o. text_of (or_else (segment_hmac from_str disk.live) (segment_hmac from_str o)))
        log.not_rotated
      ∙ segment_lines disk.live
      ∙ ap (λ (t : Text). text_of (last_match (line_hmac from_str) (lines t))) log.content
      ∙ ap (λ (t : List Text). text_of (last_match (line_hmac from_str) t))
          (lines-chain key [] done refl)
      ∙ last-chain from_str key done reads

  write_record-IsLog :
      (disk : Disk) (done : List Event) (e : Event)
      → IsLog key disk done
      → AllRead from_str (chain key [] done)
      → byte_len (log_text key done) < max_bytes
      → IsLog key ((write_record from_str disk (e.0) (e.1) (some key)).0) (done ++ e ∷ [])
  unfolding write_record unlines
  write_record-IsLog disk done e log reads small =
      let still : rotate disk ≡ disk = rotate_small disk (rw log.content small) in
      let last : text_of (last_hmac from_str (rotate disk)) ≡ last_of key [] done =
        ap (λ (d : Disk). text_of (last_hmac from_str d)) still
        ∙ last_hmac-log disk done log reads in
      record {
        content =
            ap
              (λ (d : Disk).
                text_of d.live
                ++ (line_of (sign key (text_of (last_hmac from_str (rotate disk))) e)
                    ++ codes "\n"))
              still
            ∙ ap (λ (t : Text). text_of disk.live ++ (line_of (sign key t e) ++ codes "\n")) last
            ∙ ap (λ (t : Text). t ++ (line_of (sign key (last_of key [] done) e) ++ codes "\n"))
                log.content
            ∙ sym (log_text-append key done (e ∷ []));
        not_rotated = ap (λ (d : Disk). d.backup) still ∙ log.not_rotated;
      }

  write_all-IsLog :
      (disk : Disk) (done es : List Event)
      → IsLog key disk done
      → AllRead from_str (chain key [] (done ++ es))
      → byte_len (log_text key (done ++ es)) < max_bytes
      → IsLog key (write_all from_str key disk es) (done ++ es)
  write_all-IsLog disk done [] log reads small = subst (IsLog key disk) (sym (append-nil done)) log
  write_all-IsLog disk done (e ∷ es) log reads small =
      let (before, after) =
        AllRead-append from_str (chain key [] done) _
          (subst (AllRead from_str) (chain-append key [] done (e ∷ es)) reads) in
      let len =
        byte_len-append (log_text key done)
          (unlines (map line_of (chain key (last_of key [] done) (e ∷ es)))) in
      let text = ap byte_len (log_text-append key done (e ∷ es)) in
      let fits : byte_len (log_text key done) < max_bytes = omega (arith, len, text, small) in
      let step = write_record-IsLog disk done e log before fits in
      let shift : (done ++ e ∷ []) ++ es ≡ done ++ e ∷ es = append_assoc done (e ∷ []) es in
      subst (IsLog key (write_all from_str key disk (e ∷ es))) shift (
        write_all-IsLog ((write_record from_str disk (e.0) (e.1) (some key)).0) (done ++ e ∷ []) es
          step (rw shift reads) (rw shift small))

  -- A log that is written with a key of at least 32 bytes verifies, with as many records as were
  -- written, as long as it has some, it stays below the size at which it is rotated, and serde_json
  -- reads its lines.
  pub verify-write_all :
      (e : Event) (es : List Event)
      → 32 ≤ length key
      → AllRead from_str (chain key [] (e ∷ es))
      → byte_len (log_text key (e ∷ es)) < max_bytes
      → verify from_str (write_all from_str key no_log (e ∷ es)) key ≡ ok (1 + length es)
  unfolding verify
  verify-write_all e es long reads small =
      let disk = write_all from_str key no_log (e ∷ es) in
      let start : IsLog key no_log [] =
        unfold unlines in record { content = refl; not_rotated = refl } in
      let log = write_all-IsLog no_log [] (e ∷ es) start reads small in
      let here : disk.live ≡ some (log_text key (e ∷ es)) =
        live_text disk.live (log_text key (e ∷ es)) log.content (unfold unlines in refl) in
      bind_ok _ (require_ok {test = leb 32 (length key)} short_key (ground (arith, long))) (
        bind_ok _ (ap (verify_backup from_str key) log.not_rotated) (
          bind_ok _ (ok_or_some unreadable here) (
            bind_ok _
              (ap (verify_lines from_str key [] 0 0) (lines-chain key [] (e ∷ es) refl)
                ∙ verify_lines-chain from_str key [] 0 0 (e ∷ es) refl reads)
              (ap ok (omega arith)))))
