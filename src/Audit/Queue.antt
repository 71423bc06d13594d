-- ===== src/Audit/Queue.antt =====
-- src/audit.rs: the bounded queue between the request handlers and the writer thread, as a machine whose
-- steps are a call of `record` and a round of the writer's loop. What the writer appends is a list here;
-- the file itself is in Audit/Log.
use glasir_control.Prelude.{
  ℕ, zero, suc, ◌+◌, ◌%◌, ◌^◌, ◌<◌, ◌≡◌, refl, sym, ap, ◌∙◌, subst, inl, inr, Bool, true, false,
  Option, none, some, List, [], ◌∷◌, ◌++◌, map, append_assoc, append-nil, arith, ltb, if◌then◌else◌,
  Bool-cases, length, nat_eq, Bool_eq, list_eq, pair_eq,
}
use glasir_control.Crypto.Padding.{length-append}
use glasir_control.Audit.{Record}
use glasir_control.Audit.Chain.{Event}

abbrev pub queue_capacity : ℕ
queue_capacity = 2048

-- `logged` has each appended record with the number that its line gives as dropped before it; `missed`
-- is the writer's own variable.
pub record Machine : Type 0 where
  pub queue : List Record
  pub dropped : ℕ
  pub missed : ℕ
  pub remote_failed : ℕ
  pub logged : List Event

-- Audit::start
abbrev pub start : Machine
start = record { queue = []; dropped = 0; missed = 0; remote_failed = 0; logged = [] }

-- A round of the writer: whether the record could be appended, and whether the remote collector took
-- it, if there is one.
pub data Action : Type 0 where
  submit : Record → Action
  write : Bool → Option Bool → Action

abbrev pub after_delivery : Option Bool → ℕ → ℕ
after_delivery (some false) n = (n + 1) % 2 ^ 64
after_delivery _ n = n

abbrev pub write_next : Machine → List Record → Bool → Option Bool → Machine
write_next m [] saved delivered = m
write_next m (rec ∷ more) saved delivered =
    let missed = (m.missed + m.dropped) % 2 ^ 64 in
    if saved
    then record {
      queue = more;
      dropped = 0;
      missed = 0;
      remote_failed = after_delivery delivered m.remote_failed;
      logged = m.logged ++ (rec, missed) ∷ [];
    }
    else record m { queue = more; dropped = 0; missed = missed }

-- `try_send` refuses when the channel is full.
unfoldable pub step : Machine → Action → Machine
step m (submit rec) =
    if ltb (length m.queue) queue_capacity
    then record m { queue = m.queue ++ rec ∷ [] }
    else record m { dropped = (m.dropped + 1) % 2 ^ 64 }
step m (write saved delivered) = write_next m m.queue saved delivered

unfoldable pub run_actions : Machine → List Action → Machine
unfolding step
run_actions m [] = m
run_actions m (a ∷ more) = run_actions (step m a) more

abbrev pub submitted : List Action → ℕ
submitted [] = 0
submitted (submit rec ∷ more) = 1 + submitted more
submitted (write saved delivered ∷ more) = submitted more

-- Whether a round takes a record and cannot append it.
abbrev pub fails : List Record → Action → ℕ
fails (rec ∷ more) (write false delivered) = 1
fails _ _ = 0

abbrev pub failed_writes : Machine → List Action → ℕ
failed_writes m [] = 0
failed_writes m (a ∷ more) = fails m.queue a + failed_writes (step m a) more

abbrev pub reported : List Event → ℕ
reported [] = 0
reported (e ∷ es) = e.1 + reported es

-- Every record that the machine has seen, but for those whose write failed.
abbrev pub accounted : Machine → ℕ
accounted m = length m.queue + (length m.logged + (reported m.logged + (m.missed + m.dropped)))

reported-append : (xs ys : List Event) → reported (xs ++ ys) ≡ reported xs + reported ys
reported-append [] ys = omega arith
reported-append (x ∷ xs) ys = omega (arith, reported-append xs ys)

write-accounted :
    (m : Machine) (saved : Bool) (delivered : Option Bool)
    → accounted m < 2 ^ 64
    → accounted (step m (write saved delivered)) + fails m.queue (write saved delivered)
      ≡ accounted m
unfolding step
write-accounted m saved delivered h = go m.queue saved h
  where
    go :
        (q : List Record) (saved : Bool)
        → length q + (length m.logged + (reported m.logged + (m.missed + m.dropped))) < 2 ^ 64
        → accounted (write_next (record m { queue = q }) q saved delivered)
            + fails q (write saved delivered)
          ≡ length q + (length m.logged + (reported m.logged + (m.missed + m.dropped)))
    go [] saved h = omega arith
    go (rec ∷ more) true h =
        let missed = (m.missed + m.dropped) % 2 ^ 64 in
        omega (
          arith,
          length-append m.logged ((rec, missed) ∷ []),
          reported-append m.logged ((rec, missed) ∷ []),
        )
    go (rec ∷ more) false h = omega arith

submit_fails : (q : List Record) (rec : Record) → fails q (submit rec) ≡ 0
submit_fails [] rec = refl
submit_fails (x ∷ q) rec = refl

submit-accounted :
    (m : Machine) (rec : Record)
    → accounted m + 1 < 2 ^ 64
    → accounted (step m (submit rec)) ≡ accounted m + 1
unfolding step
submit-accounted m rec h = elim (Bool-cases (ltb (length m.queue) queue_capacity)) [
  | inl room ↦ rw room (omega (arith, length-append m.queue (rec ∷ [])))
  | inr full ↦ rw full (omega arith)
]

run_actions-accounted :
    (m : Machine) (actions : List Action)
    → accounted m + submitted actions < 2 ^ 64
    → accounted (run_actions m actions) + failed_writes m actions ≡ accounted m + submitted actions
unfolding run_actions
run_actions-accounted m [] h = omega arith
run_actions-accounted m (submit rec ∷ more) h =
    let now = submit-accounted m rec (omega arith) in
    let none_failed : fails m.queue (submit rec) ≡ 0 = submit_fails m.queue rec in
    omega (
      arith,
      now,
      none_failed,
      run_actions-accounted (step m (submit rec)) more (omega (arith, now)),
    )
run_actions-accounted m (write saved delivered ∷ more) h =
    let now = write-accounted m saved delivered (omega arith) in
    omega
      (arith, now, run_actions-accounted (step m (write saved delivered)) more (omega (arith, now)))

-- No record is lost silently, but for those whose write fails: after any calls and rounds of the writer,
-- fewer than 2 ^ 64 calls in all, the records that wait, that are logged, that the log gives as dropped,
-- that are counted as dropped, and whose write failed are as many as the calls.
pub run_actions_lem :
    (actions : List Action)
    → submitted actions < 2 ^ 64
    → accounted (run_actions start actions) + failed_writes start actions ≡ submitted actions
run_actions_lem actions h = omega (arith, run_actions-accounted start actions (omega arith))

-- So many rounds of the writer in which the record can be appended.
abbrev pub rounds : ℕ → List Action
rounds zero = []
rounds (suc n) = write true none ∷ rounds n

abbrev pub records_of : List Event → List Record
records_of es = map (λ e. e.0) es

records_of-append : (xs ys : List Event) → records_of (xs ++ ys) ≡ records_of xs ++ records_of ys
records_of-append [] ys = refl
records_of-append (x ∷ xs) ys = ap (λ (t : List Record). x.0 ∷ t) (records_of-append xs ys)

run_actions-rounds :
    (q : List Record) (m : Machine)
    → m.queue ≡ q
    → ((run_actions m (rounds (length q))).queue ≡ [])
      × (records_of (run_actions m (rounds (length q))).logged ≡ records_of m.logged ++ q)
unfolding run_actions step
run_actions-rounds [] m e = (e, sym (append-nil (records_of m.logged)))
run_actions-rounds (rec ∷ q) m e =
    let m' = write_next m (rec ∷ q) true none in
    let now : step m (write true none) ≡ m' =
      unfold step in ap (λ (r : List Record). write_next m r true none) e in
    let (empty, logged) = run_actions-rounds q m' refl in
    subst
      (λ (n : Machine).
        ((run_actions n (rounds (length q))).queue ≡ [])
        × (records_of (run_actions n (rounds (length q))).logged ≡ records_of m.logged ++ rec ∷ q))
      (sym now)
      (
        empty,
        logged
            ∙ ap (λ (t : List Record). t ++ q)
                (records_of-append m.logged ((rec, (m.missed + m.dropped) % 2 ^ 64) ∷ []))
            ∙ append_assoc (records_of m.logged) (rec ∷ []) q,
      )

-- From any state, as many successful rounds of the writer as there are records waiting log all of them,
-- in the order in which they were queued, behind what was logged before.
pub rounds_drain :
    (m : Machine)
    → ((run_actions m (rounds (length m.queue))).queue ≡ [])
      × (records_of (run_actions m (rounds (length m.queue))).logged
          ≡ records_of m.logged ++ m.queue)
rounds_drain m = run_actions-rounds m.queue m refl
