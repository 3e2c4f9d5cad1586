-- ===== src/History/Sequenced.antt =====
-- The events of the spool and the cursors of their attempts in a history: the INSERT and the UPDATE of
-- `append` in src/build_engine/queue/store.py follow each other.
use build_engine.Prelude.{
  Bool, false, ap, ◌∙◌, eq_iff, Bool-cases, ℕ, String, ◌≡◌, refl, sym, true, Option, none, some,
  List, [], ◌∷◌, All, arith, subst, inl, inr,
}
use build_engine.Result.{Result, ok, err}
use build_engine.Json.{Fields}
use build_engine.Protocol.Codec.{Codec}
use build_engine.Protocol.Envelope.{Envelope}
use build_engine.Queue.Rows.{JobRow, Store, QueueError, column_is}
use build_engine.Queue.Store.{enqueue, enqueue_checked, enqueue_ids, request_cancel, assignment_ids}
use build_engine.Queue.Lease.{ℤ, LeaseRequest, acquire_lease, take_lease, refresh_lease}
use build_engine.Queue.Transition.{
  Move, transition, move_current, commit_move, Crash, record_executor_crash, crashed,
}
use build_engine.Queue.Life.{Evolves}
use build_engine.Queue.Life.Table.{IsValid}
use build_engine.Queue.Life.Operations.{
  enqueue-Evolves, request_cancel-Evolves, refresh_lease-Evolves, record_executor_crash-Evolves,
  transition-Evolves,
}
use build_engine.Queue.Life.Acquire.{acquire_lease-Evolves}
use build_engine.Outbox.{SpoolLimits, append_interrupted}
use build_engine.Outbox.Sequence.{
  IsSequenced, All-IsCovered-Evolves, prune-IsSequenced, ack_through-IsSequenced,
}
use build_engine.Outbox.Append.{
  append-IsSequenced, move_cursor-IsSequenced, insert_update-IsSequenced, append_interrupted-jobs,
}
use build_engine.Outbox.Retention.{prune_terminal-IsSequenced}
use build_engine.History.{
  Operation, enqueues, acquires, refreshes, transitions, cancels, crashes, appends, acks, prunes,
  inserts, moves_cursor, retires, perform, perform_all, seq_is, is_update_of, goes_on, is_paired,
}
use build_engine.History.Deleted.{perform-IsValid}

enqueue-events :
    (now : ℕ) (payload : Fields) (s : Store) (ids : Result QueueError (String × String))
    → (enqueue_checked now payload s ids).1.events ≡ s.events
unfolding enqueue_checked enqueue_ids
enqueue-events now payload s (err e) = refl
enqueue-events now payload s (ok (b, a)) = ground arith

take_lease-events :
    (q : LeaseRequest) (s : Store) (o : Option (Option JobRow × List JobRow))
    → (take_lease q s o).1.events ≡ s.events
unfolding take_lease
take_lease-events q s none = refl
take_lease-events q s (some (none, jobs)) = refl
take_lease-events q s (some (some row, jobs)) = ground arith

refresh_lease-events :
    (now : ℕ) (timeout : ℤ) (a owner : String) (token : Option String) (s : Store)
    → (refresh_lease now timeout a owner token s).1.events ≡ s.events
unfolding refresh_lease
refresh_lease-events now timeout a owner token s = ground arith

transition-events : (now : ℕ) (m : Move) (s : Store) → (transition now m s).1.events ≡ s.events
unfolding transition move_current commit_move
transition-events now m s = ground arith

crash-events :
    (now : ℕ) (c : Crash) (s : Store) → (record_executor_crash now c s).1.events ≡ s.events
unfolding record_executor_crash crashed
crash-events now c s = ground arith

cancel-events :
    (now : ℕ) (b : String) (a : Option String) (s : Store)
    → (request_cancel now b a s).1.events ≡ s.events
unfolding request_cancel
cancel-events now b a s = ground arith

-- An operation that leaves the events alone keeps them covered.
same_events :
    (s after : Store)
    → after.events ≡ s.events
    → Evolves s.jobs after.jobs
    → IsSequenced s
    → IsSequenced after
same_events s after e evolves h =
    subst (All _) (sym e) (All-IsCovered-Evolves s.jobs after.jobs s.events evolves h)

abbrev is_insert : Operation → Bool
is_insert (inserts now e) = true
is_insert _ = false

perform-IsSequenced :
    (codec : Codec) (limits : SpoolLimits) (o : Operation) (s : Store)
    → is_insert o ≡ false
    → IsValid s.jobs
    → IsSequenced s
    → IsSequenced (perform codec limits o s)
unfolding perform
perform-IsSequenced codec limits (enqueues now payload) s w v h =
    same_events s (enqueue now payload s).1
      (unfold enqueue in enqueue-events now payload s (assignment_ids payload))
      (enqueue-Evolves now payload s) h
perform-IsSequenced codec limits (acquires q) s w v h =
    same_events s (acquire_lease q s).1 (unfold acquire_lease in take_lease-events q s _)
      (acquire_lease-Evolves q s v) h
perform-IsSequenced codec limits (refreshes now timeout a owner token) s w v h =
    same_events s (refresh_lease now timeout a owner token s).1
      (refresh_lease-events now timeout a owner token s)
      (refresh_lease-Evolves now timeout a owner token s) h
perform-IsSequenced codec limits (transitions now m) s w v h =
    same_events s (transition now m s).1 (transition-events now m s) (transition-Evolves now m s) h
perform-IsSequenced codec limits (cancels now b a) s w v h =
    same_events s (request_cancel now b a s).1 (cancel-events now b a s)
      (request_cancel-Evolves now b a s) h
perform-IsSequenced codec limits (crashes now c) s w v h =
    same_events s (record_executor_crash now c s).1 (crash-events now c s)
      (record_executor_crash-Evolves now c s) h
perform-IsSequenced codec limits (appends now e) s w v h = append-IsSequenced codec limits now e s h
perform-IsSequenced codec limits (acks a last_seq) s w v h = ack_through-IsSequenced a last_seq s h
perform-IsSequenced codec limits (prunes now) s w v h = prune-IsSequenced limits now s h
perform-IsSequenced codec limits (inserts now e) s w v h = absurd (ground arith)
perform-IsSequenced codec limits (moves_cursor now a seq) s w v h =
    move_cursor-IsSequenced now a seq s h
perform-IsSequenced codec limits (retires now days) s w v h =
    (prune_terminal-IsSequenced now days s v h).1

seq_is-eq : (seq : Option ℕ) (n : ℕ) → seq_is seq n ≡ true → seq ≡ some n
seq_is-eq none n h = cc
seq_is-eq (some m) n h = ground arith

column_is-eq : (column : Option String) (a : String) → column_is column a ≡ true → column ≡ some a
column_is-eq none a h = cc
column_is-eq (some c) a h = ap some ((eq_iff c a).0 h)

-- The UPDATE that follows an INSERT leaves the events covered.
update_of-IsSequenced :
    (codec : Codec) (limits : SpoolLimits) (now : ℕ) (e : Envelope) (o : Operation) (s : Store)
    → is_update_of e o ≡ true
    → IsSequenced s
    → IsSequenced (perform codec limits o (append_interrupted codec now e s))
unfolding perform
update_of-IsSequenced codec limits now e (moves_cursor later a n) s both h =
    insert_update-IsSequenced codec now later e a n s (column_is-eq e.attempt_id a (ground arith))
      (seq_is-eq e.seq n (ground arith)) h
update_of-IsSequenced codec limits now e (enqueues _ _) s both h = absurd (ground arith)
update_of-IsSequenced codec limits now e (acquires _) s both h = absurd (ground arith)
update_of-IsSequenced codec limits now e (refreshes _ _ _ _ _) s both h = absurd (ground arith)
update_of-IsSequenced codec limits now e (transitions _ _) s both h = absurd (ground arith)
update_of-IsSequenced codec limits now e (cancels _ _ _) s both h = absurd (ground arith)
update_of-IsSequenced codec limits now e (crashes _ _) s both h = absurd (ground arith)
update_of-IsSequenced codec limits now e (appends _ _) s both h = absurd (ground arith)
update_of-IsSequenced codec limits now e (acks _ _) s both h = absurd (ground arith)
update_of-IsSequenced codec limits now e (prunes _) s both h = absurd (ground arith)
update_of-IsSequenced codec limits now e (inserts _ _) s both h = absurd (ground arith)
update_of-IsSequenced codec limits now e (retires _ _) s both h = absurd (ground arith)

is_insert-eq :
    (o : Operation) → is_insert o ≡ true → (now : ℕ) × (e : Envelope) × (o ≡ inserts now e)
is_insert-eq (inserts now e) h = (now, e, refl)
is_insert-eq (enqueues _ _) h = absurd (ground arith)
is_insert-eq (acquires _) h = absurd (ground arith)
is_insert-eq (refreshes _ _ _ _ _) h = absurd (ground arith)
is_insert-eq (transitions _ _) h = absurd (ground arith)
is_insert-eq (cancels _ _ _) h = absurd (ground arith)
is_insert-eq (crashes _ _) h = absurd (ground arith)
is_insert-eq (appends _ _) h = absurd (ground arith)
is_insert-eq (acks _ _) h = absurd (ground arith)
is_insert-eq (prunes _) h = absurd (ground arith)
is_insert-eq (moves_cursor _ _ _) h = absurd (ground arith)
is_insert-eq (retires _ _) h = absurd (ground arith)

perform-inserts :
    (codec : Codec) (limits : SpoolLimits) (now : ℕ) (e : Envelope) (s : Store)
    → perform codec limits (inserts now e) s ≡ append_interrupted codec now e s
unfolding perform
perform-inserts codec limits now e s = refl

-- What a history leads to from a store whose events are covered, and from the store that the INSERT
-- of an event leaves there.
abbrev LeadsOn : Codec → SpoolLimits → List Operation → Store → Type 0
LeadsOn codec limits os s =
    IsSequenced (perform_all codec limits os s)
    × ((now : ℕ) (e : Envelope)
        → goes_on (inserts now e) os ≡ true
        → IsSequenced (perform_all codec limits os (append_interrupted codec now e s)))

-- One operation before a history that leads on from every store.
module _ (codec : Codec) (limits : SpoolLimits) (o : Operation) (os : List Operation) (s : Store)
    (goes : goes_on o os ≡ true) (v : IsValid s.jobs) (h : IsSequenced s)
    (rest : (t : Store) → IsValid t.jobs → IsSequenced t → LeadsOn codec limits os t) where
  first : IsSequenced (perform_all codec limits os (perform codec limits o s))
  first = elim (Bool-cases (is_insert o)) [
    | inl insert ↦
        let (now, e, same) = is_insert-eq o insert in
        rw (ap (λ x. perform codec limits x s) same ∙ perform-inserts codec limits now e s)
          ((rest s v h).1 now e (subst (λ x. goes_on x os ≡ true) same goes))
    | inr other ↦
        (rest (perform codec limits o s) (perform-IsValid codec limits o s v)
          (perform-IsSequenced codec limits o s other v h)).0
  ]

  after_insert :
      (now : ℕ) (e : Envelope)
      → is_update_of e o ≡ true
      → IsSequenced
          (perform_all codec limits os (perform codec limits o (append_interrupted codec now e s)))
  after_insert now e update =
      let t : Store = append_interrupted codec now e s in
      let valid : IsValid t.jobs = subst IsValid (sym (append_interrupted-jobs codec now e s)) v in
      (rest (perform codec limits o t) (perform-IsValid codec limits o t valid)
        (update_of-IsSequenced codec limits now e o s update h)).0

leads_on :
    (codec : Codec) (limits : SpoolLimits) (os : List Operation) (s : Store)
    → is_paired os ≡ true
    → IsValid s.jobs
    → IsSequenced s
    → LeadsOn codec limits os s
unfolding perform_all is_paired
leads_on codec limits [] s paired v h = (h, λ now e last. absurd (ground arith))
leads_on codec limits (o ∷ os) s paired v h =
    let goes : goes_on o os ≡ true = ground arith in
    let later : is_paired os ≡ true = ground arith in
    let rest : (t : Store) → IsValid t.jobs → IsSequenced t → LeadsOn codec limits os t =
      λ t vt ht. leads_on codec limits os t later vt ht in
    (first codec limits o os s goes v h rest, after_insert codec limits o os s goes v h rest)

-- From a valid store whose events are covered by the cursors of their attempts, a history leaves
-- every stored event covered by the cursor of a stored attempt, if the INSERT of each `append` in it
-- is followed at once by the UPDATE of the cursor.
pub perform_all-IsSequenced :
    (codec : Codec) (limits : SpoolLimits) (os : List Operation) (s : Store)
    → is_paired os ≡ true
    → IsValid s.jobs
    → IsSequenced s
    → IsSequenced (perform_all codec limits os s)
perform_all-IsSequenced codec limits os s paired v h = (leads_on codec limits os s paired v h).0
