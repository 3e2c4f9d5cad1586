-- ===== src/History/Deleted.antt =====
-- The fate of one attempt in a history: it takes steps of the life cycle, until `prune_terminal` of
-- src/build_engine/queue/store.py deletes it.
use build_engine.Prelude.{
  ℕ, String, ◌≡◌, refl, ap, ◌∙◌, ◌⊎◌, inl, inr, true, some, List, [], ◌∷◌, ◌++◌, Bool-cases,
}
use build_engine.Table.Laws.{find-delete}
use build_engine.Protocol.Codec.{Codec}
use build_engine.Queue.Rows.{JobRow, Store, has_id}
use build_engine.Queue.Keys.{row_of}
use build_engine.Queue.Store.{is_retired, prune_terminal}
use build_engine.Queue.Life.{Evolves, start, RowSteps, here, RowSteps-trans}
use build_engine.Queue.Life.Table.{IsValid, Evolves-IsValid, Evolves-row}
use build_engine.Queue.Life.Operations.{
  enqueue-Evolves, request_cancel-Evolves, refresh_lease-Evolves, record_executor_crash-Evolves,
  transition-Evolves,
}
use build_engine.Queue.Life.Acquire.{acquire_lease-Evolves}
use build_engine.Outbox.{SpoolLimits, move_cursor, ack_through}
use build_engine.Outbox.Sequence.{prune-jobs}
use build_engine.Outbox.Append.{append-Evolves, append_interrupted-jobs, bump-Evolves}
use build_engine.Outbox.Retention.{prune_terminal-IsValid}
use build_engine.History.{
  Operation, enqueues, acquires, refreshes, transitions, cancels, crashes, appends, acks, prunes,
  inserts, moves_cursor, retires, perform, perform_all,
}

-- An operation takes steps of the life cycle, or is a call of `prune_terminal`.
pub perform-Evolves :
    (codec : Codec) (limits : SpoolLimits) (o : Operation) (s : Store)
    → IsValid s.jobs
    → Evolves s.jobs (perform codec limits o s).jobs
      ⊎ ((now : ℕ) × (days : ℕ) × (o ≡ retires now days))
unfolding perform
perform-Evolves codec limits (enqueues now payload) s v = inl (enqueue-Evolves now payload s)
perform-Evolves codec limits (acquires q) s v = inl (acquire_lease-Evolves q s v)
perform-Evolves codec limits (refreshes now timeout a owner token) s v =
    inl (refresh_lease-Evolves now timeout a owner token s)
perform-Evolves codec limits (transitions now m) s v = inl (transition-Evolves now m s)
perform-Evolves codec limits (cancels now b a) s v = inl (request_cancel-Evolves now b a s)
perform-Evolves codec limits (crashes now c) s v = inl (record_executor_crash-Evolves now c s)
perform-Evolves codec limits (appends now e) s v = inl (append-Evolves codec limits now e s)
perform-Evolves codec limits (acks a last_seq) s v = inl (unfold ack_through in start)
perform-Evolves codec limits (prunes now) s v = inl (rw prune-jobs start)
perform-Evolves codec limits (inserts now e) s v =
    inl (rw (append_interrupted-jobs codec now e s) start)
perform-Evolves codec limits (moves_cursor now a seq) s v =
    inl (unfold move_cursor in bump-Evolves now seq a s.jobs)
perform-Evolves codec limits (retires now days) s v = inr (now, days, refl)

pub perform-IsValid :
    (codec : Codec) (limits : SpoolLimits) (o : Operation) (s : Store)
    → IsValid s.jobs
    → IsValid (perform codec limits o s).jobs
unfolding perform
perform-IsValid codec limits o s v = elim (perform-Evolves codec limits o s v) [
  | inl steps ↦ Evolves-IsValid v steps
  | inr (now, days, e) ↦ rw e (prune_terminal-IsValid now days s v)
]

prune_terminal-row :
    (now days : ℕ) (s : Store) (a : String) (r : JobRow)
    → IsValid s.jobs
    → row_of a s.jobs ≡ some r
    → (row_of a (prune_terminal now days s).1.jobs ≡ some r) ⊎ (is_retired now days r ≡ true)
unfolding prune_terminal
prune_terminal-row now days s a r v at = elim (Bool-cases (is_retired now days r)) [
  | inl old ↦ inr old
  | inr young ↦
      inl (find-delete (is_retired now days) (has_id a) s.jobs (v.keyed a) ∙ rw at (rw young refl))
]

-- A call of `prune_terminal` in the history deleted the attempt, which had come from the row `r` by
-- steps of the life cycle, and was finished and older than the retention.
pub record IsDeleted (codec : Codec) (limits : SpoolLimits) (os : List Operation) (s : Store)
    (a : String) (r : JobRow) : Type 0 where
  pub before_ : List Operation
  pub after_ : List Operation
  pub now : ℕ
  pub days : ℕ
  pub split : os ≡ before_ ++ retires now days ∷ after_
  pub row : JobRow
  pub at : row_of a (perform_all codec limits before_ s).jobs ≡ some row
  pub path : RowSteps r row
  pub old : is_retired now days row ≡ true

abbrev pub Fate : Codec → SpoolLimits → List Operation → Store → String → JobRow → Type 0
Fate codec limits os s a r =
    ((r' : JobRow) × (row_of a (perform_all codec limits os s).jobs ≡ some r') × RowSteps r r')
    ⊎ IsDeleted codec limits os s a r

Fate-first :
    (codec : Codec) (limits : SpoolLimits) (o : Operation) (os : List Operation) (s : Store)
    (a : String) (r x : JobRow)
    → RowSteps r x
    → Fate codec limits os (perform codec limits o s) a x
    → Fate codec limits (o ∷ os) s a r
unfolding perform_all
Fate-first codec limits o os s a r x first (inl (r', at, path)) =
    inl (r', at, RowSteps-trans first path)
Fate-first codec limits o os s a r x first (inr d) = inr (record {
  before_ = o ∷ d.before_;
  after_ = d.after_;
  now = d.now;
  days = d.days;
  split = ap (λ l. o ∷ l) d.split;
  row = d.row;
  at = d.at;
  path = RowSteps-trans first d.path;
  old = d.old;
})

IsDeleted-first :
    (codec : Codec) (limits : SpoolLimits) (now days : ℕ) (os : List Operation) (s : Store)
    (a : String) (r : JobRow)
    → row_of a s.jobs ≡ some r
    → is_retired now days r ≡ true
    → IsDeleted codec limits (retires now days ∷ os) s a r
unfolding perform_all
IsDeleted-first codec limits now days os s a r at old = record {
  before_ = [];
  after_ = os;
  now = now;
  days = days;
  split = refl;
  row = r;
  at = at;
  path = here;
  old = old;
}

-- An attempt of a valid store takes steps of the life cycle, until it is deleted.
pub perform_all-Fate :
    (codec : Codec) (limits : SpoolLimits) (os : List Operation) (s : Store) (a : String)
    (r : JobRow)
    → IsValid s.jobs
    → row_of a s.jobs ≡ some r
    → Fate codec limits os s a r
unfolding perform_all perform
perform_all-Fate codec limits [] s a r v at = inl (r, at, here)
perform_all-Fate codec limits (o ∷ os) s a r v at =
    let valid = perform-IsValid codec limits o s v in
    elim (perform-Evolves codec limits o s v) [
      | inl steps ↦
          let (x, at_x, path) = Evolves-row a r steps at in
          Fate-first codec limits o os s a r x path
            (perform_all-Fate codec limits os (perform codec limits o s) a x valid at_x)
      | inr (now, days, e) ↦ elim (prune_terminal-row now days s a r v at) [
        | inl kept ↦
            Fate-first codec limits o os s a r r here
              (perform_all-Fate codec limits os (perform codec limits o s) a r valid (rw e kept))
        | inr old ↦ rw e (inr (IsDeleted-first codec limits now days os s a r at old))
      ]
    ]
