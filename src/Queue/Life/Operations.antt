-- ===== src/Queue/Life/Operations.antt =====
-- The operations of src/build_engine/queue/store.py that delete no rows, taken apart into
-- steps of the life cycle; Queue/Life/Acquire has `acquire_lease`.
use build_engine.Prelude.{
  ℕ, String, ◌≡◌, refl, sym, ◌⊎◌, inl, inr, true, Option, none, some, List, any, arith, Bool-cases,
  Option-cases, subst,
}
use build_engine.Result.{Result, ok, err}
use build_engine.Json.{Fields}
use build_engine.Table.{update}
use build_engine.Queue.Rows.{
  state_name, JobState, QueueError, queued, failed, JobRow, Store, has_id, state_of, given_is,
}
use build_engine.Queue.Keys.{row_of}
use build_engine.Queue.Store.{
  new_row, durable_payload, enqueue_ids, enqueue, insert_job, cancel_applies, request_row,
  request_cancel, enqueue_checked, assignment_ids,
}
use build_engine.Queue.Lease.{ℤ, refresh_applies, refresh_row, refresh_lease}
use build_engine.Queue.Transition.{
  Move, move_applies, move_row, commit_move, move_current, transition, legal_previous, Crash,
  crash_applies, crash_row, crashed, record_executor_crash,
}
use build_engine.Queue.Life.{Evolves, start, step, add, ask_cancel, refresh, move, crash}

enqueue_ids-jobs :
    (now : ℕ) (payload : Fields) (b a : String) (s : Store)
    → (enqueue_ids now payload b a s).1.jobs
      ≡ (insert_job (new_row now b a (durable_payload payload)) s.jobs).0
unfolding enqueue_ids
enqueue_ids-jobs now payload b a s = ground arith

insert_job-Evolves :
    (now : ℕ) (payload : Fields) (b a : String) (jobs : List JobRow)
    → Evolves jobs (insert_job (new_row now b a (durable_payload payload)) jobs).0
unfolding insert_job
insert_job-Evolves now payload b a jobs = elim (Bool-cases (any (has_id a) jobs)) [
  | inl known ↦ rw known start
  | inr fresh ↦ rw fresh (add now b a payload start fresh)
]

enqueue_checked-Evolves :
    (now : ℕ) (payload : Fields) (s : Store) (ids : Result QueueError (String × String))
    → Evolves s.jobs (enqueue_checked now payload s ids).1.jobs
unfolding enqueue_checked
enqueue_checked-Evolves now payload s (err e) = start
enqueue_checked-Evolves now payload s (ok (b, a)) =
    rw enqueue_ids-jobs (insert_job-Evolves now payload b a s.jobs)

pub enqueue-Evolves :
    (now : ℕ) (payload : Fields) (s : Store) → Evolves s.jobs (enqueue now payload s).1.jobs
unfolding enqueue
enqueue-Evolves now payload s = enqueue_checked-Evolves now payload s (assignment_ids payload)

pub request_cancel-Evolves :
    (now : ℕ) (b : String) (a : Option String) (s : Store)
    → Evolves s.jobs (request_cancel now b a s).1.jobs
unfolding request_cancel
request_cancel-Evolves now b none s =
    step (cancel_applies b none) (request_row now) start (λ r. refl)
      (λ r i h. ask_cancel now (ground arith) refl)
request_cancel-Evolves now b (some a) s =
    step (cancel_applies b (some a)) (request_row now) start (λ r. refl)
      (λ r i h. ask_cancel now (ground arith) refl)

refresh_lease-jobs :
    (now : ℕ) (timeout : ℤ) (a owner : String) (token : Option String) (s : Store)
    → (refresh_lease now timeout a owner token s).1.jobs
      ≡ update (refresh_applies a owner token) (refresh_row now timeout) s.jobs
unfolding refresh_lease
refresh_lease-jobs now timeout a owner token s = ground arith

pub refresh_lease-Evolves :
    (now : ℕ) (timeout : ℤ) (a owner : String) (token : Option String) (s : Store)
    → Evolves s.jobs (refresh_lease now timeout a owner token s).1.jobs
refresh_lease-Evolves now timeout a owner token s = rw refresh_lease-jobs (
    step (refresh_applies a owner token) (refresh_row now timeout) start (λ r. refl)
      (λ r i h. refresh now timeout (ground arith) refl))

record_executor_crash-jobs :
    (now : ℕ) (c : Crash) (s : Store)
    → ((record_executor_crash now c s).1.jobs ≡ s.jobs)
      ⊎ ((record_executor_crash now c s).1.jobs
          ≡ update (crash_applies c) (crash_row now c failed) s.jobs)
      ⊎ ((record_executor_crash now c s).1.jobs
          ≡ update (crash_applies c) (crash_row now c queued) s.jobs)
unfolding record_executor_crash crashed
record_executor_crash-jobs now c s = ground arith

pub record_executor_crash-Evolves :
    (now : ℕ) (c : Crash) (s : Store) → Evolves s.jobs (record_executor_crash now c s).1.jobs
record_executor_crash-Evolves now c s = elim (record_executor_crash-jobs now c s) [
  | inl e ↦ rw e start
  | inr (inl e) ↦ rw e (
      step (crash_applies c) (crash_row now c failed) start (λ r. refl)
        (λ r i h. crash now c failed (ground arith) (inr refl) refl))
  | inr (inr e) ↦ rw e (
      step (crash_applies c) (crash_row now c queued) start (λ r. refl)
        (λ r i h. crash now c queued (ground arith) (inl refl) refl))
]

-- A `transition` that changed the store: what it was given, and what it found.
pub record IsMove (now : ℕ) (m : Move) (s : Store) : Type 0 where
  pub current : JobRow
  pub target : JobState
  pub named : state_of m.state ≡ some target
  pub was : row_of m.attempt_id s.jobs ≡ some current
  pub expected : given_is m.expected_state (some (state_name current.state)) ≡ true
  pub owner : given_is m.lease_owner current.lease_owner ≡ true
  pub token : given_is m.lease_token current.lease_token ≡ true
  pub legal : legal_previous target current.state ≡ true
  pub jobs :
      (transition now m s).1.jobs
      ≡ update (move_applies m current.state) (move_row now m target) s.jobs

-- What `move_current` found, where it changed the store.
abbrev Guards : ℕ → Move → JobState → JobRow → Store → Type 0
Guards now m target current s =
    (given_is m.expected_state (some (state_name current.state)) ≡ true)
    × (given_is m.lease_owner current.lease_owner ≡ true)
    × (given_is m.lease_token current.lease_token ≡ true)
    × (legal_previous target current.state ≡ true)
    × ((move_current now m target current s).1.jobs
        ≡ update (move_applies m current.state) (move_row now m target) s.jobs)

move_current-cases :
    (now : ℕ) (m : Move) (target : JobState) (current : JobRow) (s : Store)
    → ((move_current now m target current s).1 ≡ s) ⊎ Guards now m target current s
unfolding move_current commit_move
move_current-cases now m target current s = ground arith

pub transition-cases :
    (now : ℕ) (m : Move) (s : Store) → ((transition now m s).1 ≡ s) ⊎ IsMove now m s
unfolding transition
transition-cases now m s = elim (Option-cases (state_of m.state)) [
  | inl e ↦ inl (ground arith)
  | inr (target, e) ↦ elim (Option-cases (row_of m.attempt_id s.jobs)) [
    | inl f ↦ inl (ground arith)
    | inr (current, f) ↦
        let opened : transition now m s ≡ move_current now m target current s = ground arith in
        elim (move_current-cases now m target current s) [
          | inl same ↦ inl (rw opened same)
          | inr (expected, owner, token, legal, jobs) ↦ inr (record {
            current = current;
            target = target;
            named = e;
            was = f;
            expected = expected;
            owner = owner;
            token = token;
            legal = legal;
            jobs = rw opened jobs;
          })
        ]
  ]
]

pub transition-Evolves :
    (now : ℕ) (m : Move) (s : Store) → Evolves s.jobs (transition now m s).1.jobs
transition-Evolves now m s = elim (transition-cases now m s) [
  | inl e ↦ rw e start
  | inr mv ↦ subst (Evolves s.jobs) (sym mv.jobs) (
      step (move_applies m mv.current.state) (move_row now m mv.target) start (λ r. refl)
        (λ r i h. move now m mv.target (ground (arith, mv.legal)) refl))
]
