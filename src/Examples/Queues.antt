-- ===== src/Examples/Queues.antt =====
-- Runs of the queue.
use build_engine.Prelude.{
  ℕ, ◌≢◌, String, ◌≡◌, refl, subst, true, false, Option, none, some, List, [], ◌∷◌, All, arith, ◌⊎◌,
  str_eq, if◌then◌else◌,
}
use build_engine.Result.{ok, err}
use build_engine.Json.{get}
use build_engine.Ident.{is_uuid}
use build_engine.Table.{find}
use build_engine.Queue.Rows.{
  state_of, queued, succeeded, JobState, JobRow, Store, QueueError, unknown_attempt, column_is,
}
use build_engine.Queue.Keys.{row_of}
use build_engine.Queue.Store.{
  required_payload_uuid, assignment_ids, enqueue, is_cancel_requested, with_transient_payload,
}
use build_engine.Queue.Lease.{acquire_lease}
use build_engine.Queue.Lease.Grant.{Acquired}
use build_engine.Queue.Lease.Acquired.{acquire_lease-Acquired}
use build_engine.Queue.Transition.{Move, transition, Crash, crash_row, record_executor_crash}
use build_engine.Queue.Fencing.{acquire_lease-exclusive, transition-fenced, crash-fenced}
use build_engine.Queue.Crashes.{
  IsCrashOf, IsCrashed, report_crash, report_crash-IsCrashed, report_crash-forgets_cancel,
}
use build_engine.Queue.Moves.{IsAllowed, IsMoved, transition-IsMoved, transition-IsAllowed}
use build_engine.Queue.Secrets.{IsRepeated, enqueue-IsRepeated, HasNoSecrets}
use build_engine.Queue.Life.{Follows, IsFinal}
use build_engine.Queue.Life.Table.{IsValid}
use build_engine.History.{Operation, enqueues, acquires, cancels, inserts, retires, perform_all}
use build_engine.History.Deleted.{IsDeleted}
use build_engine.History.Laws.{
  perform_all-IsValid, perform_all-Follows, perform_all-IsFinal, perform_all-HasNoSecrets,
}
use build_engine.Examples.Samples.{
  build_1, attempt_1, attempt_2, assignment, waiting, working, done, store_of, two_rows-IsKeyed,
  two_rows-IsValid, two_rows-HasNoSecrets, request, limits, one_text, event,
}

abbrev finished : Store
finished = store_of (waiting ∷ done ∷ [])

abbrev busy : ℕ → Store
busy leases = store_of (waiting ∷ working leases ∷ [])

abbrev calls : List Operation
calls =
    cancels 100 build_1 none
    ∷ enqueues 200 assignment
    ∷ acquires request
    ∷ inserts 300 event
    ∷ retires 900_000_000 7
    ∷ []

acquire_lease-Acquired_example : Acquired request finished
acquire_lease-Acquired_example =
    acquire_lease-Acquired request finished (two_rows-IsKeyed done refl)

perform_all-IsValid_example : IsValid (perform_all one_text limits calls finished).jobs
perform_all-IsValid_example = perform_all-IsValid one_text limits calls finished two_rows-IsValid

second : row_of attempt_2 finished.jobs ≡ some done
unfolding find
second = refl

perform_all-IsFinal_example :
    ((r' : JobRow) × (row_of attempt_2 (perform_all one_text limits calls finished).jobs ≡ some r')
      × IsFinal done r')
    ⊎ ((d : IsDeleted one_text limits calls finished attempt_2 done) × IsFinal done d.row)
perform_all-IsFinal_example =
    perform_all-IsFinal one_text limits calls finished attempt_2 done two_rows-IsValid second refl

perform_all-Follows_example :
    ((r' : JobRow) × (row_of attempt_2 (perform_all one_text limits calls finished).jobs ≡ some r')
      × Follows done r')
    ⊎ ((d : IsDeleted one_text limits calls finished attempt_2 done) × Follows done d.row)
perform_all-Follows_example =
    perform_all-Follows one_text limits calls finished attempt_2 done two_rows-IsValid second

perform_all-HasNoSecrets_example :
    All HasNoSecrets (perform_all one_text limits calls finished).jobs
perform_all-HasNoSecrets_example =
    perform_all-HasNoSecrets one_text limits calls finished two_rows-IsValid two_rows-HasNoSecrets

working_row : (n : ℕ) → row_of attempt_2 (busy n).jobs ≡ some (working n)
unfolding find
working_row n = refl

acquire_lease-exclusive_example :
    row_of attempt_2 (acquire_lease request (busy 1)).1.jobs ≡ some (working 1)
acquire_lease-exclusive_example =
    acquire_lease-exclusive request (busy 1) attempt_2 (working 1) 5_000
      (two_rows-IsKeyed (working 1) refl) (working_row 1) refl refl (omega arith)

abbrev stale_move : Move
stale_move = record {
  attempt_id = attempt_2;
  state = "SUCCEEDED";
  error = none;
  expected_state = some "RUNNING";
  lease_owner = some "worker-1";
  lease_token = some "token-0";
}

other_token : ◌≢◌ {A = Option String} (some "token-1") (some "token-0")
other_token = λ e. let h : false ≡ true = subst (λ c. column_is c "token-1" ≡ true) e refl in cc

transition-fenced_example :
    (e : QueueError) × (transition 1_000 stale_move (busy 1) ≡ (err e, busy 1))
transition-fenced_example =
    transition-fenced 1_000 stale_move (busy 1) (working 1) "token-0" (working_row 1) refl
      other_token

abbrev crash_with : String → Crash
crash_with token = record {
  attempt_id = attempt_2;
  error = "killed";
  lease_owner = some "worker-1";
  lease_token = some token;
}

crash-fenced_example :
    record_executor_crash 1_000 (crash_with "token-0") (busy 1) ≡ (err unknown_attempt, busy 1)
crash-fenced_example =
    crash-fenced 1_000 (crash_with "token-0") (busy 1) (working 1) "token-0"
      (two_rows-IsKeyed (working 1) refl) (working_row 1) refl other_token

crash_of : (n : ℕ) → IsCrashOf (crash_with "token-1") (busy n) (working n)
crash_of n = record {
  keyed = two_rows-IsKeyed (working n) refl;
  was = working_row n;
  live = refl;
  owner = refl;
  token = refl;
}

report_crash-IsCrashed_example : IsCrashed 1_000 (crash_with "token-1") (busy 3) (working 3)
report_crash-IsCrashed_example =
    report_crash-IsCrashed 1_000 (crash_with "token-1") (busy 3) (working 3) (crash_of 3)

report_crash-forgets_cancel_example :
    (row_of attempt_2 (report_crash 1_000 (crash_with "token-1") (busy 1)).1.jobs
      ≡ some (crash_row 1_000 (crash_with "token-1") queued (working 1)))
    × (is_cancel_requested attempt_2 (report_crash 1_000 (crash_with "token-1") (busy 1)).1 ≡ false)
report_crash-forgets_cancel_example =
    report_crash-forgets_cancel 1_000 (crash_with "token-1") (busy 1) (working 1) (crash_of 1)
      (omega arith)

abbrev good_move : Move
good_move = record stale_move { lease_token = some "token-1" }

good_move-IsAllowed : IsAllowed good_move succeeded (busy 1) (working 1)
unfolding state_of
good_move-IsAllowed = record {
  keyed = two_rows-IsKeyed (working 1) refl;
  named = refl;
  was = working_row 1;
  expected = refl;
  owner = refl;
  token = refl;
  legal = refl;
}

abbrev after_good_move : String → JobRow → Option JobRow
after_good_move a r' = if str_eq attempt_2 a then some r' else row_of a (busy 1).jobs

transition-IsMoved_example :
    (r' : JobRow) × IsMoved 1_000 good_move succeeded (working 1) r'
    × ((transition 1_000 good_move (busy 1)).0 ≡ ok (with_transient_payload (busy 1) r'))
    × ((a : String) → row_of a (transition 1_000 good_move (busy 1)).1.jobs ≡ after_good_move a r')
transition-IsMoved_example =
    transition-IsMoved 1_000 good_move succeeded (busy 1) (working 1) good_move-IsAllowed

good_move_returned : (job : JobRow) × ((transition 1_000 good_move (busy 1)).0 ≡ ok job)
good_move_returned =
    let (r', moved, returned, others) =
      transition-IsMoved 1_000 good_move succeeded (busy 1) (working 1) good_move-IsAllowed in
    (with_transient_payload (busy 1) r', returned)

transition-IsAllowed_example :
    (target : JobState) × (r : JobRow) × IsAllowed good_move target (busy 1) r
transition-IsAllowed_example =
    transition-IsAllowed 1_000 good_move (busy 1) (good_move_returned.0)
      (two_rows-IsKeyed (working 1) refl) refl (good_move_returned.1)

assignment-ids : assignment_ids assignment ≡ ok (build_1, attempt_1)
unfolding assignment_ids required_payload_uuid get is_uuid
assignment-ids = refl

first : row_of attempt_1 finished.jobs ≡ some waiting
unfolding find
first = refl

enqueue-IsRepeated_example : IsRepeated (enqueue 500 assignment finished) waiting finished
enqueue-IsRepeated_example =
    enqueue-IsRepeated 500 assignment waiting finished (two_rows-IsKeyed done refl) assignment-ids
      first
