-- ===== src/Queue/Crashes.antt =====
-- Crashes of the executor and the dead-letter queue: `record_executor_crash` of
-- src/build_engine/queue/store.py, and src/build_engine/queue/dlq.py.
use build_engine.Prelude.{
  ℕ, ◌<◌, String, ◌≡◌, refl, ap, subst, ◌∙◌, Bool, true, false, ◌||◌, some, List, [], ◌∷◌, ◌++◌,
  arith, leb, ltb, ◌&&◌, ◌==◌, str_le, any, eq_iff, eq_refl, str_eq, inl, inr, Bool-cases,
  if◌then◌else◌,
}
use build_engine.Result.{Result, ok, err}
use build_engine.Table.{find, update, insert_by, order_by}
use build_engine.Table.Laws.{find_sound, find_of_In, In-find, count_mono}
use build_engine.Queue.Rows.{
  JobState, queued, failed, JobRow, DeadLetter, Store, has_id, is_live, given_is, same_state,
  QueueError,
}
use build_engine.Queue.Keys.{row_of, map_row, row-update, IsKeyed}
use build_engine.Queue.Store.{with_transient_payload, is_cancel_requested}
use build_engine.Queue.Transition.{
  Crash, crash_applies, crash_row, dead_letter, insert_dead_letter, crashed, record_executor_crash,
  max_local_crashes,
}

-- `record_executor_crash` of dlq.py: is the attempt dead-lettered now?
abbrev is_failed : Result QueueError JobRow → Result QueueError Bool
is_failed (ok job) = ok (same_state job.state failed)
is_failed (err e) = err e

unfoldable pub report_crash : ℕ → Crash → Store → Result QueueError Bool × Store
report_crash now c s = let (job, s') = record_executor_crash now c s in (is_failed job, s')

-- ORDER BY created_at, attempt_id
abbrev letter_before : DeadLetter → DeadLetter → Bool
letter_before a b =
    ltb a.created_at b.created_at
    || (a.created_at == b.created_at && str_le a.attempt_id b.attempt_id)

-- `dlq_entries`, and `list_dead_letters` of dlq.py.
unfoldable pub dlq_entries : Store → List DeadLetter
dlq_entries s = order_by letter_before s.dlq

-- The crash of a live attempt, as reported by the holder of its lease.
pub record IsCrashOf (c : Crash) (s : Store) (r : JobRow) : Type 0 where
  pub keyed : IsKeyed s.jobs
  pub was : row_of c.attempt_id s.jobs ≡ some r
  pub live : is_live r.state ≡ true
  pub owner : given_is c.lease_owner r.lease_owner ≡ true
  pub token : given_is c.lease_token r.lease_token ≡ true

abbrev in_letters : String → DeadLetter → Bool
in_letters a e = str_eq e.attempt_id a

abbrev in_dlq : String → List DeadLetter → Bool
in_dlq a dlq = any (λ e. str_eq e.attempt_id a) dlq

any-order_by :
    (p : DeadLetter → Bool) (ds : List DeadLetter) → any p (order_by letter_before ds) ≡ any p ds
unfolding order_by insert_by
any-order_by p [] = refl
any-order_by p (d ∷ ds) =
    inserted (order_by letter_before ds) ∙ ap (λ b. p d || b) (any-order_by p ds)
  where
    inserted : (xs : List DeadLetter) → any p (insert_by letter_before d xs) ≡ (p d || any p xs)
    inserted [] = refl
    inserted (x ∷ xs) = ground (arith, inserted xs)

any-snoc :
    (p : DeadLetter → Bool) (ds : List DeadLetter) (d : DeadLetter)
    → p d ≡ true
    → any p (ds ++ d ∷ []) ≡ true
any-snoc p [] d h = ground arith
any-snoc p (x ∷ xs) d h = ground (arith, any-snoc p xs d)

insert_dead_letter-in :
    (d : DeadLetter) (dlq : List DeadLetter) → in_dlq d.attempt_id (insert_dead_letter d dlq) ≡ true
unfolding insert_dead_letter
insert_dead_letter-in d dlq = elim (Bool-cases (in_dlq d.attempt_id dlq)) [
  | inl e ↦ rw e e
  | inr e ↦ rw e (any-snoc (λ x. str_eq x.attempt_id d.attempt_id) dlq d (eq_refl d.attempt_id))
]

-- The state after a crash.
abbrev pub crash_state : JobRow → JobState
crash_state r = if leb max_local_crashes r.attempts then failed else queued

module _ (now : ℕ) (c : Crash) (s : Store) (r : JobRow) (k : IsCrashOf c s r) where
  applies : crash_applies c r ≡ true
  applies =
      ground (arith, find_sound (has_id c.attempt_id) s.jobs r k.was, k.live, k.owner, k.token)

  selected : find (crash_applies c) s.jobs ≡ some r
  selected =
      find_of_In (crash_applies c) s.jobs r (In-find (has_id c.attempt_id) s.jobs r k.was) applies (
        omega (
          arith,
          k.keyed c.attempt_id,
          count_mono (crash_applies c) (has_id c.attempt_id) (λ x h. ground arith) s.jobs,
        ))

  row_after :
      (target : JobState)
      → row_of c.attempt_id (update (crash_applies c) (crash_row now c target) s.jobs)
        ≡ some (crash_row now c target r)
  row_after target =
      row-update (crash_applies c) (crash_row now c target) (λ x. refl) c.attempt_id s.jobs
      ∙ ap (map_row (λ x. if crash_applies c x then crash_row now c target x else x)) k.was
      ∙ rw applies

  crashed_row :
      row_of c.attempt_id (crashed now c r s).jobs ≡ some (crash_row now c (crash_state r) r)
  unfolding crashed
  crashed_row = elim (Bool-cases (leb max_local_crashes r.attempts)) [
    | inl e ↦ rw e (row_after failed)
    | inr e ↦ rw e (row_after queued)
  ]

  ends :
      (job : JobRow) × (record_executor_crash now c s ≡ (ok job, crashed now c r s))
      × (job ≡ with_transient_payload (crashed now c r s) (crash_row now c (crash_state r) r))
  unfolding record_executor_crash
  ends = (
    with_transient_payload (crashed now c r s) (crash_row now c (crash_state r) r),
    ground (arith, selected, crashed_row),
    refl,
  )

pub with_transient_payload-state :
    (s : Store) (r : JobRow) → (with_transient_payload s r).state ≡ r.state
unfolding with_transient_payload
with_transient_payload-state s r = ground arith

-- What a crash report does, with `r` the attempt as it was.
pub record IsCrashed (now : ℕ) (c : Crash) (s : Store) (r : JobRow) : Type 0 where
  pub reported : (report_crash now c s).0 ≡ ok (leb max_local_crashes r.attempts)
  pub stored :
      row_of c.attempt_id (report_crash now c s).1.jobs ≡ some (crash_row now c (crash_state r) r)
  pub letters :
      any
        (λ (e : DeadLetter). str_eq e.attempt_id c.attempt_id)
        (dlq_entries (report_crash now c s).1)
      ≡ (leb max_local_crashes r.attempts
          || any (λ (e : DeadLetter). str_eq e.attempt_id c.attempt_id) s.dlq)

module _ (now : ℕ) (c : Crash) (s : Store) (r : JobRow) (k : IsCrashOf c s r) where
  letters_after :
      in_dlq c.attempt_id (crashed now c r s).dlq
      ≡ (leb max_local_crashes r.attempts || in_dlq c.attempt_id s.dlq)
  unfolding crashed
  letters_after =
      let own =
        (eq_iff r.attempt_id c.attempt_id).0 (find_sound (has_id c.attempt_id) s.jobs r k.was) in
      let inserted = insert_dead_letter-in (dead_letter now c r) s.dlq in
      ground (
        arith,
        subst (λ a. in_dlq a (insert_dead_letter (dead_letter now c r) s.dlq) ≡ true) own inserted,
      )

  failed_state : same_state (crash_state r) failed ≡ leb max_local_crashes r.attempts
  failed_state = ground arith

  -- A crash of an attempt that the reporter holds returns: at the third lease the attempt fails for
  -- good and has a dead letter, and before it is queued again, with a dead letter only if it had
  -- one. The call says which of the two. The table is keyed and the attempt live.
  pub report_crash-IsCrashed : IsCrashed now c s r
  unfolding report_crash dlq_entries
  report_crash-IsCrashed =
      let (job, e, job_is) = ends now c s r k in
      record {
        reported = rw e (
            ap (λ (j : JobRow). ok (same_state j.state failed)) job_is
            ∙ ap (λ st. ok (same_state st failed))
                (with_transient_payload-state (crashed now c r s)
                  (crash_row now c (crash_state r) r))
            ∙ ap ok failed_state);
        stored = rw e (crashed_row now c s r k);
        letters =
            any-order_by (in_letters c.attempt_id) (record_executor_crash now c s).1.dlq
            ∙ rw e letters_after;
      }

  -- The cancellation that was requested before such a crash is forgotten: the attempt is queued
  -- again, and neither `is_cancel_requested` nor the next lease sees the request.
  pub report_crash-forgets_cancel :
      r.attempts < max_local_crashes
      → (row_of c.attempt_id (report_crash now c s).1.jobs ≡ some (crash_row now c queued r))
        × (is_cancel_requested c.attempt_id (report_crash now c s).1 ≡ false)
  unfolding is_cancel_requested
  report_crash-forgets_cancel few = let stored = (report_crash-IsCrashed).stored in ground arith
