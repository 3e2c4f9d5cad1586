-- ===== src/Queue/Fencing.antt =====
-- The lease as a fence: what another worker may do with a leased attempt, in `acquire_lease`,
-- `transition` and `record_executor_crash` of src/build_engine/queue/store.py.
use build_engine.Prelude.{
  ℕ, String, ◌≡◌, ◌≢◌, sym, ap, ◌∙◌, ◌<◌, inl, inr, Bool, true, false, Option, none, some, arith,
  Bool-cases, Option-cases, eq_iff, str_eq,
}
use build_engine.Result.{err}
use build_engine.Table.{find}
use build_engine.Table.Laws.{find_sound, In-find}
use build_engine.Queue.Rows.{
  JobState, JobRow, Store, QueueError, unknown_attempt, invalid_state, given_is, is_live, state_of,
  state_name, unexpected_state, other_worker, stale_token,
}
use build_engine.Queue.Keys.{row_of, row_of-In, IsKeyed}
use build_engine.Queue.Lease.{LeaseRequest, is_eligible, acquire_lease}
use build_engine.Queue.Lease.Grant.{granted, idle, UntouchedRow}
use build_engine.Queue.Lease.Acquired.{acquire_lease-Acquired}
use build_engine.Queue.Transition.{
  Move, transition, move_current, Crash, crash_applies, record_executor_crash,
}

-- An attempt whose lease has not expired is not touched by `acquire_lease`: it is not granted to
-- another worker. The attempt is live and its lease ends after the time of the call.
pub acquire_lease-exclusive :
    (q : LeaseRequest) (s : Store) (a : String) (r : JobRow) (t : ℕ)
    → IsKeyed s.jobs
    → row_of a s.jobs ≡ some r
    → is_live r.state ≡ true
    → r.lease_expires_at ≡ some t
    → q.now < t
    → row_of a (acquire_lease q s).1.jobs ≡ some r
acquire_lease-exclusive q s a r t keyed at live lease_end running_ =
    elim (acquire_lease-Acquired q s keyed) [
      | idle nothing all_asked rest ↦ untouched (rest a)
      | granted job row got grant rest ↦ elim (Bool-cases (str_eq row.attempt_id a)) [
        | inl same ↦ absurd (
            ground (
              arith,
              not_eligible,
              grant.eligible,
              ap (λ b. row_of b s.jobs) ((eq_iff row.attempt_id a).0 same),
              grant.was,
            ))
        | inr other ↦ untouched (rest a (λ e. ground (arith, eq_iff row.attempt_id a, sym e)))
      ]
    ]
  where
    not_eligible : is_eligible q.now r ≡ false
    not_eligible = ground arith

    untouched :
        UntouchedRow q.now s.jobs (row_of a (acquire_lease q s).1.jobs) a
        → row_of a (acquire_lease q s).1.jobs ≡ some r
    untouched (inl e) = e ∙ at
    untouched (inr (x, was, ok_x, asked, done)) = absurd (ground (arith, not_eligible))

-- Every row that a crash report or a refresh selects is the attempt's own row.
none_selected :
    (p : JobRow → Bool) (a : String) (s : Store) (r : JobRow)
    → IsKeyed s.jobs
    → row_of a s.jobs ≡ some r
    → ((x : JobRow) → p x ≡ true → x.attempt_id ≡ a)
    → p r ≡ false
    → find p s.jobs ≡ none
none_selected p a s r keyed at own refused = elim (Option-cases (find p s.jobs)) [
  | inl e ↦ e
  | inr (x, e) ↦
      let hit = find_sound p s.jobs x e in
      let x_row = row_of-In a s.jobs x keyed (In-find p s.jobs x e) (own x hit) in
      absurd (ground (arith, x_row))
]

given_is-refused :
    (given column : Option String) (token : String)
    → given ≡ some token
    → column ≢ some token
    → given_is given column ≡ false
given_is-refused given none token held stale = ground arith
given_is-refused given (some x) token held stale = elim (Bool-cases (str_eq x token)) [
  | inl e ↦ absurd (stale (ap some ((eq_iff x token).0 e)))
  | inr e ↦ ground (arith, held)
]

move_current-fenced :
    (now : ℕ) (m : Move) (target : JobState) (r : JobRow) (s : Store)
    → given_is m.lease_token r.lease_token ≡ false
    → (e : QueueError) × (move_current now m target r s ≡ (err e, s))
unfolding move_current
move_current-fenced now m target r s refused =
    elim (Bool-cases (given_is m.expected_state (some (state_name r.state)))) [
      | inr e ↦ (unexpected_state, ground arith)
      | inl e ↦ elim (Bool-cases (given_is m.lease_owner r.lease_owner)) [
        | inr o ↦ (other_worker, ground arith)
        | inl o ↦ (stale_token, ground arith)
      ]
    ]

-- A worker that presents a token other than the one stored with the attempt cannot move it: the
-- call raises, and the store stays as it was.
pub transition-fenced :
    (now : ℕ) (m : Move) (s : Store) (r : JobRow) (token : String)
    → row_of m.attempt_id s.jobs ≡ some r
    → m.lease_token ≡ some token
    → r.lease_token ≢ some token
    → (e : QueueError) × (transition now m s ≡ (err e, s))
unfolding transition
transition-fenced now m s r token at held stale = elim (Option-cases (state_of m.state)) [
  | inl bad ↦ (invalid_state, ground arith)
  | inr (target, named) ↦
      let (e, law) =
        move_current-fenced now m target r s
          (given_is-refused m.lease_token r.lease_token token held stale) in
      (e, ground arith)
]

-- With a token other than the one stored with the attempt a crash report is refused as one about an
-- unknown attempt, and the store stays as it was; the table is keyed by attempt.
pub crash-fenced :
    (now : ℕ) (c : Crash) (s : Store) (r : JobRow) (token : String)
    → IsKeyed s.jobs
    → row_of c.attempt_id s.jobs ≡ some r
    → c.lease_token ≡ some token
    → r.lease_token ≢ some token
    → record_executor_crash now c s ≡ (err unknown_attempt, s)
unfolding record_executor_crash
crash-fenced now c s r token keyed at held stale =
    let refused = given_is-refused c.lease_token r.lease_token token held stale in
    let none_hit : find (crash_applies c) s.jobs ≡ none =
      none_selected (crash_applies c) c.attempt_id s r keyed at
        (λ x hit. (eq_iff x.attempt_id c.attempt_id).0 (ground arith)) (ground arith) in
    ground (arith, none_hit)
