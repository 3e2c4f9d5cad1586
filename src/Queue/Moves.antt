-- ===== src/Queue/Moves.antt =====
-- The calls of `transition` in src/build_engine/queue/store.py that move an attempt.
use build_engine.Prelude.{
  is_some, ℕ, ◌≡◌, refl, ap, ◌∙◌, true, false, none, some, List, arith, if◌then◌else◌, ◌⊎◌, inl,
  inr, String, Option, Bool-cases, Option-cases, eq_iff, str_eq, subst,
}
use build_engine.Result.{ok}
use build_engine.Table.{update, count}
use build_engine.Table.Laws.{find_sound, count_mono, count_pos, In-find}
use build_engine.Queue.Rows.{
  JobState, JobRow, Store, has_id, given_is, state_of, state_name, same_state, is_terminal,
}
use build_engine.Queue.Keys.{row_of, row_of_id, IsKeyed, map_row, row-update}
use build_engine.Queue.Store.{with_transient_payload}
use build_engine.Queue.Transition.{
  Move, move_row, move_applies, commit_move, move_current, transition, legal_previous,
}

-- A call that passes every check: the target is a legal next state, and what the caller expects of
-- the state, the owner and the token is what is stored.
pub record IsAllowed (m : Move) (target : JobState) (s : Store) (r : JobRow) : Type 0 where
  pub keyed : IsKeyed s.jobs
  pub named : state_of m.state ≡ some target
  pub was : row_of m.attempt_id s.jobs ≡ some r
  pub expected : given_is m.expected_state (some (state_name r.state)) ≡ true
  pub owner : given_is m.lease_owner r.lease_owner ≡ true
  pub token : given_is m.lease_token r.lease_token ≡ true
  pub legal : legal_previous target r.state ≡ true

legal-differs :
    (target state : JobState) → legal_previous target state ≡ true → same_state state target ≡ false
legal-differs target state h = ground arith

-- The row of an attempt after a move to `target`, field by field: a finished attempt has no lease and
-- no cancellation request, another one keeps what it has of them.
pub record IsMoved (now : ℕ) (m : Move) (target : JobState) (r r' : JobRow) : Type 0 where
  pub same_build : r'.build_job_id ≡ r.build_job_id
  pub same_attempt : r'.attempt_id ≡ r.attempt_id
  pub same_payload : r'.payload ≡ r.payload
  pub same_leases : r'.attempts ≡ r.attempts
  pub same_cursor : r'.sequence_cursor ≡ r.sequence_cursor
  pub same_creation : r'.created_at ≡ r.created_at
  pub moved : r'.state ≡ target
  pub error : r'.error ≡ m.error
  pub updated : r'.updated_at ≡ now
  pub lease :
      ((is_terminal target ≡ true)
        × (r'.lease_owner ≡ none)
        × (r'.lease_token ≡ none)
        × (r'.lease_expires_at ≡ none)
        × (r'.cancel_requested ≡ false))
      ⊎ ((is_terminal target ≡ false)
          × (r'.lease_owner ≡ r.lease_owner)
          × (r'.lease_token ≡ r.lease_token)
          × (r'.lease_expires_at ≡ r.lease_expires_at)
          × (r'.cancel_requested ≡ r.cancel_requested))

move_row-IsMoved :
    (now : ℕ) (m : Move) (target : JobState) (r : JobRow)
    → IsMoved now m target r (move_row now m target r)
move_row-IsMoved now m target r = record {
  same_build = refl;
  same_attempt = refl;
  same_payload = refl;
  same_leases = refl;
  same_cursor = refl;
  same_creation = refl;
  moved = refl;
  error = refl;
  updated = refl;
  lease = ground arith;
}

module _ (now : ℕ) (m : Move) (target : JobState) (s : Store) (r : JobRow)
    (k : IsAllowed m target s r) where
  applies : move_applies m r.state r ≡ true
  applies = ground (arith, find_sound (has_id m.attempt_id) s.jobs r k.was, k.owner, k.token)

  one_row : count (move_applies m r.state) s.jobs ≡ 1
  one_row = omega (
    arith,
    k.keyed m.attempt_id,
    count_mono (move_applies m r.state) (has_id m.attempt_id) (λ x h. ground arith) s.jobs,
    count_pos (move_applies m r.state) s.jobs r (In-find (has_id m.attempt_id) s.jobs r k.was)
        applies,
  )

  abbrev moved_jobs : List JobRow
  moved_jobs = update (move_applies m r.state) (move_row now m target) s.jobs

  moved_row : row_of m.attempt_id moved_jobs ≡ some (move_row now m target r)
  moved_row =
      row-update (move_applies m r.state) (move_row now m target) (λ x. refl) m.attempt_id s.jobs
      ∙ ap (map_row (λ x. if move_applies m r.state x then move_row now m target x else x)) k.was
      ∙ rw applies

  commits :
      commit_move now m target r s
      ≡ (ok (with_transient_payload s (move_row now m target r)), record s { jobs = moved_jobs })
  unfolding commit_move with_transient_payload
  commits = ground (arith, one_row, moved_row)

  opened : transition now m s ≡ commit_move now m target r s
  unfolding transition move_current
  opened =
      let differs = legal-differs target r.state k.legal in
      ground (arith, k.named, k.was, k.expected, k.owner, k.token, k.legal, differs)

  -- The state of the store after an allowed call, for the attempt alone.
  pub transition-row :
      row_of m.attempt_id (transition now m s).1.jobs ≡ some (move_row now m target r)
  transition-row = rw opened (rw commits moved_row)

  abbrev moved_or_same : String → JobRow → Option JobRow
  moved_or_same a r' = if str_eq m.attempt_id a then some r' else row_of a s.jobs

  after_move : (a : String) → row_of a moved_jobs ≡ moved_or_same a (move_row now m target r)
  after_move a = elim (Bool-cases (str_eq m.attempt_id a)) [
    | inl own ↦
        let same : m.attempt_id ≡ a = (eq_iff m.attempt_id a).0 own in
        rw own (subst (λ b. row_of b moved_jobs ≡ some (move_row now m target r)) same moved_row)
    | inr other ↦ rw other (
        row-update (move_applies m r.state) (move_row now m target) (λ x. refl) a s.jobs
        ∙ kept other)
  ]
    where
      kept :
          str_eq m.attempt_id a ≡ false
          → map_row
              (λ x. if move_applies m r.state x then move_row now m target x else x)
              (row_of a s.jobs)
            ≡ row_of a s.jobs
      kept other = elim (Option-cases (row_of a s.jobs)) [
        | inl e ↦ rw e refl
        | inr (x, e) ↦
            let own = row_of_id a s.jobs x e in
            let misses : has_id m.attempt_id x ≡ false =
              ground (arith, eq_iff m.attempt_id a, eq_iff x.attempt_id m.attempt_id) in
            rw e (rw misses refl)
      ]

  -- A call of `transition` that is allowed returns the attempt in its new state, with its lease and
  -- cancellation request if it goes on and without them if it is finished; that row is stored, with
  -- what it was asked to write and the rest as it was, and no other attempt changes.
  pub transition-IsMoved :
      (r' : JobRow) × IsMoved now m target r r'
      × ((transition now m s).0 ≡ ok (with_transient_payload s r'))
      × ((a : String) → row_of a (transition now m s).1.jobs ≡ moved_or_same a r')
  transition-IsMoved = (
    move_row now m target r,
    move_row-IsMoved now m target r,
    rw opened (rw commits refl),
    rw opened (rw commits after_move),
  )

module _ (now : ℕ) (m : Move) (target : JobState) (r : JobRow) (s : Store) (job : JobRow) where
  -- A call that expects a state returns only where every check passed.
  move_current-ok :
      is_some m.expected_state ≡ true
      → (move_current now m target r s).0 ≡ ok job
      → (given_is m.expected_state (some (state_name r.state)) ≡ true)
        × (given_is m.lease_owner r.lease_owner ≡ true)
        × (given_is m.lease_token r.lease_token ≡ true)
        × (legal_previous target r.state ≡ true)
  unfolding move_current
  move_current-ok expects returned = ground arith

-- A call of `transition` that expects a state, and that returns, has passed every check: the attempt is
-- stored, in the state and under the lease that the call expects, and the target is a legal next
-- state. No attempt is stored twice.
pub transition-IsAllowed :
    (now : ℕ) (m : Move) (s : Store) (job : JobRow)
    → IsKeyed s.jobs
    → is_some m.expected_state ≡ true
    → (transition now m s).0 ≡ ok job
    → (target : JobState) × (r : JobRow) × IsAllowed m target s r
unfolding transition
transition-IsAllowed now m s job keyed expects returned = elim (Option-cases (state_of m.state)) [
  | inl e ↦ absurd (ground arith)
  | inr (target, e) ↦ elim (Option-cases (row_of m.attempt_id s.jobs)) [
    | inl f ↦ absurd (ground arith)
    | inr (r, f) ↦
        let opened : (move_current now m target r s).0 ≡ ok job = ground arith in
        let (expected, owner, token, legal) = move_current-ok now m target r s job expects opened in
        (
          target,
          r,
          record {
            keyed = keyed;
            named = e;
            was = f;
            expected = expected;
            owner = owner;
            token = token;
            legal = legal;
          },
        )
  ]
]
