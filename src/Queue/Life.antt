-- ===== src/Queue/Life.antt =====
-- The life cycle of an attempt, as an abstract specification of the table `jobs`: the steps that a
-- row may take, and the changes of the table that are made of such steps.
pub mod Table
pub mod Operations
pub mod Acquire
use build_engine.Prelude.{
  ℕ, ◌+◌, ◌≤◌, String, ◌≡◌, refl, ap, sym, ◌∙◌, ◌⊎◌, inl, inr, Bool, true, false, Option, none,
  some, List, [], ◌∷◌, ◌++◌, All, In, any, arith, Bool-cases, if◌then◌else◌, leb,
}
use build_engine.Json.{Fields}
use build_engine.Table.{find, update, count}
use build_engine.Table.Laws.{count-append, find-append}
use build_engine.Table.Changes.{count_of_none, All-update, All-snoc}
use build_engine.Queue.Rows.{
  JobState, queued, failed, JobRow, has_id, is_terminal, is_live, same_state,
}
use build_engine.Queue.Keys.{row_of, map_row, IsKeyed, IsKeyed-update, row-update}
use build_engine.Queue.Store.{new_row, durable_payload, request_row}
use build_engine.Queue.Lease.{ℤ, LeaseRequest, is_eligible, cancel_row, lease_row, refresh_row}
use build_engine.Queue.Transition.{Move, move_row, legal_previous, Crash, crash_row}

-- The cursor of an attempt follows the events that it published.
abbrev pub bump_row : ℕ → ℕ → JobRow → JobRow
bump_row now seq r = record r {
  sequence_cursor = if leb seq r.sequence_cursor then r.sequence_cursor else seq;
  updated_at = now;
}

-- One step of a row.
pub data RowStep (r r' : JobRow) : Type 0 where
  stay : r' ≡ r → RowStep r r'
  ask_cancel : (now : ℕ) → is_terminal r.state ≡ false → r' ≡ request_row now r → RowStep r r'
  cancel :
      (now : ℕ)
      → is_eligible now r ≡ true
      → r.cancel_requested ≡ true
      → r' ≡ cancel_row now r
      → RowStep r r'
  lease :
      (q : LeaseRequest)
      → is_eligible q.now r ≡ true
      → r.cancel_requested ≡ false
      → r' ≡ lease_row q r
      → RowStep r r'
  refresh :
      (now : ℕ) (timeout : ℤ)
      → is_live r.state ≡ true
      → r' ≡ refresh_row now timeout r
      → RowStep r r'
  move :
      (now : ℕ) (m : Move) (target : JobState)
      → legal_previous target r.state ≡ true
      → r' ≡ move_row now m target r
      → RowStep r r'
  crash :
      (now : ℕ) (c : Crash) (target : JobState)
      → is_live r.state ≡ true
      → (target ≡ queued) ⊎ (target ≡ failed)
      → r' ≡ crash_row now c target r
      → RowStep r r'
  bump : (now seq : ℕ) → r' ≡ bump_row now seq r → RowStep r r'

pub data RowSteps (r : JobRow) : JobRow → Type 0 where
  here : RowSteps r r
  next : {x y : JobRow} → RowSteps r x → RowStep x y → RowSteps r y

-- A change of the table: rows that pass a test take a step each, or a fresh row is added.
pub data Evolves (jobs : List JobRow) : List JobRow → Type 0 where
  start : Evolves jobs jobs
  step :
      {mid : List JobRow} (p : JobRow → Bool) (f : JobRow → JobRow)
      → Evolves jobs mid
      → ((r : JobRow) → (f r).attempt_id ≡ r.attempt_id)
      → ((r : JobRow) → In r mid → p r ≡ true → RowStep r (f r))
      → Evolves jobs (update p f mid)
  add :
      {mid : List JobRow} (now : ℕ) (build_job_id attempt_id : String) (payload : Fields)
      → Evolves jobs mid
      → any (has_id attempt_id) mid ≡ false
      → Evolves jobs (mid ++ new_row now build_job_id attempt_id (durable_payload payload) ∷ [])

pub Evolves-trans : {a b c : List JobRow} → Evolves a b → Evolves b c → Evolves a c
Evolves-trans e start = e
Evolves-trans e (step p f e' keeps steps) = step p f (Evolves-trans e e') keeps steps
Evolves-trans e (add now b a payload e' fresh) = add now b a payload (Evolves-trans e e') fresh

pub RowSteps-trans : {a b c : JobRow} → RowSteps a b → RowSteps b c → RowSteps a c
RowSteps-trans e here = e
RowSteps-trans e (next e' s) = next (RowSteps-trans e e') s

-- A finished attempt holds no lease and no cancellation request.
pub record IsSettled (r : JobRow) : Type 0 where
  pub no_owner : is_terminal r.state ≡ true → r.lease_owner ≡ none
  pub no_token : is_terminal r.state ≡ true → r.lease_token ≡ none
  pub no_expiry : is_terminal r.state ≡ true → r.lease_expires_at ≡ none
  pub no_request : is_terminal r.state ≡ true → r.cancel_requested ≡ false

pub RowStep-IsSettled : (r r' : JobRow) → RowStep r r' → IsSettled r → IsSettled r'
RowStep-IsSettled r r' (stay e) h = ground arith
RowStep-IsSettled r r' (ask_cancel now open_ e) h = ground arith
RowStep-IsSettled r r' (cancel now _ _ e) h = ground arith
RowStep-IsSettled r r' (lease q _ _ e) h = ground arith
RowStep-IsSettled r r' (refresh now timeout live e) h = ground arith
RowStep-IsSettled r r' (move now m target legal e) h = ground arith
RowStep-IsSettled r r' (crash now c target live to e) h = ground arith
RowStep-IsSettled r r' (bump now seq e) h = ground arith

-- What a step of a row never changes, and what it never lowers.
pub record Follows (r r' : JobRow) : Type 0 where
  pub same_build : r'.build_job_id ≡ r.build_job_id
  pub same_attempt : r'.attempt_id ≡ r.attempt_id
  pub same_payload : r'.payload ≡ r.payload
  pub same_creation : r'.created_at ≡ r.created_at
  pub more_attempts : r.attempts ≤ r'.attempts
  pub higher_cursor : r.sequence_cursor ≤ r'.sequence_cursor

pub RowStep-Follows : (r r' : JobRow) → RowStep r r' → Follows r r'
RowStep-Follows r r' (stay e) = ground arith
RowStep-Follows r r' (ask_cancel now open_ e) = ground arith
RowStep-Follows r r' (cancel now _ _ e) = ground arith
RowStep-Follows r r' (lease q _ _ e) = ground arith
RowStep-Follows r r' (refresh now timeout live e) = ground arith
RowStep-Follows r r' (move now m target legal e) = ground arith
RowStep-Follows r r' (crash now c target live to e) = ground arith
RowStep-Follows r r' (bump now seq e) = ground arith

-- A finished attempt keeps its state, its error and its number of leases.
pub record IsFinal (r r' : JobRow) : Type 0 where
  pub same_end : r'.state ≡ r.state
  pub same_error : r'.error ≡ r.error
  pub same_attempts : r'.attempts ≡ r.attempts
  pub same_owner : r'.lease_owner ≡ r.lease_owner
  pub same_token : r'.lease_token ≡ r.lease_token

pub RowStep-IsFinal : (r r' : JobRow) → RowStep r r' → is_terminal r.state ≡ true → IsFinal r r'
RowStep-IsFinal r r' (stay e) h = ground arith
RowStep-IsFinal r r' (ask_cancel now open_ e) h = ground arith
RowStep-IsFinal r r' (cancel now ok_r _ e) h = ground arith
RowStep-IsFinal r r' (lease q ok_r _ e) h = ground arith
RowStep-IsFinal r r' (refresh now timeout live e) h = ground arith
RowStep-IsFinal r r' (move now m target legal e) h = ground arith
RowStep-IsFinal r r' (crash now c target live to e) h = ground arith
RowStep-IsFinal r r' (bump now seq e) h = ground arith
