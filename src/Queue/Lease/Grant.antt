-- ===== src/Queue/Lease/Grant.antt =====
-- The loop of `acquire_lease` in src/build_engine/queue/store.py, seen by attempt, and the
-- specification of what the call returns.
use build_engine.Prelude.{
  ℕ, suc, String, ◌≡◌, refl, sym, ap, ◌∙◌, ◌≢◌, ◌⊎◌, inl, inr, true, false, Option, none, some,
  List, In, length, arith, Bool-cases, eq_iff, str_eq, subst,
}
use build_engine.Result.{ok}
use build_engine.Table.{update}
use build_engine.Table.Laws.{In-find, count-le_length}
use build_engine.Queue.Rows.{JobRow, Store, has_id, before}
use build_engine.Queue.Keys.{row_of, IsKeyed, map_row, row_of-In, row-update_id, IsKeyed-update}
use build_engine.Queue.Store.{with_transient_payload}
use build_engine.Queue.Lease.{
  LeaseRequest, is_eligible, next_eligible, cancel_row, lease_row, acquire_lease,
}
use build_engine.Queue.Lease.Loop.{Ends, next_eligible-In, acquire_loop-Ends}

-- The loop leaves a row alone, or cancels it as it was asked to.
abbrev pub UntouchedRow : ℕ → List JobRow → Option JobRow → String → Type 0
UntouchedRow now jobs after a =
    (after ≡ row_of a jobs)
    ⊎ ((r : JobRow) × (row_of a jobs ≡ some r)
        × (is_eligible now r ≡ true)
        × (r.cancel_requested ≡ true)
        × (after ≡ some (cancel_row now r)))

abbrev pub Untouched : ℕ → List JobRow → List JobRow → String → Type 0
Untouched now jobs table a = UntouchedRow now jobs (row_of a table) a

pub record Cancels (now : ℕ) (jobs table : List JobRow) : Type 0 where
  pub keyed : IsKeyed table
  pub rows : (a : String) → Untouched now jobs table a

Cancels-round :
    (now : ℕ) (jobs table : List JobRow) (r : JobRow)
    → Cancels now jobs table
    → next_eligible now table ≡ some r
    → r.cancel_requested ≡ true
    → Cancels now jobs (update (has_id r.attempt_id) (cancel_row now) table)
Cancels-round now jobs table r c e asked = record {
  keyed = IsKeyed-update (has_id r.attempt_id) (cancel_row now) (λ x. refl) table c.keyed;
  rows = rows;
}
  where
    eligible : is_eligible now r ≡ true
    eligible = (next_eligible-In now table r e).1

    found : row_of r.attempt_id table ≡ some r
    found = row_of-In r.attempt_id table r c.keyed (next_eligible-In now table r e).0 refl

    -- A row that the loop has cancelled is not eligible again.
    same_row :
        (a : String)
        → r.attempt_id ≡ a
        → row_of a (update (has_id r.attempt_id) (cancel_row now) table) ≡ some (cancel_row now r)
        → Untouched now jobs table a
        → Untouched now jobs (update (has_id r.attempt_id) (cancel_row now) table) a
    same_row a ea after (inl before_) =
        inr (r, sym before_ ∙ (rw (← ea) found), eligible, asked, after)
    same_row a ea after (inr (x, was, ok_x, asked_x, done)) =
        let again : some r ≡ some (cancel_row now x) = sym (rw (← ea) found) ∙ done in
        absurd (ground (arith, again))

    rows : (a : String) → Untouched now jobs (update (has_id r.attempt_id) (cancel_row now) table) a
    rows a = elim (Bool-cases (str_eq r.attempt_id a)) [
      | inl same ↦
          let ea : r.attempt_id ≡ a = (eq_iff r.attempt_id a).0 same in
          same_row a ea
            (rw (row-update_id r.attempt_id (cancel_row now) (λ x. refl) a table, same)
              (ap (map_row (cancel_row now)) (subst (λ b. row_of b table ≡ some r) ea found)))
            (c.rows a)
      | inr other ↦
          rw (row-update_id r.attempt_id (cancel_row now) (λ x. refl) a table, other) (c.rows a)
    ]

abbrev pub LoopEnds : LeaseRequest → Store → Type 0
LoopEnds q s = Ends (Cancels q.now s.jobs) q.now (suc (length s.jobs)) s.jobs

pub loop : (q : LeaseRequest) (s : Store) → IsKeyed s.jobs → LoopEnds q s
loop q s keyed =
    acquire_loop-Ends (Cancels q.now s.jobs) q.now (Cancels-round q.now s.jobs)
      (suc (length s.jobs)) s.jobs (omega (arith, count-le_length (is_eligible q.now) s.jobs))
      (record { keyed = keyed; rows = λ a. inl refl })

-- An eligible row that nobody asked to cancel is there when the loop ends.
pub waiting-In :
    (q : LeaseRequest) (s : Store) (keyed : IsKeyed s.jobs) (e : LoopEnds q s) (x : JobRow)
    → In x s.jobs
    → x.cancel_requested ≡ false
    → In x e.table
waiting-In q s keyed e x i fine = elim (e.kept.rows x.attempt_id) [
  | inl same ↦
      In-find (has_id x.attempt_id) e.table x (same ∙ row_of-In x.attempt_id s.jobs x keyed i refl)
  | inr (r, was, ok_r, asked, done) ↦
      absurd (ground (arith, row_of-In x.attempt_id s.jobs x keyed i refl))
]

-- A grant of `acquire_lease`: `row` is what the table held before.
pub record IsGrant (q : LeaseRequest) (s : Store) (job row : JobRow) : Type 0 where
  pub returned : job ≡ with_transient_payload s (lease_row q row)
  pub was : row_of row.attempt_id s.jobs ≡ some row
  pub eligible : is_eligible q.now row ≡ true
  pub not_cancelled : row.cancel_requested ≡ false
  pub oldest :
      (x : JobRow)
      → In x s.jobs
      → is_eligible q.now x ≡ true
      → x.cancel_requested ≡ false
      → before row x ≡ true
  pub recorded : row_of row.attempt_id (acquire_lease q s).1.jobs ≡ some (lease_row q row)

-- How `acquire_lease` ends: with a grant, or with nothing that could be granted.
pub data Acquired (q : LeaseRequest) (s : Store) : Type 0 where
  granted :
      (job row : JobRow)
      → (acquire_lease q s).0 ≡ ok (some job)
      → IsGrant q s job row
      → ((a : String) → a ≢ row.attempt_id → Untouched q.now s.jobs (acquire_lease q s).1.jobs a)
      → Acquired q s
  idle :
      (acquire_lease q s).0 ≡ ok none
      → ((x : JobRow) → In x s.jobs → is_eligible q.now x ≡ true → x.cancel_requested ≡ true)
      → ((a : String) → Untouched q.now s.jobs (acquire_lease q s).1.jobs a)
      → Acquired q s
