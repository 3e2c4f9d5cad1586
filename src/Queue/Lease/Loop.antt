-- ===== src/Queue/Lease/Loop.antt =====
-- The `while True` loop of `acquire_lease` in src/build_engine/queue/store.py: how it ends.
use build_engine.Prelude.{
  ℕ, zero, suc, ◌<◌, ◌≡◌, refl, inl, inr, true, false, Option, none, some, List, In, arith,
  Bool-cases, Option-cases, eq_refl,
}
use build_engine.Table.{select, update, count}
use build_engine.Table.Laws.{In-select, In-first_by, count-update_lt}
use build_engine.Queue.Rows.{JobRow, has_id, before}
use build_engine.Queue.Lease.{is_eligible, next_eligible, cancel_row, acquire_loop}

-- What the loop ends with.
pub record Ends (P : List JobRow → Type 0) (now fuel : ℕ) (jobs : List JobRow) : Type 0 where
  pub row : Option JobRow
  pub table : List JobRow
  pub ends : acquire_loop fuel now jobs ≡ some (row, table)
  pub kept : P table
  pub oldest : next_eligible now table ≡ row
  pub not_cancelled : (r : JobRow) → row ≡ some r → r.cancel_requested ≡ false

pub next_eligible-In :
    (now : ℕ) (jobs : List JobRow) (r : JobRow)
    → next_eligible now jobs ≡ some r
    → In r jobs × (is_eligible now r ≡ true)
next_eligible-In now jobs r h =
    In-select (is_eligible now) jobs r (In-first_by before (select (is_eligible now) jobs) r h)

-- With more fuel than there are eligible rows the loop ends, and keeps what one round keeps.
module _ (P : List JobRow → Type 0) (now : ℕ)
    (round : (jobs : List JobRow) (r : JobRow)
      → P jobs
      → next_eligible now jobs ≡ some r
      → r.cancel_requested ≡ true
      → P (update (has_id r.attempt_id) (cancel_row now) jobs)) where
  pub acquire_loop-Ends :
      (fuel : ℕ) (jobs : List JobRow)
      → count (is_eligible now) jobs < fuel
      → P jobs
      → Ends P now fuel jobs
  unfolding acquire_loop
  acquire_loop-Ends zero jobs enough h = absurd (omega arith)
  acquire_loop-Ends (suc fuel) jobs enough h = elim (Option-cases (next_eligible now jobs)) [
    | inl e ↦ record {
      row = none;
      table = jobs;
      ends = ground arith;
      kept = h;
      oldest = e;
      not_cancelled = λ r p. cc;
    }
    | inr (r, e) ↦ elim (Bool-cases r.cancel_requested) [
      | inl asked ↦
          let (i, ok_r) = next_eligible-In now jobs r e in
          let jobs' : List JobRow = update (has_id r.attempt_id) (cancel_row now) jobs in
          let fewer : count (is_eligible now) jobs' < count (is_eligible now) jobs =
            count-update_lt (is_eligible now) (has_id r.attempt_id) (cancel_row now) (λ x. refl)
              jobs r i ok_r (eq_refl r.attempt_id) in
          let rest : Ends P now fuel jobs' =
            acquire_loop-Ends fuel jobs' (omega arith) (round jobs r h e asked) in
          record {
            row = rest.row;
            table = rest.table;
            ends = ground (arith, rest.ends);
            kept = rest.kept;
            oldest = rest.oldest;
            not_cancelled = rest.not_cancelled;
          }
      | inr fine ↦ record {
        row = some r;
        table = jobs;
        ends = ground arith;
        kept = h;
        oldest = e;
        not_cancelled = λ x p. ground arith;
      }
    ]
  ]
