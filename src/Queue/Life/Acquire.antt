-- ===== src/Queue/Life/Acquire.antt =====
-- `acquire_lease` of src/build_engine/queue/store.py, taken apart into steps of the life cycle.
use build_engine.Prelude.{
  suc, ◌≡◌, refl, ap, sym, ◌∙◌, inl, inr, none, some, List, arith, Option-cases, length, In, subst,
  eq_iff,
}
use build_engine.Table.{update}
use build_engine.Table.Laws.{count-le_length}
use build_engine.Queue.Rows.{JobRow, Store, has_id}
use build_engine.Queue.Keys.{IsKeyed, row_of-In}
use build_engine.Queue.Lease.{
  LeaseRequest, is_eligible, cancel_row, lease_row, take_lease, acquire_lease,
}
use build_engine.Queue.Lease.Loop.{Ends, acquire_loop-Ends, next_eligible-In}
use build_engine.Queue.Life.{RowStep, Evolves, start, step, cancel, lease}
use build_engine.Queue.Life.Table.{IsValid, Evolves-IsValid}

-- Two rows of one attempt are the same row.
same_row :
    (jobs : List JobRow) (x r : JobRow)
    → IsKeyed jobs
    → In x jobs
    → In r jobs
    → x.attempt_id ≡ r.attempt_id
    → x ≡ r
same_row jobs x r keyed ix ir e =
    cc (row_of-In r.attempt_id jobs x keyed ix e, row_of-In r.attempt_id jobs r keyed ir refl)

module _ (q : LeaseRequest) (s : Store) (v : IsValid s.jobs) where
  abbrev Evolved : List JobRow → Type 0
  Evolved table = Evolves s.jobs table

  Evolved-step :
      (f : JobRow → JobRow)
      → ((x : JobRow) → (f x).attempt_id ≡ x.attempt_id)
      → (table : List JobRow) (r : JobRow) → Evolved table
      → In r table
      → RowStep r (f r)
      → Evolved (update (has_id r.attempt_id) f table)
  Evolved-step f keeps table r e i st = step (has_id r.attempt_id) f e keeps (λ x ix hx.
      let same =
        same_row table x r (Evolves-IsValid v e).keyed ix i
          ((eq_iff x.attempt_id r.attempt_id).0 hx) in
      subst (λ y. RowStep y (f y)) (sym same) st)

  loop : Ends Evolved q.now (suc (length s.jobs)) s.jobs
  loop =
      acquire_loop-Ends Evolved q.now
        (λ table r e picked asked.
          let (i, ok_r) = next_eligible-In q.now table r picked in
          Evolved-step (cancel_row q.now) (λ x. refl) table r e i (cancel q.now ok_r asked refl))
        (suc (length s.jobs)) s.jobs (omega (arith, count-le_length (is_eligible q.now) s.jobs))
        start

  take_lease-none : (table : List JobRow) → (take_lease q s (some (none, table))).1.jobs ≡ table
  unfolding take_lease
  take_lease-none table = refl

  take_lease-some :
      (row : JobRow) (table : List JobRow)
      → (take_lease q s (some (some row, table))).1.jobs
        ≡ update (has_id row.attempt_id) (lease_row q) table
  unfolding take_lease
  take_lease-some row table = ground arith

  pub acquire_lease-Evolves : Evolves s.jobs (acquire_lease q s).1.jobs
  unfolding acquire_lease
  acquire_lease-Evolves = elim (Option-cases loop.row) [
    | inl e ↦
        subst (λ o. Evolved (take_lease q s o).1.jobs)
          (sym (loop.ends ∙ ap (λ o. some (o, loop.table)) e)) (rw take_lease-none loop.kept)
    | inr (row, e) ↦
        let (i, ok_row) = next_eligible-In q.now loop.table row (loop.oldest ∙ e) in
        subst (λ o. Evolved (take_lease q s o).1.jobs)
          (sym (loop.ends ∙ ap (λ o. some (o, loop.table)) e))
          (rw take_lease-some (
            Evolved-step (lease_row q) (λ x. refl) loop.table row loop.kept i
              (lease q ok_row (loop.not_cancelled row e) refl)))
  ]
