-- ===== src/Queue/Lease/Acquired.antt =====
-- What `acquire_lease` of src/build_engine/queue/store.py returns and stores.
use build_engine.Prelude.{
  suc, String, ◌≡◌, refl, sym, ap, ◌∙◌, ◌≢◌, inl, inr, true, none, some, List, In, length, arith,
  Bool-cases, Option-cases, eq_iff, eq_refl, subst,
}
use build_engine.Result.{ok}
use build_engine.Table.{find, select, update}
use build_engine.Table.Laws.{select_of_In, first_by-none, first_by_least, find-update}
use build_engine.Queue.Rows.{JobRow, Store, has_id, has_ids, before}
use build_engine.Queue.Order.{before_total, before_trans}
use build_engine.Queue.Keys.{row_of, IsKeyed, map_row, row_of-In, row-update_id, find-has_ids}
use build_engine.Queue.Store.{with_transient_payload}
use build_engine.Queue.Lease.{
  LeaseRequest, is_eligible, lease_row, acquire_loop, take_lease, acquire_lease,
}
use build_engine.Queue.Lease.Loop.{next_eligible-In}
use build_engine.Queue.Lease.Grant.{
  Acquired, IsGrant, LoopEnds, Untouched, UntouchedRow, granted, idle, loop, waiting-In,
}

abbrev granted_jobs : LeaseRequest → JobRow → List JobRow → List JobRow
granted_jobs q row table = update (has_id row.attempt_id) (lease_row q) table

acquire_lease-none :
    (q : LeaseRequest) (s : Store) (table : List JobRow)
    → acquire_loop (suc (length s.jobs)) q.now s.jobs ≡ some (none, table)
    → acquire_lease q s ≡ (ok none, record s { jobs = table })
unfolding acquire_lease take_lease
acquire_lease-none q s table e = rw e

acquire_lease-some :
    (q : LeaseRequest) (s : Store) (row : JobRow) (table : List JobRow)
    → acquire_loop (suc (length s.jobs)) q.now s.jobs ≡ some (some row, table)
    → find (has_ids row.build_job_id row.attempt_id) (granted_jobs q row table)
      ≡ some (lease_row q row)
    → acquire_lease q s ≡ (
      ok (some (with_transient_payload s (lease_row q row))),
      record s { jobs = granted_jobs q row table },
    )
unfolding acquire_lease take_lease with_transient_payload
acquire_lease-some q s row table e f = rw e (rw f)

module _ (q : LeaseRequest) (s : Store) (keyed : IsKeyed s.jobs) (e : LoopEnds q s) where
  idle_asked :
      e.row ≡ none
      → (x : JobRow) → In x s.jobs
      → is_eligible q.now x ≡ true
      → x.cancel_requested ≡ true
  idle_asked nothing x i ok_x = elim (Bool-cases x.cancel_requested) [
    | inl asked ↦ asked
    | inr fine ↦
        let empty =
          first_by-none before (select (is_eligible q.now) e.table) (e.oldest ∙ nothing) in
        let left =
          select_of_In (is_eligible q.now) e.table x (waiting-In q s keyed e x i fine) ok_x in
        absurd (subst (In x) empty left)
  ]

  module _ (row : JobRow) (found : e.row ≡ some row) where
    granted_eq : acquire_lease q s ≡ (
      ok (some (with_transient_payload s (lease_row q row))),
      record s { jobs = granted_jobs q row e.table },
    )
    granted_eq = acquire_lease-some q s row e.table (e.ends ∙ rw found) reload
      where
        row_in : In row e.table
        row_in = (next_eligible-In q.now e.table row (e.oldest ∙ found)).0

        reload :
            find (has_ids row.build_job_id row.attempt_id) (granted_jobs q row e.table)
            ≡ some (lease_row q row)
        reload = ground (
          arith,
          find-update (has_id row.attempt_id) (has_ids row.build_job_id row.attempt_id)
              (lease_row q) (λ r. refl) e.table,
          find-has_ids e.table row e.kept.keyed row_in,
          eq_refl row.attempt_id,
        )

    table_row : row_of row.attempt_id e.table ≡ some row
    table_row =
        row_of-In row.attempt_id e.table row e.kept.keyed
          (next_eligible-In q.now e.table row (e.oldest ∙ found)).0 refl

    jobs_after : (acquire_lease q s).1.jobs ≡ granted_jobs q row e.table
    jobs_after = ap (λ o. o.1.jobs) granted_eq

    granted_self : row_of row.attempt_id (acquire_lease q s).1.jobs ≡ some (lease_row q row)
    granted_self =
        rw
          (
            jobs_after,
            row-update_id row.attempt_id (lease_row q) (λ x. refl) row.attempt_id e.table,
          )
          (rw (eq_refl row.attempt_id) (ap (map_row (lease_row q)) table_row))

    granted_others :
        (a : String) → a ≢ row.attempt_id → row_of a (acquire_lease q s).1.jobs ≡ row_of a e.table
    granted_others a other =
        rw (jobs_after, row-update_id row.attempt_id (lease_row q) (λ x. refl) a e.table)
          (ground (arith, eq_iff row.attempt_id a))

    -- What the loop broke with stands in the table as it stood before the loop.
    row_before : row_of row.attempt_id s.jobs ≡ some row
    row_before = elim (e.kept.rows row.attempt_id) [
      | inl same ↦ sym same ∙ table_row
      | inr (x, was, ok_x, asked, done) ↦ absurd (
          ground (
            arith,
            sym table_row ∙ done,
            (next_eligible-In q.now e.table row (e.oldest ∙ found)).1,
          ))
    ]

    granted_IsGrant : IsGrant q s (with_transient_payload s (lease_row q row)) row
    granted_IsGrant = record {
      returned = refl;
      was = row_before;
      eligible = (next_eligible-In q.now e.table row (e.oldest ∙ found)).1;
      not_cancelled = e.not_cancelled row found;
      oldest = λ x i ok_x fine.
          first_by_least before before_total before_trans (select (is_eligible q.now) e.table) row x
            (e.oldest ∙ found)
            (select_of_In (is_eligible q.now) e.table x (waiting-In q s keyed e x i fine) ok_x);
      recorded = granted_self;
    }

-- With a table keyed by attempt `acquire_lease` returns, and returns the oldest eligible attempt
-- whose cancellation nobody asked for, leased to the caller.
pub acquire_lease-Acquired : (q : LeaseRequest) (s : Store) → IsKeyed s.jobs → Acquired q s
acquire_lease-Acquired q s keyed = elim (Option-cases e.row) [
  | inl nothing ↦
      let ends = acquire_lease-none q s e.table (e.ends ∙ rw nothing) in
      idle (ap (λ o. o.0) ends) (idle_asked q s keyed e nothing)
        (λ a. subst (λ o. Untouched q.now s.jobs o.1.jobs a) (sym ends) (e.kept.rows a))
  | inr (row, found) ↦
      granted (with_transient_payload s (lease_row q row)) row
        (ap (λ o. o.0) (granted_eq q s keyed e row found)) (granted_IsGrant q s keyed e row found)
        (λ a other.
          subst (λ o. UntouchedRow q.now s.jobs o a)
            (sym (granted_others q s keyed e row found a other)) (e.kept.rows a))
]
  where
    e : LoopEnds q s
    e = loop q s keyed
