-- ===== src/Outbox/Limits.antt =====
-- The size limit of the spool: the loop of `_prune_sync` in src/build_engine/queue/store.py.
use build_engine.Prelude.{
  ℕ, zero, suc, ◌≤◌, ◌<◌, ◌≡◌, inl, inr, true, false, none, some, List, [], In, ltb, length, subst,
  ap, String, arith, Bool-cases, Option-cases, eq_refl,
}
use build_engine.Table.{delete, count, select, first_by}
use build_engine.Table.Laws.{In-select, select_of_In, In-first_by, first_by-none, count-delete_le}
use build_engine.Table.Changes.{In-delete, In-of_kept, length-delete_lt, one_of_key}
use build_engine.Queue.Rows.{EventRow, Store}
use build_engine.Outbox.{
  SpoolLimits, event_before, event_bytes, is_log, victim, event_has_id, prune_loop, prune, is_aged,
}

In-victim : (events : List EventRow) (v : EventRow) → victim events ≡ some v → In v events
unfolding victim
In-victim events v h = elim (Option-cases (first_by event_before (select is_log events))) [
  | inl e ↦ In-first_by event_before events v (ground arith)
  | inr (l, e) ↦
      (In-select is_log events v
        (In-first_by event_before (select is_log events) v (ground arith))).0
]

victim-none : (events : List EventRow) → victim events ≡ none → events ≡ []
unfolding victim
victim-none events h = first_by-none event_before events (ground arith)

-- The victim is a log as long as there is one.
victim_log :
    (events : List EventRow) (v : EventRow)
    → victim events ≡ some v
    → is_log v ≡ false
    → (x : EventRow) → In x events
    → is_log x ≡ false
unfolding victim
victim_log events v h plain x i =
    elim (Option-cases (first_by event_before (select is_log events))) [
      | inl e ↦ elim (Bool-cases (is_log x)) [
        | inl log_x ↦ absurd (
            subst (In x) (first_by-none event_before (select is_log events) e)
              (select_of_In is_log events x i log_x))
        | inr plain_x ↦ plain_x
      ]
      | inr (l, e) ↦
          let log_l =
            (In-select is_log events l (In-first_by event_before (select is_log events) l e)).1 in
          cc (log_l, ap is_log (same l e))
    ]
  where
    same : (l : EventRow) → first_by event_before (select is_log events) ≡ some l → l ≡ v
    same l e = ground arith

-- One round of the loop.
prune_loop-fits :
    (fuel m : ℕ) (events : List EventRow)
    → ltb m (event_bytes events) ≡ false
    → prune_loop (suc fuel) m events ≡ (0, events)
unfolding prune_loop
prune_loop-fits fuel m events h = ground arith

prune_loop-drop :
    (fuel m : ℕ) (events : List EventRow) (v : EventRow)
    → ltb m (event_bytes events) ≡ true
    → victim events ≡ some v
    → (prune_loop (suc fuel) m events).1 ≡ (prune_loop fuel m (delete (event_has_id v.id) events)).1
unfolding prune_loop
prune_loop-drop fuel m events v h e = ground arith

-- The spool is within its limit when the loop ends.
prune_loop-le :
    (fuel m : ℕ) (events : List EventRow)
    → length events < fuel
    → event_bytes (prune_loop fuel m events).1 ≤ m
prune_loop-le zero m events h = absurd (omega arith)
prune_loop-le (suc fuel) m events h = elim (Bool-cases (ltb m (event_bytes events))) [
  | inr fits ↦ rw (prune_loop-fits fuel m events fits) (ground arith)
  | inl over ↦ elim (Option-cases (victim events)) [
    | inl e ↦ absurd (unfold event_bytes in ground (arith, ap event_bytes (victim-none events e)))
    | inr (v, e) ↦ rw (prune_loop-drop fuel m events v over e) (
        prune_loop-le fuel m (delete (event_has_id v.id) events) (
          omega (
            arith,
            length-delete_lt (event_has_id v.id) events v (In-victim events v e) (eq_refl v.id),
          )))
  ]
]

-- The loop only deletes.
pub In-prune_loop :
    (fuel m : ℕ) (events : List EventRow) (x : EventRow)
    → In x (prune_loop fuel m events).1
    → In x events
In-prune_loop zero m events x i = unfold prune_loop in i
In-prune_loop (suc fuel) m events x i = elim (Bool-cases (ltb m (event_bytes events))) [
  | inr fits ↦ rw (prune_loop-fits fuel m events fits) at i
  | inl over ↦ elim (Option-cases (victim events)) [
    | inl e ↦ unfold prune_loop in ground arith
    | inr (v, e) ↦
        let i' = rw (prune_loop-drop fuel m events v over e) at i in
        (In-delete (event_has_id v.id) events x
          (In-prune_loop fuel m (delete (event_has_id v.id) events) x i')).0
  ]
]

prune_loop-logs_first :
    (fuel m : ℕ) (events : List EventRow) (x y : EventRow)
    → ((id : String) → count (event_has_id id) events ≤ 1)
    → In x events
    → is_log x ≡ false
    → ¬ In x (prune_loop fuel m events).1
    → In y (prune_loop fuel m events).1
    → is_log y ≡ false
prune_loop-logs_first zero m events x y keyed ix plain gone iy =
    absurd (gone (unfold prune_loop in ix))
prune_loop-logs_first (suc fuel) m events x y keyed ix plain gone iy =
    elim (Bool-cases (ltb m (event_bytes events))) [
      | inr fits ↦ absurd (gone (rw (prune_loop-fits fuel m events fits) ix))
      | inl over ↦ elim (Option-cases (victim events)) [
        | inl e ↦ absurd (gone (unfold prune_loop in ground arith))
        | inr (v, e) ↦
            let same = prune_loop-drop fuel m events v over e in
            elim (Bool-cases (event_has_id v.id x)) [
              | inl hit ↦
                  let x_v =
                    one_of_key (event_has_id v.id) events x v (keyed v.id) ix (In-victim events v e)
                      hit (eq_refl v.id) in
                  victim_log events v e (subst (λ z. is_log z ≡ false) x_v plain) y
                    (In-prune_loop (suc fuel) m events y iy)
              | inr kept ↦
                  prune_loop-logs_first fuel m (delete (event_has_id v.id) events) x y
                    (λ id. omega (
                      arith,
                      keyed id,
                      count-delete_le (event_has_id v.id) (event_has_id id) events,
                    ))
                    (In-of_kept (event_has_id v.id) events x ix kept) plain (λ i. gone (rw same i))
                    (rw same at iy)
            ]
      ]
    ]

-- After `_prune_sync` the stored envelopes are within `max_bytes`, whatever was stored.
pub prune_within_limit :
    (limits : SpoolLimits) (now : ℕ) (s : Store)
    → event_bytes (prune limits now s).1.events ≤ limits.max_bytes
unfolding prune
prune_within_limit limits now s =
    let young = delete (is_aged limits now s.jobs) s.events in
    prune_loop-le (suc (length young)) limits.max_bytes young (omega arith)

-- If `_prune_sync` drops an event that is no log and whose attempt is not finished and aged, then
-- it leaves no log, provided that event ids are unique.
pub prune-logs_first :
    (limits : SpoolLimits) (now : ℕ) (s : Store) (x y : EventRow)
    → ((id : String) → count (event_has_id id) s.events ≤ 1)
    → In x s.events
    → is_log x ≡ false
    → is_aged limits now s.jobs x ≡ false
    → ¬ In x (prune limits now s).1.events
    → In y (prune limits now s).1.events
    → is_log y ≡ false
unfolding prune
prune-logs_first limits now s x y keyed ix plain young gone iy =
    let aged = is_aged limits now s.jobs in
    prune_loop-logs_first (suc (length (delete aged s.events))) limits.max_bytes
      (delete aged s.events) x y
      (λ id. omega (arith, keyed id, count-delete_le aged (event_has_id id) s.events))
      (In-of_kept aged s.events x ix young) plain gone iy
