-- ===== src/Queue/Keys.antt =====
-- The table `jobs` as a map from attempts to rows: the lookup by primary key, and what a statement
-- on one attempt does to it.
use build_engine.Prelude.{
  ◌≤◌, String, ◌≡◌, inl, inr, Bool, true, Option, none, some, List, In, arith, Option-cases, eq_iff,
  eq_refl, str_eq, if◌then◌else◌,
}
use build_engine.Table.{find, update, count}
use build_engine.Table.Laws.{find_sound, find-update, find_of_In, count-update, count_mono}
use build_engine.Queue.Rows.{JobRow, has_id, has_ids}

abbrev pub row_of : String → List JobRow → Option JobRow
row_of attempt_id jobs = find (has_id attempt_id) jobs

-- The primary key: an attempt has one row at most.
abbrev pub IsKeyed : List JobRow → Type 0
IsKeyed jobs = (attempt_id : String) → count (has_id attempt_id) jobs ≤ 1

abbrev pub map_row : (JobRow → JobRow) → Option JobRow → Option JobRow
map_row f none = none
map_row f (some r) = some (f r)

pub row_of_id :
    (a : String) (jobs : List JobRow) (r : JobRow) → row_of a jobs ≡ some r → r.attempt_id ≡ a
row_of_id a jobs r h = (eq_iff r.attempt_id a).0 (find_sound (has_id a) jobs r h)

pub row_of-In :
    (a : String) (jobs : List JobRow) (r : JobRow)
    → IsKeyed jobs
    → In r jobs
    → r.attempt_id ≡ a
    → row_of a jobs ≡ some r
row_of-In a jobs r keyed i e =
    find_of_In (has_id a) jobs r i ((eq_iff r.attempt_id a).1 e) (keyed a)

-- An UPDATE of the rows that pass a test, seen by attempt.
pub row-update :
    (p : JobRow → Bool) (f : JobRow → JobRow)
    → ((r : JobRow) → (f r).attempt_id ≡ r.attempt_id)
    → (a : String) (jobs : List JobRow)
    → row_of a (update p f jobs) ≡ map_row (λ r. if p r then f r else r) (row_of a jobs)
row-update p f keeps a jobs = elim (Option-cases (row_of a jobs)) [
  | inl e ↦ ground (arith, law)
  | inr (r, e) ↦ ground (arith, law)
]
  where
    keeps_key : (r : JobRow) → has_id a (f r) ≡ has_id a r
    keeps_key r = rw (keeps r)

    law :
        row_of a (update p f jobs)
        ≡ elim (row_of a jobs) [ none ↦ none | some r ↦ some (if p r then f r else r) ]
    law = find-update p (has_id a) f keeps_key jobs

-- An UPDATE of one attempt, seen by attempt.
pub row-update_id :
    (b : String) (f : JobRow → JobRow)
    → ((r : JobRow) → (f r).attempt_id ≡ r.attempt_id)
    → (a : String) (jobs : List JobRow)
    → row_of a (update (has_id b) f jobs)
      ≡ (if str_eq b a then map_row f (row_of a jobs) else row_of a jobs)
row-update_id b f keeps a jobs = elim (Option-cases (row_of a jobs)) [
  | inl e ↦ ground (arith, row-update (has_id b) f keeps a jobs)
  | inr (r, e) ↦ ground (
    arith,
    row-update (has_id b) f keeps a jobs,
    row_of_id a jobs r e,
    eq_iff r.attempt_id b,
    eq_iff b a,
  )
]

pub IsKeyed-update :
    (p : JobRow → Bool) (f : JobRow → JobRow)
    → ((r : JobRow) → (f r).attempt_id ≡ r.attempt_id)
    → (jobs : List JobRow) → IsKeyed jobs
    → IsKeyed (update p f jobs)
IsKeyed-update p f keeps jobs keyed a =
    rw (count-update p (has_id a) f (λ r. rw (keeps r)) jobs) (keyed a)

-- The lookup by both keys agrees with the one by attempt.
pub find-has_ids :
    (jobs : List JobRow) (r : JobRow)
    → IsKeyed jobs
    → In r jobs
    → find (has_ids r.build_job_id r.attempt_id) jobs ≡ some r
find-has_ids jobs r keyed i = find_of_In (has_ids r.build_job_id r.attempt_id) jobs r i self single
  where
    self : has_ids r.build_job_id r.attempt_id r ≡ true
    self = ground (arith, eq_refl r.build_job_id, eq_refl r.attempt_id)

    single : count (has_ids r.build_job_id r.attempt_id) jobs ≤ 1
    single = omega (
      arith,
      keyed r.attempt_id,
      count_mono (has_ids r.build_job_id r.attempt_id) (has_id r.attempt_id) (λ x h. ground arith)
          jobs,
    )
