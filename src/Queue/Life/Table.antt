-- ===== src/Queue/Life/Table.antt =====
-- What the life cycle gives for a whole table: the invariant, and the fate of each row.
use build_engine.Prelude.{
  String, ◌≡◌, ap, ◌∙◌, true, some, List, inl, inr, eq_iff, All, arith, Bool-cases, if◌then◌else◌,
}
use build_engine.Table.Laws.{count-append, find-append, In-find}
use build_engine.Table.Changes.{count_of_none, All-update, All-snoc}
use build_engine.Queue.Rows.{JobRow, has_id, is_terminal}
use build_engine.Queue.Keys.{row_of, map_row, IsKeyed, IsKeyed-update, row-update}
use build_engine.Queue.Store.{new_row, durable_payload}
use build_engine.Queue.Life.{
  RowSteps, here, next, Evolves, start, step, add, IsSettled, RowStep-IsSettled, Follows,
  RowStep-Follows, IsFinal, RowStep-IsFinal,
}

-- The invariant of the table `jobs`.
pub record IsValid (jobs : List JobRow) : Type 0 where
  pub keyed : IsKeyed jobs
  pub settled : All IsSettled jobs

pub Evolves-IsValid : {jobs after : List JobRow} → IsValid jobs → Evolves jobs after → IsValid after
Evolves-IsValid v start = v
Evolves-IsValid v (step {mid} p f e keeps steps) =
    let before_ : IsValid mid = Evolves-IsValid v e in
    record {
      keyed = IsKeyed-update p f keeps mid before_.keyed;
      settled =
          All-update IsSettled p f mid (λ r i h hp. RowStep-IsSettled r (f r) (steps r i hp) h)
            before_.settled;
    }
Evolves-IsValid v (add {mid} now b a payload e fresh) =
    let before_ : IsValid mid = Evolves-IsValid v e in
    record {
      keyed = λ x. ground (
        arith,
        count-append (has_id x) mid (new_row now b a (durable_payload payload)),
        before_.keyed x,
        count_of_none (has_id a) mid fresh,
        eq_iff a x,
      );
      settled =
          All-snoc IsSettled mid (new_row now b a (durable_payload payload)) before_.settled
            (ground arith);
    }

-- A row stays in the table, and takes steps of the life cycle.
pub Evolves-row :
    {jobs after : List JobRow} (a : String) (r : JobRow)
    → Evolves jobs after
    → row_of a jobs ≡ some r
    → (r' : JobRow) × (row_of a after ≡ some r') × RowSteps r r'
Evolves-row a r start h = (r, h, here)
Evolves-row a r (step {mid} p f e keeps steps) h =
    let (x, at, path) = Evolves-row a r e h in
    let law = row-update p f keeps a mid ∙ ap (map_row (λ y. if p y then f y else y)) at in
    elim (Bool-cases (p x)) [
      | inl hp ↦ (f x, law ∙ rw hp, next path (steps x (In-find (has_id a) mid x at) hp))
      | inr hp ↦ (x, law ∙ rw hp, path)
    ]
Evolves-row a r (add {mid} now b c payload e fresh) h =
    let (x, at, path) = Evolves-row a r e h in
    (
      x,
      ground (arith, find-append (has_id a) mid (new_row now b c (durable_payload payload)), at),
      path,
    )

pub RowSteps-Follows : {r r' : JobRow} → RowSteps r r' → Follows r r'
RowSteps-Follows here = ground arith
RowSteps-Follows (next {x} {y} path s) =
    ground (arith, RowSteps-Follows path, RowStep-Follows x y s)

pub RowSteps-IsFinal : {r r' : JobRow} → is_terminal r.state ≡ true → RowSteps r r' → IsFinal r r'
RowSteps-IsFinal t here = ground arith
RowSteps-IsFinal t (next {x} {y} path s) = ground (
  arith,
  RowSteps-IsFinal t path,
  RowStep-IsFinal x y s (rw (RowSteps-IsFinal t path).same_end t),
)
