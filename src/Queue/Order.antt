-- ===== src/Queue/Order.antt =====
-- The order ORDER BY created_at, attempt_id of src/build_engine/queue/store.py.
use build_engine.Prelude.{◌≡◌, ◌⊎◌, true, arith, str_le_total, str_le_trans}
use build_engine.Queue.Rows.{JobRow, before}

pub before_total : (a b : JobRow) → (before a b ≡ true) ⊎ (before b a ≡ true)
unfolding before
before_total a b = ground (arith, str_le_total a.attempt_id b.attempt_id)

pub before_trans : (a b c : JobRow) → before a b ≡ true → before b c ≡ true → before a c ≡ true
unfolding before
before_trans a b c = ground (arith, str_le_trans a.attempt_id b.attempt_id c.attempt_id)
