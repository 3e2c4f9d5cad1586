-- ===== src/Agent/Backoff.antt =====
-- `BackoffPolicy` of src/build_engine/agent/uplink.py, with whole numbers for its seconds.
use build_engine.Prelude.{ℕ, ◌-◌, ◌*◌, ◌^◌, ◌≤◌, leb, arith, inl, inr, Bool-cases, if◌then◌else◌}

pub record BackoffPolicy : Type 0 where
  pub initial_seconds : ℕ
  pub multiplier : ℕ
  pub max_seconds : ℕ

abbrev min : ℕ → ℕ → ℕ
min a b = if leb a b then a else b

min_le : (a b : ℕ) → min a b ≤ b
min_le a b = ground arith

unfoldable pub delay : BackoffPolicy → ℕ → ℕ
delay p failures =
    if leb failures 1
    then p.initial_seconds
    else min (p.initial_seconds * p.multiplier ^ (failures - 1)) p.max_seconds

-- With an initial delay of at most `max_seconds`, no delay is above `max_seconds`, however many
-- connections have failed.
delay-le_max :
    (p : BackoffPolicy) (failures : ℕ)
    → p.initial_seconds ≤ p.max_seconds
    → delay p failures ≤ p.max_seconds
unfolding delay
delay-le_max p failures h = elim (Bool-cases (leb failures 1)) [
  | inl e ↦ rw e h
  | inr e ↦ rw e (min_le _ p.max_seconds)
]
