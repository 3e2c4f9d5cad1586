-- ===== src/Executor/Docker/Process.antt =====
-- Waiting for a container in src/build_engine/executor/docker_runner.py.
use build_engine.Prelude.{
  ℕ, String, Bool, true, ◌&&◌, ◌||◌, Option, none, some, List, [], ◌∷◌, leb, length, codes,
  if◌then◌else◌,
}

-- What one turn of the loop of `_wait_for_process` sees: whether the cancellation was requested, the
-- time, and whether the process ends while the loop waits for it. An exit code is any number.
pub record Poll (Code : Type 0) : Type 0 where
  pub cancelled : Bool
  pub now : ℕ
  pub exited : Option Code

pub data Ending (Code : Type 0) : Type 0 where
  stopped : Ending Code
  overdue : Ending Code
  completed : Code → Ending Code

-- How the loop ends, none where it goes on after these turns.
unfoldable pub wait_for_process : {Code : Type 0} → ℕ → List (Poll Code) → Option (Ending Code)
wait_for_process deadline [] = none
wait_for_process deadline (p ∷ polls) =
    let rest = wait_for_process deadline polls in
    if p.cancelled
    then some stopped
    else if leb deadline p.now
    then some overdue
    else elim p.exited [ some code ↦ some (completed code) | none ↦ rest ]

abbrev is_hex_digit : ℕ → Bool
is_hex_digit c = (leb 48 c && leb c 57) || (leb 97 c && leb c 102) || (leb 65 c && leb c 70)

abbrev all_hex_digits : List ℕ → Bool
all_hex_digits [] = true
all_hex_digits (c ∷ cs) = is_hex_digit c && all_hex_digits cs

-- `_read_container_id`, of the stripped text of the file if it can be read.
unfoldable pub read_container_id : Option String → Option String
read_container_id none = none
read_container_id (some value) =
    let cs = codes value in
    if leb 12 (length cs) && leb (length cs) 128 && all_hex_digits cs then some value else none
