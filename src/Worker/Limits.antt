-- ===== src/Worker/Limits.antt =====
-- The bounds that `_resource_limits` of src/build_engine/agent/job_loop.py puts on a build.
use build_engine.Prelude.{ℕ, String, ◌≤◌, ◌<◌, ◌≡◌, Option, none, some, arith, subst, true, codes}
use build_engine.Result.{ok, >>=-eq-ok}
use build_engine.Json.{Json, Fields, get}
use build_engine.Worker.Payload.{
  LocalLimits, ResourceLimits, timeout_of, memory_of, cpus_of, pids_of, resource_limits, float_le,
  limits_object, is_memory,
}

abbrev IsMemory : Option String → Type 0
IsMemory none = Unit {0}
IsMemory (some memory) = is_memory (codes memory) ≡ true

abbrev IsShare : ℕ × ℕ → Option (ℕ × ℕ) → Type 0
IsShare limit none = Unit {0}
IsShare limit (some (n, e)) = (0 < n) × (float_le (n, e) limit ≡ true)

-- What a payload may ask for: a timeout of at least a second and of at most the configured one, a
-- positive share of at most the configured processors, between 1 and 4,096 processes, and memory as a
-- positive number with a unit, which is compared with nothing.
pub record IsBounded (l : LocalLimits) (r : ResourceLimits) : Type 0 where
  pub some_time : 1 ≤ r.timeout_seconds
  pub short : r.timeout_seconds ≤ l.build_timeout_seconds
  pub share : IsShare l.container_cpus r.cpus
  pub some_pids : 1 ≤ r.pids_limit
  pub few_pids : r.pids_limit ≤ 4_096
  pub memory : IsMemory r.memory

timeout_of-bounds :
    (limit : ℕ) (value : Option Json) (t : ℕ)
    → timeout_of limit value ≡ ok t
    → (1 ≤ t) × (t ≤ limit)
unfolding timeout_of
timeout_of-bounds limit value t h = ground arith

pids_of-bounds : (value : Option Json) (n : ℕ) → pids_of value ≡ ok n → (1 ≤ n) × (n ≤ 4_096)
unfolding pids_of
pids_of-bounds value n h = ground arith

memory_of-IsMemory :
    (value : Option Json) (memory : Option String) → memory_of value ≡ ok memory → IsMemory memory
unfolding memory_of
memory_of-IsMemory value memory h = ground arith

cpus_of-IsShare :
    (l : LocalLimits) (value : Option Json) (c : Option (ℕ × ℕ))
    → cpus_of l value ≡ ok c
    → IsShare l.container_cpus c
unfolding cpus_of
cpus_of-IsShare l value c h = ground arith

abbrev limits_of : ℕ → Option String → Option (ℕ × ℕ) → ℕ → ResourceLimits
limits_of t memory cpus pids = record {
  timeout_seconds = t;
  memory = memory;
  cpus = cpus;
  pids_limit = pids;
}

-- Whatever the payload holds, `_resource_limits` returns a timeout between a second and the configured
-- build timeout, no share of processors or a positive one up to the configured processors, 1 to 4,096
-- processes, and no memory or a positive number with a unit. The memory has no upper bound here.
pub resource_limits-IsBounded :
    (l : LocalLimits) (payload : Fields) (r : ResourceLimits)
    → resource_limits l payload ≡ ok r
    → IsBounded l r
unfolding resource_limits
resource_limits-IsBounded l payload r returned =
    let (t, ht, h1) =
      >>=-eq-ok (timeout_of l.build_timeout_seconds (get "timeout_seconds" payload)) _ returned in
    let (raw, hraw, h2) = >>=-eq-ok (limits_object (get "resource_limits" payload)) _ h1 in
    let (memory, hm, h3) = >>=-eq-ok (memory_of (get "memory" raw)) _ h2 in
    let (cpus, hc, h4) = >>=-eq-ok (cpus_of l (get "cpus" raw)) _ h3 in
    let (pids, hp, h5) = >>=-eq-ok (pids_of (get "pids_limit" raw)) _ h4 in
    let time = timeout_of-bounds l.build_timeout_seconds (get "timeout_seconds" payload) t ht in
    let sized = memory_of-IsMemory (get "memory" raw) memory hm in
    let share = cpus_of-IsShare l (get "cpus" raw) cpus hc in
    let many = pids_of-bounds (get "pids_limit" raw) pids hp in
    let same : limits_of t memory cpus pids ≡ r = cc in
    subst (IsBounded l) same (record {
      some_time = time.0;
      short = time.1;
      share = share;
      some_pids = many.0;
      few_pids = many.1;
      memory = sized;
    })
