-- ===== src/Worker/Payload.antt =====
-- The payload checks of src/build_engine/agent/job_loop.py. A float n / 2 ^ e is the pair (n, e).
use Prim.Native.String.{◌++◌ as join}
use build_engine.Prelude.{
  ℕ, ◌*◌, ◌^◌, String, Bool, true, false, ◌&&◌, ◌||◌, Option, none, some, List, [], ◌∷◌, leb, ltb,
  ◌==◌, codes, str_eq, if◌then◌else◌,
}
use build_engine.Result.{Result, ok, err, ◌>>=◌}
use build_engine.Json.{Json, Fields, end, bool, int, float, str, obj, null, get}
use build_engine.Worker.{Fault, project, other}

abbrev pub workspace_error : String → Fault
workspace_error text = project "WorkspaceError" text

abbrev about_key : String → String → Fault
about_key key problem = workspace_error (join "payload " (join key problem))

unfoldable pub optional_str : Fields → String → Result Fault (Option String)
optional_str payload key = elim (get key payload) [
  | none ↦ ok none
  | some null ↦ ok none
  | some (str value) ↦
      if str_eq value "" then err (about_key key " must be a non-empty string") else ok (some value)
  | some _ ↦ err (about_key key " must be a non-empty string")
]

abbrev pub required : String → Option String → Result Fault String
required key none = err (about_key key " is required")
required key (some value) = ok value

unfoldable pub required_str : Fields → String → Result Fault String
required_str payload key = optional_str payload key >>= required key

unfoldable pub optional_int : Fields → String → Result Fault (Option ℕ)
optional_int payload key = elim (get key payload) [
  | none ↦ ok none
  | some null ↦ ok none
  | some (int n) ↦
      if ltb 0 n then ok (some n) else err (about_key key " must be a positive integer")
  | some _ ↦ err (about_key key " must be a positive integer")
]

abbrev policy_flag : Option Json → Result Fault Bool
policy_flag none = ok true
policy_flag (some (bool b)) = ok b
policy_flag (some _) = err (workspace_error "payload cache_policy.enabled must be a boolean")

-- The loop over the two older keys.
abbrev pub flags : Fields → List String → Result Fault Bool
flags payload [] = ok true
flags payload (key ∷ more) = elim (get key payload) [
  | none ↦ flags payload more
  | some null ↦ flags payload more
  | some (bool b) ↦ ok b
  | some _ ↦ err (about_key key " must be a boolean")
]

abbrev cache_keys : List String
cache_keys = "cache_enabled" ∷ "build_cache_enabled" ∷ []

unfoldable pub cache_enabled : Fields → Result Fault Bool
cache_enabled payload = elim (get "cache_policy" payload) [
  | none ↦ flags payload cache_keys
  | some null ↦ flags payload cache_keys
  | some (obj policy) ↦ policy_flag (get "enabled" policy)
  | some _ ↦ err (workspace_error "payload cache_policy must be an object")
]

-- `_resource_limits` returns these; `cpus` is a float.
pub record ResourceLimits : Type 0 where
  pub timeout_seconds : ℕ
  pub memory : Option String
  pub cpus : Option (ℕ × ℕ)
  pub pids_limit : ℕ

-- What is bounded by the configuration, and `float()` of an int, none where it overflows.
pub record LocalLimits : Type 0 where
  pub build_timeout_seconds : ℕ
  pub container_cpus : ℕ × ℕ
  pub to_float : ℕ → Option (ℕ × ℕ)

abbrev pub timeout_error : Fault
timeout_error = workspace_error "payload timeout_seconds exceeds the local bounded limit"

unfoldable pub timeout_of : ℕ → Option Json → Result Fault ℕ
timeout_of limit none = if leb 1 limit then ok limit else err timeout_error
timeout_of limit (some (int n)) = if leb 1 n && leb n limit then ok n else err timeout_error
timeout_of limit (some _) = err timeout_error

abbrev is_digit : ℕ → Bool
is_digit c = leb 48 c && leb c 57

-- The characters whose lower case is one of b, k, m and g: U+212A is the Kelvin sign.
abbrev is_unit : ℕ → Bool
is_unit c =
    c == 98
    || c == 66
    || c == 107
    || c == 75
    || c == 8490
    || c == 109
    || c == 77
    || c == 103
    || c == 71

unfoldable pub digits_then_unit : List ℕ → Bool
digits_then_unit [] = false
digits_then_unit (c ∷ []) = is_unit c
digits_then_unit (c ∷ d ∷ cs) = is_digit c && digits_then_unit (d ∷ cs)

-- [1-9][0-9]*(?:[bkmg])
unfoldable pub is_memory : List ℕ → Bool
is_memory [] = false
is_memory (c ∷ cs) = leb 49 c && leb c 57 && digits_then_unit cs

unfoldable pub memory_of : Option Json → Result Fault (Option String)
memory_of none = ok none
memory_of (some null) = ok none
memory_of (some (str value)) =
    if is_memory (codes value)
    then ok (some value)
    else err (workspace_error "payload resource_limits.memory is invalid")
memory_of (some _) = err (workspace_error "payload resource_limits.memory is invalid")

abbrev pub float_le : ℕ × ℕ → ℕ × ℕ → Bool
float_le (n, e) (m, d) = leb (n * 2 ^ d) (m * 2 ^ e)

abbrev checked_cpus : ℕ × ℕ → ℕ × ℕ → Result Fault (Option (ℕ × ℕ))
checked_cpus limit (n, e) =
    if ltb 0 n && float_le (n, e) limit
    then ok (some (n, e))
    else err (workspace_error "payload resource_limits.cpus exceeds the local limit")

abbrev converted_cpus : ℕ × ℕ → Option (ℕ × ℕ) → Result Fault (Option (ℕ × ℕ))
converted_cpus limit none = err (other "int too large to convert to float")
converted_cpus limit (some x) = checked_cpus limit x

unfoldable pub cpus_of : LocalLimits → Option Json → Result Fault (Option (ℕ × ℕ))
cpus_of l none = ok none
cpus_of l (some null) = ok none
cpus_of l (some (int n)) = converted_cpus l.container_cpus (l.to_float n)
cpus_of l (some (float n e)) = checked_cpus l.container_cpus (n, e)
cpus_of l (some _) = err (workspace_error "payload resource_limits.cpus exceeds the local limit")

abbrev pids_error : Fault
pids_error = workspace_error "payload resource_limits.pids_limit is invalid"

unfoldable pub pids_of : Option Json → Result Fault ℕ
pids_of none = ok 1024
pids_of (some (int n)) = if leb 1 n && leb n 4096 then ok n else err pids_error
pids_of (some _) = err pids_error

abbrev pub limits_object : Option Json → Result Fault Fields
limits_object none = ok end
limits_object (some (obj raw)) = ok raw
limits_object (some _) = err (workspace_error "payload resource_limits must be an object")

unfoldable pub resource_limits : LocalLimits → Fields → Result Fault ResourceLimits
resource_limits l payload = do
  timeout ← timeout_of l.build_timeout_seconds (get "timeout_seconds" payload)
  raw ← limits_object (get "resource_limits" payload)
  memory ← memory_of (get "memory" raw)
  cpus ← cpus_of l (get "cpus" raw)
  pids ← pids_of (get "pids_limit" raw)
  ok (record { timeout_seconds = timeout; memory = memory; cpus = cpus; pids_limit = pids })

unfoldable pub combined_command : String → String → String
combined_command install_command build_command =
    if str_eq install_command ""
    then build_command
    else join install_command (join " && " build_command)
