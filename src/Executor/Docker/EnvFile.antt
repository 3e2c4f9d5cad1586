-- ===== src/Executor/Docker/EnvFile.antt =====
-- The environment file of src/build_engine/executor/docker_runner.py. `is_alnum` is the test of
-- `str.isalnum` for one character and `is_decimal` that of `str.isdigit`; texts are lists of code
-- points.
use build_engine.Prelude.{ℕ, Bool, true, false, not, ◌&&◌, ◌||◌, List, [], ◌∷◌, ◌++◌, ◌==◌, any}
use build_engine.Result.{Result, ok, ◌>>=◌, ◌>>◌, require}
use build_engine.Executor.Stream.{Text}
use build_engine.Executor.Docker.{DockerError, bad_key, newline_in_value}

pub record Characters : Type 0 where
  pub is_alnum : ℕ → Bool
  pub is_digit : ℕ → Bool

-- The characters that are left without the underscores are all alphanumeric.
unfoldable pub all_alnum : Characters → Text → Bool
all_alnum t [] = true
all_alnum t (c ∷ cs) = (c == 95 || t.is_alnum c) && all_alnum t cs

-- `"".isalnum()` is false.
abbrev only_underscores : Text → Bool
only_underscores [] = true
only_underscores (c ∷ cs) = c == 95 && only_underscores cs

abbrev starts_with_digit : Characters → Text → Bool
starts_with_digit t [] = false
starts_with_digit t (c ∷ cs) = t.is_digit c

unfoldable pub is_env_key : Characters → Text → Bool
is_env_key t key = not (only_underscores key) && all_alnum t key && not (starts_with_digit t key)

unfoldable pub has_newline : Text → Bool
has_newline value = any (λ c. c == 10 || c == 13) value

unfoldable pub env_line : Characters → Text × Text → Result DockerError Text
env_line t (key, value) = do
  require (is_env_key t key) bad_key
  require (not (has_newline value)) newline_in_value
  ok (key ++ 61 ∷ value)

unfoldable pub env_lines : Characters → List (Text × Text) → Result DockerError (List Text)
env_lines t [] = ok []
env_lines t (item ∷ more) = do line ← env_line t item; lines ← env_lines t more; ok (line ∷ lines)

-- "\n".join(lines) + ("\n" if lines else ""): each line and a newline behind it.
unfoldable pub ended_lines : List Text → Text
ended_lines [] = []
ended_lines (line ∷ lines) = line ++ 10 ∷ ended_lines lines

-- `_format_env_file`, on the items in the order of their keys.
unfoldable pub format_env_file : Characters → List (Text × Text) → Result DockerError Text
format_env_file t items = env_lines t items >>= λ lines. ok (ended_lines lines)
