-- ===== src/Executor/Docker/Secrets.antt =====
-- The environment file that src/build_engine/executor/docker_runner.py writes, as Docker reads it.
use build_engine.Prelude.{
  ℕ, ◌≡◌, refl, ap, subst, ◌∙◌, true, false, List, [], ◌∷◌, ◌++◌, map, ◌==◌, any, Bool-cases, inl,
  inr, arith, if◌then◌else◌,
}
use build_engine.Result.{ok, >>=-eq-ok}
use build_engine.Executor.Stream.{Text}
use build_engine.Executor.Docker.EnvFile.{
  Characters, all_alnum, is_env_key, has_newline, env_line, env_lines, ended_lines, format_env_file,
}

-- Docker's reading: a variable on each line, up to the first equals sign its name.
abbrev add_to_first : ℕ → List Text → List Text
add_to_first c [] = (c ∷ []) ∷ []
add_to_first c (line ∷ lines) = (c ∷ line) ∷ lines

unfoldable pub lines_of : Text → List Text
lines_of [] = []
lines_of (c ∷ cs) = if c == 10 then [] ∷ lines_of cs else add_to_first c (lines_of cs)

unfoldable pub variable : Text → Text × Text
variable [] = ([], [])
variable (c ∷ cs) = let (key, value) = variable cs in if c == 61 then ([], cs) else (c ∷ key, value)

unfoldable pub read_env_file : Text → List (Text × Text)
read_env_file text = map variable (lines_of text)

-- Neither the equals sign nor a line break is alphanumeric.
pub record IsSane (t : Characters) : Type 0 where
  pub no_equals : t.is_alnum 61 ≡ false
  pub no_newline : t.is_alnum 10 ≡ false

variable-key :
    (t : Characters) (key value : Text)
    → IsSane t
    → all_alnum t key ≡ true
    → variable (key ++ 61 ∷ value) ≡ (key, value)
unfolding variable all_alnum
variable-key t [] value sane h = refl
variable-key t (c ∷ cs) value sane h = elim (Bool-cases (c == 61)) [
  | inl e ↦ absurd (ground (arith, h, e, sane.no_equals))
  | inr e ↦ rw e (
      ap (λ (kv : Text × Text). (c ∷ kv.0, kv.1))
        (variable-key t cs value sane (ground (arith, h))))
]

abbrev IsOneLine : Text → Type 0
IsOneLine line = any (λ c. c == 10) line ≡ false

lines_of-line :
    (line rest : Text) → IsOneLine line → lines_of (line ++ 10 ∷ rest) ≡ line ∷ lines_of rest
unfolding lines_of
lines_of-line [] rest h = refl
lines_of-line (c ∷ cs) rest h = elim (Bool-cases (c == 10)) [
  | inl e ↦ absurd (ground (arith, h, e))
  | inr e ↦ rw e (rw (lines_of-line cs rest (ground (arith, h))) refl)
]

key-IsOneLine :
    (t : Characters) (key value : Text)
    → IsSane t
    → all_alnum t key ≡ true
    → has_newline value ≡ false
    → IsOneLine (key ++ 61 ∷ value)
unfolding all_alnum has_newline
key-IsOneLine t [] [] sane h v = refl
key-IsOneLine t [] (c ∷ cs) sane h v =
    ground (arith, key-IsOneLine t [] cs sane h (ground (arith, v)))
key-IsOneLine t (c ∷ cs) value sane h v = elim (Bool-cases (c == 10)) [
  | inl e ↦ absurd (ground (arith, h, e, sane.no_newline))
  | inr e ↦ rw e (key-IsOneLine t cs value sane (ground (arith, h)) v)
]

env_line-ok :
    (t : Characters) (key value line : Text)
    → env_line t (key, value) ≡ ok line
    → (all_alnum t key ≡ true) × (has_newline value ≡ false) × (line ≡ key ++ 61 ∷ value)
unfolding env_line is_env_key
env_line-ok t key value line h = ground arith

-- The lines that were written, read one by one.
lines-read :
    (t : Characters) (items : List (Text × Text)) (lines : List Text)
    → IsSane t
    → env_lines t items ≡ ok lines
    → map variable (lines_of (ended_lines lines)) ≡ items
unfolding env_lines ended_lines
lines-read t [] lines sane h =
    let none_ : [] ≡ lines = cc in
    subst (λ ls. map variable (lines_of (ended_lines ls)) ≡ []) none_ (unfold lines_of in refl)
lines-read t ((key, value) ∷ items) lines sane h =
    let (line, one, h1) = >>=-eq-ok (env_line t (key, value)) _ h in
    let (more, rest, h2) = >>=-eq-ok (env_lines t items) _ h1 in
    let (alnum, single, text) = env_line-ok t key value line one in
    let all_ : line ∷ more ≡ lines = cc in
    let one_line : IsOneLine line = rw text (key-IsOneLine t key value sane alnum single) in
    subst (λ ls. map variable (lines_of (ended_lines ls)) ≡ (key, value) ∷ items) all_
      (ap (map variable) (lines_of-line line (ended_lines more) one_line)
        ∙ ap (λ x. x ∷ map variable (lines_of (ended_lines more)))
            (ap variable text ∙ variable-key t key value sane alnum)
        ∙ ap (λ xs. (key, value) ∷ xs) (lines-read t items more sane rest))

-- Read line by line, with a variable up to the first equals sign of each, a file of secrets that was
-- written gives the secrets, each under its name and with its whole value. No equals sign and no
-- line break is alphanumeric.
pub read_env_file-format_env_file :
    (t : Characters) (items : List (Text × Text)) (text : Text)
    → IsSane t
    → format_env_file t items ≡ ok text
    → read_env_file text ≡ items
unfolding format_env_file read_env_file
read_env_file-format_env_file t items text sane written =
    let (lines, some_lines, h) = >>=-eq-ok (env_lines t items) _ written in
    let same : ended_lines lines ≡ text = cc in
    subst (λ x. map variable (lines_of x) ≡ items) same (lines-read t items lines sane some_lines)
