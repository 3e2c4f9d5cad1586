-- ===== src/Executor/Stream.antt =====
-- src/build_engine/executor/stream.py. A text is the list of its code points.
pub mod Frames
use build_engine.Prelude.{
  ℕ, zero, suc, ◌+◌, ◌-◌, Bool, true, false, ◌&&◌, Option, none, some, List, [], ◌∷◌, ◌++◌, map,
  length, take, drop, leb, ltb, any, ◌==◌, if◌then◌else◌,
}
use build_engine.Protocol.Envelope.{max_log_data_bytes}

abbrev pub Text : Type 0
Text = List ℕ

unfoldable pub same_text : Text → Text → Bool
same_text [] [] = true
same_text (x ∷ xs) (y ∷ ys) = x == y && same_text xs ys
same_text _ _ = false

abbrev add_new : Text → List Text → List Text
add_new secret clean = if any (same_text secret) clean then clean else secret ∷ clean

-- The set of the secrets that are not empty.
unfoldable pub clean_secrets : List Text → List Text
clean_secrets [] = []
clean_secrets ([] ∷ more) = clean_secrets more
clean_secrets ((c ∷ cs) ∷ more) = add_new (c ∷ cs) (clean_secrets more)

unfoldable pub insert_longest : Text → List Text → List Text
insert_longest s [] = s ∷ []
insert_longest s (x ∷ xs) =
    if leb (length x) (length s) then s ∷ x ∷ xs else x ∷ insert_longest s xs

unfoldable pub longest_first : List Text → List Text
longest_first [] = []
longest_first (s ∷ more) = insert_longest s (longest_first more)

-- `SecretRedactor.__init__`. `walk` is the order in which Python walks the set, which the sort keeps
-- among secrets of the same length.
unfoldable pub new_redactor : (List Text → List Text) → List Text → List Text
new_redactor walk secrets = longest_first (walk (clean_secrets secrets))

unfoldable pub starts_with : Text → Text → Bool
starts_with [] v = true
starts_with (s ∷ ss) [] = false
starts_with (s ∷ ss) (c ∷ cs) = s == c && starts_with ss cs

-- `str.replace`: `skip` is the number of code points that the last occurrence still covers.
unfoldable pub replace_from : ℕ → Text → Text → Text → Text
replace_from skip old new [] = []
replace_from (suc skip) old new (c ∷ cs) = replace_from skip old new cs
replace_from zero old new (c ∷ cs) =
    if starts_with old (c ∷ cs)
    then new ++ replace_from (length old - 1) old new cs
    else c ∷ replace_from zero old new cs

-- [REDACTED]
abbrev pub redacted_token : Text
redacted_token = 91 ∷ 82 ∷ 69 ∷ 68 ∷ 65 ∷ 67 ∷ 84 ∷ 69 ∷ 68 ∷ 93 ∷ []

unfoldable pub redact : List Text → Text → Text
redact [] value = value
redact (secret ∷ more) value = redact more (replace_from zero secret redacted_token value)

-- The length of the UTF-8 encoding.
abbrev pub width : ℕ → ℕ
width c = if ltb c 128 then 1 else if ltb c 2_048 then 2 else if ltb c 65_536 then 3 else 4

unfoldable pub encoded_length : Text → ℕ
encoded_length [] = 0
encoded_length (c ∷ cs) = width c + encoded_length cs

-- The inner loop: the longest of the shorter prefixes that is small enough.
unfoldable pub shrink : ℕ → Text → ℕ
shrink zero remaining = 0
shrink (suc limit) remaining =
    if ltb max_log_data_bytes (encoded_length (take (suc limit) remaining))
    then shrink limit remaining
    else suc limit

abbrev pub first_limit : Text → ℕ
first_limit remaining =
    if leb (length remaining) max_log_data_bytes then length remaining else max_log_data_bytes

abbrev add_chunk : Text → Option (List Text) → Option (List Text)
add_chunk chunk none = none
add_chunk chunk (some chunks) = some (chunk ∷ chunks)

-- The outer loop, none where it runs out of fuel.
unfoldable pub chunk_loop : ℕ → Text → Option (List Text)
chunk_loop fuel [] = some []
chunk_loop zero (c ∷ cs) = none
chunk_loop (suc fuel) (c ∷ cs) =
    let limit = shrink (first_limit (c ∷ cs)) (c ∷ cs) in
    add_chunk (take limit (c ∷ cs)) (chunk_loop fuel (drop limit (c ∷ cs)))

unfoldable pub frame_chunks : Text → Option (List Text)
frame_chunks value =
    if leb (encoded_length value) max_log_data_bytes
    then some (value ∷ [])
    else chunk_loop (length value) value

abbrev add_frames : Option (List Text) → Option (List Text) → Option (List Text)
add_frames none more = none
add_frames (some frames) none = none
add_frames (some frames) (some more) = some (frames ++ more)

-- `pump_stream`: what is published for the chunks that are read, each of which is decoded by itself.
unfoldable pub pump_stream : (List ℕ → Text) → List Text → List (List ℕ) → Option (List Text)
pump_stream decode secrets [] = some []
pump_stream decode secrets (chunk ∷ chunks) =
    add_frames (frame_chunks (redact secrets (decode chunk))) (pump_stream decode secrets chunks)
