-- ===== src/Executor/Stream/Frames.antt =====
-- The log frames of `_frame_chunks` and `pump_stream` in src/build_engine/executor/stream.py.
use build_engine.Prelude.{
  ℕ, zero, suc, ◌≤◌, ◌<◌, ◌≡◌, refl, ap, sym, ◌∙◌, some, List, [], ◌∷◌, ◌++◌, map, All, length,
  take, drop, take-append-drop, length-drop, leb, ltb, inl, inr, Bool-cases, arith,
}
use build_engine.Protocol.Envelope.{max_log_data_bytes}
use mathlib.Core.List.{append-nil, append_assoc}
use build_engine.Executor.Stream.{
  Text, encoded_length, shrink, first_limit, chunk_loop, frame_chunks, pump_stream, redact,
}

abbrev pub join_all : List Text → Text
join_all [] = []
join_all (t ∷ ts) = t ++ join_all ts

abbrev pub IsFrame : Text → Type 0
IsFrame t = encoded_length t ≤ max_log_data_bytes

shrink-IsFrame : (limit : ℕ) (v : Text) → IsFrame (take (shrink limit v) v)
unfolding shrink encoded_length
shrink-IsFrame zero v = omega arith
shrink-IsFrame (suc n) v =
    elim (Bool-cases (ltb max_log_data_bytes (encoded_length (take (suc n) v)))) [
      | inl big ↦ rw big (shrink-IsFrame n v)
      | inr fits ↦ rw fits (ground (arith, fits))
    ]

-- One code point always fits.
shrink-pos : (limit c : ℕ) (cs : Text) → 0 < limit → 0 < shrink limit (c ∷ cs)
unfolding shrink
shrink-pos zero c cs h = h
shrink-pos (suc zero) c cs h = unfold encoded_length in ground arith
shrink-pos (suc (suc n)) c cs h = ground (arith, shrink-pos (suc n) c cs)

-- Frames that are the text when they are put together again.
pub record IsSplit (v : Text) (frames : List Text) : Type 0 where
  pub whole : join_all frames ≡ v
  pub fit : All IsFrame frames

chunk_loop-IsSplit :
    (fuel : ℕ) (v : Text)
    → length v ≤ fuel
    → (frames : List Text) × (chunk_loop fuel v ≡ some frames) × IsSplit v frames
unfolding chunk_loop
chunk_loop-IsSplit fuel [] h = ([], refl, record { whole = refl; fit = tt })
chunk_loop-IsSplit zero (c ∷ cs) h = absurd (omega arith)
chunk_loop-IsSplit (suc fuel) (c ∷ cs) h =
    let v = c ∷ cs in
    let limit = shrink (first_limit v) v in
    let more = shrink-pos (first_limit v) c cs (ground arith) in
    let (frames, e, split) =
      chunk_loop-IsSplit fuel (drop limit v) (omega (arith, length-drop limit v)) in
    (
      take limit v ∷ frames,
      rw e refl,
      record {
        whole = ap (λ rest. take limit v ++ rest) split.whole ∙ take-append-drop limit v;
        fit = (shrink-IsFrame (first_limit v) v, split.fit);
      },
    )

frame_chunks-IsSplit :
    (v : Text) → (frames : List Text) × (frame_chunks v ≡ some frames) × IsSplit v frames
unfolding frame_chunks
frame_chunks-IsSplit v = elim (Bool-cases (leb (encoded_length v) max_log_data_bytes)) [
  | inl small ↦
      (v ∷ [], rw small refl, record { whole = append-nil v; fit = (ground (arith, small), tt) })
  | inr big ↦
      let (frames, e, split) = chunk_loop-IsSplit (length v) v (omega arith) in
      (frames, rw big e, split)
]

join_all-append : (xs ys : List Text) → join_all (xs ++ ys) ≡ join_all xs ++ join_all ys
join_all-append [] ys = refl
join_all-append (x ∷ xs) ys =
    ap (λ rest. x ++ rest) (join_all-append xs ys)
    ∙ sym (append_assoc x (join_all xs) (join_all ys))

All-append : (xs ys : List Text) → All IsFrame xs → All IsFrame ys → All IsFrame (xs ++ ys)
All-append [] ys hx hy = hy
All-append (x ∷ xs) ys (h, hx) hy = (h, All-append xs ys hx hy)

-- Whatever a process writes, the loops that cut its output into frames end; the frames are the
-- redacted output, whole and in order, and none is larger than a log message may be.
pub pump_stream-IsSplit :
    (decode : List ℕ → Text) (secrets : List Text) (chunks : List (List ℕ))
    → (frames : List Text) × (pump_stream decode secrets chunks ≡ some frames)
      × IsSplit (join_all (map (λ chunk. redact secrets (decode chunk)) chunks)) frames
unfolding pump_stream
pump_stream-IsSplit decode secrets [] = ([], refl, record { whole = refl; fit = tt })
pump_stream-IsSplit decode secrets (chunk ∷ chunks) =
    let (frames, e, split) = frame_chunks-IsSplit (redact secrets (decode chunk)) in
    let (more, e', split') = pump_stream-IsSplit decode secrets chunks in
    (
      frames ++ more,
      rw e (rw e' refl),
      record {
        whole =
            join_all-append frames more
            ∙ ap (λ t. t ++ join_all more) split.whole
            ∙ ap (λ t. redact secrets (decode chunk) ++ t) split'.whole;
        fit = All-append frames more split.fit split'.fit;
      },
    )
