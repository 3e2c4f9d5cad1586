-- ===== src/Outbox/Append.antt =====
-- What `append` of src/build_engine/queue/store.py does to the store.
use build_engine.Prelude.{
  ℕ, String, ◌≡◌, refl, ap, ◌⊎◌, inl, inr, true, Option, none, some, List, [], ◌∷◌, ◌++◌, any,
  arith, Bool-cases, Option-cases, eq_refl, ◌&&◌, not,
}
use build_engine.Result.{Result, ok, err, Result-cases}
use build_engine.Errors.{AgentError, lift_protocol}
use build_engine.Table.{find, update}
use build_engine.Table.Changes.{All-snoc}
use build_engine.Protocol.Codec.{Codec}
use build_engine.Protocol.Envelope.{Envelope, to_json}
use build_engine.Queue.Rows.{JobRow, EventRow, Store, has_id}
use build_engine.Queue.Keys.{row_of, map_row, row-update_id}
use build_engine.Queue.Life.{Evolves, start, step, bump, bump_row}
use build_engine.Outbox.{
  SpoolLimits, event_row, append_event, append_encoded, append_keyed, append, append_interrupted,
  move_cursor, is_event, event_has_id,
}
use build_engine.Outbox.Sequence.{
  IsCovered, IsSequenced, All-IsCovered-Evolves, prune-jobs, prune-IsSequenced, spooled,
  append_event-cases,
}

-- A call of `append` as it reaches the database, for an envelope with both keys that fits a frame.
pub append-eq :
    (codec : Codec) (limits : SpoolLimits) (now : ℕ) (e : Envelope) (a : String) (n : ℕ)
    (json : String) (s : Store)
    → e.attempt_id ≡ some a
    → e.seq ≡ some n
    → to_json codec e ≡ ok json
    → append codec limits now e s ≡ append_event limits now e a n json s
unfolding append
append-eq codec limits now e a n json s ha hn hj = ground arith

pub bump-Evolves :
    (now n : ℕ) (a : String) (jobs : List JobRow)
    → Evolves jobs (update (has_id a) (bump_row now n) jobs)
bump-Evolves now n a jobs =
    step (has_id a) (bump_row now n) start (λ r. refl) (λ r i h. bump now n refl)

pub spooled-jobs :
    (limits : SpoolLimits) (now : ℕ) (row : EventRow) (s : Store)
    → (spooled limits now row s).jobs ≡ update (has_id row.attempt_id) (bump_row now row.seq) s.jobs
spooled-jobs limits now row s = rw prune-jobs

append_event-Evolves :
    (limits : SpoolLimits) (now : ℕ) (e : Envelope) (a : String) (n : ℕ) (json : String) (s : Store)
    → Evolves s.jobs (append_event limits now e a n json s).1.jobs
append_event-Evolves limits now e a n json s = elim (append_event-cases limits now e a n json s) [
  | inl same ↦ rw same start
  | inr (new, _, _, _) ↦
      rw new
        (rw (spooled-jobs limits now (event_row now e a n json) s) (bump-Evolves now n a s.jobs))
]

row_of-any :
    (a : String) (jobs : List JobRow)
    → any (has_id a) jobs ≡ true
    → (r : JobRow) × (row_of a jobs ≡ some r)
unfolding find
row_of-any a [] h = cc
row_of-any a (r ∷ rs) h = elim (Bool-cases (has_id a r)) [
  | inl e ↦ (r, rw e)
  | inr e ↦ let (x, hx) = row_of-any a rs (ground arith) in (x, rw e hx)
]

-- The row of the attempt after its cursor has followed an event.
pub bumped_row :
    (now n : ℕ) (a : String) (jobs : List JobRow) (r : JobRow)
    → row_of a jobs ≡ some r
    → row_of a (update (has_id a) (bump_row now n) jobs) ≡ some (bump_row now n r)
bumped_row now n a jobs r at =
    rw (row-update_id a (bump_row now n) (λ x. refl) a jobs)
      (rw (eq_refl a) (ap (map_row (bump_row now n)) at))

-- The store after the INSERT of an event and the UPDATE of the cursor of its attempt.
abbrev followed : ℕ → EventRow → Store → Store
followed now row s = record s {
  events = s.events ++ row ∷ [];
  jobs = update (has_id row.attempt_id) (bump_row now row.seq) s.jobs;
}

followed-IsSequenced :
    (now : ℕ) (row : EventRow) (s : Store)
    → any (has_id row.attempt_id) s.jobs ≡ true
    → IsSequenced s
    → IsSequenced (followed now row s)
followed-IsSequenced now row s known h =
    let (r, at) = row_of-any row.attempt_id s.jobs known in
    let jobs' : List JobRow = update (has_id row.attempt_id) (bump_row now row.seq) s.jobs in
    All-snoc (IsCovered jobs') s.events row
      (All-IsCovered-Evolves s.jobs jobs' s.events (bump-Evolves now row.seq row.attempt_id s.jobs)
        h)
      (record {
        row = bump_row now row.seq r;
        at = bumped_row now row.seq row.attempt_id s.jobs r at;
        reached = ground arith;
      })

spooled-IsSequenced :
    (limits : SpoolLimits) (now : ℕ) (row : EventRow) (s : Store)
    → any (has_id row.attempt_id) s.jobs ≡ true
    → IsSequenced s
    → IsSequenced (spooled limits now row s)
spooled-IsSequenced limits now row s known h =
    prune-IsSequenced limits now (followed now row s) (followed-IsSequenced now row s known h)

append_event-IsSequenced :
    (limits : SpoolLimits) (now : ℕ) (e : Envelope) (a : String) (n : ℕ) (json : String) (s : Store)
    → IsSequenced s
    → IsSequenced (append_event limits now e a n json s).1
append_event-IsSequenced limits now e a n json s h =
    elim (append_event-cases limits now e a n json s) [
      | inl same ↦ rw same h
      | inr (new, _, known, _) ↦
          rw new (spooled-IsSequenced limits now (event_row now e a n json) s known h)
    ]

abbrev Reaches : SpoolLimits → ℕ → Envelope → Store → Result AgentError (Unit {0}) × Store → Type 0
Reaches limits now e s o =
    (o.1 ≡ s)
    ⊎ ((a : String) × (n : ℕ) × (json : String) × (o ≡ append_event limits now e a n json s))

append_encoded-cases :
    (limits : SpoolLimits) (now : ℕ) (e : Envelope) (a : String) (n : ℕ) (s : Store)
    (encoded : Result AgentError String)
    → Reaches limits now e s (append_encoded limits now e a n encoded s)
unfolding append_encoded
append_encoded-cases limits now e a n s (err x) = inl refl
append_encoded-cases limits now e a n s (ok json) = inr (a, n, json, refl)

append_keyed-cases :
    (codec : Codec) (limits : SpoolLimits) (now : ℕ) (e : Envelope) (s : Store) (a : Option String)
    (n : Option ℕ)
    → Reaches limits now e s (append_keyed codec limits now e a n s)
unfolding append_keyed
append_keyed-cases codec limits now e s none n = inl refl
append_keyed-cases codec limits now e s (some a) none = inl refl
append_keyed-cases codec limits now e s (some a) (some n) =
    append_encoded-cases limits now e a n s (lift_protocol (to_json codec e))

-- An envelope that lacks a key or does not fit a frame is refused, and nothing changes.
append-cases :
    (codec : Codec) (limits : SpoolLimits) (now : ℕ) (e : Envelope) (s : Store)
    → Reaches limits now e s (append codec limits now e s)
unfolding append
append-cases codec limits now e s = append_keyed-cases codec limits now e s e.attempt_id e.seq

-- `append` takes steps of the life cycle, and keeps every stored event covered by its cursor.
pub append-Evolves :
    (codec : Codec) (limits : SpoolLimits) (now : ℕ) (e : Envelope) (s : Store)
    → Evolves s.jobs (append codec limits now e s).1.jobs
append-Evolves codec limits now e s = elim (append-cases codec limits now e s) [
  | inl same ↦ rw same start
  | inr (a, n, json, eq) ↦ rw eq (append_event-Evolves limits now e a n json s)
]

pub append-IsSequenced :
    (codec : Codec) (limits : SpoolLimits) (now : ℕ) (e : Envelope) (s : Store)
    → IsSequenced s
    → IsSequenced (append codec limits now e s).1
append-IsSequenced codec limits now e s h = elim (append-cases codec limits now e s) [
  | inl same ↦ rw same h
  | inr (a, n, json, eq) ↦ rw eq (append_event-IsSequenced limits now e a n json s h)
]

-- The INSERT of `append` alone leaves the attempts alone.
pub append_interrupted-jobs :
    (codec : Codec) (now : ℕ) (e : Envelope) (s : Store)
    → (append_interrupted codec now e s).jobs ≡ s.jobs
unfolding append_interrupted
append_interrupted-jobs codec now e s = ground arith

-- The UPDATE of the cursor alone keeps the events covered.
pub move_cursor-IsSequenced :
    (now : ℕ) (a : String) (n : ℕ) (s : Store) → IsSequenced s → IsSequenced (move_cursor now a n s)
unfolding move_cursor
move_cursor-IsSequenced now a n s h =
    All-IsCovered-Evolves s.jobs (update (has_id a) (bump_row now n) s.jobs) s.events
      (bump-Evolves now n a s.jobs) h

append_interrupted-cases :
    (codec : Codec) (now : ℕ) (e : Envelope) (a : String) (n : ℕ) (s : Store)
    → e.attempt_id ≡ some a
    → e.seq ≡ some n
    → (append_interrupted codec now e s ≡ s)
      ⊎ ((json : String) × (any (has_id a) s.jobs ≡ true)
          × (append_interrupted codec now e s
              ≡ record s { events = s.events ++ event_row now e a n json ∷ [] }))
unfolding append_interrupted
append_interrupted-cases codec now e a n s ha hn = elim (Result-cases (to_json codec e)) [
  | inl (x, hj) ↦ inl (ground arith)
  | inr (json, hj) ↦ elim (Option-cases (find (is_event a n) s.events)) [
    | inr (x, there) ↦ inl (ground arith)
    | inl free ↦
        elim (Bool-cases (any (has_id a) s.jobs && not (any (event_has_id e.id) s.events))) [
          | inl new ↦ inr (json, ground arith, ground arith)
          | inr refused ↦ inl (ground arith)
        ]
  ]
]

-- The INSERT of an event and the UPDATE of its cursor together keep the events covered.
pub insert_update-IsSequenced :
    (codec : Codec) (now later : ℕ) (e : Envelope) (a : String) (n : ℕ) (s : Store)
    → e.attempt_id ≡ some a
    → e.seq ≡ some n
    → IsSequenced s
    → IsSequenced (move_cursor later a n (append_interrupted codec now e s))
unfolding move_cursor
insert_update-IsSequenced codec now later e a n s ha hn h =
    elim (append_interrupted-cases codec now e a n s ha hn) [
      | inl same ↦ rw same (move_cursor-IsSequenced later a n s h)
      | inr (json, known, new) ↦
          rw new (followed-IsSequenced later (event_row now e a n json) s known h)
    ]
