-- ===== src/Outbox/Numbers.antt =====
-- The sequence numbers of `append` and `next_seq` in src/build_engine/queue/store.py.
use build_engine.Prelude.{
  ℕ, ◌+◌, ◌≤◌, String, ◌≡◌, refl, ap, inl, inr, true, false, none, some, List, [], ◌∷◌, ◌++◌, ◌∙◌,
  any, arith, eq_refl, Option-cases, str_eq, if◌then◌else◌,
}
use build_engine.Result.{ok, err}
use build_engine.Errors.{queue}
use build_engine.Table.{find}
use build_engine.Table.Laws.{find-append}
use build_engine.Table.Changes.{any_of_find}
use build_engine.Protocol.Codec.{Codec}
use build_engine.Protocol.Envelope.{Envelope, to_json}
use build_engine.Queue.Rows.{JobRow, EventRow, Store, conflicting_event, has_id}
use build_engine.Queue.Keys.{row_of}
use build_engine.Outbox.{
  SpoolLimits, is_event, event_has_id, event_row, append_event, append, append_interrupted,
  next_seq,
}
use build_engine.Outbox.Sequence.{IsSequenced, find-next, spooled}
use build_engine.Outbox.Append.{append-eq, bumped_row, spooled-jobs}

next_seq-ok :
    (a : String) (n : ℕ) (s : Store)
    → next_seq a s ≡ ok n
    → (r : JobRow) × (row_of a s.jobs ≡ some r) × (n ≡ r.sequence_cursor + 1)
unfolding next_seq
next_seq-ok a n s h = elim (Option-cases (row_of a s.jobs)) [
  | inl e ↦ absurd (ground arith)
  | inr (r, e) ↦ (r, e, ground arith)
]

append_event-new :
    (limits : SpoolLimits) (now : ℕ) (e : Envelope) (a : String) (n : ℕ) (json : String) (s : Store)
    → find (is_event a n) s.events ≡ none
    → any (has_id a) s.jobs ≡ true
    → any (event_has_id e.id) s.events ≡ false
    → append_event limits now e a n json s
      ≡ (ok tt, spooled limits now (event_row now e a n json) s)
unfolding append_event
append_event-new limits now e a n json s free known fresh = ground arith

next_seq-spooled :
    (limits : SpoolLimits) (now : ℕ) (row : EventRow) (s : Store) (r : JobRow) (m : ℕ)
    → row_of row.attempt_id s.jobs ≡ some r
    → m ≡ row.seq + 1 × (r.sequence_cursor ≤ row.seq)
    → next_seq row.attempt_id (spooled limits now row s) ≡ ok m
unfolding next_seq
next_seq-spooled limits now row s r m at h = ground (
  arith,
  ap (find (has_id row.attempt_id)) (spooled-jobs limits now row s),
  bumped_row now row.seq row.attempt_id s.jobs r at,
)

-- An event under the number that `next_seq` gives out is accepted, and `next_seq` moves on by one:
-- the attempt is known, the event's id is new, the envelope fits a frame, and the stored events
-- are covered by their cursors.
pub append-next_seq :
    (codec : Codec) (limits : SpoolLimits) (now : ℕ) (e : Envelope) (a : String) (n : ℕ)
    (json : String) (s : Store)
    → IsSequenced s
    → next_seq a s ≡ ok n
    → e.attempt_id ≡ some a
    → e.seq ≡ some n
    → to_json codec e ≡ ok json
    → any (event_has_id e.id) s.events ≡ false
    → ((append codec limits now e s).0 ≡ ok tt)
      × (next_seq a (append codec limits now e s).1 ≡ ok (n + 1))
append-next_seq codec limits now e a n json s h next ha hn hj fresh =
    let (r, at, e_n) = next_seq-ok a n s next in
    let none_there = find-next a n s r h at (omega arith) in
    let known = any_of_find (has_id a) s.jobs r at in
    let new_event = append_event-new limits now e a n json s none_there known fresh in
    rw (append-eq codec limits now e a n json s ha hn hj) (
      rw new_event
        (refl, next_seq-spooled limits now (event_row now e a n json) s r (n + 1) at (omega arith)))

-- While the event of a sequence number is stored, `append` takes the same envelope for delivered.
append-used_seq :
    (codec : Codec) (limits : SpoolLimits) (now : ℕ) (e : Envelope) (a : String) (n : ℕ)
    (json : String) (s : Store) (stored : EventRow)
    → e.attempt_id ≡ some a
    → e.seq ≡ some n
    → to_json codec e ≡ ok json
    → find (is_event a n) s.events ≡ some stored
    → append codec limits now e s
      ≡ ((if str_eq stored.envelope_json json then ok tt else err (queue conflicting_event)), s)
unfolding append_event
append-used_seq codec limits now e a n json s stored ha hn hj at =
    rw (append-eq codec limits now e a n json s ha hn hj) (ground arith)

append_interrupted-eq :
    (codec : Codec) (now : ℕ) (e : Envelope) (a : String) (n : ℕ) (json : String) (s : Store)
    → e.attempt_id ≡ some a
    → e.seq ≡ some n
    → to_json codec e ≡ ok json
    → find (is_event a n) s.events ≡ none
    → any (has_id a) s.jobs ≡ true
    → any (event_has_id e.id) s.events ≡ false
    → append_interrupted codec now e s
      ≡ record s { events = s.events ++ event_row now e a n json ∷ [] }
unfolding append_interrupted
append_interrupted-eq codec now e a n json s ha hn hj free known fresh = ground arith

found_last :
    (now : ℕ) (e : Envelope) (a : String) (n : ℕ) (json : String) (events : List EventRow)
    → find (is_event a n) events ≡ none
    → find (is_event a n) (events ++ event_row now e a n json ∷ [])
      ≡ some (event_row now e a n json)
found_last now e a n json events free =
    find-append (is_event a n) events (event_row now e a n json)
    ∙ rw free (ground (arith, eq_refl a))

-- An `append` that is interrupted after its INSERT, under the number that `next_seq` gave out, blocks
-- the attempt: `next_seq` gives out the same number again, and `append` refuses, without a change, any
-- envelope under this number whose text is another one. The attempt is known, the interrupted
-- event's id is new, both envelopes fit a frame, and the events were covered by their cursors.
pub append_interrupted-blocks :
    (codec : Codec) (limits : SpoolLimits) (now later : ℕ) (e other : Envelope) (a : String) (n : ℕ)
    (json text : String) (s : Store)
    → IsSequenced s
    → next_seq a s ≡ ok n
    → e.attempt_id ≡ some a × (e.seq ≡ some n) × (to_json codec e ≡ ok json)
    → any (event_has_id e.id) s.events ≡ false
    → other.attempt_id ≡ some a × (other.seq ≡ some n) × (to_json codec other ≡ ok text)
    → str_eq json text ≡ false
    → (next_seq a (append_interrupted codec now e s) ≡ ok n)
      × (append codec limits later other (append_interrupted codec now e s)
          ≡ (err (queue conflicting_event), append_interrupted codec now e s))
append_interrupted-blocks codec limits now later e other a n json text s h next (ha, hn, hj) fresh
      (oa, on, oj) differs =
    let (r, at, e_n) = next_seq-ok a n s next in
    let free = find-next a n s r h at (omega arith) in
    let known = any_of_find (has_id a) s.jobs r at in
    let s' : Store = record s { events = s.events ++ event_row now e a n json ∷ [] } in
    let there = found_last now e a n json s.events free in
    rw (append_interrupted-eq codec now e a n json s ha hn hj free known fresh) (
      unfold next_seq in next,
      append-used_seq codec limits later other a n text s' (event_row now e a n json) oa on oj there
          ∙ rw differs refl,
    )
