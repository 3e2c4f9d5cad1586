-- ===== src/Outbox/Sequence.antt =====
-- The cursor of an attempt and its stored events, in src/build_engine/queue/store.py.
use build_engine.Prelude.{
  ℕ, ◌≤◌, ◌<◌, String, ◌≡◌, refl, ap, ◌⊎◌, inl, inr, true, ◌&&◌, none, some, List, [], ◌∷◌, ◌++◌,
  In, All, any, leb, arith, Option-cases, str_eq, eq_iff, subst,
}
use build_engine.Result.{ok}
use build_engine.Table.{find, update, delete}
use build_engine.Table.Laws.{find_sound, In-find}
use build_engine.Table.Changes.{All-in, All-of_In, All-delete, In-delete}
use build_engine.Protocol.Envelope.{Envelope}
use build_engine.Queue.Rows.{JobRow, EventRow, Store, has_id}
use build_engine.Queue.Keys.{row_of}
use build_engine.Queue.Life.{Evolves, bump_row}
use build_engine.Queue.Life.Table.{Evolves-row, RowSteps-Follows}
use build_engine.Outbox.{
  SpoolLimits, is_event, event_row, is_aged, prune, append_event, ack_through,
}
use build_engine.Outbox.Limits.{In-prune_loop}

-- The attempt of the event is known, and has published up to the event at least.
pub record IsCovered (jobs : List JobRow) (e : EventRow) : Type 0 where
  pub row : JobRow
  pub at : row_of e.attempt_id jobs ≡ some row
  pub reached : e.seq ≤ row.sequence_cursor

abbrev pub IsSequenced : Store → Type 0
IsSequenced s = All (IsCovered s.jobs) s.events

IsCovered-Evolves :
    (jobs after : List JobRow) (e : EventRow)
    → Evolves jobs after
    → IsCovered jobs e
    → IsCovered after e
IsCovered-Evolves jobs after e evolves c =
    let (r, at, path) = Evolves-row e.attempt_id c.row evolves c.at in
    record {
      row = r;
      at = at;
      reached = omega (arith, (RowSteps-Follows path).higher_cursor, c.reached);
    }

-- Steps of the attempts keep the events covered.
pub All-IsCovered-Evolves :
    (jobs after : List JobRow) (events : List EventRow)
    → Evolves jobs after
    → All (IsCovered jobs) events
    → All (IsCovered after) events
All-IsCovered-Evolves jobs after [] evolves h = tt
All-IsCovered-Evolves jobs after (e ∷ es) evolves h =
    (IsCovered-Evolves jobs after e evolves h.0, All-IsCovered-Evolves jobs after es evolves h.1)

pub prune-jobs : (limits : SpoolLimits) (now : ℕ) (s : Store) → (prune limits now s).1.jobs ≡ s.jobs
unfolding prune
prune-jobs limits now s = refl

In-prune :
    (limits : SpoolLimits) (now : ℕ) (s : Store) (x : EventRow)
    → In x (prune limits now s).1.events
    → In x s.events
unfolding prune
In-prune limits now s x i =
    (In-delete (is_aged limits now s.jobs) s.events x
      (In-prune_loop _ limits.max_bytes (delete (is_aged limits now s.jobs) s.events) x i)).0

pub prune-IsSequenced :
    (limits : SpoolLimits) (now : ℕ) (s : Store)
    → IsSequenced s
    → IsSequenced (prune limits now s).1
prune-IsSequenced limits now s h = rw prune-jobs (
    All-of_In (IsCovered s.jobs) (prune limits now s).1.events
      (λ x i. All-in (IsCovered s.jobs) s.events x h (In-prune limits now s x i)))

pub ack_through-IsSequenced :
    (a : String) (last : ℕ) (s : Store) → IsSequenced s → IsSequenced (ack_through a last s)
unfolding ack_through
ack_through-IsSequenced a last s h =
    All-delete (IsCovered s.jobs) (λ e. str_eq e.attempt_id a && leb e.seq last) s.events h

-- No stored event of an attempt is above the attempt's cursor.
pub find-next :
    (a : String) (n : ℕ) (s : Store) (r : JobRow)
    → IsSequenced s
    → row_of a s.jobs ≡ some r
    → r.sequence_cursor < n
    → find (is_event a n) s.events ≡ none
find-next a n s r h at above = elim (Option-cases (find (is_event a n) s.events)) [
  | inl e ↦ e
  | inr (x, e) ↦
      let c = All-in (IsCovered s.jobs) s.events x h (In-find (is_event a n) s.events x e) in
      absurd (taken x c (find_sound (is_event a n) s.events x e))
]
  where
    taken : (x : EventRow) → IsCovered s.jobs x → is_event a n x ≡ true → ⊥
    taken x c hit =
        let same : x.attempt_id ≡ a = (eq_iff x.attempt_id a).0 (ground arith) in
        let at_a = subst (λ b. row_of b s.jobs ≡ some c.row) same c.at in
        let row_r : c.row ≡ r = cc (at_a, at) in
        ground (arith, c.reached, ap (λ (j : JobRow). j.sequence_cursor) row_r)

-- The store after a new event: the event is spooled, the cursor follows, and the limits are applied.
abbrev pub spooled : SpoolLimits → ℕ → EventRow → Store → Store
spooled limits now row s =
    (prune limits now (record s {
      events = s.events ++ row ∷ [];
      jobs = update (has_id row.attempt_id) (bump_row now row.seq) s.jobs;
    })).1

-- An `append` changes nothing, or spools one event of a known attempt.
pub append_event-cases :
    (limits : SpoolLimits) (now : ℕ) (e : Envelope) (a : String) (n : ℕ) (json : String) (s : Store)
    → ((append_event limits now e a n json s).1 ≡ s)
      ⊎ (((append_event limits now e a n json s).1
            ≡ spooled limits now (event_row now e a n json) s)
          × ((append_event limits now e a n json s).0 ≡ ok tt)
          × (any (has_id a) s.jobs ≡ true)
          × (find (is_event a n) s.events ≡ none))
unfolding append_event
append_event-cases limits now e a n json s = ground arith
