-- ===== src/Outbox/Retention.antt =====
-- The retention of finished attempts: `prune_terminal` of src/build_engine/queue/store.py, with the
-- deletion of their events that the schema declares.
use build_engine.Prelude.{ℕ, ◌≡◌, Bool, false, ◌&&◌, List, [], ◌∷◌, In, any, arith}
use build_engine.Table.{delete}
use build_engine.Table.Laws.{find_sound, In-find, find-delete, count-delete_le}
use build_engine.Table.Changes.{All-delete, All-in, All-of_In, In-delete}
use build_engine.Queue.Rows.{JobRow, EventRow, Store, has_id}
use build_engine.Queue.Keys.{IsKeyed}
use build_engine.Queue.Store.{is_retired, prune_terminal}
use build_engine.Queue.Life.{IsSettled}
use build_engine.Queue.Life.Table.{IsValid}
use build_engine.Outbox.Sequence.{IsCovered, IsSequenced}

pub prune_terminal-IsValid :
    (now days : ℕ) (s : Store) → IsValid s.jobs → IsValid (prune_terminal now days s).1.jobs
unfolding prune_terminal
prune_terminal-IsValid now days s v = record {
  keyed = λ a. omega (arith, v.keyed a, count-delete_le (is_retired now days) (has_id a) s.jobs);
  settled = All-delete IsSettled (is_retired now days) s.jobs v.settled;
}

abbrev belongs : ℕ → ℕ → EventRow → JobRow → Bool
belongs now days e r = is_retired now days r && has_id e.attempt_id r

any-false :
    (p : JobRow → Bool) (rs : List JobRow) (r : JobRow) → any p rs ≡ false → In r rs → p r ≡ false
any-false p [] r h i = absurd i
any-false p (x ∷ xs) r h i = ground (arith, any-false p xs r)

kept-IsCovered :
    (now days : ℕ) (s : Store) (e : EventRow)
    → IsKeyed s.jobs
    → any (belongs now days e) s.jobs ≡ false
    → IsCovered s.jobs e
    → IsCovered (delete (is_retired now days) s.jobs) e
kept-IsCovered now days s e keyed kept c =
    let there = In-find (has_id e.attempt_id) s.jobs c.row c.at in
    let own = find_sound (has_id e.attempt_id) s.jobs c.row c.at in
    let young = any-false (belongs now days e) s.jobs c.row kept there in
    record {
      row = c.row;
      at = ground (
        arith,
        find-delete (is_retired now days) (has_id e.attempt_id) s.jobs (keyed e.attempt_id),
        c.at,
        own,
        young,
      );
      reached = c.reached;
    }

-- The retention keeps a valid store valid, and leaves no event without its attempt: every event
-- that stays is covered by the cursor of an attempt that stays.
pub prune_terminal-IsSequenced :
    (now days : ℕ) (s : Store)
    → IsValid s.jobs
    → IsSequenced s
    → IsValid (prune_terminal now days s).1.jobs × IsSequenced (prune_terminal now days s).1
unfolding prune_terminal
prune_terminal-IsSequenced now days s v h = (
  unfold prune_terminal in prune_terminal-IsValid now days s v,
  All-of_In (IsCovered (delete (is_retired now days) s.jobs))
      (delete (λ e. any (belongs now days e) s.jobs) s.events)
      (λ e i.
        let (there, kept) = In-delete (λ x. any (belongs now days x) s.jobs) s.events e i in
        kept-IsCovered now days s e v.keyed kept (All-in (IsCovered s.jobs) s.events e h there)),
)
