-- ===== src/History.antt =====
-- The operations of the queue and the outbox as the steps of a history: any sequence of calls of
-- src/build_engine/queue/store.py, in the order in which they commit. A call of the queue that writes
-- is one transaction, or a single statement. `append` commits its INSERT, its UPDATE and its deletions
-- one by one, so a history may hold, beside whole calls of `append`, an INSERT that nothing follows, or
-- an UPDATE or a `prune` by itself, with calls of the queue between them.
pub mod Deleted
pub mod Laws
pub mod Sequenced
use build_engine.Prelude.{
  ℕ, String, Bool, true, false, ◌&&◌, ◌==◌, Option, none, some, List, [], ◌∷◌,
}
use build_engine.Json.{Fields}
use build_engine.Protocol.Codec.{Codec}
use build_engine.Protocol.Envelope.{Envelope}
use build_engine.Queue.Rows.{Store, column_is}
use build_engine.Queue.Store.{enqueue, request_cancel, prune_terminal}
use build_engine.Queue.Lease.{ℤ, LeaseRequest, acquire_lease, refresh_lease}
use build_engine.Queue.Transition.{Move, transition, Crash, record_executor_crash}
use build_engine.Outbox.{SpoolLimits, append, append_interrupted, move_cursor, ack_through, prune}

-- One call, with the time at which it runs and what it is given.
pub data Operation : Type 0 where
  enqueues : ℕ → Fields → Operation
  acquires : LeaseRequest → Operation
  refreshes : (now : ℕ) (timeout : ℤ) (attempt_id owner : String) → Option String → Operation
  transitions : ℕ → Move → Operation
  cancels : ℕ → String → Option String → Operation
  crashes : ℕ → Crash → Operation
  appends : ℕ → Envelope → Operation
  acks : String → ℕ → Operation
  prunes : ℕ → Operation
  inserts : ℕ → Envelope → Operation
  moves_cursor : (now : ℕ) (attempt_id : String) (seq : ℕ) → Operation
  retires : (now retention_days : ℕ) → Operation

-- The store after a call, whether it returned or raised.
unfoldable pub perform : Codec → SpoolLimits → Operation → Store → Store
perform codec limits (enqueues now payload) s = (enqueue now payload s).1
perform codec limits (acquires q) s = (acquire_lease q s).1
perform codec limits (refreshes now timeout a owner token) s =
    (refresh_lease now timeout a owner token s).1
perform codec limits (transitions now m) s = (transition now m s).1
perform codec limits (cancels now b a) s = (request_cancel now b a s).1
perform codec limits (crashes now c) s = (record_executor_crash now c s).1
perform codec limits (appends now e) s = (append codec limits now e s).1
perform codec limits (acks a last_seq) s = ack_through a last_seq s
perform codec limits (prunes now) s = (prune limits now s).1
perform codec limits (inserts now e) s = append_interrupted codec now e s
perform codec limits (moves_cursor now a seq) s = move_cursor now a seq s
perform codec limits (retires now days) s = (prune_terminal now days s).1

unfoldable pub perform_all : Codec → SpoolLimits → List Operation → Store → Store
perform_all codec limits [] s = s
perform_all codec limits (o ∷ os) s = perform_all codec limits os (perform codec limits o s)

-- Is the operation the UPDATE that follows the INSERT of this envelope?
abbrev pub seq_is : Option ℕ → ℕ → Bool
seq_is none seq = false
seq_is (some n) seq = n == seq

abbrev pub is_update_of : Envelope → Operation → Bool
is_update_of e (moves_cursor now attempt_id seq) =
    column_is e.attempt_id attempt_id && seq_is e.seq seq
is_update_of e _ = false

-- An INSERT of the history is followed at once by its UPDATE.
abbrev pub goes_on : Operation → List Operation → Bool
goes_on (inserts now e) [] = false
goes_on (inserts now e) (o ∷ os) = is_update_of e o
goes_on _ os = true

unfoldable pub is_paired : List Operation → Bool
is_paired [] = true
is_paired (o ∷ os) = goes_on o os && is_paired os
