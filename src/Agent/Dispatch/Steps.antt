-- ===== src/Agent/Dispatch/Steps.antt =====
-- What the calls that an inbound frame leads to may do to the store: publishing in
-- src/build_engine/agent/uplink.py, the commands in src/build_engine/queue/handlers.py.
use build_engine.Prelude.{
  ℕ, String, ◌≡◌, refl, sym, ap, inl, inr, Option, List, arith, subst, Bool-cases,
}
use build_engine.Result.{Result, ok, err}
use build_engine.Errors.{AgentError}
use build_engine.Json.{Fields}
use build_engine.Protocol.Envelope.{Envelope}
use build_engine.Queue.Rows.{JobRow, Store}
use build_engine.Queue.Life.{Evolves, start}
use build_engine.Queue.Life.Operations.{enqueue-Evolves, request_cancel-Evolves}
use build_engine.Outbox.{append}
use build_engine.Outbox.Append.{append-Evolves}
use build_engine.Agent.Commands.{Handlers, assign, cancel, cancel_ids}
use build_engine.Agent.Uplink.{
  Session, Uplink, store_of, with_store, publish_attempt_event, spool_envelope, after_append,
  send_published,
}

abbrev pub jobs_of : Uplink → List JobRow
jobs_of u = (store_of u).jobs

send_published-handlers :
    (c : Session) (e : Envelope) (u : Uplink) → (send_published c e u).handlers ≡ u.handlers
unfolding send_published
send_published-handlers c e u = ground arith

after_append-store :
    (c : Session) (e : Envelope) (o : Result AgentError (Unit {0}) × Store) (u : Uplink)
    → store_of (after_append c e o u).1 ≡ o.1
unfolding after_append
after_append-store c e (err x, s) u = refl
after_append-store c e (ok _, s) u =
    ap (λ (h : Handlers). h.store) (send_published-handlers c e (with_store s u))

spool_envelope-Evolves :
    (c : Session) (e : Result AgentError Envelope) (u : Uplink)
    → Evolves (jobs_of u) (jobs_of (spool_envelope c e u).1)
unfolding spool_envelope
spool_envelope-Evolves c (err x) u = start
spool_envelope-Evolves c (ok e) u =
    subst (λ (s : Store). Evolves (jobs_of u) s.jobs)
      (sym (after_append-store c e (append c.codec c.limits c.now e (store_of u)) u))
      (append-Evolves c.codec c.limits c.now e (store_of u))

pub publish-Evolves :
    (c : Session) (type : String) (payload : Fields) (b a : String) (u : Uplink)
    → Evolves (jobs_of u) (jobs_of (publish_attempt_event c type payload b a u).1)
unfolding publish_attempt_event
publish-Evolves c type payload b a u = spool_envelope-Evolves c _ u

pub assign-Evolves :
    (now : ℕ) (payload : Fields) (h : Handlers)
    → Evolves h.store.jobs (assign now payload h).1.store.jobs
unfolding assign
assign-Evolves now payload h = elim (Bool-cases h.marked) [
  | inl e ↦ rw e start
  | inr e ↦ rw e (enqueue-Evolves now payload h.store)
]

cancel_ids-Evolves :
    (now : ℕ) (b : Result AgentError String) (a : Result AgentError (Option String)) (h : Handlers)
    → Evolves h.store.jobs (cancel_ids now b a h).1.store.jobs
unfolding cancel_ids
cancel_ids-Evolves now (err x) a h = start
cancel_ids-Evolves now (ok b) (err x) h = start
cancel_ids-Evolves now (ok b) (ok a) h = request_cancel-Evolves now b a h.store

pub cancel-Evolves :
    (now : ℕ) (payload : Fields) (h : Handlers)
    → Evolves h.store.jobs (cancel now payload h).1.store.jobs
unfolding cancel
cancel-Evolves now payload h = cancel_ids-Evolves now _ _ h
