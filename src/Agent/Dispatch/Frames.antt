-- ===== src/Agent/Dispatch/Frames.antt =====
-- What an inbound frame may do to the store, in `_handle_frame` of
-- src/build_engine/agent/uplink.py.
use build_engine.Prelude.{
  String, ◌≡◌, ap, inl, inr, true, Option, some, List, [], ◌∷◌, arith, str_eq, subst, Bool-cases,
}
use build_engine.Result.{Result, ok, err}
use build_engine.Errors.{AgentError}
use build_engine.Json.{Json, Fields}
use build_engine.Protocol.Envelope.{Envelope}
use build_engine.Protocol.Frames.{Frame}
use build_engine.Queue.Rows.{JobRow, Store, is_terminal}
use build_engine.Queue.Keys.{row_of}
use build_engine.Queue.Life.{Evolves, start, Evolves-trans, IsFinal}
use build_engine.Queue.Life.Table.{IsValid, Evolves-IsValid, Evolves-row, RowSteps-IsFinal}
use build_engine.Outbox.{ack_through}
use build_engine.Agent.Commands.{
  CommandResult, Handlers, Handled, optional_text, drain, resume, cache_reset, reset_scope,
}
use build_engine.Agent.Uplink.{Session, Uplink, store_of}
use build_engine.Agent.Dispatch.{
  Step, with_handlers, ignored, handled, report_assigned, assign_ids, handle_assign,
  publish_cancels, next_cancel, publish_ids, report_cancelled, handle_cancel, ack_values, ack_event,
  drain_action, pong, dispatch, addressed, handle_frame, nothing_cancelled,
}
use build_engine.Agent.Dispatch.Steps.{assign-Evolves, cancel-Evolves, jobs_of, publish-Evolves}

ignored-Evolves :
    (u : Uplink) (o : Result AgentError Envelope × Uplink)
    → Evolves (jobs_of u) (jobs_of o.1)
    → Evolves (jobs_of u) (jobs_of (ignored o).1)
ignored-Evolves u (err x, v) step_ = step_
ignored-Evolves u (ok e, v) step_ = step_

report_assigned-Evolves :
    (c : Session) (b a : String) (o : Handled) (u : Uplink)
    → Evolves (jobs_of u) o.1.store.jobs
    → Evolves (jobs_of u) (jobs_of (report_assigned c b a o u).1)
unfolding report_assigned
report_assigned-Evolves c b a (err x, h) u step_ = step_
report_assigned-Evolves c b a (ok result, h) u step_ = Evolves-trans step_ (
    ignored-Evolves (with_handlers h u) _
      (publish-Evolves c "attempt.status" _ b a (with_handlers h u)))

assign_ids-Evolves :
    (c : Session) (payload : Fields) (ids : Result AgentError (String × String)) (u : Uplink)
    → Evolves (jobs_of u) (jobs_of (assign_ids c payload ids u).1)
unfolding assign_ids
assign_ids-Evolves c payload (err x) u = start
assign_ids-Evolves c payload (ok (b, a)) u =
    report_assigned-Evolves c b a _ u (assign-Evolves c.now _ u.handlers)

next_cancel-Evolves :
    (o : Result AgentError Envelope × Uplink) (rest : Uplink → Step)
    → ((u : Uplink) → Evolves (jobs_of u) (jobs_of (rest u).1))
    → Evolves (jobs_of o.1) (jobs_of (next_cancel o rest).1)
unfolding next_cancel
next_cancel-Evolves (err x, u) rest step_ = start
next_cancel-Evolves (ok _, u) rest step_ = step_ u

publish_cancels-Evolves :
    (c : Session) (b phase : String) (ids : List String) (u : Uplink)
    → Evolves (jobs_of u) (jobs_of (publish_cancels c b phase ids u).1)
unfolding publish_cancels
publish_cancels-Evolves c b phase [] u = start
publish_cancels-Evolves c b phase (a ∷ more) u =
    Evolves-trans (publish-Evolves c "attempt.status" _ b a u) (
      next_cancel-Evolves _ (publish_cancels c b phase more)
        (publish_cancels-Evolves c b phase more))

publish_ids-Evolves :
    (c : Session) (r : CommandResult) (b : Result AgentError String)
    (a : Result AgentError (Option String)) (u : Uplink)
    → Evolves (jobs_of u) (jobs_of (publish_ids c r b a u).1)
unfolding publish_ids
publish_ids-Evolves c r (err x) a u = start
publish_ids-Evolves c r (ok b) (err x) u = start
publish_ids-Evolves c r (ok b) (ok a) u = publish_cancels-Evolves c b _ _ u

report_cancelled-Evolves :
    (c : Session) (e : Envelope) (o : Handled) (u : Uplink)
    → Evolves (jobs_of u) o.1.store.jobs
    → Evolves (jobs_of u) (jobs_of (report_cancelled c e o u).1)
unfolding report_cancelled
report_cancelled-Evolves c e (err x, h) u step_ = step_
report_cancelled-Evolves c e (ok r, h) u step_ = elim (Bool-cases (nothing_cancelled r)) [
  | inl n ↦ rw n step_
  | inr n ↦ rw n (Evolves-trans step_ (publish_ids-Evolves c r _ _ (with_handlers h u)))
]

ack_values-Evolves :
    (a n : Option Json) (u : Uplink) → Evolves (jobs_of u) (jobs_of (ack_values a n u).1)
ack_values-Evolves a n u = subst (Evolves (jobs_of u)) same start
  where
    same : jobs_of u ≡ jobs_of (ack_values a n u).1
    same = unfold ack_values ack_through in ground arith

reset_scope-store :
    (reset : Option String → Result AgentError (Unit {0})) (o : Result AgentError (Option String))
    (h : Handlers)
    → (reset_scope reset o h).1.store ≡ h.store
unfolding reset_scope
reset_scope-store reset o h = ground arith

same_jobs : (u : Uplink) (after : List JobRow) → after ≡ jobs_of u → Evolves (jobs_of u) after
same_jobs u after e = rw e start

cache_reset-store :
    (c : Session) (payload : Fields) (u : Uplink)
    → (handled (cache_reset c.reset payload u.handlers) u).1.handlers.store ≡ store_of u
unfolding cache_reset
cache_reset-store c payload u =
    ground (arith, reset_scope-store c.reset (optional_text payload "site_id") u.handlers)

drain_action-store :
    (action : Option Json) (u : Uplink) → store_of (drain_action action u).1 ≡ store_of u
unfolding drain_action drain resume
drain_action-store action u = ground arith

pong-store : (c : Session) (u : Uplink) → store_of (pong c u).1 ≡ store_of u
unfolding pong
pong-store c u = ground arith

dispatch-Evolves :
    (c : Session) (e : Envelope) (u : Uplink) → Evolves (jobs_of u) (jobs_of (dispatch c e u).1)
unfolding dispatch handle_assign handle_cancel ack_event
dispatch-Evolves c e u = elim (Bool-cases (str_eq e.type "ping")) [
  | inl y ↦ rw y (same_jobs u _ (ap (λ (s : Store). s.jobs) (pong-store c u)))
  | inr n ↦ rw n (elim (Bool-cases (str_eq e.type "job.assign")) [
    | inl y ↦ rw y (assign_ids-Evolves c e.payload _ u)
    | inr n0 ↦ rw n0 (elim (Bool-cases (str_eq e.type "job.cancel")) [
      | inl y ↦ rw y (report_cancelled-Evolves c e _ u (cancel-Evolves c.now e.payload u.handlers))
      | inr n1 ↦ rw n1 (elim (Bool-cases (str_eq e.type "event.ack")) [
        | inl y ↦ rw y (ack_values-Evolves _ _ u)
        | inr n2 ↦ rw n2 (elim (Bool-cases (str_eq e.type "drain")) [
          | inl y ↦ rw y (same_jobs u _ (ap (λ (s : Store). s.jobs) (drain_action-store _ u)))
          | inr n3 ↦ rw n3 (elim (Bool-cases (str_eq e.type "cache.reset")) [
            | inl y ↦
                rw y (same_jobs u _ (ap (λ (s : Store). s.jobs) (cache_reset-store c e.payload u)))
            | inr n4 ↦ rw n4 (elim (Bool-cases (str_eq e.type "welcome")) [
              | inl y ↦ rw y start
              | inr n5 ↦ rw n5 (start)
            ])
          ])
        ])
      ])
    ])
  ])
]

addressed-Evolves :
    (c : Session) (e : Result AgentError Envelope) (u : Uplink)
    → Evolves (jobs_of u) (jobs_of (addressed c e u).1)
unfolding addressed
addressed-Evolves c (err x) u = start
addressed-Evolves c (ok e) u = elim (Bool-cases (str_eq e.engine_id c.engine_id)) [
  | inl y ↦ rw y (dispatch-Evolves c e u)
  | inr n ↦ rw n start
]

pub handle_frame-Evolves :
    (c : Session) (frame : Frame) (u : Uplink)
    → Evolves (jobs_of u) (jobs_of (handle_frame c frame u).1)
unfolding handle_frame
handle_frame-Evolves c frame u = addressed-Evolves c _ u

-- Whatever frame arrives, well formed or not, its handling keeps a valid store valid.
pub handle_frame-IsValid :
    (c : Session) (frame : Frame) (u : Uplink)
    → IsValid (store_of u).jobs
    → IsValid (store_of (handle_frame c frame u).1).jobs
handle_frame-IsValid c frame u v = Evolves-IsValid v (handle_frame-Evolves c frame u)

-- No inbound frame changes the end of a finished attempt: its state, its error, its number of
-- leases, its owner and its token stay as they were.
pub handle_frame-IsFinal :
    (c : Session) (frame : Frame) (u : Uplink) (a : String) (r : JobRow)
    → row_of a (store_of u).jobs ≡ some r
    → is_terminal r.state ≡ true
    → (r' : JobRow) × (row_of a (store_of (handle_frame c frame u).1).jobs ≡ some r') × IsFinal r r'
handle_frame-IsFinal c frame u a r at done =
    let (r', after, path) = Evolves-row a r (handle_frame-Evolves c frame u) at in
    (r', after, RowSteps-IsFinal done path)
