-- ===== src/Agent/Dispatch/Drained.antt =====
-- Assignments that reach a draining engine, in `_handle_assign` of src/build_engine/agent/uplink.py.
use build_engine.Prelude.{String, ◌≡◌, refl, ap, true, none, arith}
use build_engine.Result.{ok, err}
use build_engine.Errors.{queue}
use build_engine.Json.{Fields}
use build_engine.Protocol.Envelope.{Envelope}
use build_engine.Protocol.Frames.{attempt_fields}
use build_engine.Queue.Rows.{Store, unknown_attempt}
use build_engine.Queue.Keys.{row_of}
use build_engine.Outbox.{next_seq}
use build_engine.Agent.Commands.{assign, refused}
use build_engine.Agent.Uplink.{Session, Uplink, store_of, publish_attempt_event, spool_envelope}
use build_engine.Agent.Dispatch.{
  Step, status_payload, reported_state, with_handlers, report_assigned, assign_ids, handle_assign,
  ignored,
}

next_seq-unknown :
    (a : String) (s : Store) → row_of a s.jobs ≡ none → next_seq a s ≡ err (queue unknown_attempt)
unfolding next_seq
next_seq-unknown a s missing = ground arith

publish-unknown :
    (c : Session) (type : String) (payload : Fields) (b a : String) (u : Uplink)
    → row_of a (store_of u).jobs ≡ none
    → publish_attempt_event c type payload b a u ≡ (err (queue unknown_attempt), u)
unfolding publish_attempt_event spool_envelope
publish-unknown c type payload b a u missing = rw (next_seq-unknown a (store_of u) missing) refl

-- An assignment of a new attempt to a draining engine ends in an exception, not in a status: the
-- attempt is not stored, so no sequence number can be given to the status FAILED.
pub handle_assign-draining :
    (c : Session) (e : Envelope) (b a : String) (u : Uplink)
    → u.handlers.marked ≡ true
    → attempt_fields e ≡ ok (b, a)
    → row_of a (store_of u).jobs ≡ none
    → handle_assign c e u
      ≡ (err (queue unknown_attempt), with_handlers (record u.handlers { draining = true }) u)
unfolding handle_assign assign_ids report_assigned assign
handle_assign-draining c e b a u marked ids missing =
    let drained : Uplink = with_handlers (record u.handlers { draining = true }) u in
    let failed_ : Step = ignored (
      publish_attempt_event c "attempt.status" (status_payload b a "state" (reported_state refused))
        b a drained) in
    let published : failed_ ≡ (err (queue unknown_attempt), drained) = ap ignored (
      publish-unknown c "attempt.status" (status_payload b a "state" (reported_state refused)) b a
        drained missing) in
    rw ids (ground (arith, marked, published))
