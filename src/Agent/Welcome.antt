-- ===== src/Agent/Welcome.antt =====
-- The first frame of a connection, in `_receive_welcome` of src/build_engine/agent/uplink.py.
use build_engine.Prelude.{◌≡◌, subst, true, some, arith, eq_iff, inl, inr}
use build_engine.Result.{ok, Result-cases}
use build_engine.Json.{get}
use build_engine.Protocol.Envelope.{Envelope, inbound_message_types}
use build_engine.Protocol.Frames.{Frame, decode_frame}
use build_engine.Protocol.Frames.Sound.{IsWellFormed, decode_frame-IsWellFormed}
use build_engine.Protocol.Validate.{is_version}
use build_engine.Agent.Uplink.{Session, Uplink, text_is, checked_welcome, receive_welcome}

-- A welcome that the agent takes up.
pub record IsWelcome (c : Session) (e : Envelope) : Type 0 where
  pub well_formed : IsWellFormed c.codec c.clock inbound_message_types e
  pub type : e.type ≡ "welcome"
  pub engine : e.engine_id ≡ c.engine_id
  pub named : text_is (get "engine_id" e.payload) c.engine_id ≡ true
  pub version : is_version (get "proto_negotiated" e.payload) ≡ true

checked_welcome-same :
    (c : Session) (e e' : Envelope)
    → checked_welcome c e ≡ ok e'
    → (e ≡ e')
      × (e.type ≡ "welcome")
      × (e.engine_id ≡ c.engine_id)
      × (text_is (get "engine_id" e.payload) c.engine_id ≡ true)
      × (is_version (get "proto_negotiated" e.payload) ≡ true)
unfolding checked_welcome
checked_welcome-same c e e' h =
    ground (arith, eq_iff e.type "welcome", eq_iff e.engine_id c.engine_id)

-- A connection goes on only after a well-formed welcome, for this engine and for the protocol
-- version that it speaks, whatever the first frame was.
pub receive_welcome-IsWelcome :
    (c : Session) (frame : Frame) (u : Uplink) (e : Envelope)
    → (receive_welcome c (some frame) u).0 ≡ ok e
    → IsWelcome c e
unfolding receive_welcome
receive_welcome-IsWelcome c frame u e h =
    elim (Result-cases (decode_frame c.codec c.clock inbound_message_types frame)) [
      | inl (x, bad) ↦ absurd (ground arith)
      | inr (d, good) ↦ elim (Result-cases (checked_welcome c d)) [
        | inl (x, bad) ↦ absurd (ground arith)
        | inr (e', accepted) ↦
            let (same, type, engine, named, version) = checked_welcome-same c d e' accepted in
            let returned : d ≡ e = ground (arith, good, accepted, same) in
            subst (IsWelcome c) returned (record {
              well_formed =
                  decode_frame-IsWellFormed c.codec c.clock inbound_message_types frame d good;
              type = type;
              engine = engine;
              named = named;
              version = version;
            })
      ]
    ]
