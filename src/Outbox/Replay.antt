-- ===== src/Outbox/Replay.antt =====
-- What `replay_after` of src/build_engine/queue/store.py sends of one stored event.
use build_engine.Prelude.{ℕ, ◌+◌, ◌<◌, String, ◌≡◌, refl, none, some, List, arith}
use build_engine.Result.{Result, ok}
use build_engine.Json.{str, obj, get}
use build_engine.Protocol.Codec.{Codec, aware}
use build_engine.Protocol.Envelope.{
  Envelope, ProtocolError, to_dict, to_json, max_timestamp_skew, outbound_message_types,
}
use build_engine.Protocol.Frames.{text, decode_frame}
use build_engine.Protocol.Frames.Sound.{IsWellFormed}
use build_engine.Protocol.Frames.RoundTrip.{decode_frame-to_json}
use build_engine.Protocol.Frames.Clock.{decode_frame-stale}
use build_engine.Queue.Rows.{EventRow}
use build_engine.Outbox.Resend.{
  cursor_of, stored_object, stored_seq, stored_attempt, with_engine, decode_stored, replay_row,
  newer_event,
}

-- The envelope is stored as `append` stores it, the JSON library reads back what it wrote, and the
-- backend's cursor is below the event.
pub record IsPending (codec : Codec) (cursors : List (String × ℕ)) (row : EventRow) (e : Envelope)
    : Type 0 where
  pub attempt : String
  pub attempt_is : e.attempt_id ≡ some attempt
  pub seq : ℕ
  pub seq_is : e.seq ≡ some seq
  pub stored : to_json codec e ≡ ok row.envelope_json
  pub reads_back : codec.loads (codec.dumps (to_dict e)) ≡ some (obj (to_dict e))
  pub above : cursor_of attempt cursors < seq

module _ (codec : Codec) (clock : ℕ) (cursors : List (String × ℕ)) (row : EventRow) (e : Envelope)
    (p : IsPending codec cursors row e) where
  stored_text : row.envelope_json ≡ codec.dumps (to_dict e)
  unfolding to_json
  stored_text = ground (arith, p.stored)

  object_there : stored_object codec row.envelope_json ≡ ok (to_dict e)
  unfolding stored_object
  object_there = ground (arith, stored_text, p.reads_back)

  keys_there :
      (stored_seq (to_dict e) ≡ ok p.seq)
      × (stored_attempt (to_dict e) ≡ p.attempt)
      × (with_engine (to_dict e) ≡ to_dict e)
  unfolding to_dict get
  keys_there = ground (arith, p.attempt_is, p.seq_is)

  opened : replay_row codec clock cursors row ≡ ok (decode_stored codec clock cursors (to_dict e))
  unfolding replay_row
  opened = ground (arith, object_there, keys_there, p.above)

  decoded_text : Result ProtocolError Envelope
  decoded_text =
      decode_frame codec clock outbound_message_types (text (codec.dumps (with_engine (to_dict e))))

  -- A pending event whose time is within the clock-skew window is sent as it was published.
  pub replay_row-fresh :
      IsWellFormed codec clock outbound_message_types e
      → replay_row codec clock cursors row ≡ ok (some e)
  unfolding decode_stored newer_event
  replay_row-fresh w =
      let came_back =
        decode_frame-to_json codec clock outbound_message_types e row.envelope_json w p.stored
          p.reads_back in
      ground (arith, opened, came_back, keys_there, stored_text, p.attempt_is, p.seq_is, p.above)

  ts_there : get "ts" (to_dict e) ≡ some (str e.ts)
  unfolding to_dict get
  ts_there = refl

  -- A pending event that was published more than `MAX_TIMESTAMP_SKEW` ago is not sent, although it
  -- is above the backend's cursor and stays in the database.
  pub replay_row-stale :
      (t : ℕ)
      → codec.parse_iso e.ts ≡ aware t
      → t + max_timestamp_skew < clock
      → replay_row codec clock cursors row ≡ ok none
  unfolding decode_stored
  replay_row-stale t time_of old =
      let (x, refused) =
        decode_frame-stale codec clock outbound_message_types (codec.dumps (to_dict e)) (to_dict e)
          e.ts t p.reads_back ts_there time_of old in
      ground (arith, opened, refused, keys_there)
