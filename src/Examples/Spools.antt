-- ===== src/Examples/Spools.antt =====
-- Runs of the event spool and the protocol.
use build_engine.Prelude.{
  ℕ, ◌≤◌, String, ◌≡◌, refl, sym, ap, subst, Bool, true, false, Option, none, some, List, [], ◌∷◌,
  In, arith, eq_iff, str_eq, inl, inr, Bool-cases,
}
use build_engine.Result.{ok, err}
use build_engine.Errors.{queue}
use build_engine.Json.{Json, str, get}
use build_engine.Ident.{is_uuid}
use build_engine.Table.{find, select, delete, count, first_by}
use build_engine.Protocol.Codec.{Codec}
use build_engine.Protocol.Envelope.{Envelope, to_dict, to_json, outbound_message_types}
use build_engine.Protocol.Validate.{is_allowed, is_version, log_fits}
use build_engine.Protocol.Frames.{text, decode_frame}
use build_engine.Protocol.Frames.Sound.{IsWellFormed, decode_frame-IsWellFormed}
use build_engine.Protocol.Frames.RoundTrip.{decode_frame-to_json}
use build_engine.Queue.Rows.{EventRow, Store, conflicting_event}
use build_engine.Queue.Store.{prune_terminal}
use build_engine.Queue.Life.Table.{IsValid}
use build_engine.Outbox.{
  event_row, event_has_id, is_log, append, append_interrupted, next_seq, prune, prune_loop, victim,
  event_bytes, event_before,
}
use build_engine.Outbox.Resend.{cursor_of, replay_row}
use build_engine.Outbox.Limits.{prune-logs_first, prune_within_limit}
use build_engine.Outbox.Sequence.{IsSequenced}
use build_engine.Outbox.Numbers.{append-next_seq, append_interrupted-blocks}
use build_engine.Outbox.Replay.{IsPending, replay_row-fresh, replay_row-stale}
use build_engine.Outbox.Retention.{prune_terminal-IsSequenced}
use build_engine.History.{
  Operation, appends, acks, inserts, is_paired, moves_cursor, retires, perform_all,
}
use build_engine.History.Sequenced.{perform_all-IsSequenced}
use build_engine.Examples.Samples.{
  attempt_1, attempt_2, done-IsSettled, two_rows-IsKeyed, waiting, done, store_of, two_rows-IsValid,
  limits, event, one_text,
}

abbrev empty_spool : Store
empty_spool = store_of (waiting ∷ done ∷ [])

abbrev stored_event : EventRow
stored_event = event_row 5 event attempt_1 1 "e"

abbrev one_event : Store
one_event = record empty_spool { events = stored_event ∷ [] }

event-to_json : to_json one_text event ≡ ok "e"
unfolding to_json
event-to_json = refl

abbrev spool_calls : List Operation
spool_calls =
    inserts 9 event
    ∷ moves_cursor 10 attempt_1 1
    ∷ acks attempt_1 1
    ∷ retires 11 0
    ∷ appends 12 event
    ∷ []

spool_calls-paired : is_paired spool_calls ≡ true
unfolding is_paired
spool_calls-paired = refl

perform_all-IsSequenced_example : IsSequenced (perform_all one_text limits spool_calls empty_spool)
perform_all-IsSequenced_example =
    perform_all-IsSequenced one_text limits spool_calls empty_spool spool_calls-paired
      two_rows-IsValid tt

first_number : next_seq attempt_1 empty_spool ≡ ok 1
unfolding next_seq find
first_number = refl

append-next_seq_example :
    ((append one_text limits 9 event empty_spool).0 ≡ ok tt)
    × (next_seq attempt_1 (append one_text limits 9 event empty_spool).1 ≡ ok 2)
append-next_seq_example =
    append-next_seq one_text limits 9 event attempt_1 1 "e" empty_spool tt first_number refl refl
      event-to_json refl

-- A codec that writes the type of an envelope only.
abbrev text_or_empty : Option Json → String
text_or_empty (some (str t)) = t
text_or_empty _ = ""

abbrev type_text : Codec
type_text = record one_text { dumps = λ fs. text_or_empty (get "type" fs) }

abbrev other_event : Envelope
other_event = record event { id = "00000000-0000-4000-8000-0000000000ee"; type = "attempt.log" }

type_texts :
    (to_json type_text event ≡ ok "attempt.status")
    × (to_json type_text other_event ≡ ok "attempt.log")
unfolding to_json get to_dict
type_texts = (refl, refl)

append_interrupted-blocks_example :
    (next_seq attempt_1 (append_interrupted type_text 9 event empty_spool) ≡ ok 1)
    × (append type_text limits 20 other_event (append_interrupted type_text 9 event empty_spool)
        ≡ (err (queue conflicting_event), append_interrupted type_text 9 event empty_spool))
append_interrupted-blocks_example =
    append_interrupted-blocks type_text limits 9 20 event other_event attempt_1 1 "attempt.status"
      "attempt.log" empty_spool tt first_number (refl, refl, type_texts.0) refl
      (refl, refl, type_texts.1) refl

-- An event of each attempt.
abbrev used_spool : Store
used_spool = record (store_of (record waiting { sequence_cursor = 1 } ∷ done ∷ [])) {
  events = stored_event ∷ record stored_event { id = "e2"; attempt_id = attempt_2; seq = 0 } ∷ [];
}

used_spool-IsSequenced : IsSequenced used_spool
unfolding find
used_spool-IsSequenced = (
  record { row = record waiting { sequence_cursor = 1 }; at = refl; reached = omega arith },
  (record { row = done; at = refl; reached = omega arith }, tt),
)

used_spool-IsValid : IsValid used_spool.jobs
unfolding count
used_spool-IsValid = record {
  keyed = λ a. two_rows-IsKeyed done refl a;
  settled = (ground arith, (done-IsSettled, tt));
}

retired : (prune_terminal 1_000 0 used_spool).1.events ≡ stored_event ∷ []
unfolding prune_terminal delete
retired = refl

prune_terminal-IsSequenced_example :
    IsValid (prune_terminal 1_000 0 used_spool).1.jobs
    × IsSequenced (prune_terminal 1_000 0 used_spool).1
prune_terminal-IsSequenced_example =
    prune_terminal-IsSequenced 1_000 0 used_spool used_spool-IsValid used_spool-IsSequenced

event-IsWellFormed : IsWellFormed one_text 1_000 outbound_message_types event
unfolding is_version is_uuid is_allowed log_fits get
event-IsWellFormed = record {
  version = refl;
  id = refl;
  type_allowed = refl;
  time = 1_000;
  time_of = refl;
  not_old = omega arith;
  not_early = omega arith;
  engine = refl;
  build = λ b h. cc;
  attempt = λ a h. subst (λ o. is_uuid_or_none o ≡ true) h refl;
  attempt_of_seq = λ h. refl;
  log_size = λ h. refl;
}
  where
    is_uuid_or_none : Option String → Bool
    is_uuid_or_none none = true
    is_uuid_or_none (some a) = is_uuid a

decode_frame-to_json_example :
    decode_frame one_text 1_000 outbound_message_types (text "e") ≡ ok event
decode_frame-to_json_example =
    decode_frame-to_json one_text 1_000 outbound_message_types event "e" event-IsWellFormed
      event-to_json refl

decode_frame-IsWellFormed_example : IsWellFormed one_text 1_000 outbound_message_types event
decode_frame-IsWellFormed_example =
    decode_frame-IsWellFormed one_text 1_000 outbound_message_types (text "e") event (
      decode_frame-to_json one_text 1_000 outbound_message_types event "e" event-IsWellFormed
        event-to_json refl)

pending : IsPending one_text [] stored_event event
unfolding cursor_of
pending = record {
  attempt = attempt_1;
  attempt_is = refl;
  seq = 1;
  seq_is = refl;
  stored = event-to_json;
  reads_back = refl;
  above = omega arith;
}

replay_row-fresh_example : replay_row one_text 1_000 [] stored_event ≡ ok (some event)
replay_row-fresh_example =
    replay_row-fresh one_text 1_000 [] stored_event event pending event-IsWellFormed

replay_row-stale_example : replay_row one_text 400_000_000 [] stored_event ≡ ok none
replay_row-stale_example =
    replay_row-stale one_text 400_000_000 [] stored_event event pending 1_000 refl (omega arith)

-- An old status, a later one and a log, of 4, 2 and 1 bytes.
abbrev old_status : EventRow
old_status = record stored_event { id = "e1"; envelope_json = "aaaa"; created_at = 1 }

abbrev new_status : EventRow
new_status = record stored_event { id = "e2"; seq = 2; envelope_json = "bb"; created_at = 2 }

abbrev log : EventRow
log = record stored_event {
  id = "e3";
  seq = 3;
  type = "attempt.log";
  envelope_json = "c";
  created_at = 3;
}

abbrev full_spool : Store
full_spool = record empty_spool { events = old_status ∷ new_status ∷ log ∷ [] }

pruned : (prune limits 9 full_spool).1.events ≡ new_status ∷ []
unfolding prune prune_loop victim event_bytes event_before delete select first_by count
pruned = refl

full_spool-keyed : (id : String) → count (event_has_id id) full_spool.events ≤ 1
unfolding count
full_spool-keyed id = elim (Bool-cases (str_eq "e1" id)) [
  | inl h ↦
      subst (λ x. count (event_has_id x) full_spool.events ≤ 1) ((eq_iff "e1" id).0 h) (omega arith)
  | inr h ↦ elim (Bool-cases (str_eq "e2" id)) [
    | inl h₂ ↦
        subst (λ x. count (event_has_id x) full_spool.events ≤ 1) ((eq_iff "e2" id).0 h₂)
          (omega arith)
    | inr h₂ ↦ rw h (rw h₂ (ground arith))
  ]
]

not_left : In old_status (new_status ∷ []) → ⊥
not_left (inl e) = let seqs : ◌≡◌ {A = ℕ} 1 2 = ap (λ (x : EventRow). x.seq) e in omega arith
not_left (inr i) = i

prune-logs_first_example : is_log new_status ≡ false
prune-logs_first_example =
    prune-logs_first limits 9 full_spool old_status new_status full_spool-keyed (inl refl) refl refl
      (λ i. not_left (subst (In old_status) pruned i))
      (subst (In new_status) (sym pruned) (inl refl))

prune_within_limit_example : event_bytes (prune limits 9 full_spool).1.events ≤ 4
prune_within_limit_example = prune_within_limit limits 9 full_spool
