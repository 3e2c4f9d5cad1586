-- ===== src/Examples/Samples.antt =====
-- The data of the runs: two attempts of one build, a request for a lease, an event, and a codec
-- that knows one text.
use build_engine.Prelude.{
  ℕ, inl, inr, subst, ap, Bool-cases, String, ◌≡◌, refl, true, false, none, some, List, [], ◌∷◌,
  All, arith, eq_iff, str_eq,
}
use build_engine.Json.{Fields, end, field, int, str, obj, get}
use build_engine.Table.{count}
use build_engine.Protocol.Codec.{Codec, aware}
use build_engine.Protocol.Envelope.{Envelope, to_dict}
use build_engine.Queue.Rows.{running, succeeded, JobRow, Store}
use build_engine.Queue.Keys.{IsKeyed}
use build_engine.Queue.Store.{new_row}
use build_engine.Queue.Lease.{pos, LeaseRequest}
use build_engine.Queue.Life.{IsSettled}
use build_engine.Queue.Life.Table.{IsValid}
use build_engine.Queue.Secrets.{HasNoSecrets}
use build_engine.Outbox.{SpoolLimits}

abbrev pub build_1 : String
build_1 = "00000000-0000-4000-8000-000000000001"

abbrev pub attempt_1 : String
attempt_1 = "00000000-0000-4000-8000-00000000000a"

abbrev pub attempt_2 : String
attempt_2 = "00000000-0000-4000-8000-00000000000b"

abbrev pub assignment : Fields
assignment =
    field "build_job_id" (str build_1)
      (field "attempt_id" (str attempt_1) (field "secrets" (obj end) end))

abbrev pub waiting : JobRow
waiting = new_row 10 build_1 attempt_1 end

abbrev pub working : ℕ → JobRow
working leases = record (new_row 20 build_1 attempt_2 end) {
  state = running;
  lease_owner = some "worker-1";
  lease_token = some "token-1";
  lease_expires_at = some 5_000;
  attempts = leases;
  cancel_requested = true;
}

abbrev pub done : JobRow
done = record (new_row 20 build_1 attempt_2 end) { state = succeeded; attempts = 1 }

abbrev pub store_of : List JobRow → Store
store_of jobs = record { jobs = jobs; events = []; dlq = []; transient = [] }

-- A store whose second row is any row of the second attempt.
pub two_rows-IsKeyed : (r : JobRow) → r.attempt_id ≡ attempt_2 → IsKeyed (waiting ∷ r ∷ [])
unfolding count
two_rows-IsKeyed r e = λ a. elim (Bool-cases (str_eq attempt_1 a)) [
  | inl h ↦
      let at : attempt_1 ≡ a = (eq_iff attempt_1 a).0 h in
      let other : str_eq attempt_2 a ≡ false = subst (λ x. str_eq attempt_2 x ≡ false) at refl in
      let same = ap (λ x. str_eq x a) e in rw h (rw same (rw other (omega arith)))
  | inr h ↦ rw h (ground arith)
]

pub waiting-IsSettled : IsSettled waiting
waiting-IsSettled = ground arith

pub done-IsSettled : IsSettled done
done-IsSettled = ground arith

pub two_rows-IsValid : IsValid (waiting ∷ done ∷ [])
two_rows-IsValid = record {
  keyed = two_rows-IsKeyed done refl;
  settled = (waiting-IsSettled, (done-IsSettled, tt));
}

pub two_rows-HasNoSecrets : All HasNoSecrets (waiting ∷ done ∷ [])
unfolding HasNoSecrets get
two_rows-HasNoSecrets = ((λ k. ground arith), ((λ k. ground arith), tt))

abbrev pub request : LeaseRequest
request = record {
  owner = "worker-2";
  visibility_timeout_seconds = pos 60;
  token = "token-2";
  now = 1_000;
}

abbrev pub limits : SpoolLimits
limits = record { max_bytes = 4; retention_days = 7 }

abbrev pub event : Envelope
event = record {
  v = int 2;
  id = "00000000-0000-4000-8000-0000000000ff";
  type = "attempt.status";
  ts = "2026-01-01T00:00:00Z";
  payload = end;
  engine_id = build_1;
  build_job_id = none;
  attempt_id = some attempt_1;
  seq = some 1;
}

abbrev pub one_text : Codec
one_text = record {
  dumps = λ fs. "e";
  loads = λ s. some (obj (to_dict event));
  utf8 = λ b. none;
  parse_iso = λ s. aware 1_000;
  format_iso = λ t. "2026-01-01T00:00:00Z";
}
