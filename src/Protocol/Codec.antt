-- ===== src/Protocol/Codec.antt =====
-- What the protocol takes from Python's standard library, as functions that the agent is given:
-- JSON text, UTF-8 and ISO 8601 times. Nothing is assumed of them here; a theorem that needs a law
-- of one of them has it among its hypotheses.
use build_engine.Prelude.{ℕ, String, Option, List}
use build_engine.Json.{Json, Fields}

-- `datetime.fromisoformat`: no time, a time without a zone, or microseconds since year 1 in UTC.
pub data IsoTime : Type 0 where
  not_iso naive : IsoTime
  aware : ℕ → IsoTime

pub record Codec : Type 0 where
  -- `json.dumps` of an object, `json.loads`, `bytes.decode("utf-8")`.
  pub dumps : Fields → String
  pub loads : String → Option Json
  pub utf8 : List ℕ → Option String
  -- `datetime.fromisoformat(value.replace("Z", "+00:00"))`, and `_format_timestamp`.
  pub parse_iso : String → IsoTime
  pub format_iso : ℕ → String
