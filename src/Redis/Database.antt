-- ===== src/Redis/Database.antt =====
-- What the two stores use of Redis and of pydantic's JSON, which is a parameter: a printer and a
-- parser, with the round trip.
use opspilot_agent_platform.Prelude.{String, ◌≡◌, Option, some, List, text_eq}
use opspilot_agent_platform.Prelude.Dict.{Dict, lookup, insert}
use opspilot_agent_platform.Prelude.Exec.{Exec}
use opspilot_agent_platform.Actions.{ActionError}
use opspilot_agent_platform.Actions.Tickets.{Ticket}
use opspilot_agent_platform.Runs.Checkpoint.{RunError}

-- `model_dump_json` and `model_validate_json`, which raises on a text that it cannot read.
pub record Codec (A : Type 0) : Type 0 where
  pub encode : A → String
  pub decode : String → Option A
  pub round_trip : (a : A) → decode (encode a) ≡ some a

-- The database, and the ticket list of the injected repository.
pub record Database : Type 0 where
  pub values : Dict String String
  pub tickets : List Ticket

-- `client.get`
abbrev pub get_value : String → Database → Option String
get_value k db = lookup k db.values

-- `client.set`
abbrev pub set_value : String → String → Database → Database
set_value k v db = record db { values = insert k v db.values }

abbrev pub ActionMethod : Type 0 → Type 0
ActionMethod = Exec ActionError Database

abbrev pub RunMethod : Type 0 → Type 0
RunMethod = Exec RunError Database
