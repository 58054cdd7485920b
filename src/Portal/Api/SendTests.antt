-- ===== src/Portal/Api/SendTests.antt =====
-- Concrete questions; the world counts the runs that are started.
use Prim.Native.String.{String}
use opspilot_agent_platform.Prelude.{
  ℕ, ◌+◌, ◌≡◌, refl, Bool, true, false, none, some, List, [], ◌==◌, text_eq,
}
use opspilot_agent_platform.Prelude.Tables.{first}
use opspilot_agent_platform.Prelude.Exec.{ok, err}
use opspilot_agent_platform.Agent.State.{mock}
use opspilot_agent_platform.Portal.{reply, of_request, PublicTurn}
use opspilot_agent_platform.Portal.Turns.{TurnRequest}
use opspilot_agent_platform.Portal.Running.{active}
use opspilot_agent_platform.Portal.Api.{failed}
use opspilot_agent_platform.Portal.Api.Followup.{Patterns}
use opspilot_agent_platform.Portal.Api.Send.{Services, Sending, send_turn}
use opspilot_agent_platform.Portal.Api.Sends.{send_keeps_active, Resent, resend_calls_nothing}
use opspilot_agent_platform.Portal.Api.Tests.{site, proposed}

abbrev patterns : Patterns
patterns = record {
  names_order = λ text. false;
  names_number = λ text. false;
  order_ids = λ text. [];
  asks_application = λ text. false;
  tool_name = λ result. none;
}

-- The agent's run breaks off.
abbrev services : Services ℕ (List PublicTurn)
services = record {
  is_local = true;
  patterns = patterns;
  memory_context = λ k question turns n. (ok turns, n);
  visible_history = λ turns question. turns;
  vision_reply = λ question images history mode n. (err (failed "ConnectError" ""), n);
  read_policy = λ question mode n. (ok (record { answer = "none"; json = "{}" }), n);
  start_run = λ i question mode history n. (err (failed "ConnectionResetError" ""), n + 1);
  dumps = λ sent. reply "{}";
  is_request_error = λ name. name == "ConnectError";
}

abbrev question : String → TurnRequest
question request_id = record {
  request_id = request_id;
  message = "where is my parcel";
  mode = mock;
  image_ids = [];
  reuse_images = false;
  use_policy = false;
  policy_query = none;
  allow_external_images = false;
}

abbrev earlier : String → String → Bool
earlier a b = false

abbrev fingerprint : TurnRequest → String
fingerprint body = body.message

abbrev sending : Sending ℕ (List PublicTurn)
sending = record {
  services = services;
  before = earlier;
  fingerprint = fingerprint;
  user_id = "u1";
  conversation_id = "c1";
  fresh = "t2";
  claimed_at = 2;
  finished_at = 3;
}

-- The run is started, breaks off, and the turn is ended.
send_keeps_active_example :
    active "c1" (send_turn sending (question "r2") site).1.tables.conversations
    ≡ active "c1" site.tables.conversations
send_keeps_active_example = send_keeps_active sending (question "r2") site

request_there : first (of_request "c1" "r1") site.tables.turns ≡ some proposed
unfolding first
request_there = refl

resend_calls_nothing_example : Resent proposed site (send_turn sending (question "r1") site)
resend_calls_nothing_example =
    resend_calls_nothing sending (question "r1") proposed site request_there
