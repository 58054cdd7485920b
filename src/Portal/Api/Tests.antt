-- ===== src/Portal/Api/Tests.antt =====
-- Concrete actions on a turn of the agent; the world counts the calls that resume a run.
use Prim.Native.String.{String}
use opspilot_agent_platform.Prelude.{
  ℕ, Option, ◌≡◌, ◌≢◌, refl, none, some, [], ◌∷◌, ◌+◌, text_eq, eq_iff, arith,
}
use opspilot_agent_platform.Prelude.Dict.{lookup, insert}
use opspilot_agent_platform.Prelude.Tables.{first, update_where}
use opspilot_agent_platform.Prelude.Exec.{ok, err}
use opspilot_agent_platform.Agent.State.{mock}
use opspilot_agent_platform.Portal.{Conversation, Turn, agent, reply, public_turn}
use opspilot_agent_platform.Portal.Turns.{
  turn, claim_action, finish_turn, owned_conversation, is_vision, put_conversation, change_turn,
  release, was_interrupted, end_turn, same_id,
}
use opspilot_agent_platform.Portal.Api.{
  RunView, order_changed, Runs, Request, http_error, Site, confirm, act, on_tables, on_world, catch,
  perform, saw_draft, needs_text, finish, check_error, check_draft, perform_error,
  perform_and_finish, reread, after_claim, ending_of,
}
use opspilot_agent_platform.Portal.Api.Claims.{Idle}
use opspilot_agent_platform.Portal.Api.Performs.{Readable}
use opspilot_agent_platform.Portal.Api.Holding.{Released}
use opspilot_agent_platform.Portal.Api.Releases.{act_releases}
use opspilot_agent_platform.Portal.Api.Stale.{Refused, stale_confirm_runs_nothing}

abbrev waiting : RunView
waiting = record { status = "WAITING_CONFIRMATION"; draft_id = some "d2"; json = "{}" }

-- The order of a draft changes before it is confirmed.
abbrev runs : Runs ℕ
runs = record {
  read_run = λ i n. (ok waiting, n);
  resume_run = λ i approved n. (err order_changed, n + 1);
  submit_reason = λ i text code n. (ok waiting, n);
  refresh_run = λ i n. (ok waiting, n);
}

abbrev pub proposed : Turn
proposed = record {
  id = "t1";
  conversation_id = "c1";
  request_id = "r1";
  request_hash = "h1";
  message = "return the order";
  mode = mock;
  image_ids = [];
  kind = agent;
  status = "WAITING_CONFIRMATION";
  result = some (reply "{}");
  error_code = none;
  created_at = 1;
  updated_at = 1;
}

abbrev idle_conversation : Conversation
idle_conversation = record {
  owner_user_id = "u1";
  title = "orders";
  active_turn_id = none;
  created_at = 0;
  updated_at = 1;
}

abbrev pub site : Site ℕ
site = record {
  tables = record {
    conversations = ("c1", idle_conversation) ∷ [];
    turns = proposed ∷ [];
    images = [];
  };
  world = 0;
}

runs-Readable : Readable runs "t1" confirm
runs-Readable w w' q = (waiting, refl)

abbrev request : Request ℕ
request = record {
  runs = runs;
  user_id = "u1";
  conversation_id = "c1";
  turn_id = "t1";
  claimed_at = 2;
  finished_at = 3;
}

-- The confirmation of the draft that is shown has been tried once, and was refused.
confirm_tried : (act request confirm (some "d2") site).0 ≡ err (http_error 409)
unfolding act on_tables on_world catch perform saw_draft needs_text finish check_error check_draft
    perform_error perform_and_finish reread after_claim ending_of turn claim_action finish_turn
    owned_conversation is_vision put_conversation change_turn release was_interrupted end_turn
    same_id lookup insert first update_where public_turn
confirm_tried = refl

site-Idle : Idle "c1" site.tables
unfolding lookup
site-Idle = refl

act_releases_example : Released request (act request confirm (some "d2") site)
act_releases_example = act_releases request confirm runs-Readable (some "d2") site site-Idle

other_draft : ◌≢◌ {A = Option String} (some "d1") (some "d2")
other_draft = ground (arith, eq_iff "d1" "d2")

stale_confirm_runs_nothing_example : Refused 0 0 (act request confirm (some "d1") site)
stale_confirm_runs_nothing_example =
    stale_confirm_runs_nothing request "d2" (some "d1") waiting site 0 refl refl other_draft
