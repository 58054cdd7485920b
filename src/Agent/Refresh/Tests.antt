-- ===== src/Agent/Refresh/Tests.antt =====
-- A stale confirmation that is refreshed, in a world that counts the writes that were executed.
use opspilot_agent_platform.Prelude.{ℕ, suc, ◌≡◌, refl, true, false, none, some, [], ◌∷◌}
use opspilot_agent_platform.Prelude.Exec.{Exec, ok, err}
use opspilot_agent_platform.Agent.State.{
  mock, GraphError, service_failed, waiting_confirmation, stale_confirmation, other_reason,
  no_reason_allowed, Eligibility, eligibility, Draft, draft_waiting, draft_expired, State, Services,
  Rules,
}
use opspilot_agent_platform.Agent.Graph.{execute_return}
use opspilot_agent_platform.Agent.Graph.Unapproved.{KeptUntilConfirmed}
use opspilot_agent_platform.Agent.Api.{Threads, StartRequest, initial_state}
use opspilot_agent_platform.Agent.Refresh.{refresh_return_confirmation}
use opspilot_agent_platform.Agent.Refresh.Writes.{refresh_writes_nothing}

abbrev unavailable : {A : Type 0} → Exec GraphError ℕ A
unavailable writes = (err service_failed, writes)

abbrev executing : {A : Type 0} → Exec GraphError ℕ A
executing writes = (err service_failed, suc writes)

abbrev applicable : Eligibility
applicable = record { order_id = "O-1"; decision = no_reason_allowed; can_apply = true }

abbrev old_draft : Draft
old_draft = record { draft_id = "d1"; order_id = "O-1"; status = draft_waiting }

abbrev new_draft : Draft
new_draft = record old_draft { draft_id = "d2" }

abbrev services : Services ℕ
services = record {
  request = λ m ms b. unavailable;
  run_tool = λ name arguments. unavailable;
  review = λ q es. unavailable;
  propose = λ ticket_id p. unavailable;
  confirm = λ action_id. executing;
  cancel = λ action_id. unavailable;
  start_draft = λ order_id. unavailable;
  submit_reason = λ o d t c. unavailable;
  confirm_draft = λ o d. executing;
  cancel_draft = λ o d. unavailable;
  refresh_draft = λ o d writes. (ok new_draft, writes);
  execute_eligibility = λ o writes. (ok (eligibility applicable), writes);
  get_draft = λ o d writes. (ok (record old_draft { status = draft_expired }), writes);
}

abbrev rules : Rules
rules = record {
  auth_required = true;
  has_drafts = true;
  reviews = λ m. false;
  service_guidance = λ q. none;
  simple_order_query = λ q. none;
  required_tools = λ q. [];
  grounded_answer = λ q ts es. none;
  admitted = λ q es. es;
  uncertain = λ q es. [];
  parse_search = λ a. none;
  parse_change = λ a. none;
}

abbrev NothingWritten : ℕ → Type 0
NothingWritten writes = writes ≡ 0

nothing-KeptUntilConfirmed : KeptUntilConfirmed NothingWritten services
nothing-KeptUntilConfirmed = record {
  request = λ m ms b w h. h;
  run_tool = λ n a w h. h;
  review = λ q es w h. h;
  propose = λ i p w h. h;
  cancel = λ i w h. h;
  start_draft = λ o w h. h;
  submit_reason = λ o d t c w h. h;
  cancel_draft = λ o d w h. h;
}

abbrev request : StartRequest
request = record {
  thread_id = "t1";
  message = "改";
  mode = mock;
  return_reason = none;
  reason_code = other_reason;
}

abbrev stale_state : State
stale_state = record (initial_state "u1" [] request) {
  order_id = some "O-1";
  return_draft = some old_draft;
  status = stale_confirmation;
}

abbrev stale : Threads ℕ
stale = record {
  saved = ("u1:t1", record { values = stale_state; next = execute_return }) ∷ [];
  world = 0;
}

refresh_writes_nothing_example :
    NothingWritten (refresh_return_confirmation rules services "u1" "t1" stale).1.world
refresh_writes_nothing_example =
    refresh_writes_nothing NothingWritten rules services nothing-KeptUntilConfirmed (λ o d w h. h)
      (λ o w h. h) "u1" "t1" stale refl

abbrev waiting : Threads ℕ
waiting = record stale {
  saved =
      (
        "u1:t1",
        record {
          values = record stale_state { status = waiting_confirmation };
          next = execute_return;
        },
      )
      ∷ [];
}
