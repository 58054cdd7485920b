-- ===== src/Agent/Tests.antt =====
-- Concrete runs of the graph, over the in-memory action store.
use opspilot_agent_platform.Prelude.{
  ◌+◌, ◌≡◌, ◌≢◌, refl, Bool, true, false, none, some, List, [], ◌∷◌, arith, text_eq, eq_iff,
}
use opspilot_agent_platform.Prelude.Text.{is_blank, is_space}
use opspilot_agent_platform.Prelude.Dict.{lookup, insert}
use opspilot_agent_platform.Prelude.Exec.{Exec, ok, err}
use opspilot_agent_platform.Actions.{
  pending, executed, PendingAction, ActionStore, ActionMethod, propose_priority_change,
  confirm_action, cancel_action,
}
use opspilot_agent_platform.Actions.Tickets.{Ticket, change_ticket_priority}
use opspilot_agent_platform.Actions.Propose.{propose_priority_change_keeps}
use opspilot_agent_platform.Actions.Cancel.{tickets-cancel_action}
use opspilot_agent_platform.Evidence.{Evidence}
use opspilot_agent_platform.Agent.State.{
  mock, waiting_confirmation, completed, GraphError, service_failed, state_error, nothing, action,
  ModelReply, other_reason, State, Services, Rules,
}
use opspilot_agent_platform.Agent.Policy.{state_tools_enabled, tool_is_enabled}
use opspilot_agent_platform.Agent.Model.{apply_reply}
use opspilot_agent_platform.Agent.Model.Words.{saying, apply_reply_ignores_words}
use opspilot_agent_platform.Agent.Graph.{
  call_model, await_approval, execute_change, Snapshot, run, step_limit,
}
use opspilot_agent_platform.Agent.Graph.Legacy.{KeptWithoutTickets, run_without_tickets}
use opspilot_agent_platform.Agent.Graph.Terminates.{run_within_limit}
use opspilot_agent_platform.Agent.Graph.Unapproved.{KeptUntilConfirmed}
use opspilot_agent_platform.Agent.Api.{
  Threads, StartRequest, checkpoint_id, initial_state, start_agent_graph, resume_agent_graph,
  submit_return_reason,
}
use opspilot_agent_platform.Agent.Api.Writes.{unapproved_calls_write_nothing}
use opspilot_agent_platform.Agent.Api.Owners.{other_users_untouched}
use opspilot_agent_platform.Agent.Api.Approved.{approval_executes_once, AwaitsApproval}

abbrev from_store : {A : Type 0} → ActionMethod A → Exec GraphError ActionStore A
from_store m s =
    let (r, s') = m s in elim r [ ok a ↦ (ok a, s') | err e ↦ (err service_failed, s') ]

abbrev unavailable : {A : Type 0} → Exec GraphError ActionStore A
unavailable s = (err service_failed, s)

-- A model that asks for one change of priority.
abbrev asking : ModelReply
asking = record {
  role = "assistant";
  content = none;
  tool_calls =
      record {
        type = "function";
        id = some "call_1";
        name = some "request_priority_change";
        arguments = some "{}";
      }
      ∷ [];
  telemetry = none;
}

services : Services ActionStore
services = record {
  request = λ m ms b s. (ok asking, s);
  run_tool = λ name arguments s. (ok nothing, s);
  review = λ q es. unavailable;
  propose = λ ticket_id p. from_store (propose_priority_change "act_1" ticket_id p);
  confirm = λ action_id. from_store (confirm_action action_id);
  cancel = λ action_id. from_store (cancel_action action_id);
  start_draft = λ order_id. unavailable;
  submit_reason = λ o d t c. unavailable;
  confirm_draft = λ o d. unavailable;
  cancel_draft = λ o d. unavailable;
  refresh_draft = λ o d. unavailable;
  execute_eligibility = λ o. unavailable;
  get_draft = λ o d. unavailable;
}

abbrev rules : Rules
rules = record {
  auth_required = false;
  has_drafts = false;
  reviews = λ m. false;
  service_guidance = λ q. none;
  simple_order_query = λ q. none;
  required_tools = λ q. [];
  grounded_answer = λ q ts es. none;
  admitted = λ q es. es;
  uncertain = λ q es. [];
  parse_search = λ a. none;
  parse_change = λ a. some ("T-1002", "high");
}

abbrev tickets : List Ticket
tickets = record { id = "T-1002"; status = "closed"; priority = "low" } ∷ []

abbrev threads : Threads ActionStore
threads = record { saved = []; world = record { tickets = tickets; actions = [] } }

abbrev request : StartRequest
request = record {
  thread_id = "t1";
  message = "改";
  mode = mock;
  return_reason = none;
  reason_code = other_reason;
}

abbrev TicketsKept : ActionStore → Type 0
TicketsKept s = s.tickets ≡ tickets

tickets-KeptUntilConfirmed : KeptUntilConfirmed TicketsKept services
unfolding services
tickets-KeptUntilConfirmed = record {
  request = λ m ms b s h. h;
  run_tool = λ n a s h. h;
  review = λ q es s h. h;
  propose = λ i p s h. ground (arith, (propose_priority_change_keeps "act_1" i p s).0);
  cancel = λ i s h. ground (arith, tickets-cancel_action i s);
  start_draft = λ o s h. h;
  submit_reason = λ o d t c s h. h;
  cancel_draft = λ o d s h. h;
}

abbrev first_state : State
first_state = initial_state "u1" [] request

counts_none : first_state.tool_steps ≡ 0
unfolding initial_state
counts_none = refl

run_within_limit_example :
    run rules services (step_limit + 5) call_model none first_state threads.world
    ≡ run rules services step_limit call_model none first_state threads.world
run_within_limit_example =
    run_within_limit rules services 5 call_model none first_state threads.world (λ h. counts_none)

unapproved_calls_write_nothing_example :
    TicketsKept (start_agent_graph rules services "u1" [] request threads).1.world
    × TicketsKept (resume_agent_graph rules services "u1" "t1" false threads).1.world
    × TicketsKept
        (submit_return_reason rules services "u1" "t1" "late" other_reason threads).1.world
unapproved_calls_write_nothing_example =
    unapproved_calls_write_nothing TicketsKept rules services tickets-KeptUntilConfirmed threads
      refl "u1" "t1" "late" other_reason [] request

-- A thread of another user.
abbrev theirs : Snapshot
theirs = record { values = initial_state "u2" [] request; next = call_model }

abbrev shared : Threads ActionStore
shared = record threads { saved = ("u2:t1", theirs) ∷ [] }

found_theirs : lookup "u2:t1" shared.saved ≡ some theirs
unfolding lookup
found_theirs = refl

not_mine : theirs.values.owner_user_id ≢ "u1"
unfolding initial_state
not_mine h = ground (arith, (eq_iff "u2" "u1").1 h)

other_users_untouched_example :
    (lookup "u2:t1" (start_agent_graph rules services "u1" [] request shared).1.saved ≡ some theirs)
    × (lookup "u2:t1" (resume_agent_graph rules services "u1" "t1" true shared).1.saved
        ≡ some theirs)
    × (lookup "u2:t1"
          (submit_return_reason rules services "u1" "t1" "late" other_reason shared).1.saved
        ≡ some theirs)
other_users_untouched_example =
    other_users_untouched rules services "u1" shared "u2:t1" found_theirs not_mine "t1" "late" true
      other_reason [] request

abbrev change : PendingAction
change = record {
  action_id = "act_1";
  tool_name = "change_ticket_priority";
  ticket_id = "T-1002";
  previous_priority = "low";
  new_priority = "high";
  status = pending;
}

-- The state of a thread that waits for its approval.
abbrev waiting_state : State
waiting_state = record (initial_state "u1" [] request) {
  tool_name = some "request_priority_change";
  action_id = some "act_1";
  tool_result = action change;
  status = waiting_confirmation;
}

abbrev waiting : Threads ActionStore
waiting = record {
  saved = ("u1:t1", record { values = waiting_state; next = await_approval }) ∷ [];
  world = record { tickets = tickets; actions = ("act_1", change) ∷ [] };
}

waiting-AwaitsApproval : AwaitsApproval rules "u1" "t1" "act_1" waiting_state waiting
unfolding initial_state lookup checkpoint_id state_tools_enabled tool_is_enabled
waiting-AwaitsApproval = record {
  saved = refl;
  owner = refl;
  thread = refl;
  enabled = refl;
  change_enabled = refl;
  asked = refl;
  no_return = refl;
}

abbrev raised : List Ticket
raised = record { id = "T-1002"; status = "closed"; priority = "high" } ∷ []

abbrev executed_change : PendingAction
executed_change = record change { status = executed }

abbrev written : ActionStore
written = record { tickets = raised; actions = ("act_1", executed_change) ∷ [] }

confirms : services.confirm "act_1" waiting.world ≡ (ok executed_change, written)
unfolding services confirm_action lookup insert change_ticket_priority
confirms = refl

approval_executes_once_example :
    (x : State) × (t' : Threads ActionStore) × (resume_agent_graph rules services "u1" "t1" true
        waiting
      ≡ (ok x, t'))
    × (x.status ≡ completed)
    × (x.tool_result ≡ action executed_change)
    × (t'.world ≡ written)
    × ((approved : Bool)
        → resume_agent_graph rules services "u1" "t1" approved t' ≡ (err state_error, t'))
approval_executes_once_example =
    approval_executes_once rules services "u1" "t1" "act_1" waiting_state waiting
      waiting-AwaitsApproval confirms

abbrev passage : Evidence
passage = record {
  chunk_id = some "c1";
  title = some "refunds";
  page = some 3;
  content = some "paid in 3 days";
}

abbrev informed : State
informed = record first_state { rag_evidence = passage ∷ [] }

says : (is_blank "three days" ≡ false) × (is_blank "no idea" ≡ false)
unfolding is_blank is_space
says = (refl, refl)

apply_reply_ignores_words_example :
    apply_reply rules informed (saying asking "three days")
    ≡ apply_reply rules informed (saying asking "no idea")
apply_reply_ignores_words_example =
    apply_reply_ignores_words rules informed "three days" "no idea" refl asking says.0 says.1

abbrev account_rules : Rules
account_rules = record rules { auth_required = true }

Unchanged : ActionStore → Type 0
Unchanged s = s ≡ waiting.world

Unchanged-KeptWithoutTickets : KeptWithoutTickets Unchanged services
unfolding services Unchanged
Unchanged-KeptWithoutTickets = record {
  request = λ m ms b w h. h;
  run_tool = λ name arguments e w h. h;
  review = λ q es w h. h;
  start_draft = λ order_id w h. h;
  submit_reason = λ o d t c w h. h;
  confirm_draft = λ o d w h. h;
  cancel_draft = λ o d w h. h;
}

waiting-Unchanged : Unchanged waiting.world
unfolding Unchanged
waiting-Unchanged = refl

run_without_tickets_example :
    Unchanged
      (run account_rules services step_limit execute_change none waiting_state waiting.world).1
run_without_tickets_example =
    run_without_tickets Unchanged account_rules services refl Unchanged-KeptWithoutTickets
      step_limit execute_change none waiting_state waiting.world waiting-Unchanged
