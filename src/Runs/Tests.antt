-- ===== src/Runs/Tests.antt =====
-- Concrete runs of the checkpoint store.
use opspilot_agent_platform.Prelude.{
  ◌+◌, String, ◌≡◌, ◌≢◌, refl, none, some, List, [], ◌∷◌, text_eq,
}
use opspilot_agent_platform.Prelude.Text.{is_blank}
use opspilot_agent_platform.Prelude.Dict.{lookup, insert, pair_eq}
use opspilot_agent_platform.Prelude.Exec.{ok, err}
use opspilot_agent_platform.Actions.{
  pending, executed, cancelled, PendingAction, ActionStore, confirm_action, cancel_action,
}
use opspilot_agent_platform.Actions.Tickets.{change_ticket_priority}
use opspilot_agent_platform.Runs.Checkpoint.{
  waiting_confirmation, completed, text, other, fields, Run, ChatReply, already_cancelled,
  validation_error, new_run, pending_of, checked_texts, text_result, is_valid_run,
}
use opspilot_agent_platform.Runs.{
  RunStore, ChatRunner, start, confirm_run, cancel_run, completed_run, cancelled_run,
}
use opspilot_agent_platform.Runs.Start.{start_idempotent}
use opspilot_agent_platform.Runs.OrderReply.{start_needs_texts}
use opspilot_agent_platform.Runs.Outcome.{
  confirm_run_idempotent, confirm_run_completes, cancel_run_final, tickets-cancel_run,
}
use opspilot_agent_platform.Runs.Invariant.{IsConsistent, IsConsistent-empty}
use opspilot_agent_platform.Runs.History.{
  Call, start_call, confirm_call, cancel_call, after_all, after_all-IsConsistent,
}

abbrev action : PendingAction
action = record {
  action_id = "act_1";
  tool_name = "change_ticket_priority";
  ticket_id = "T-1002";
  previous_priority = "low";
  new_priority = "high";
  status = pending;
}

abbrev actions : ActionStore
actions = record {
  tickets = record { id = "T-1002"; status = "closed"; priority = "low" } ∷ [];
  actions = ("act_1", action) ∷ [];
}

abbrev empty : RunStore
empty = record { runs = []; index = []; actions = actions }

-- A chat that asks for a change.
abbrev asks : ChatRunner
asks message a = (
  some (record {
    tool_name = some "request_priority_change";
    tool_result = fields (("action_id", text "act_1") ∷ ("status", text "pending") ∷ []);
    answer = some "wait";
    model_requests = none;
    simulated_model_requests = some 2;
  }),
  a,
)

-- A chat that looked an order up: the amount in the result is a number.
abbrev looks_up : ChatRunner
looks_up message a = (
  some (record {
    tool_name = some "query_order";
    tool_result = fields (("id", text "O-2001") ∷ ("amount_cents", other) ∷ []);
    answer = some "delivered";
    model_requests = none;
    simulated_model_requests = some 2;
  }),
  a,
)

abbrev run : Run
run = record {
  run_id = "run_1";
  thread_id = "t";
  idempotency_key = "k";
  status = waiting_confirmation;
  user_message = "raise T-1002";
  pending_action_id = some "act_1";
  tool_name = "request_priority_change";
  tool_result = some (("action_id", "act_1") ∷ ("status", "pending") ∷ []);
  answer = "wait";
  version = 1;
  model_requests = 0;
  simulated_model_requests = 2;
}

abbrev started : RunStore
started = record {
  runs = ("run_1", run) ∷ [];
  index = (("t", "k"), "run_1") ∷ [];
  actions = actions;
}

start_runs : start "run_1" "t" "k" "raise T-1002" asks empty ≡ (ok run, started)
unfolding start new_run pending_of checked_texts text_result is_valid_run is_blank lookup insert
start_runs = refl

start_order_fails :
    start "run_1" "t" "k" "show O-2001" looks_up empty ≡ (err validation_error, empty)
unfolding start new_run pending_of checked_texts text_result is_valid_run is_blank lookup insert
start_order_fails = refl

start_ok : (start "run_1" "t" "k" "raise T-1002" asks empty).0 ≡ ok run
start_ok = rw start_runs

start_err : (start "run_1" "t" "k" "show O-2001" looks_up empty).0 ≡ err validation_error
start_err = rw start_order_fails

abbrev finished : Run
finished = completed_run run (record action { status = executed })

confirm_ok : (confirm_run "run_1" started).0 ≡ ok finished
unfolding confirm_run confirm_action lookup change_ticket_priority
confirm_ok = refl

found : lookup "run_1" started.runs ≡ some run
unfolding lookup
found = refl

abbrev stopped : Run
stopped = cancelled_run run (record action { status = cancelled })

cancel_ok : (cancel_run "run_1" started).0 ≡ ok stopped
unfolding cancel_run cancel_action lookup
cancel_ok = refl

start_idempotent_example :
    let s' = (start "run_1" "t" "k" "raise T-1002" asks empty).1 in
    start "run_2" "t" "k" "raise T-1002" looks_up s' ≡ (ok run, s')
start_idempotent_example =
    start_idempotent "run_1" "t" "k" "raise T-1002" asks empty start_ok "run_2" looks_up

confirm_run_idempotent_example :
    confirm_run "run_1" (confirm_run "run_1" started).1
    ≡ (ok finished, (confirm_run "run_1" started).1)
confirm_run_idempotent_example = confirm_run_idempotent "run_1" started confirm_ok

confirm_run_completes_example :
    (finished.status ≡ completed)
    × (finished.version ≡ run.version + 1)
    × (finished.thread_id ≡ run.thread_id)
    × (finished.idempotency_key ≡ run.idempotency_key)
    × (finished.user_message ≡ run.user_message)
    × (finished.pending_action_id ≡ run.pending_action_id)
    × ((k : String) × (run.pending_action_id ≡ some k)
        × ((a : PendingAction) × (lookup k (confirm_run "run_1" started).1.actions.actions ≡ some a)
            × (a.status ≡ executed)))
confirm_run_completes_example = confirm_run_completes "run_1" started found refl confirm_ok

cancel_run_final_example :
    let s' = (cancel_run "run_1" started).1 in
    (confirm_run "run_1" s' ≡ (err already_cancelled, s'))
    × (cancel_run "run_1" s' ≡ (ok stopped, s'))
cancel_run_final_example = cancel_run_final "run_1" started cancel_ok

tickets-cancel_run_example :
    (cancel_run "run_1" started).1.actions.tickets ≡ started.actions.tickets
tickets-cancel_run_example = tickets-cancel_run "run_1" started

abbrev calls : List Call
calls =
    start_call "run_1" "t" "k" "raise T-1002" asks
    ∷ start_call "run_2" "t" "k2" "show O-2001" looks_up
    ∷ confirm_call "run_1"
    ∷ cancel_call "run_1"
    ∷ []

after_all-IsConsistent_example : IsConsistent (after_all calls empty)
after_all-IsConsistent_example = after_all-IsConsistent calls empty (IsConsistent-empty actions)

abbrev looked_up : ChatReply
looked_up = record {
  tool_name = some "query_order";
  tool_result = fields (("id", text "O-2001") ∷ ("amount_cents", other) ∷ []);
  answer = some "delivered";
  model_requests = none;
  simulated_model_requests = some 2;
}

no_key : lookup ("t", "k") empty.index ≡ none
unfolding lookup
no_key = refl

start_needs_texts_example : (start "run_1" "t" "k" "show O-2001" looks_up empty).0 ≢ ok run
start_needs_texts_example =
    start_needs_texts "run_1" "t" "k" "show O-2001" looks_up empty {reply = looked_up}
      (("id", text "O-2001") ∷ []) [] "amount_cents" no_key refl refl run
