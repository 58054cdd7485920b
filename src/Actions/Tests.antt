-- ===== src/Actions/Tests.antt =====
-- Concrete runs of the confirmation store.
use opspilot_agent_platform.Prelude.{
  String, ◌≡◌, refl, some, List, [], ◌∷◌, ◌==◌, text_eq, if◌then◌else◌,
}
use opspilot_agent_platform.Prelude.Dict.{lookup, insert}
use opspilot_agent_platform.Prelude.Exec.{ok, err}
use opspilot_agent_platform.Actions.{
  pending, PendingAction, ticket_not_found, state_error, ActionStore, is_valid_action,
  propose_priority_change, confirm_action, cancel_action,
}
use opspilot_agent_platform.Actions.Tickets.{
  Ticket, query_ticket, change_ticket_priority, with_priority,
}
use opspilot_agent_platform.Actions.Confirm.{
  done, dropped, confirm_action_atomic, confirm_action_idempotent, confirm_action_writes,
}
use opspilot_agent_platform.Actions.Cancel.{cancel_action_final}
use opspilot_agent_platform.Actions.History.{
  confirm, cancel, after_all, executed_once, cancelled_never_executed,
}

abbrev tickets : List Ticket
tickets =
    record { id = "T-1001"; status = "open"; priority = "high" }
    ∷ record { id = "T-1002"; status = "closed"; priority = "low" }
    ∷ []

abbrev change : PendingAction
change = record {
  action_id = "act_1";
  tool_name = "change_ticket_priority";
  ticket_id = "T-1002";
  previous_priority = "low";
  new_priority = "high";
  status = pending;
}

abbrev fresh_store : ActionStore
fresh_store = record { tickets = tickets; actions = [] }

abbrev waiting : ActionStore
waiting = record { tickets = tickets; actions = ("act_1", change) ∷ [] }

-- An action whose ticket is gone.
abbrev orphaned : ActionStore
orphaned = record { tickets = []; actions = ("act_1", change) ∷ [] }

propose_runs : propose_priority_change "act_1" "T-1002" "high" fresh_store ≡ (ok change, waiting)
unfolding propose_priority_change query_ticket is_valid_action lookup insert
propose_runs = refl

confirm_ok : (confirm_action "act_1" waiting).0 ≡ ok (done change)
unfolding confirm_action lookup change_ticket_priority
confirm_ok = refl

confirm_orphaned : (confirm_action "act_1" orphaned).0 ≡ err ticket_not_found
unfolding confirm_action lookup change_ticket_priority
confirm_orphaned = refl

cancel_ok : (cancel_action "act_1" waiting).0 ≡ ok (dropped change)
unfolding cancel_action lookup
cancel_ok = refl

-- A second confirmation writes nothing, even when the ticket has its old priority again.
confirms_twice :
    confirm_action "act_1" (record (confirm_action "act_1" waiting).1 { tickets = tickets })
    ≡ (ok (done change), record (confirm_action "act_1" waiting).1 { tickets = tickets })
unfolding confirm_action lookup insert change_ticket_priority
confirms_twice = refl

found_waiting : lookup "act_1" waiting.actions ≡ some change
unfolding lookup
found_waiting = refl

confirm_action_atomic_example : (confirm_action "act_1" orphaned).1 ≡ orphaned
confirm_action_atomic_example = confirm_action_atomic "act_1" orphaned confirm_orphaned

confirm_action_idempotent_example :
    confirm_action "act_1" (confirm_action "act_1" waiting).1
    ≡ (ok (done change), (confirm_action "act_1" waiting).1)
confirm_action_idempotent_example = confirm_action_idempotent "act_1" waiting confirm_ok

confirm_action_writes_example :
    ((j : String)
      → query_ticket j (confirm_action "act_1" waiting).1.tickets ≡ (
          if "T-1002" == j
          then with_priority "high" (query_ticket j tickets)
          else query_ticket j tickets))
    × ((j : String)
        → lookup j (confirm_action "act_1" waiting).1.actions
          ≡ (if "act_1" == j then some (done change) else lookup j waiting.actions))
confirm_action_writes_example = confirm_action_writes "act_1" waiting found_waiting refl confirm_ok

cancel_action_final_example :
    let s' = (cancel_action "act_1" waiting).1 in
    (confirm_action "act_1" s' ≡ (err state_error, s'))
    × (cancel_action "act_1" s' ≡ (ok (dropped change), s'))
cancel_action_final_example = cancel_action_final "act_1" waiting cancel_ok

executed_once_example :
    let s' =
      record (after_all
        (cancel "act_1" ∷ confirm "act_1" ∷ [])
        (confirm_action "act_1" waiting).1) { tickets = tickets } in
    (confirm_action "act_1" s' ≡ (ok (done change), s'))
    × (cancel_action "act_1" s' ≡ (err state_error, s'))
executed_once_example =
    executed_once "act_1" (cancel "act_1" ∷ confirm "act_1" ∷ []) waiting tickets confirm_ok

cancelled_never_executed_example :
    let s' = record (after_all (confirm "act_1" ∷ []) (cancel_action "act_1" waiting).1) {
      tickets = tickets;
    } in
    (confirm_action "act_1" s' ≡ (err state_error, s'))
    × (cancel_action "act_1" s' ≡ (ok (dropped change), s'))
cancelled_never_executed_example =
    cancelled_never_executed "act_1" (confirm "act_1" ∷ []) waiting tickets cancel_ok
