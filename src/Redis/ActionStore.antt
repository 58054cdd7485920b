-- ===== src/Redis/ActionStore.antt =====
-- `RedisPendingActionStore`
use opspilot_agent_platform.Prelude.{String, Bool, true, false, not, Option, text_eq, if◌then◌else◌}
use opspilot_agent_platform.Prelude.Dict.{is_some}
use opspilot_agent_platform.Prelude.Exec.{
  ok, pure, raise, gets, or_raise, modify, raise_if, ◌>>=◌, ◌>>◌,
}
use opspilot_agent_platform.Actions.{
  ActionStatus, pending, executed, cancelled, PendingAction, action_not_found, ticket_not_found,
  state_error, id_conflict, validation_error, is_valid_action,
}
use opspilot_agent_platform.Actions.Tickets.{Ticket, query_ticket, change_ticket_priority}
use opspilot_agent_platform.Redis.Database.{Codec, get_value, set_value, ActionMethod}
use opspilot_agent_platform.Redis.Keys.{action_key}

module _ (namespace : String) (json : Codec PendingAction) where
  -- `_save`, with `nx` false
  save_action : PendingAction → ActionMethod (Unit {0})
  save_action a = modify (set_value (action_key namespace a.action_id) (json.encode a))

  -- `_save` with `nx`, which reports whether it wrote.
  save_new_action : PendingAction → ActionMethod Bool
  save_new_action a s =
      if is_some (get_value (action_key namespace a.action_id) s)
      then (ok false, s)
      else (ok true, set_value (action_key namespace a.action_id) (json.encode a) s)

  unfoldable pub propose_priority_change : String → String → String → ActionMethod PendingAction
  unfolding save_new_action
  propose_priority_change fresh ticket_id new_priority = do
    ticket ← or_raise (← gets (λ s. query_ticket ticket_id s.tickets)) ticket_not_found
    let action : PendingAction = record {
      action_id = fresh;
      tool_name = "change_ticket_priority";
      ticket_id = ticket_id;
      previous_priority = ticket.priority;
      new_priority = new_priority;
      status = pending;
    }
    raise_if (not (is_valid_action action)) validation_error
    saved ← save_new_action action
    raise_if (not saved) id_conflict
    pure action

  unfoldable pub get_action : String → ActionMethod PendingAction
  get_action action_id = do
    raw ← or_raise (← gets (get_value (action_key namespace action_id))) action_not_found
    or_raise (json.decode raw) validation_error

  change_priority : String → String → ActionMethod (Option Ticket)
  change_priority ticket_id new_priority s =
      let (ticket, tickets) = change_ticket_priority ticket_id new_priority s.tickets in
      (ok ticket, record s { tickets = tickets })

  confirm_at : ActionStatus → PendingAction → ActionMethod PendingAction
  unfolding save_action change_priority
  confirm_at executed action = pure action
  confirm_at cancelled action = raise state_error
  confirm_at pending action = do
    or_raise (← change_priority action.ticket_id action.new_priority) ticket_not_found
    save_action (record action { status = executed })
    pure (record action { status = executed })

  unfoldable pub confirm_action : String → ActionMethod PendingAction
  unfolding get_action confirm_at
  confirm_action action_id = do action ← get_action action_id; confirm_at action.status action

  cancel_at : ActionStatus → PendingAction → ActionMethod PendingAction
  unfolding save_action
  cancel_at cancelled action = pure action
  cancel_at executed action = raise state_error
  cancel_at pending action = do
    save_action (record action { status = cancelled })
    pure (record action { status = cancelled })

  unfoldable pub cancel_action : String → ActionMethod PendingAction
  unfolding get_action cancel_at
  cancel_action action_id = do action ← get_action action_id; cancel_at action.status action
