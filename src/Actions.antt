-- ===== src/Actions.antt =====
-- pending_actions.py with action_models.py and tickets.py: the store of write operations that wait
-- for the user's confirmation. Each method holds the store's lock, so it is one step here; the
-- identifiers that `id_factory` makes are arguments.
pub mod Tickets
pub mod Confirm
pub mod Cancel
pub mod Propose
pub mod History
mod Tests
use Tickets.{Ticket, query_ticket, change_ticket_priority}
use opspilot_agent_platform.Prelude.{
  String, Bool, not, ◌&&◌, ◌||◌, Option, none, some, List, [], ◌∷◌, ◌==◌, text_eq,
}
use opspilot_agent_platform.Prelude.Dict.{Dict, lookup, insert, is_some}
use opspilot_agent_platform.Prelude.Exec.{
  Exec, ok, err, pure, raise, gets, or_raise, modify, raise_if, ◌>>=◌, ◌>>◌,
}

pub data ActionStatus : Type 0 where
  pending executed cancelled : ActionStatus

pub record PendingAction : Type 0 where
  pub action_id : String
  pub tool_name : String
  pub ticket_id : String
  pub previous_priority : String
  pub new_priority : String
  pub status : ActionStatus

-- `ActionNotFoundError`, `TicketNotFoundError`, `ActionStateError`, the `RuntimeError` for a reused
-- identifier, and pydantic's `ValidationError`.
pub data ActionError : Type 0 where
  action_not_found ticket_not_found state_error id_conflict validation_error : ActionError

pub record ActionStore : Type 0 where
  pub tickets : List Ticket
  pub actions : Dict String PendingAction

abbrev pub ActionMethod : Type 0 → Type 0
ActionMethod = Exec ActionError ActionStore

is_priority : String → Bool
is_priority p = p == "low" || p == "medium" || p == "high"

-- The field constraints that pydantic checks when an action is built.
unfoldable pub is_valid_action : PendingAction → Bool
unfolding is_priority
is_valid_action a =
    not (a.action_id == "")
    && a.tool_name == "change_ticket_priority"
    && not (a.ticket_id == "")
    && is_priority a.previous_priority
    && is_priority a.new_priority

put_action : String → PendingAction → ActionStore → ActionStore
put_action k a s = record s { actions = insert k a s.actions }

-- `fresh` is what `self._id_factory()` returns.
unfoldable pub propose_priority_change : String → String → String → ActionMethod PendingAction
unfolding put_action
propose_priority_change fresh ticket_id new_priority = do
  ticket ← or_raise (← gets (λ s. query_ticket ticket_id s.tickets)) ticket_not_found
  let action : PendingAction = record {
    action_id = fresh;
    tool_name = "change_ticket_priority";
    ticket_id = ticket_id;
    previous_priority = ticket.priority;
    new_priority = new_priority;
    status = pending;
  }
  raise_if (not (is_valid_action action)) validation_error
  raise_if (is_some (← gets (λ s. lookup fresh s.actions))) id_conflict
  modify (put_action fresh action)
  pure action

-- `PendingActionStore.get`
pub get_action : String → ActionMethod PendingAction
get_action action_id = do or_raise (← gets (λ s. lookup action_id s.actions)) action_not_found

-- `self._ticket_repository.change_priority`
change_priority : String → String → ActionMethod (Option Ticket)
change_priority ticket_id new_priority s =
    let (ticket, tickets) = change_ticket_priority ticket_id new_priority s.tickets in
    (ok ticket, record s { tickets = tickets })

confirm_at : String → ActionStatus → PendingAction → ActionMethod PendingAction
unfolding change_priority put_action
confirm_at action_id executed action = pure action
confirm_at action_id cancelled action = raise state_error
confirm_at action_id pending action = do
  or_raise (← change_priority action.ticket_id action.new_priority) ticket_not_found
  modify (put_action action_id (record action { status = executed }))
  pure (record action { status = executed })

-- `PendingActionStore.confirm`
unfoldable pub confirm_action : String → ActionMethod PendingAction
unfolding get_action confirm_at
confirm_action action_id = do
  action ← get_action action_id
  confirm_at action_id action.status action

cancel_at : String → ActionStatus → PendingAction → ActionMethod PendingAction
unfolding put_action
cancel_at action_id cancelled action = pure action
cancel_at action_id executed action = raise state_error
cancel_at action_id pending action = do
  modify (put_action action_id (record action { status = cancelled }))
  pure (record action { status = cancelled })

-- `PendingActionStore.cancel`
unfoldable pub cancel_action : String → ActionMethod PendingAction
unfolding get_action cancel_at
cancel_action action_id = do action ← get_action action_id; cancel_at action_id action.status action
