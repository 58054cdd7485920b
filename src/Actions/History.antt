-- ===== src/Actions/History.antt =====
-- Any sequence of calls, in the order in which they got the lock.
use opspilot_agent_platform.Prelude.{String, ◌≡◌, ◌≢◌, some, List, [], ◌∷◌, arith, eq_iff, text_eq}
use opspilot_agent_platform.Prelude.Dict.{lookup, lookup-insert}
use opspilot_agent_platform.Prelude.Exec.{ok, err}
use opspilot_agent_platform.Actions.Tickets.{Ticket}
use opspilot_agent_platform.Actions.{
  state_error, pending, PendingAction, ActionStore, propose_priority_change, confirm_action,
  cancel_action,
}
use opspilot_agent_platform.Actions.Confirm.{
  ConfirmCase, confirm_cases, done, dropped, confirm_again, confirm_refused, confirm_action_stores,
}
use opspilot_agent_platform.Actions.Cancel.{
  CancelCase, cancel_cases, cancel_action_stores, cancel_again, cancel_refused,
}
use opspilot_agent_platform.Actions.Propose.{propose_priority_change_keeps}

pub data Call : Type 0 where
  propose : String → String → String → Call
  confirm cancel : String → Call

unfoldable pub after : Call → ActionStore → ActionStore
after (propose fresh ticket_id p) s = (propose_priority_change fresh ticket_id p s).1
after (confirm k) s = (confirm_action k s).1
after (cancel k) s = (cancel_action k s).1

unfoldable pub after_all : List Call → ActionStore → ActionStore
after_all [] s = s
after_all (c ∷ cs) s = after_all cs (after c s)

-- An action that is no longer pending never changes again.
pub after_settled :
    (k : String) (c : Call) (s : ActionStore) {a : PendingAction}
    → lookup k s.actions ≡ some a
    → a.status ≢ pending
    → lookup k (after c s).actions ≡ some a
unfolding after
after_settled k (propose fresh ticket_id p) s {a} h st =
    (propose_priority_change_keeps fresh ticket_id p s).1 k a h
after_settled k (confirm j) s {a} h st = elim (confirm_cases j s) [
  | ConfirmCase.missing _ eq ↦ rw (eq, after) h
  | ConfirmCase.again b _ _ eq ↦ rw (eq, after) h
  | ConfirmCase.refused b _ _ eq ↦ rw (eq, after) h
  | ConfirmCase.no_ticket b _ _ _ eq ↦ rw (eq, after) h
  | ConfirmCase.writes b t l e q eq ↦
      rw (eq, after) (ground (arith, lookup-insert j k (done b) s.actions, eq_iff j k))
]
after_settled k (cancel j) s {a} h st = elim (cancel_cases j s) [
  | CancelCase.missing _ eq ↦ rw (eq, after) h
  | CancelCase.again b _ _ eq ↦ rw (eq, after) h
  | CancelCase.refused b _ _ eq ↦ rw (eq, after) h
  | CancelCase.drops b l e eq ↦
      rw (eq, after) (ground (arith, lookup-insert j k (dropped b) s.actions, eq_iff j k))
]

after_all_settled :
    (k : String) (cs : List Call) (s : ActionStore) {a : PendingAction}
    → lookup k s.actions ≡ some a
    → a.status ≢ pending
    → lookup k (after_all cs s).actions ≡ some a
unfolding after_all
after_all_settled k [] s h st = h
after_all_settled k (c ∷ cs) s h st =
    after_all_settled k cs (after c s) (after_settled k c s h st) st

-- Once a confirmation has returned an action, whatever calls follow and whatever the tickets are by
-- then, confirming it again returns the same action and writes no ticket and no action, and
-- cancelling it is refused and changes nothing.
pub executed_once :
    (k : String) (cs : List Call) (s : ActionStore) (tickets : List Ticket) {a : PendingAction}
    → (confirm_action k s).0 ≡ ok a
    → let s' = record (after_all cs (confirm_action k s).1) { tickets = tickets } in
      (confirm_action k s' ≡ (ok a, s')) × (cancel_action k s' ≡ (err state_error, s'))
executed_once k cs s tickets h =
    let (st, l) = confirm_action_stores k s h in
    let found = after_all_settled k cs (confirm_action k s).1 l (λ e. cc) in
    let s' = record (after_all cs (confirm_action k s).1) { tickets = tickets } in
    (confirm_again k s' found st, cancel_refused k s' found st)

-- Once a cancellation has returned an action, whatever calls follow and whatever the tickets are by
-- then, confirming it is refused and writes no ticket and no action, and cancelling it again returns
-- the same action and changes nothing.
pub cancelled_never_executed :
    (k : String) (cs : List Call) (s : ActionStore) (tickets : List Ticket) {a : PendingAction}
    → (cancel_action k s).0 ≡ ok a
    → let s' = record (after_all cs (cancel_action k s).1) { tickets = tickets } in
      (confirm_action k s' ≡ (err state_error, s')) × (cancel_action k s' ≡ (ok a, s'))
cancelled_never_executed k cs s tickets h =
    let (st, l) = cancel_action_stores k s h in
    let found = after_all_settled k cs (cancel_action k s).1 l (λ e. cc) in
    let s' = record (after_all cs (cancel_action k s).1) { tickets = tickets } in
    (confirm_refused k s' found st, cancel_again k s' found st)
