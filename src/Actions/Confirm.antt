-- ===== src/Actions/Confirm.antt =====
-- What proposing, confirming and cancelling do, on every branch.
use opspilot_agent_platform.Prelude.{
  String, ◌≡◌, refl, ap, Option, none, some, arith, ◌==◌, text_eq, inl, inr, Option-cases,
  if◌then◌else◌,
}
use opspilot_agent_platform.Prelude.Dict.{lookup, insert, lookup-insert, lookup-insert_self}
use opspilot_agent_platform.Prelude.Exec.{ok, err}
use opspilot_agent_platform.Actions.{
  ActionStatus, pending, executed, cancelled, PendingAction, ActionError, action_not_found,
  ticket_not_found, state_error, ActionStore, confirm_action,
}
use opspilot_agent_platform.Actions.Tickets.{
  Ticket, query_ticket, change_ticket_priority, with_priority, change-query_ticket,
  query_ticket-change, change_absent,
}

abbrev pub done : PendingAction → PendingAction
done a = record a { status = executed }

abbrev pub dropped : PendingAction → PendingAction
dropped a = record a { status = cancelled }

abbrev pub written : String → PendingAction → ActionStore → ActionStore
written k a s = record {
  tickets = (change_ticket_priority a.ticket_id a.new_priority s.tickets).1;
  actions = insert k (done a) s.actions;
}

-- The ways in which a confirmation can end, each with what it returns and leaves behind.
pub data ConfirmCase (k : String) (s : ActionStore) : Type 0 where
  missing :
      lookup k s.actions ≡ none → confirm_action k s ≡ (err action_not_found, s) → ConfirmCase k s
  again :
      (a : PendingAction)
      → lookup k s.actions ≡ some a
      → a.status ≡ executed
      → confirm_action k s ≡ (ok a, s)
      → ConfirmCase k s
  refused :
      (a : PendingAction)
      → lookup k s.actions ≡ some a
      → a.status ≡ cancelled
      → confirm_action k s ≡ (err state_error, s)
      → ConfirmCase k s
  no_ticket :
      (a : PendingAction)
      → lookup k s.actions ≡ some a
      → a.status ≡ pending
      → query_ticket a.ticket_id s.tickets ≡ none
      → confirm_action k s ≡ (err ticket_not_found, s)
      → ConfirmCase k s
  writes :
      (a : PendingAction) (t : Ticket)
      → lookup k s.actions ≡ some a
      → a.status ≡ pending
      → query_ticket a.ticket_id s.tickets ≡ some t
      → confirm_action k s ≡ (ok (done a), written k a s)
      → ConfirmCase k s

module _ (k : String) (s : ActionStore) where
  confirm_missing : lookup k s.actions ≡ none → confirm_action k s ≡ (err action_not_found, s)
  unfolding confirm_action
  confirm_missing h = ground arith

  module _ {a : PendingAction} (found : lookup k s.actions ≡ some a) where
    pub confirm_again : a.status ≡ executed → confirm_action k s ≡ (ok a, s)
    unfolding confirm_action
    confirm_again e = ground arith

    pub confirm_refused : a.status ≡ cancelled → confirm_action k s ≡ (err state_error, s)
    unfolding confirm_action
    confirm_refused e = ground arith

    confirm_no_ticket :
        a.status ≡ pending
        → query_ticket a.ticket_id s.tickets ≡ none
        → confirm_action k s ≡ (err ticket_not_found, s)
    unfolding confirm_action
    confirm_no_ticket e n = ground (
      arith,
      change-query_ticket a.ticket_id a.new_priority s.tickets,
      change_absent a.ticket_id a.new_priority s.tickets,
    )

    confirm_writes :
        {t : Ticket}
        → a.status ≡ pending
        → query_ticket a.ticket_id s.tickets ≡ some t
        → confirm_action k s ≡ (ok (done a), written k a s)
    unfolding confirm_action
    confirm_writes e q = ground (arith, change-query_ticket a.ticket_id a.new_priority s.tickets)

pub confirm_cases : (k : String) (s : ActionStore) → ConfirmCase k s
confirm_cases k s = elim (Option-cases (lookup k s.actions)) [
  | inl h ↦ missing h (confirm_missing k s h)
  | inr (a, h) ↦ by_status a h a.status refl
]
  where
    by_ticket :
        (a : PendingAction)
        → lookup k s.actions ≡ some a
        → a.status ≡ pending
        → (o : Option Ticket) → query_ticket a.ticket_id s.tickets ≡ o
        → ConfirmCase k s
    by_ticket a h e none q = no_ticket a h e q (confirm_no_ticket k s h e q)
    by_ticket a h e (some t) q = writes a t h e q (confirm_writes k s h e q)

    by_status :
        (a : PendingAction)
        → lookup k s.actions ≡ some a
        → (st : ActionStatus) → a.status ≡ st
        → ConfirmCase k s
    by_status a h pending e = by_ticket a h e (query_ticket a.ticket_id s.tickets) refl
    by_status a h executed e = again a h e (confirm_again k s h e)
    by_status a h cancelled e = refused a h e (confirm_refused k s h e)

-- A confirmation that raises leaves the store as it was: no ticket and no action has changed.
pub confirm_action_atomic :
    (k : String) (s : ActionStore) {e : ActionError}
    → (confirm_action k s).0 ≡ err e
    → (confirm_action k s).1 ≡ s
confirm_action_atomic k s h = elim (confirm_cases k s) [
  | missing _ eq ↦ ap (λ r. r.1) eq
  | again a _ _ eq ↦ ap (λ r. r.1) eq
  | refused a _ _ eq ↦ ap (λ r. r.1) eq
  | no_ticket a _ _ _ eq ↦ ap (λ r. r.1) eq
  | writes a t _ _ _ eq ↦ cc
]

-- A successful confirmation stores the action that it returns, as executed.
pub confirm_action_stores :
    (k : String) (s : ActionStore) {a : PendingAction}
    → (confirm_action k s).0 ≡ ok a
    → (a.status ≡ executed) × (lookup k (confirm_action k s).1.actions ≡ some a)
confirm_action_stores k s {a} h = elim (confirm_cases k s) [
  | missing _ eq ↦ cc
  | again b l st eq ↦ ground arith
  | refused b _ _ eq ↦ cc
  | no_ticket b _ _ _ eq ↦ cc
  | writes b t l st q eq ↦ ground (arith, lookup-insert_self k (done b) s.actions)
]

-- Confirming again returns the same action and writes nothing, whatever the first call did before.
pub confirm_action_idempotent :
    (k : String) (s : ActionStore) {a : PendingAction}
    → (confirm_action k s).0 ≡ ok a
    → confirm_action k (confirm_action k s).1 ≡ (ok a, (confirm_action k s).1)
confirm_action_idempotent k s h =
    let (st, l) = confirm_action_stores k s h in confirm_again k (confirm_action k s).1 l st

-- Confirming a pending action gives its ticket the new priority and leaves every other ticket, and
-- every other action, as it was.
pub confirm_action_writes :
    (k : String) (s : ActionStore) {a : PendingAction}
    → lookup k s.actions ≡ some a
    → a.status ≡ pending
    → (confirm_action k s).0 ≡ ok (done a)
    → ((j : String)
        → query_ticket j (confirm_action k s).1.tickets ≡ (
            if a.ticket_id == j
            then with_priority a.new_priority (query_ticket j s.tickets)
            else query_ticket j s.tickets))
      × ((j : String)
          → lookup j (confirm_action k s).1.actions
            ≡ (if k == j then some (done a) else lookup j s.actions))
confirm_action_writes k s {a} l st h = elim (confirm_cases k s) [
  | missing m eq ↦ cc
  | again b m e eq ↦ cc
  | refused b m e eq ↦ cc
  | no_ticket b m e q eq ↦ cc
  | writes b t m e q eq ↦
      let same : b ≡ a = cc in
      let to : (confirm_action k s).1 ≡ written k a s = cc in
      rw to (
        (λ j. query_ticket-change a.ticket_id a.new_priority j s.tickets),
        (λ j. lookup-insert k j (done a) s.actions),
      )
]
