-- ===== src/Actions/Cancel.antt =====
-- Cancelling, on every branch, and what it means for a later confirmation.
use opspilot_agent_platform.Prelude.{
  String, ◌≡◌, refl, ap, inl, inr, none, some, arith, Option-cases, text_eq,
}
use opspilot_agent_platform.Prelude.Dict.{lookup, insert, lookup-insert_self}
use opspilot_agent_platform.Prelude.Exec.{ok, err}
use opspilot_agent_platform.Actions.{
  ActionStatus, pending, executed, cancelled, PendingAction, action_not_found, state_error,
  ActionStore, confirm_action, cancel_action,
}
use opspilot_agent_platform.Actions.Confirm.{confirm_refused, dropped}

-- The ways in which a cancellation can end.
pub data CancelCase (k : String) (s : ActionStore) : Type 0 where
  missing :
      lookup k s.actions ≡ none → cancel_action k s ≡ (err action_not_found, s) → CancelCase k s
  again :
      (a : PendingAction)
      → lookup k s.actions ≡ some a
      → a.status ≡ cancelled
      → cancel_action k s ≡ (ok a, s)
      → CancelCase k s
  refused :
      (a : PendingAction)
      → lookup k s.actions ≡ some a
      → a.status ≡ executed
      → cancel_action k s ≡ (err state_error, s)
      → CancelCase k s
  drops :
      (a : PendingAction)
      → lookup k s.actions ≡ some a
      → a.status ≡ pending
      → cancel_action k s ≡ (ok (dropped a), record s { actions = insert k (dropped a) s.actions })
      → CancelCase k s

module _ (k : String) (s : ActionStore) where
  cancel_missing : lookup k s.actions ≡ none → cancel_action k s ≡ (err action_not_found, s)
  unfolding cancel_action
  cancel_missing h = ground arith

  module _ {a : PendingAction} (found : lookup k s.actions ≡ some a) where
    pub cancel_again : a.status ≡ cancelled → cancel_action k s ≡ (ok a, s)
    unfolding cancel_action
    cancel_again e = ground arith

    pub cancel_refused : a.status ≡ executed → cancel_action k s ≡ (err state_error, s)
    unfolding cancel_action
    cancel_refused e = ground arith

    cancel_drops :
        a.status ≡ pending
        → cancel_action k s
          ≡ (ok (dropped a), record s { actions = insert k (dropped a) s.actions })
    unfolding cancel_action
    cancel_drops e = ground arith

pub cancel_cases : (k : String) (s : ActionStore) → CancelCase k s
cancel_cases k s = elim (Option-cases (lookup k s.actions)) [
  | inl h ↦ missing h (cancel_missing k s h)
  | inr (a, h) ↦ by_status a h a.status refl
]
  where
    by_status :
        (a : PendingAction)
        → lookup k s.actions ≡ some a
        → (st : ActionStatus) → a.status ≡ st
        → CancelCase k s
    by_status a h pending e = drops a h e (cancel_drops k s h e)
    by_status a h executed e = refused a h e (cancel_refused k s h e)
    by_status a h cancelled e = again a h e (cancel_again k s h e)

-- Cancelling writes no ticket, on any branch.
pub tickets-cancel_action :
    (k : String) (s : ActionStore) → (cancel_action k s).1.tickets ≡ s.tickets
tickets-cancel_action k s = elim (cancel_cases k s) [
  | missing _ eq ↦ ap (λ r. r.1.tickets) eq
  | again a _ _ eq ↦ ap (λ r. r.1.tickets) eq
  | refused a _ _ eq ↦ ap (λ r. r.1.tickets) eq
  | drops a _ _ eq ↦ ap (λ r. r.1.tickets) eq
]

-- A successful cancellation stores the action that it returns, as cancelled.
pub cancel_action_stores :
    (k : String) (s : ActionStore) {a : PendingAction}
    → (cancel_action k s).0 ≡ ok a
    → (a.status ≡ cancelled) × (lookup k (cancel_action k s).1.actions ≡ some a)
cancel_action_stores k s {a} h = elim (cancel_cases k s) [
  | missing _ eq ↦ cc
  | again b l st eq ↦ ground arith
  | refused b _ _ eq ↦ cc
  | drops b l st eq ↦ ground (arith, lookup-insert_self k (dropped b) s.actions)
]

-- After a successful cancellation the action cannot be confirmed: the attempt raises, and changes
-- nothing. Cancelling again returns the same action and changes nothing.
pub cancel_action_final :
    (k : String) (s : ActionStore) {a : PendingAction}
    → (cancel_action k s).0 ≡ ok a
    → let s' = (cancel_action k s).1 in
      (confirm_action k s' ≡ (err state_error, s')) × (cancel_action k s' ≡ (ok a, s'))
cancel_action_final k s h =
    let (st, l) = cancel_action_stores k s h in
    let s' = (cancel_action k s).1 in (confirm_refused k s' l st, cancel_again k s' l st)
