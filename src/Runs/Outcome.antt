-- ===== src/Runs/Outcome.antt =====
-- What a caller sees of confirming and cancelling a run.
use opspilot_agent_platform.Prelude.{String, ◌+◌, ◌≡◌, some, arith, text_eq}
use opspilot_agent_platform.Prelude.Dict.{lookup, lookup-insert_self}
use opspilot_agent_platform.Prelude.Exec.{ok, err}
use opspilot_agent_platform.Actions.{executed, PendingAction}
use opspilot_agent_platform.Actions.Confirm.{confirm_action_stores}
use opspilot_agent_platform.Actions.Cancel.{tickets-cancel_action}
use opspilot_agent_platform.Runs.Checkpoint.{
  waiting_confirmation, completed, run_cancelled, Run, already_cancelled,
}
use opspilot_agent_platform.Runs.{RunStore, confirm_run, cancel_run, completed_run, cancelled_run}
use opspilot_agent_platform.Runs.Resume.{
  ConfirmCase, confirm_run_cases, CancelCase, cancel_run_cases,
}

confirm_run_stores :
    (i : String) (s : RunStore) {r : Run}
    → (confirm_run i s).0 ≡ ok r
    → (k : String) × (lookup i (confirm_run i s).1.runs ≡ some r)
      × (r.status ≡ completed)
      × (r.pending_action_id ≡ some k)
unfolding completed_run
confirm_run_stores i s {r} h = elim (confirm_run_cases i s) [
  | ConfirmCase.missing _ eq ↦ cc
  | ConfirmCase.again x k f eq ↦ (k, ground arith, ground arith, ground arith)
  | ConfirmCase.no_action x f eq ↦ cc
  | ConfirmCase.was_cancelled x f eq ↦ cc
  | ConfirmCase.broken x f eq ↦ cc
  | ConfirmCase.fails x k e f c eq ↦ cc
  | ConfirmCase.completes x k a f c eq ↦ (
    k,
    ground (arith, lookup-insert_self i (completed_run x a) s.runs),
    ground arith,
    ground arith,
  )
]

confirm_run_again :
    (i : String) (s : RunStore) {r : Run} {k : String}
    → lookup i s.runs ≡ some r
    → r.status ≡ completed
    → r.pending_action_id ≡ some k
    → confirm_run i s ≡ (ok r, s)
unfolding confirm_run
confirm_run_again i s l st p = ground arith

-- Confirming a run again returns the same checkpoint and changes neither runs, actions nor tickets.
pub confirm_run_idempotent :
    (i : String) (s : RunStore) {r : Run}
    → (confirm_run i s).0 ≡ ok r
    → confirm_run i (confirm_run i s).1 ≡ (ok r, (confirm_run i s).1)
confirm_run_idempotent i s h =
    let (k, l, st, p) = confirm_run_stores i s h in confirm_run_again i (confirm_run i s).1 l st p

-- Confirming a waiting run with success gives a completed checkpoint, one version on, for the same
-- session, key, message and action; and the action is stored as executed.
pub confirm_run_completes :
    (i : String) (s : RunStore) {w r : Run}
    → lookup i s.runs ≡ some w
    → w.status ≡ waiting_confirmation
    → (confirm_run i s).0 ≡ ok r
    → (r.status ≡ completed)
      × (r.version ≡ w.version + 1)
      × (r.thread_id ≡ w.thread_id)
      × (r.idempotency_key ≡ w.idempotency_key)
      × (r.user_message ≡ w.user_message)
      × (r.pending_action_id ≡ w.pending_action_id)
      × ((k : String) × (w.pending_action_id ≡ some k)
          × ((a : PendingAction) × (lookup k (confirm_run i s).1.actions.actions ≡ some a)
              × (a.status ≡ executed)))
unfolding completed_run
confirm_run_completes i s {w} {r} l st h = elim (confirm_run_cases i s) [
  | ConfirmCase.missing _ eq ↦ cc
  | ConfirmCase.again x k f eq ↦ cc (f.0, f.1)
  | ConfirmCase.no_action x f eq ↦ cc
  | ConfirmCase.was_cancelled x f eq ↦ cc
  | ConfirmCase.broken x f eq ↦ cc
  | ConfirmCase.fails x k e f c eq ↦ cc
  | ConfirmCase.completes x k a f c eq ↦
      let stored = confirm_action_stores k s.actions c in
      let same : x ≡ w = cc (f.0) in
      (
        ground arith,
        ground arith,
        ground arith,
        ground arith,
        ground arith,
        ground arith,
        (k, ground arith, (a, ground arith, stored.0)),
      )
]

cancel_run_stores :
    (i : String) (s : RunStore) {r : Run}
    → (cancel_run i s).0 ≡ ok r
    → (lookup i (cancel_run i s).1.runs ≡ some r) × (r.status ≡ run_cancelled)
unfolding cancelled_run
cancel_run_stores i s {r} h = elim (cancel_run_cases i s) [
  | CancelCase.missing _ eq ↦ cc
  | CancelCase.again x f eq ↦ ground arith
  | CancelCase.was_completed x f eq ↦ cc
  | CancelCase.broken x f eq ↦ cc
  | CancelCase.fails x k e f c eq ↦ cc
  | CancelCase.cancels x k a f c eq ↦
      ground (arith, lookup-insert_self i (cancelled_run x a) s.runs)
]

confirm_run_cancelled :
    (i : String) (s : RunStore) {r : Run}
    → lookup i s.runs ≡ some r
    → r.status ≡ run_cancelled
    → confirm_run i s ≡ (err already_cancelled, s)
unfolding confirm_run
confirm_run_cancelled i s l st = ground arith

cancel_run_again :
    (i : String) (s : RunStore) {r : Run}
    → lookup i s.runs ≡ some r
    → r.status ≡ run_cancelled
    → cancel_run i s ≡ (ok r, s)
unfolding cancel_run
cancel_run_again i s l st = ground arith

-- Cancelling a run, with success or not, writes no ticket.
pub tickets-cancel_run :
    (i : String) (s : RunStore) → (cancel_run i s).1.actions.tickets ≡ s.actions.tickets
tickets-cancel_run i s = elim (cancel_run_cases i s) [
  | CancelCase.missing _ eq ↦ rw eq
  | CancelCase.again x f eq ↦ rw eq
  | CancelCase.was_completed x f eq ↦ rw eq
  | CancelCase.broken x f eq ↦ rw eq
  | CancelCase.fails x k e f c eq ↦ rw eq (tickets-cancel_action k s.actions)
  | CancelCase.cancels x k a f c eq ↦ rw eq (tickets-cancel_action k s.actions)
]

-- A cancelled run can never be confirmed: the attempt raises and changes nothing. Cancelling it
-- again returns the same checkpoint and changes nothing.
pub cancel_run_final :
    (i : String) (s : RunStore) {r : Run}
    → (cancel_run i s).0 ≡ ok r
    → let s' = (cancel_run i s).1 in
      (confirm_run i s' ≡ (err already_cancelled, s')) × (cancel_run i s' ≡ (ok r, s'))
cancel_run_final i s h =
    let (l, st) = cancel_run_stores i s h in
    let s' = (cancel_run i s).1 in (confirm_run_cancelled i s' l st, cancel_run_again i s' l st)
