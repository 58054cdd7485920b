-- ===== src/Runs/Resume.antt =====
-- Confirming and cancelling a run, on every branch.
use opspilot_agent_platform.Prelude.{
  String, ◌≡◌, refl, inl, inr, Option, none, some, arith, text_eq, Option-cases,
}
use opspilot_agent_platform.Prelude.Dict.{lookup, insert}
use opspilot_agent_platform.Prelude.Exec.{Result, ok, err}
use opspilot_agent_platform.Actions.{PendingAction, ActionError, confirm_action, cancel_action}
use opspilot_agent_platform.Actions.Confirm.{confirm_action_atomic}
use opspilot_agent_platform.Runs.Checkpoint.{
  RunStatus, waiting_confirmation, completed, run_cancelled, Run, run_not_found, no_pending_action,
  already_cancelled, already_completed, inconsistent, from_action,
}
use opspilot_agent_platform.Runs.{RunStore, confirm_run, cancel_run, completed_run, cancelled_run}

-- The ways in which `confirm` can end. Where a tuple of equations opens a case, the run was found.
pub data ConfirmCase (i : String) (s : RunStore) : Type 0 where
  missing : lookup i s.runs ≡ none → confirm_run i s ≡ (err run_not_found, s) → ConfirmCase i s
  again :
      (r : Run) (k : String)
      → (lookup i s.runs ≡ some r) × (r.status ≡ completed) × (r.pending_action_id ≡ some k)
      → confirm_run i s ≡ (ok r, s)
      → ConfirmCase i s
  no_action :
      (r : Run)
      → (lookup i s.runs ≡ some r) × (r.status ≡ completed) × (r.pending_action_id ≡ none)
      → confirm_run i s ≡ (err no_pending_action, s)
      → ConfirmCase i s
  was_cancelled :
      (r : Run)
      → (lookup i s.runs ≡ some r) × (r.status ≡ run_cancelled)
      → confirm_run i s ≡ (err already_cancelled, s)
      → ConfirmCase i s
  broken :
      (r : Run)
      → (lookup i s.runs ≡ some r)
        × (r.status ≡ waiting_confirmation)
        × (r.pending_action_id ≡ none)
      → confirm_run i s ≡ (err inconsistent, s)
      → ConfirmCase i s
  fails :
      (r : Run) (k : String) (e : ActionError)
      → (lookup i s.runs ≡ some r)
        × (r.status ≡ waiting_confirmation)
        × (r.pending_action_id ≡ some k)
      → (confirm_action k s.actions).0 ≡ err e
      → confirm_run i s ≡ (err (from_action e), s)
      → ConfirmCase i s
  completes :
      (r : Run) (k : String) (a : PendingAction)
      → (lookup i s.runs ≡ some r)
        × (r.status ≡ waiting_confirmation)
        × (r.pending_action_id ≡ some k)
      → (confirm_action k s.actions).0 ≡ ok a
      → confirm_run i s ≡ (
        ok (completed_run r a),
        record s {
          runs = insert i (completed_run r a) s.runs;
          actions = (confirm_action k s.actions).1;
        },
      )
      → ConfirmCase i s

confirm_waiting :
    (i : String) (s : RunStore) (r : Run) (k : String)
    → (lookup i s.runs ≡ some r)
      × (r.status ≡ waiting_confirmation)
      × (r.pending_action_id ≡ some k)
    → (o : Result ActionError PendingAction) → (confirm_action k s.actions).0 ≡ o
    → ConfirmCase i s
unfolding confirm_run
confirm_waiting i s r k h (err e) c =
    fails r k e h c (ground (arith, confirm_action_atomic k s.actions c))
confirm_waiting i s r k h (ok a) c = completes r k a h c (ground arith)

confirm_with :
    (i : String) (s : RunStore) (r : Run) (st : RunStatus) (o : Option String)
    → (lookup i s.runs ≡ some r) × (r.status ≡ st) × (r.pending_action_id ≡ o)
    → ConfirmCase i s
unfolding confirm_run
confirm_with i s r completed (some k) h = again r k h (ground arith)
confirm_with i s r completed none h = no_action r h (ground arith)
confirm_with i s r run_cancelled o h = was_cancelled r (h.0, h.1) (ground arith)
confirm_with i s r waiting_confirmation none h = broken r h (ground arith)
confirm_with i s r waiting_confirmation (some k) h =
    confirm_waiting i s r k h (confirm_action k s.actions).0 refl

pub confirm_run_cases : (i : String) (s : RunStore) → ConfirmCase i s
unfolding confirm_run
confirm_run_cases i s = elim (Option-cases (lookup i s.runs)) [
  | inl h ↦ missing h (ground arith)
  | inr (r, h) ↦ confirm_with i s r r.status r.pending_action_id (h, refl, refl)
]

-- The ways in which `cancel` can end.
pub data CancelCase (i : String) (s : RunStore) : Type 0 where
  missing : lookup i s.runs ≡ none → cancel_run i s ≡ (err run_not_found, s) → CancelCase i s
  again :
      (r : Run)
      → (lookup i s.runs ≡ some r) × (r.status ≡ run_cancelled)
      → cancel_run i s ≡ (ok r, s)
      → CancelCase i s
  was_completed :
      (r : Run)
      → (lookup i s.runs ≡ some r) × (r.status ≡ completed)
      → cancel_run i s ≡ (err already_completed, s)
      → CancelCase i s
  broken :
      (r : Run)
      → (lookup i s.runs ≡ some r)
        × (r.status ≡ waiting_confirmation)
        × (r.pending_action_id ≡ none)
      → cancel_run i s ≡ (err inconsistent, s)
      → CancelCase i s
  fails :
      (r : Run) (k : String) (e : ActionError)
      → (lookup i s.runs ≡ some r)
        × (r.status ≡ waiting_confirmation)
        × (r.pending_action_id ≡ some k)
      → (cancel_action k s.actions).0 ≡ err e
      → cancel_run i s ≡ (err (from_action e), record s { actions = (cancel_action k s.actions).1 })
      → CancelCase i s
  cancels :
      (r : Run) (k : String) (a : PendingAction)
      → (lookup i s.runs ≡ some r)
        × (r.status ≡ waiting_confirmation)
        × (r.pending_action_id ≡ some k)
      → (cancel_action k s.actions).0 ≡ ok a
      → cancel_run i s ≡ (
        ok (cancelled_run r a),
        record s {
          runs = insert i (cancelled_run r a) s.runs;
          actions = (cancel_action k s.actions).1;
        },
      )
      → CancelCase i s

cancel_waiting :
    (i : String) (s : RunStore) (r : Run) (k : String)
    → (lookup i s.runs ≡ some r)
      × (r.status ≡ waiting_confirmation)
      × (r.pending_action_id ≡ some k)
    → (o : Result ActionError PendingAction) → (cancel_action k s.actions).0 ≡ o
    → CancelCase i s
unfolding cancel_run
cancel_waiting i s r k h (err e) c = fails r k e h c (ground arith)
cancel_waiting i s r k h (ok a) c = cancels r k a h c (ground arith)

cancel_with :
    (i : String) (s : RunStore) (r : Run) (st : RunStatus) (o : Option String)
    → (lookup i s.runs ≡ some r) × (r.status ≡ st) × (r.pending_action_id ≡ o)
    → CancelCase i s
unfolding cancel_run
cancel_with i s r run_cancelled o h = again r (h.0, h.1) (ground arith)
cancel_with i s r completed o h = was_completed r (h.0, h.1) (ground arith)
cancel_with i s r waiting_confirmation none h = broken r h (ground arith)
cancel_with i s r waiting_confirmation (some k) h =
    cancel_waiting i s r k h (cancel_action k s.actions).0 refl

pub cancel_run_cases : (i : String) (s : RunStore) → CancelCase i s
unfolding cancel_run
cancel_run_cases i s = elim (Option-cases (lookup i s.runs)) [
  | inl h ↦ missing h (ground arith)
  | inr (r, h) ↦ cancel_with i s r r.status r.pending_action_id (h, refl, refl)
]
