-- ===== src/Runs/Invariant.antt =====
-- The invariant of the run store, over any sequence of calls.
use opspilot_agent_platform.Prelude.{
  String, ◌≡◌, refl, sym, ap, some, none, [], arith, text_eq, eq_iff, ◌==◌, inl, inr, Bool-cases,
}
use opspilot_agent_platform.Prelude.Dict.{
  lookup, insert, lookup-insert, lookup-insert_self, lookup-insert_cases, pair_eq,
}
use opspilot_agent_platform.Actions.{ActionStore}
use opspilot_agent_platform.Runs.Checkpoint.{run_cancelled, Run}
use mathlib.Core.Path.{subst}
use opspilot_agent_platform.Runs.Checkpoint.Fields.{StatusFits, IsNewRun, new_run-IsNewRun}
use opspilot_agent_platform.Runs.{
  RunStore, ChatRunner, start, confirm_run, cancel_run, completed_run, cancelled_run,
}
use opspilot_agent_platform.Runs.Start.{StartCase, start_cases, added}
use opspilot_agent_platform.Runs.Resume.{
  ConfirmCase, confirm_run_cases, CancelCase, cancel_run_cases,
}

-- A run is stored under its own identifier, with a status that fits its action; a key of the index
-- leads to a stored run that was started under that key.
pub record IsConsistent (s : RunStore) : Type 0 where
  pub named : (i : String) (r : Run) → lookup i s.runs ≡ some r → r.run_id ≡ i
  pub status :
      (i : String) (r : Run) → lookup i s.runs ≡ some r → StatusFits r.status r.pending_action_id
  pub indexed :
      (k : String × String) (i : String)
      → lookup k s.index ≡ some i
      → (r : Run) × (lookup i s.runs ≡ some r) × (r.thread_id ≡ k.0) × (r.idempotency_key ≡ k.1)

-- A run of the same identifier, session, key and fitting status takes a run's place.
replace-IsConsistent :
    (i : String) (s : RunStore) (r r' : Run) (a : ActionStore)
    → IsConsistent s
    → lookup i s.runs ≡ some r
    → r'.run_id ≡ r.run_id
    → r'.thread_id ≡ r.thread_id
    → r'.idempotency_key ≡ r.idempotency_key
    → StatusFits r'.status r'.pending_action_id
    → IsConsistent (record s { runs = insert i r' s.runs; actions = a })
replace-IsConsistent i s r r' a h l name thread key fits = record {
  named = λ j x e. elim (lookup-insert_cases i j r' s.runs e) [
    | inl (same, now) ↦ cc (same, now, name, h.named i r l)
    | inr (differs, before) ↦ h.named j x before
  ];
  status = λ j x e. elim (lookup-insert_cases i j r' s.runs e) [
    | inl (same, now) ↦ subst (λ (y : Run). StatusFits y.status y.pending_action_id) now fits
    | inr (differs, before) ↦ h.status j x before
  ];
  indexed = λ k j e.
      let (x, found, t, q) = h.indexed k j e in
      elim (Bool-cases (i == j)) [
        | inl same ↦
            let is : i ≡ j = (eq_iff i j).0 same in
            let old : r ≡ x = cc (l, found, is) in
            (r', rw is (lookup-insert_self j r' s.runs), cc (thread, old, t), cc (key, old, q))
        | inr differs ↦ (x, ground (arith, lookup-insert i j r' s.runs), t, q)
      ];
}

added-IsConsistent :
    (fresh thread key message : String) (chat : ChatRunner) (s : RunStore) (r : Run)
    → IsConsistent s
    → lookup fresh s.runs ≡ none
    → IsNewRun fresh thread key message r
    → IsConsistent (added fresh thread key message chat s r)
added-IsConsistent fresh thread key message chat s r h free new = record {
  named = λ j x e. elim (lookup-insert_cases fresh j r s.runs e) [
    | inl (same, now) ↦ cc (same, now, new.run_id)
    | inr (differs, before) ↦ h.named j x before
  ];
  status = λ j x e. elim (lookup-insert_cases fresh j r s.runs e) [
    | inl (same, now) ↦ subst (λ (y : Run). StatusFits y.status y.pending_action_id) now new.status
    | inr (differs, before) ↦ h.status j x before
  ];
  indexed = λ k j e. elim (lookup-insert_cases (thread, key) k fresh s.index e) [
    | inl (same, now) ↦ (
      r,
      rw (← now) (lookup-insert_self fresh r s.runs),
      cc (new.thread_id, ap (λ p. p.0) same),
      cc (new.idempotency_key, ap (λ p. p.1) same),
    )
    | inr (differs, before) ↦
        let (x, found, t, q) = h.indexed k j before in
        (x, ground (arith, lookup-insert fresh j r s.runs, eq_iff fresh j), t, q)
  ];
}

pub start-IsConsistent :
    (fresh thread key message : String) (chat : ChatRunner) (s : RunStore)
    → IsConsistent s
    → IsConsistent (start fresh thread key message chat s).1
start-IsConsistent fresh thread key message chat s h =
    elim (start_cases fresh thread key message chat s) [
      | StartCase.replays i x l k m eq ↦ rw eq h
      | StartCase.conflicts i x l k m eq ↦ rw eq h
      | StartCase.lost i l k eq ↦ rw eq h
      | StartCase.fails e l eq ↦
          rw eq (record { named = h.named; status = h.status; indexed = h.indexed })
      | StartCase.creates x reply l c n free eq ↦ rw eq (
          added-IsConsistent fresh thread key message chat s x h free
            (new_run-IsNewRun fresh thread key message reply n))
    ]

pub confirm_run-IsConsistent :
    (i : String) (s : RunStore) → IsConsistent s → IsConsistent (confirm_run i s).1
unfolding completed_run
confirm_run-IsConsistent i s h = elim (confirm_run_cases i s) [
  | ConfirmCase.missing _ eq ↦ rw eq h
  | ConfirmCase.again x k f eq ↦ rw eq h
  | ConfirmCase.no_action x f eq ↦ rw eq h
  | ConfirmCase.was_cancelled x f eq ↦ rw eq h
  | ConfirmCase.broken x f eq ↦ rw eq h
  | ConfirmCase.fails x k e f c eq ↦ rw eq h
  | ConfirmCase.completes x k a f c eq ↦
      rw eq (replace-IsConsistent i s x (completed_run x a) _ h f.0 refl refl refl tt)
]

pub cancel_run-IsConsistent :
    (i : String) (s : RunStore) → IsConsistent s → IsConsistent (cancel_run i s).1
unfolding cancelled_run
cancel_run-IsConsistent i s h = elim (cancel_run_cases i s) [
  | CancelCase.missing _ eq ↦ rw eq h
  | CancelCase.again x f eq ↦ rw eq h
  | CancelCase.was_completed x f eq ↦ rw eq h
  | CancelCase.broken x f eq ↦ rw eq h
  | CancelCase.fails x k e f c eq ↦
      rw eq (record { named = h.named; status = h.status; indexed = h.indexed })
  | CancelCase.cancels x k a f c eq ↦ rw eq (
      replace-IsConsistent i s x (cancelled_run x a) _ h f.0 refl refl refl
        (subst (StatusFits run_cancelled) (sym f.2) tt))
]

pub IsConsistent-empty :
    (a : ActionStore) → IsConsistent (record { runs = []; index = []; actions = a })
unfolding lookup
IsConsistent-empty a = record {
  named = λ i r e. cc;
  status = λ i r e. absurd (cc e);
  indexed = λ k i e. absurd (cc e);
}
