-- ===== src/Runs/Start.antt =====
-- Starting a run: once for each session and idempotency key, and never half.
use opspilot_agent_platform.Prelude.{
  String, ◌≡◌, ◌≢◌, refl, sym, ◌∙◌, inl, inr, none, some, arith, eq_iff, ◌==◌, text_eq,
  Option-cases, Bool-cases,
}
use opspilot_agent_platform.Prelude.Dict.{lookup, insert, lookup-insert_self, pair_eq}
use opspilot_agent_platform.Prelude.Exec.{Result, ok, err}
use opspilot_agent_platform.Runs.Checkpoint.{
  Run, ChatReply, RunError, idempotency_conflict, key_error, new_run, chat_failed, run_id_conflict,
}
use opspilot_agent_platform.Runs.Checkpoint.Fields.{new_run-IsNewRun}
use opspilot_agent_platform.Runs.{RunStore, ChatRunner, start}

module _ (fresh thread key message : String) (chat : ChatRunner) (s : RunStore) where
  -- The store after a run was added.
  abbrev pub added : Run → RunStore
  added r = record {
    runs = insert fresh r s.runs;
    index = insert (thread, key) fresh s.index;
    actions = (chat message s.actions).1;
  }

  -- The ways in which `start` can end.
  pub data StartCase : Type 0 where
    replays :
        (i : String) (r : Run)
        → lookup (thread, key) s.index ≡ some i
        → lookup i s.runs ≡ some r
        → r.user_message ≡ message
        → start fresh thread key message chat s ≡ (ok r, s)
        → StartCase
    conflicts :
        (i : String) (r : Run)
        → lookup (thread, key) s.index ≡ some i
        → lookup i s.runs ≡ some r
        → r.user_message ≢ message
        → start fresh thread key message chat s ≡ (err idempotency_conflict, s)
        → StartCase
    lost :
        (i : String)
        → lookup (thread, key) s.index ≡ some i
        → lookup i s.runs ≡ none
        → start fresh thread key message chat s ≡ (err key_error, s)
        → StartCase
    fails :
        (e : RunError)
        → lookup (thread, key) s.index ≡ none
        → start fresh thread key message chat s
          ≡ (err e, record s { actions = (chat message s.actions).1 })
        → StartCase
    creates :
        (r : Run) (reply : ChatReply)
        → lookup (thread, key) s.index ≡ none
        → (chat message s.actions).0 ≡ some reply
        → new_run fresh thread key message reply ≡ ok r
        → lookup fresh s.runs ≡ none
        → start fresh thread key message chat s ≡ (ok r, added r)
        → StartCase

  start_found :
      (i : String) (r : Run)
      → lookup (thread, key) s.index ≡ some i
      → lookup i s.runs ≡ some r
      → StartCase
  unfolding start
  start_found i r h l = elim (Bool-cases (r.user_message == message)) [
    | inl same ↦ replays i r h l ((eq_iff r.user_message message).0 same) (ground arith)
    | inr differs ↦
        conflicts i r h l (λ e. ground (arith, eq_iff r.user_message message)) (ground arith)
  ]

  start_new :
      (reply : ChatReply)
      → lookup (thread, key) s.index ≡ none
      → (chat message s.actions).0 ≡ some reply
      → (o : Result RunError Run) → new_run fresh thread key message reply ≡ o
      → StartCase
  unfolding start
  start_new reply h c (err e) n = fails e h (ground arith)
  start_new reply h c (ok r) n = elim (Option-cases (lookup fresh s.runs)) [
    | inl free ↦ creates r reply h c n free (ground arith)
    | inr (old, there) ↦ fails run_id_conflict h (ground arith)
  ]

  pub start_cases : StartCase
  unfolding start
  start_cases = elim (Option-cases (lookup (thread, key) s.index)) [
    | inr (i, h) ↦ elim (Option-cases (lookup i s.runs)) [
      | inl l ↦ lost i h l (ground arith)
      | inr (r, l) ↦ start_found i r h l
    ]
    | inl h ↦ elim (Option-cases (chat message s.actions).0) [
      | inl c ↦ fails chat_failed h (ground arith)
      | inr (reply, c) ↦ start_new reply h c (new_run fresh thread key message reply) refl
    ]
  ]

module _ (fresh thread key message : String) (chat : ChatRunner) (s : RunStore) where
  start_replays :
      {i : String} {r : Run}
      → lookup (thread, key) s.index ≡ some i
      → lookup i s.runs ≡ some r
      → r.user_message ≡ message
      → start fresh thread key message chat s ≡ (ok r, s)
  unfolding start
  start_replays {r = r} h l e = ground (arith, eq_iff r.user_message message)

  start_conflicts :
      {i : String} {r : Run}
      → lookup (thread, key) s.index ≡ some i
      → lookup i s.runs ≡ some r
      → r.user_message ≢ message
      → start fresh thread key message chat s ≡ (err idempotency_conflict, s)
  unfolding start
  start_conflicts {r = r} h l e = ground (arith, eq_iff r.user_message message)

module _ (fresh thread key message : String) (chat : ChatRunner) (s : RunStore) where
  -- The run that a start returns is stored, under the key and by the message that were given.
  start_stores :
      {r : Run}
      → (start fresh thread key message chat s).0 ≡ ok r
      → let s' = (start fresh thread key message chat s).1 in
        (i : String) × (lookup (thread, key) s'.index ≡ some i)
        × (lookup i s'.runs ≡ some r)
        × (r.user_message ≡ message)
  start_stores {r} h = elim (start_cases fresh thread key message chat s) [
    | replays i x l k m eq ↦ rw eq (i, l, cc, cc)
    | conflicts i x l k m eq ↦ cc
    | lost i l k eq ↦ cc
    | fails e l eq ↦ cc
    | creates x reply l c n free eq ↦
        let same : x ≡ r = cc in
        rw (eq, same)
          (
            fresh,
            lookup-insert_self (thread, key) fresh s.index,
            lookup-insert_self fresh r s.runs,
            cc ((new_run-IsNewRun fresh thread key message reply n).user_message, same),
          )
  ]

  -- Once a start has returned a run, starting again with the same session, key and message returns
  -- the same run and changes nothing; the chat runner is not called, whichever it is.
  pub start_idempotent :
      {r : Run}
      → (start fresh thread key message chat s).0 ≡ ok r
      → (fresh' : String) (chat' : ChatRunner)
      → let s' = (start fresh thread key message chat s).1 in
        start fresh' thread key message chat' s' ≡ (ok r, s')
  start_idempotent h fresh' chat' =
      let (i, l, k, m) = start_stores h in
      start_replays fresh' thread key message chat' (start fresh thread key message chat s).1 l k m

  -- Once a start has returned a run, starting with the same session and key but another message is
  -- refused as a conflict, and changes nothing.
  pub start_conflict :
      {r : Run}
      → (start fresh thread key message chat s).0 ≡ ok r
      → (fresh' other_message : String) (chat' : ChatRunner) → other_message ≢ message
      → let s' = (start fresh thread key message chat s).1 in
        start fresh' thread key other_message chat' s' ≡ (err idempotency_conflict, s')
  start_conflict h fresh' other_message chat' differs =
      let (i, l, k, m) = start_stores h in
      start_conflicts fresh' thread key other_message chat'
        (start fresh thread key message chat s).1 l k (λ e. differs (sym e ∙ m))

  -- A start that raises stores no run and no key: only what the chat runner did to the action store
  -- remains.
  pub start_failed :
      {e : RunError}
      → (start fresh thread key message chat s).0 ≡ err e
      → let s' = (start fresh thread key message chat s).1 in
        (s'.runs ≡ s.runs) × (s'.index ≡ s.index)
  start_failed h = elim (start_cases fresh thread key message chat s) [
    | replays i x l k m eq ↦ cc
    | conflicts i x l k m eq ↦ rw eq (refl, refl)
    | lost i l k eq ↦ rw eq (refl, refl)
    | fails e l eq ↦ rw eq (refl, refl)
    | creates x reply l c n free eq ↦ cc
  ]
