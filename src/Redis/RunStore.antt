-- ===== src/Redis/RunStore.antt =====
-- `RedisAgentRunStore`. The chat runner is an argument, and so is the action store's codec.
use opspilot_agent_platform.Prelude.{String, not, Option, none, some, ◌==◌, text_eq}
use opspilot_agent_platform.Prelude.Exec.{
  ok, err, pure, raise, lift, gets, or_raise, modify, raise_if, ◌>>=◌, ◌>>◌,
}
use opspilot_agent_platform.Actions.{PendingAction}
use opspilot_agent_platform.Runs.{completed_run, cancelled_run}
use opspilot_agent_platform.Runs.Checkpoint.{
  RunStatus, waiting_confirmation, completed, run_cancelled, Run, ChatReply, run_not_found,
  idempotency_conflict, no_pending_action, already_cancelled, already_completed, inconsistent,
  validation_error, chat_failed, from_action, new_run,
}
use opspilot_agent_platform.Redis.Database.{
  Codec, Database, get_value, set_value, ActionMethod, RunMethod,
}
use opspilot_agent_platform.Redis.Keys.{run_key, idempotency_key}
use opspilot_agent_platform.Redis.ActionStore.{confirm_action, cancel_action}

abbrev pub ChatRunner : Type 0
ChatRunner = String → Database → Option ChatReply × Database

abbrev on_actions : {A : Type 0} → ActionMethod A → RunMethod A
on_actions m s =
    let (r, s') = m s in elim r [ ok a ↦ (ok a, s') | err e ↦ (err (from_action e), s') ]

module _ (namespace : String) (json : Codec Run) where
  save_run : Run → RunMethod (Unit {0})
  save_run r = modify (set_value (run_key namespace r.run_id) (json.encode r))

  unfoldable pub get_run : String → RunMethod Run
  get_run run_id = do
    raw ← or_raise (← gets (get_value (run_key namespace run_id))) run_not_found
    or_raise (json.decode raw) validation_error

  run_chat : ChatRunner → String → RunMethod ChatReply
  run_chat chat_runner message s =
      let (reply, s') = chat_runner message s in or_raise reply chat_failed s'

  resume_start : String → String → RunMethod Run
  unfolding get_run
  resume_start run_id message = do
    existing ← get_run run_id
    raise_if (not (existing.user_message == message)) idempotency_conflict
    pure existing

  -- The pipeline writes the run and the index entry together; a used identifier is not looked for.
  first_start : String → String → String → String → ChatRunner → RunMethod Run
  unfolding run_chat save_run
  first_start fresh thread_id key message chat_runner = do
    reply ← run_chat chat_runner message
    run ← lift (new_run fresh thread_id key message reply)
    save_run run
    modify (set_value (idempotency_key namespace thread_id key) run.run_id)
    pure run

  start_at : Option String → String → String → String → String → ChatRunner → RunMethod Run
  unfolding resume_start first_start
  start_at (some run_id) fresh thread_id key message chat_runner = resume_start run_id message
  start_at none fresh thread_id key message chat_runner =
      first_start fresh thread_id key message chat_runner

  unfoldable pub start : String → String → String → String → ChatRunner → RunMethod Run
  unfolding start_at
  start fresh thread_id key message chat_runner = do
    found ← gets (get_value (idempotency_key namespace thread_id key))
    start_at found fresh thread_id key message chat_runner

module _ (namespace : String) (action_json : Codec PendingAction) (json : Codec Run) where
  confirm_at : RunStatus → Option String → Run → RunMethod Run
  unfolding save_run
  confirm_at completed (some _) run = pure run
  confirm_at completed none run = raise no_pending_action
  confirm_at run_cancelled _ run = raise already_cancelled
  confirm_at waiting_confirmation none run = raise inconsistent
  confirm_at waiting_confirmation (some action_id) run = do
    action ← on_actions (confirm_action namespace action_json action_id)
    save_run namespace json (completed_run run action)
    pure (completed_run run action)

  unfoldable pub confirm_run : String → RunMethod Run
  unfolding get_run confirm_at
  confirm_run run_id = do
    run ← get_run namespace json run_id
    confirm_at run.status run.pending_action_id run

  cancel_at : RunStatus → Option String → Run → RunMethod Run
  unfolding save_run
  cancel_at run_cancelled _ run = pure run
  cancel_at completed _ run = raise already_completed
  cancel_at waiting_confirmation none run = raise inconsistent
  cancel_at waiting_confirmation (some action_id) run = do
    action ← on_actions (cancel_action namespace action_json action_id)
    save_run namespace json (cancelled_run run action)
    pure (cancelled_run run action)

  unfoldable pub cancel_run : String → RunMethod Run
  unfolding get_run cancel_at
  cancel_run run_id = do
    run ← get_run namespace json run_id
    cancel_at run.status run.pending_action_id run
