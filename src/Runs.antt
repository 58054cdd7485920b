-- ===== src/Runs.antt =====
-- checkpoint_store.py with checkpoint_models.py: the resumable agent runs. Each method holds the
-- store's lock, so it is one step here. The chat runner is an argument: it works on the action store
-- and returns a reply or raises; so are the identifiers that `id_factory` makes.
pub mod Checkpoint
pub mod Start
pub mod OrderReply
pub mod Resume
pub mod Outcome
pub mod Invariant
pub mod History
mod Tests
use Prim.Native.String.{◌++◌}
use opspilot_agent_platform.Prelude.{
  ℕ, ◌+◌, String, Bool, true, false, not, ◌&&◌, ◌||◌, Option, none, some, List, [], ◌∷◌, ◌==◌,
  text_eq, if◌then◌else◌,
}
use opspilot_agent_platform.Prelude.Text.{is_blank}
use opspilot_agent_platform.Prelude.Dict.{Dict, lookup, insert, is_some, pair_eq}
use opspilot_agent_platform.Prelude.Exec.{
  Result, Exec, ok, err, pure, raise, lift, gets, or_raise, modify, raise_if, ◌>>=◌, ◌>>◌,
}
use opspilot_agent_platform.Actions.{
  ActionStatus, pending, executed, cancelled, PendingAction, ActionError, ActionStore, ActionMethod,
  confirm_action, cancel_action,
}
use Checkpoint.{
  RunStatus, waiting_confirmation, completed, run_cancelled, Run, ChatReply, RunError,
  run_not_found, idempotency_conflict, no_pending_action, already_cancelled, already_completed,
  inconsistent, run_id_conflict, key_error, chat_failed, from_action, new_run,
}

pub record RunStore : Type 0 where
  pub runs : Dict String Run
  pub index : Dict (String × String) String
  pub actions : ActionStore

abbrev pub RunMethod : Type 0 → Type 0
RunMethod = Exec RunError RunStore

abbrev pub ChatRunner : Type 0
ChatRunner = String → ActionStore → Option ChatReply × ActionStore

run_chat : ChatRunner → String → RunMethod ChatReply
run_chat chat_runner message s =
    let (reply, actions) = chat_runner message s.actions in
    or_raise reply chat_failed (record s { actions = actions })

put_run : String → Run → RunStore → RunStore
put_run k r s = record s { runs = insert k r s.runs }

index_run : String × String → String → RunStore → RunStore
index_run key run_id s = record s { index = insert key run_id s.index }

-- A key that is in the index: the stored run, if it was started by the same message.
resume_start : String → String → RunMethod Run
resume_start run_id message = do
  existing ← or_raise (← gets (λ s. lookup run_id s.runs)) key_error
  raise_if (not (existing.user_message == message)) idempotency_conflict
  pure existing

first_start : String → String → String → String → ChatRunner → RunMethod Run
unfolding run_chat put_run index_run
first_start fresh thread_id idempotency_key message chat_runner = do
  reply ← run_chat chat_runner message
  run ← lift (new_run fresh thread_id idempotency_key message reply)
  raise_if (is_some (← gets (λ s. lookup fresh s.runs))) run_id_conflict
  modify (put_run fresh run)
  modify (index_run (thread_id, idempotency_key) fresh)
  pure run

start_at : Option String → String → String → String → String → ChatRunner → RunMethod Run
unfolding resume_start first_start
start_at (some run_id) fresh thread_id idempotency_key message chat_runner =
    resume_start run_id message
start_at none fresh thread_id idempotency_key message chat_runner =
    first_start fresh thread_id idempotency_key message chat_runner

-- `AgentRunStore.start`
unfoldable pub start : String → String → String → String → ChatRunner → RunMethod Run
unfolding start_at
start fresh thread_id idempotency_key message chat_runner = do
  found ← gets (λ s. lookup (thread_id, idempotency_key) s.index)
  start_at found fresh thread_id idempotency_key message chat_runner

-- `AgentRunStore.get`
pub get_run : String → RunMethod Run
get_run run_id = do or_raise (← gets (λ s. lookup run_id s.runs)) run_not_found

abbrev from_result : {A : Type 0} → Result ActionError A → Result RunError A
from_result (ok a) = ok a
from_result (err e) = err (from_action e)

-- A method of the action store, called under this store's lock.
abbrev on_actions : {A : Type 0} → ActionMethod A → RunMethod A
on_actions m s = let (r, actions) = m s.actions in (from_result r, record s { actions = actions })

status_text : ActionStatus → String
status_text pending = "pending"
status_text executed = "executed"
status_text cancelled = "cancelled"

-- `action.model_dump()`
dump_action : PendingAction → Dict String String
unfolding status_text
dump_action a =
    ("action_id", a.action_id)
    ∷ ("tool_name", a.tool_name)
    ∷ ("ticket_id", a.ticket_id)
    ∷ ("previous_priority", a.previous_priority)
    ∷ ("new_priority", a.new_priority)
    ∷ ("status", status_text a.status)
    ∷ []

confirmed_answer : PendingAction → String
confirmed_answer a =
    "[模拟恢复] 已确认操作 " ++ a.action_id ++ "；工单 " ++ a.ticket_id ++ " 的优先级已从 " ++ a.previous_priority
    ++ " 改为 " ++ a.new_priority ++ "。"

cancelled_answer : PendingAction → String
cancelled_answer a = "已取消操作 " ++ a.action_id ++ "；工单优先级未修改。"

pub completed_run : Run → PendingAction → Run
completed_run r a = record r {
  status = completed;
  tool_result = some (dump_action a);
  answer = confirmed_answer a;
  version = r.version + 1;
}

pub cancelled_run : Run → PendingAction → Run
cancelled_run r a = record r {
  status = run_cancelled;
  tool_result = some (dump_action a);
  answer = cancelled_answer a;
  version = r.version + 1;
}

confirm_at : String → RunStatus → Option String → Run → RunMethod Run
unfolding put_run
confirm_at run_id completed (some _) run = pure run
confirm_at run_id completed none run = raise no_pending_action
confirm_at run_id run_cancelled _ run = raise already_cancelled
confirm_at run_id waiting_confirmation none run = raise inconsistent
confirm_at run_id waiting_confirmation (some action_id) run = do
  action ← on_actions (confirm_action action_id)
  modify (put_run run_id (completed_run run action))
  pure (completed_run run action)

-- `AgentRunStore.confirm`
unfoldable pub confirm_run : String → RunMethod Run
unfolding get_run confirm_at
confirm_run run_id = do run ← get_run run_id; confirm_at run_id run.status run.pending_action_id run

cancel_at : String → RunStatus → Option String → Run → RunMethod Run
unfolding put_run
cancel_at run_id run_cancelled _ run = pure run
cancel_at run_id completed _ run = raise already_completed
cancel_at run_id waiting_confirmation none run = raise inconsistent
cancel_at run_id waiting_confirmation (some action_id) run = do
  action ← on_actions (cancel_action action_id)
  modify (put_run run_id (cancelled_run run action))
  pure (cancelled_run run action)

-- `AgentRunStore.cancel`
unfoldable pub cancel_run : String → RunMethod Run
unfolding get_run cancel_at
cancel_run run_id = do run ← get_run run_id; cancel_at run_id run.status run.pending_action_id run
