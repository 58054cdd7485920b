-- ===== src/Runs/Checkpoint/Fields.antt =====
-- What the checkpoint of a new run holds.
use opspilot_agent_platform.Prelude.{String, ◌≡◌, Option, none, some, arith, text_eq}
use opspilot_agent_platform.Prelude.Exec.{ok}
use opspilot_agent_platform.Runs.Checkpoint.{
  RunStatus, waiting_confirmation, completed, run_cancelled, ToolResult, nothing, fields, rows, Run,
  ChatReply, new_run, checked_texts, pending_of, text_result,
}

-- A run waits exactly if it has an action to confirm, and never starts out cancelled.
abbrev pub StatusFits : RunStatus → Option String → Type 0
StatusFits waiting_confirmation (some _) = Unit
StatusFits waiting_confirmation none = ⊥
StatusFits completed _ = Unit
StatusFits run_cancelled (some _) = Unit
StatusFits run_cancelled none = ⊥

pub record IsNewRun (fresh thread key message : String) (r : Run) : Type 0 where
  pub run_id : r.run_id ≡ fresh
  pub thread_id : r.thread_id ≡ thread
  pub idempotency_key : r.idempotency_key ≡ key
  pub user_message : r.user_message ≡ message
  pub version : r.version ≡ 1
  pub status : StatusFits r.status r.pending_action_id

pending_of-fits :
    (name : String) (t : ToolResult) {o : Option String} {st : RunStatus}
    → pending_of name t ≡ ok (o, st)
    → StatusFits st o
unfolding pending_of
pending_of-fits name nothing h = ground arith
pending_of-fits name rows h = ground arith
pending_of-fits name (fields d) h = ground arith

-- The reply's texts, the action and the result of a run that was built.
pub new_run_parts :
    (fresh thread key message : String) (reply : ChatReply) {r : Run}
    → new_run fresh thread key message reply ≡ ok r
    → (checked_texts reply.tool_name reply.answer ≡ ok (r.tool_name, r.answer))
      × (pending_of r.tool_name reply.tool_result ≡ ok (r.pending_action_id, r.status))
      × (text_result reply.tool_result ≡ some r.tool_result)
unfolding new_run
new_run_parts fresh thread key message reply {r} h = ground arith

pub new_run-IsNewRun :
    (fresh thread key message : String) (reply : ChatReply) {r : Run}
    → new_run fresh thread key message reply ≡ ok r
    → IsNewRun fresh thread key message r
unfolding new_run
new_run-IsNewRun fresh thread key message reply {r} h =
    let parts = new_run_parts fresh thread key message reply h in
    record {
      run_id = ground arith;
      thread_id = ground arith;
      idempotency_key = ground arith;
      user_message = ground arith;
      version = ground arith;
      status = pending_of-fits r.tool_name reply.tool_result parts.1;
    }
