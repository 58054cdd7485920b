-- ===== src/Agent/Api/Approved.antt =====
-- An approval executes the write that was asked about, and only once.
use opspilot_agent_platform.Prelude.{
  String, ◌≡◌, refl, ◌∙◌, inl, inr, Bool, true, none, some, arith, eq_iff, text_eq,
}
use Prim.Native.String.{◌++◌}
use opspilot_agent_platform.Prelude.Dict.{lookup, insert, lookup-insert_self}
use opspilot_agent_platform.Prelude.Exec.{ok, err}
use opspilot_agent_platform.Actions.{PendingAction}
use opspilot_agent_platform.Agent.State.{State, Services, Rules, state_error, completed, action}
use opspilot_agent_platform.Agent.Policy.{state_tools_enabled, tool_is_enabled}
use opspilot_agent_platform.Agent.Writes.{approval, approve, execute_change_node}
use opspilot_agent_platform.Agent.Graph.{
  await_approval, execute_change, end, stopped, route, run_node, step, run, step_limit,
}
use opspilot_agent_platform.Agent.Graph.Terminates.{run_stops, run_goes}
use opspilot_agent_platform.Agent.Api.{
  Threads, checkpoint_id, invoke, owned_snapshot, is_owned, resume_agent_graph, resume_snapshot,
  to_response,
}

module _ {World : Type 0} (rules : Rules) (services : Services World) (s : State) (w w' : World)
    (action_id : String) (a : PendingAction)
    (enabled : tool_is_enabled rules.auth_required "request_priority_change" ≡ true)
    (asked : s.action_id ≡ some action_id)
    (confirms : services.confirm action_id w ≡ (ok a, w')) where
  -- The state after the approval, and after the write.
  abbrev approved_state : State
  approved_state = record s { approved = some true }

  step-await :
      step rules services await_approval (some (approval true)) s w
      ≡ (inr (execute_change, approved_state), w)
  unfolding step run_node approve route
  step-await = ground arith

  execute-confirms :
      (x : State)
      → (execute_change_node rules services approved_state w ≡ (ok x, w'))
      → step rules services execute_change none approved_state w ≡ (inr (end, x), w')
  unfolding step run_node route
  execute-confirms x h = ground arith

  executed_state : State
  executed_state = record approved_state {
    tool_result = action a;
    status = completed;
    answer = "已执行操作 " ++ (a.action_id ++ ("；工单优先级已改为 " ++ (a.new_priority ++ "。")));
  }

  execute-writes : execute_change_node rules services approved_state w ≡ (ok executed_state, w')
  unfolding execute_change_node executed_state
  execute-writes = ground arith

  step-end : step rules services end none executed_state w' ≡ (inl (stopped end executed_state), w')
  unfolding step run_node
  step-end = refl

  -- The run that an approval starts: the write, and the end.
  run-approved :
      run rules services step_limit await_approval (some (approval true)) s w
      ≡ (stopped end executed_state, w')
  run-approved =
      run_goes rules services 24 await_approval (some (approval true)) s w step-await
      ∙ run_goes rules services 23 execute_change none approved_state w
          (execute-confirms executed_state execute-writes)
      ∙ run_stops rules services 22 end none executed_state w' step-end

  fields-executed :
      (executed_state.status ≡ completed)
      × (executed_state.owner_user_id ≡ s.owner_user_id)
      × (executed_state.thread_id ≡ s.thread_id)
      × (executed_state.return_application ≡ s.return_application)
      × (state_tools_enabled rules.auth_required executed_state
          ≡ state_tools_enabled rules.auth_required s)
  unfolding executed_state state_tools_enabled
  fields-executed = (refl, refl, refl, refl, refl)

-- A thread of the user that waits for the approval of a change of priority.
pub record AwaitsApproval {World : Type 0} (rules : Rules) (user_id thread_id action_id : String)
    (s : State) (t : Threads World) : Type 0 where
  pub saved :
      lookup (checkpoint_id user_id thread_id) t.saved
      ≡ some (record { values = s; next = await_approval })
  pub owner : s.owner_user_id ≡ user_id
  pub thread : s.thread_id ≡ thread_id
  pub enabled : state_tools_enabled rules.auth_required s ≡ true
  pub change_enabled : tool_is_enabled rules.auth_required "request_priority_change" ≡ true
  pub asked : s.action_id ≡ some action_id
  pub no_return : s.return_application ≡ none

module _ {World : Type 0} (rules : Rules) (services : Services World)
    (user_id thread_id action_id : String) (s : State) (t : Threads World)
    (waits : AwaitsApproval rules user_id thread_id action_id s t) {a : PendingAction} {w' : World}
    (confirms : services.confirm action_id t.world ≡ (ok a, w')) where
  -- The thread afterwards.
  abbrev executed : State
  executed =
      executed_state rules services s t.world w' action_id a waits.change_enabled waits.asked
        confirms

  abbrev ended : Threads World
  ended = record {
    saved =
        insert (checkpoint_id user_id thread_id) (record { values = executed; next = end }) t.saved;
    world = w';
  }

  resume-executes :
      resume_agent_graph rules services user_id thread_id true t ≡ (ok executed, ended)
  unfolding resume_agent_graph owned_snapshot is_owned resume_snapshot invoke to_response
  resume-executes =
      let ran =
        run-approved rules services s t.world w' action_id a waits.change_enabled waits.asked
          confirms in
      let fs =
        fields-executed rules services s t.world w' action_id a waits.change_enabled waits.asked
          confirms in
      ground (
        arith,
        waits.saved,
        waits.owner,
        waits.thread,
        waits.enabled,
        waits.no_return,
        ran,
        fs,
        eq_iff s.owner_user_id user_id,
        eq_iff s.thread_id thread_id,
      )

  resume-ended :
      (approved : Bool)
      → resume_agent_graph rules services user_id thread_id approved ended
        ≡ (err state_error, ended)
  unfolding resume_agent_graph owned_snapshot is_owned resume_snapshot
  resume-ended approved =
      let key = checkpoint_id user_id thread_id in
      let fs =
        fields-executed rules services s t.world w' action_id a waits.change_enabled waits.asked
          confirms in
      ground (
        arith,
        lookup-insert_self key (record { values = executed; next = end }) t.saved,
        waits.owner,
        waits.thread,
        waits.enabled,
        waits.no_return,
        fs,
        eq_iff executed.owner_user_id user_id,
        eq_iff executed.thread_id thread_id,
      )

  -- An approval of a change that waits confirms its action once: it returns the completed state with
  -- the confirmed action, the world is as the confirmation left it, and any further approval or
  -- refusal of the thread is refused and changes nothing.
  pub approval_executes_once :
      (x : State) × (t' : Threads World) × (resume_agent_graph rules services user_id thread_id true
          t
        ≡ (ok x, t'))
      × (x.status ≡ completed)
      × (x.tool_result ≡ action a)
      × (t'.world ≡ w')
      × ((approved : Bool)
          → resume_agent_graph rules services user_id thread_id approved t' ≡ (err state_error, t'))
  unfolding executed_state
  approval_executes_once = (executed, ended, resume-executes, refl, refl, refl, resume-ended)
