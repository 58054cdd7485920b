-- ===== src/Agent/Graph/Legacy.antt =====
-- With accounts required no node of the graph calls the tools of the tickets.
use opspilot_agent_platform.Prelude.{ℕ, String, ◌≡◌, Bool, true, Option, List, arith, text_eq}
use opspilot_agent_platform.Prelude.Exec.{Preserves}
use opspilot_agent_platform.Evidence.{Evidence}
use opspilot_agent_platform.Agent.State.{Mode, Message, State, Services, Rules, ReasonCode}
use opspilot_agent_platform.Agent.Policy.{tool_is_enabled}
use opspilot_agent_platform.Agent.Model.{call_model_node}
use opspilot_agent_platform.Agent.Read.{read_tool_node}
use opspilot_agent_platform.Agent.Read.Worlds.{read_tool-Preserves}
use opspilot_agent_platform.Agent.Writes.{
  Resume, prepare_return_draft_node, finish_reason_collection_node, execute_return_node,
  cancel_return_node, propose_change_node, execute_change_node, cancel_change_node,
}
use opspilot_agent_platform.Agent.Graph.{
  Node, call_model, read_tool, prepare_return_draft, ask_return_reason, finish_reason_collection,
  await_return_confirmation, execute_return, cancel_return, propose_change, await_approval,
  execute_change, cancel_change, end, run_node, run,
}
use opspilot_agent_platform.Agent.Graph.Worlds.{
  call_model-Preserves, prepare-Preserves, finish-Preserves, cancel_return-Preserves,
  execute_return-Preserves, plain-Preserves, run-keeps,
}

-- A property of the world that every service keeps but those of the tickets: proposing, confirming
-- and cancelling a change, and running a tool that is not enabled for accounts.
pub record KeptWithoutTickets {World : Type 0} (P : World → Type 0) (services : Services World)
    : Type 0 where
  pub request : (m : Mode) (ms : List Message) (b : Bool) → Preserves P (services.request m ms b)
  pub run_tool :
      (name arguments : String)
      → tool_is_enabled true name ≡ true
      → Preserves P (services.run_tool name arguments)
  pub review : (q : String) (es : List Evidence) → Preserves P (services.review q es)
  pub start_draft : (order_id : String) → Preserves P (services.start_draft order_id)
  pub submit_reason :
      (order_id draft_id text : String) (c : ReasonCode)
      → Preserves P (services.submit_reason order_id draft_id text c)
  pub confirm_draft :
      (order_id draft_id : String) → Preserves P (services.confirm_draft order_id draft_id)
  pub cancel_draft :
      (order_id draft_id : String) → Preserves P (services.cancel_draft order_id draft_id)

module _ {World : Type 0} (P : World → Type 0) (rules : Rules) (services : Services World)
    (required : rules.auth_required ≡ true) where
  propose_change-disabled : (s : State) → Preserves P (propose_change_node rules services s)
  unfolding propose_change_node tool_is_enabled
  propose_change-disabled s w h = ground arith

  execute_change-disabled : (s : State) → Preserves P (execute_change_node rules services s)
  unfolding execute_change_node tool_is_enabled
  execute_change-disabled s w h = ground arith

  cancel_change-disabled : (s : State) → Preserves P (cancel_change_node rules services s)
  unfolding cancel_change_node tool_is_enabled
  cancel_change-disabled s w h = ground arith

module _ {World : Type 0} (P : World → Type 0) (rules : Rules) (services : Services World)
    (required : rules.auth_required ≡ true) (kept : KeptWithoutTickets P services) where
  runs_enabled :
      (name arguments : String)
      → tool_is_enabled rules.auth_required name ≡ true
      → Preserves P (services.run_tool name arguments)
  runs_enabled name arguments enabled = kept.run_tool name arguments cc

  node-Preserves :
      (n : Node) (r : Option Resume) (s : State) → Preserves P (run_node rules services n r s)
  unfolding run_node
  node-Preserves call_model r s w h =
      plain-Preserves P rules services (call_model_node rules services) s
        (call_model-Preserves P rules services kept.request s) w h
  node-Preserves read_tool r s w h =
      plain-Preserves P rules services (read_tool_node rules services) s
        (read_tool-Preserves P rules services kept.review runs_enabled s) w h
  node-Preserves prepare_return_draft r s w h =
      plain-Preserves P rules services (prepare_return_draft_node rules services) s
        (prepare-Preserves P rules services kept.start_draft s) w h
  node-Preserves finish_reason_collection r s w h =
      plain-Preserves P rules services (finish_reason_collection_node rules services) s
        (finish-Preserves P rules services kept.submit_reason s) w h
  node-Preserves cancel_return r s w h =
      plain-Preserves P rules services (cancel_return_node rules services) s
        (cancel_return-Preserves P rules services kept.cancel_draft s) w h
  node-Preserves execute_return r s w h =
      plain-Preserves P rules services (execute_return_node rules services) s
        (execute_return-Preserves P rules services kept.confirm_draft s) w h
  node-Preserves propose_change r s w h =
      plain-Preserves P rules services (propose_change_node rules services) s
        (propose_change-disabled P rules services required s) w h
  node-Preserves execute_change r s w h =
      plain-Preserves P rules services (execute_change_node rules services) s
        (execute_change-disabled P rules services required s) w h
  node-Preserves cancel_change r s w h =
      plain-Preserves P rules services (cancel_change_node rules services) s
        (cancel_change-disabled P rules services required s) w h
  node-Preserves ask_return_reason r s w h = h
  node-Preserves await_return_confirmation r s w h = h
  node-Preserves await_approval r s w h = h
  node-Preserves end r s w h = h

  -- With accounts required, a run from any node, resumed with any answer, keeps whatever no service
  -- can change but proposing, confirming and cancelling a change of a ticket's priority, and running
  -- a tool that is not enabled.
  pub run_without_tickets :
      (fuel : ℕ) (n : Node) (r : Option Resume) (s : State) (w : World)
      → P w
      → P (run rules services fuel n r s w).1
  run_without_tickets fuel n r s w h =
      run-keeps P rules services (λ n r. Unit) (λ n r s g. node-Preserves n r s)
        (λ n r s w n' s' g q. tt) fuel n r s w tt h
