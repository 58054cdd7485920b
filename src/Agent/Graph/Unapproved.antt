-- ===== src/Agent/Graph/Unapproved.antt =====
-- Without the user's approval no node runs that writes a ticket or creates a return application.
use opspilot_agent_platform.Prelude.{ℕ, String, Bool, Option, List, text_eq}
use opspilot_agent_platform.Prelude.Exec.{Preserves}
use opspilot_agent_platform.Evidence.{Evidence}
use opspilot_agent_platform.Agent.State.{Mode, Message, State, Services, Rules, ReasonCode}
use opspilot_agent_platform.Agent.Model.{call_model_node}
use opspilot_agent_platform.Agent.Read.{read_tool_node}
use opspilot_agent_platform.Agent.Read.Worlds.{read_tool-Preserves}
use opspilot_agent_platform.Agent.Writes.{
  Resume, prepare_return_draft_node, finish_reason_collection_node, cancel_return_node,
  propose_change_node, cancel_change_node,
}
use opspilot_agent_platform.Agent.Graph.{
  Node, call_model, read_tool, prepare_return_draft, ask_return_reason, finish_reason_collection,
  await_return_confirmation, execute_return, cancel_return, propose_change, await_approval,
  execute_change, cancel_change, end, run_node, run,
}
use opspilot_agent_platform.Agent.Graph.Edges.{Executes, Approves, step-waits}
use opspilot_agent_platform.Agent.Graph.Worlds.{
  call_model-Preserves, prepare-Preserves, finish-Preserves, cancel_return-Preserves,
  propose-Preserves, cancel_change-Preserves, plain-Preserves, run-keeps,
}

-- A property of the world that every service keeps but the two that execute a confirmed write.
pub record KeptUntilConfirmed {World : Type 0} (P : World → Type 0) (services : Services World)
    : Type 0 where
  pub request : (m : Mode) (ms : List Message) (b : Bool) → Preserves P (services.request m ms b)
  pub run_tool : (name arguments : String) → Preserves P (services.run_tool name arguments)
  pub review : (q : String) (es : List Evidence) → Preserves P (services.review q es)
  pub propose : (ticket_id p : String) → Preserves P (services.propose ticket_id p)
  pub cancel : (action_id : String) → Preserves P (services.cancel action_id)
  pub start_draft : (order_id : String) → Preserves P (services.start_draft order_id)
  pub submit_reason :
      (order_id draft_id text : String) (c : ReasonCode)
      → Preserves P (services.submit_reason order_id draft_id text c)
  pub cancel_draft :
      (order_id draft_id : String) → Preserves P (services.cancel_draft order_id draft_id)

module _ {World : Type 0} (P : World → Type 0) (rules : Rules) (services : Services World)
    (kept : KeptUntilConfirmed P services) where
  run_node-Preserves :
      (n : Node) (r : Option Resume) (s : State)
      → (Executes n → ⊥)
      → Preserves P (run_node rules services n r s)
  unfolding run_node
  run_node-Preserves call_model r s x w h =
      plain-Preserves P rules services (call_model_node rules services) s
        (call_model-Preserves P rules services kept.request s) w h
  run_node-Preserves read_tool r s x w h =
      plain-Preserves P rules services (read_tool_node rules services) s
        (read_tool-Preserves P rules services kept.review
          (λ name arguments enabled. kept.run_tool name arguments) s)
        w h
  run_node-Preserves prepare_return_draft r s x w h =
      plain-Preserves P rules services (prepare_return_draft_node rules services) s
        (prepare-Preserves P rules services kept.start_draft s) w h
  run_node-Preserves finish_reason_collection r s x w h =
      plain-Preserves P rules services (finish_reason_collection_node rules services) s
        (finish-Preserves P rules services kept.submit_reason s) w h
  run_node-Preserves cancel_return r s x w h =
      plain-Preserves P rules services (cancel_return_node rules services) s
        (cancel_return-Preserves P rules services kept.cancel_draft s) w h
  run_node-Preserves propose_change r s x w h =
      plain-Preserves P rules services (propose_change_node rules services) s
        (propose-Preserves P rules services kept.propose s) w h
  run_node-Preserves cancel_change r s x w h =
      plain-Preserves P rules services (cancel_change_node rules services) s
        (cancel_change-Preserves P rules services kept.cancel s) w h
  run_node-Preserves execute_return r s x w h = absurd (x tt)
  run_node-Preserves execute_change r s x w h = absurd (x tt)
  run_node-Preserves ask_return_reason r s x w h = h
  run_node-Preserves await_return_confirmation r s x w h = h
  run_node-Preserves await_approval r s x w h = h
  run_node-Preserves end r s x w h = h

  -- A run that is resumed with no approval, and does not start at a node that executes a write,
  -- keeps whatever only a confirmed write can change.
  pub run_unapproved :
      (fuel : ℕ) (n : Node) (r : Option Resume) (s : State) (w : World)
      → (Executes n → ⊥)
      → (Approves r → ⊥)
      → P w
      → P (run rules services fuel n r s w).1
  run_unapproved fuel n r s w x a h =
      run-keeps P rules services (λ n r. (Executes n → ⊥) × (Approves r → ⊥))
        (λ n r s g. run_node-Preserves n r s g.0)
        (λ n r s w n' s' g q. (step-waits rules services n r s w g.0 g.1 q, λ y. y)) fuel n r s w
        (x, a) h
