-- ===== src/Agent/Graph/Worlds.antt =====
-- What the nodes and the runs of the graph can do to the world, by the services that they call.
use opspilot_agent_platform.Prelude.{
  ℕ, zero, suc, String, ◌≡◌, refl, ap, inl, inr, Bool, Option, none, List, arith, text_eq,
  Option-cases, ltb,
}
use mathlib.Core.Logic.{◌⊎◌}
use opspilot_agent_platform.Prelude.Exec.{Exec, Preserves}
use opspilot_agent_platform.Agent.State.{
  Mode, Message, GraphError, State, Services, Rules, ReasonCode,
}
use opspilot_agent_platform.Agent.Policy.{max_tool_steps}
use opspilot_agent_platform.Agent.Model.{call_model_node}
use opspilot_agent_platform.Agent.Writes.{
  Resume, prepare_return_draft_node, finish_reason_collection_node, cancel_return_node,
  execute_return_node, propose_change_node, cancel_change_node,
}
use opspilot_agent_platform.Agent.Graph.{Node, Outcome, plain, run_node, step, run}
use opspilot_agent_platform.Agent.Graph.Terminates.{run_stops, run_goes}

module _ {World : Type 0} (P : World → Type 0) (rules : Rules) (services : Services World) where
  pub call_model-Preserves :
      ((m : Mode) (ms : List Message) (b : Bool) → Preserves P (services.request m ms b))
      → (s : State) → Preserves P (call_model_node rules services s)
  unfolding call_model_node
  call_model-Preserves asks s w h =
      ground (arith, asks s.mode s.messages (ltb s.tool_steps max_tool_steps) w h)

  pub prepare-Preserves :
      ((order_id : String) → Preserves P (services.start_draft order_id))
      → (s : State) → Preserves P (prepare_return_draft_node rules services s)
  unfolding prepare_return_draft_node
  prepare-Preserves starts s w h = elim (Option-cases s.order_id) [
    | inl n ↦ ground arith
    | inr (order_id, n) ↦ ground (arith, starts order_id w h)
  ]

  pub finish-Preserves :
      ((order_id draft_id text : String) (c : ReasonCode)
        → Preserves P (services.submit_reason order_id draft_id text c))
      → (s : State) → Preserves P (finish_reason_collection_node rules services s)
  unfolding finish_reason_collection_node
  finish-Preserves submits s w h = elim (Option-cases s.order_id) [
    | inl n ↦ ground arith
    | inr (order_id, n) ↦ elim (Option-cases s.return_draft) [
      | inl d ↦ ground arith
      | inr (draft, d) ↦ elim (Option-cases s.return_reason) [
        | inl t ↦ ground arith
        | inr (text, t) ↦ ground (arith, submits order_id draft.draft_id text s.reason_code w h)
      ]
    ]
  ]

  pub cancel_return-Preserves :
      ((order_id draft_id : String) → Preserves P (services.cancel_draft order_id draft_id))
      → (s : State) → Preserves P (cancel_return_node rules services s)
  unfolding cancel_return_node
  cancel_return-Preserves cancels s w h = elim (Option-cases s.order_id) [
    | inl n ↦ ground arith
    | inr (order_id, n) ↦ elim (Option-cases s.return_draft) [
      | inl d ↦ ground arith
      | inr (draft, d) ↦ ground (arith, cancels order_id draft.draft_id w h)
    ]
  ]

  pub propose-Preserves :
      ((ticket_id p : String) → Preserves P (services.propose ticket_id p))
      → (s : State) → Preserves P (propose_change_node rules services s)
  unfolding propose_change_node
  propose-Preserves proposes s w h = elim (Option-cases (rules.parse_change s.arguments_json)) [
    | inl n ↦ ground arith
    | inr ((ticket_id, p), n) ↦ elim (Option-cases s.tool_name) [
      | inl m ↦ ground arith
      | inr (name, m) ↦ ground (arith, proposes ticket_id p w h)
    ]
  ]

  pub cancel_change-Preserves :
      ((action_id : String) → Preserves P (services.cancel action_id))
      → (s : State) → Preserves P (cancel_change_node rules services s)
  unfolding cancel_change_node
  cancel_change-Preserves drops s w h = elim (Option-cases s.action_id) [
    | inl n ↦ ground arith
    | inr (action_id, n) ↦ ground (arith, drops action_id w h)
  ]

  pub plain-Preserves :
      (node : State → Exec GraphError World State) (s : State)
      → Preserves P (node s)
      → Preserves P (plain rules services node s)
  unfolding plain
  plain-Preserves node s k w h = ground (arith, k w h)

  pub execute_return-Preserves :
      ((order_id draft_id : String) → Preserves P (services.confirm_draft order_id draft_id))
      → (s : State) → Preserves P (execute_return_node rules services s)
  unfolding execute_return_node
  execute_return-Preserves confirms s w h = elim (Option-cases s.order_id) [
    | inl n ↦ ground arith
    | inr (order_id, n) ↦ elim (Option-cases s.return_draft) [
      | inl d ↦ ground arith
      | inr (draft, d) ↦ ground (arith, confirms order_id draft.draft_id w h)
    ]
  ]

  step-Preserves :
      (n : Node) (r : Option Resume) (s : State) (w : World)
      → Preserves P (run_node rules services n r s)
      → P w
      → P (step rules services n r s w).1
  unfolding step
  step-Preserves n r s w k h = ground (arith, k w h)

  run_out :
      (n : Node) (r : Option Resume) (s : State) (w : World)
      → P w
      → P (run rules services zero n r s w).1
  unfolding run
  run_out n r s w h = h

-- A run keeps a property if each of its nodes does, and the steps lead from such nodes to such nodes.
module _ {World : Type 0} (P : World → Type 0) (rules : Rules) (services : Services World)
    (Good : Node → Option Resume → Type 0)
    (keeps : (n : Node) (r : Option Resume) (s : State)
      → Good n r
      → Preserves P (run_node rules services n r s))
    (leads : (n : Node) (r : Option Resume) (s : State) (w : World) (n' : Node) (s' : State)
      → Good n r
      → (step rules services n r s w).0 ≡ inr (n', s')
      → Good n' none) where
  pub run-keeps :
      (fuel : ℕ) (n : Node) (r : Option Resume) (s : State) (w : World)
      → Good n r
      → P w
      → P (run rules services fuel n r s w).1
  run-keeps zero n r s w g h = run_out P rules services n r s w h
  run-keeps (suc fuel) n r s w g h =
      go (λ n' s' w' g' h'. run-keeps fuel n' none s' w' g' h') (step rules services n r s w) refl
        (step-Preserves P rules services n r s w (keeps n r s g) h)
    where
      go :
          ((n' : Node) (s' : State) (w' : World)
            → Good n' none
            → P w'
            → P (run rules services fuel n' none s' w').1)
          → (o : (Outcome ⊎ (Node × State)) × World) → step rules services n r s w ≡ o
          → P (step rules services n r s w).1
          → P (run rules services (suc fuel) n r s w).1
      go rest (inl outcome, w') q k =
          rw (run_stops rules services fuel n r s w q) (rw⁻¹ (ap (λ o. o.1) q) k)
      go rest (inr (n', s'), w') q k =
          rw (run_goes rules services fuel n r s w q)
            (rest n' s' w' (leads n r s w n' s' g (ap (λ o. o.0) q)) (rw⁻¹ (ap (λ o. o.1) q) k))
