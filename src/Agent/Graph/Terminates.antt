-- ===== src/Agent/Graph/Terminates.antt =====
-- The loop is never cut off by LangGraph's limit on steps.
use opspilot_agent_platform.Prelude.{
  ℕ, zero, suc, ◌+◌, ◌≤◌, ◌≡◌, refl, sym, ap, ◌∙◌, inl, inr, Option, none, arith,
}
use mathlib.Core.Logic.{◌⊎◌}
use opspilot_agent_platform.Prelude.Exec.{Result, ok, err}
use opspilot_agent_platform.Agent.State.{GraphError, State, Services, Rules}
use opspilot_agent_platform.Agent.Model.{call_model_node}
use opspilot_agent_platform.Agent.Model.Turns.{call_model_cases}
use opspilot_agent_platform.Agent.Read.{read_tool_node}
use opspilot_agent_platform.Agent.Read.Filing.{read_tool_node-IsRead}
use opspilot_agent_platform.Agent.Writes.{Resume}
use opspilot_agent_platform.Agent.Graph.{
  Node, call_model, read_tool, end, returns, Outcome, plain, run_node, route, step, run, step_limit,
}
use opspilot_agent_platform.Agent.Graph.Bounds.{
  measure, CountsTools, Shrinks, turn-Shrinks, read-Shrinks, writes-Shrinks, step_went,
}

module _ {World : Type 0} (rules : Rules) (services : Services World) where
  -- A node that is no waiting node returns the state that its body does.
  plain_returns :
      (node : State → World → Result GraphError State × World) (s : State) (w : World) {s' : State}
      → (plain rules services node s w).0 ≡ ok (returns s')
      → (node s w).0 ≡ ok s'
  unfolding plain
  plain_returns node s w {s'} h = go (node s w) refl
    where
      go : (e : Result GraphError State × World) → node s w ≡ e → (node s w).0 ≡ ok s'
      go (err e, w') q = ground arith
      go (ok x, w') q = ground arith

  step-Shrinks :
      (n : Node) (r : Option Resume) (s : State) (w : World) {n' : Node} {s' : State}
      → CountsTools n s
      → (step rules services n r s w).0 ≡ inr (n', s')
      → Shrinks n s n' s'
  unfolding run_node route
  step-Shrinks n r s w {n'} {s'} c h =
      let (ran, routed) = step_went rules services n r s w h in go n c ran routed
    where
      go :
          (n : Node)
          → CountsTools n s
          → (run_node rules services n r s w).0 ≡ ok (returns s')
          → route n s' ≡ ok n'
          → Shrinks n s n' s'
      go call_model c ran routed =
          turn-Shrinks s s' n' c
            (call_model_cases rules services s w
              (plain_returns (call_model_node rules services) s w ran))
            routed
      go read_tool c ran routed =
          read-Shrinks s s' n'
            (read_tool_node-IsRead rules services s w
              (plain_returns (read_tool_node rules services) s w ran))
            (ground arith)
      go end c ran routed = ground arith
      go n c ran routed =
          writes-Shrinks n s s' n' (λ e. ground arith) (λ e. ground arith) (λ e. ground arith)
            routed

  measure_pos : (n : Node) (s : State) → 1 ≤ measure n s
  unfolding measure
  measure_pos n s = go n
    where
      go : (n : Node) → 1 ≤ measure n s
      go call_model = omega arith
      go read_tool = omega arith
      go n = omega arith

  pub run_stops :
      (fuel : ℕ) (n : Node) (r : Option Resume) (s : State) (w : World) {o : Outcome} {w' : World}
      → step rules services n r s w ≡ (inl o, w')
      → run rules services (suc fuel) n r s w ≡ (o, w')
  unfolding run
  run_stops fuel n r s w q = ground arith

  pub run_goes :
      (fuel : ℕ) (n : Node) (r : Option Resume) (s : State) (w : World) {n' : Node} {s' : State}
      {w' : World}
      → step rules services n r s w ≡ (inr (n', s'), w')
      → run rules services (suc fuel) n r s w ≡ run rules services fuel n' none s' w'
  unfolding run
  run_goes fuel n r s w q = ground arith

  -- More steps than the measure change nothing about how a run ends.
  run_enough :
      (fuel more : ℕ) (n : Node) (r : Option Resume) (s : State) (w : World)
      → measure n s ≤ fuel
      → CountsTools n s
      → run rules services (fuel + more) n r s w ≡ run rules services fuel n r s w
  run_enough zero more n r s w l c = absurd (omega (arith, l, measure_pos n s))
  run_enough (suc fuel) more n r s w l c =
      go (λ n' s' w'. run_enough fuel more n' none s' w') (step rules services n r s w) refl
    where
      shift : suc fuel + more ≡ suc (fuel + more)
      shift = omega arith

      go :
          ((n' : Node) (s' : State) (w' : World)
            → measure n' s' ≤ fuel
            → CountsTools n' s'
            → run rules services (fuel + more) n' none s' w'
              ≡ run rules services fuel n' none s' w')
          → (o : (Outcome ⊎ (Node × State)) × World) → step rules services n r s w ≡ o
          → run rules services (suc fuel + more) n r s w ≡ run rules services (suc fuel) n r s w
      go rest (inl outcome, w') q =
          rw shift (run_stops (fuel + more) n r s w q ∙ sym (run_stops fuel n r s w q))
      go rest (inr (n', s'), w') q =
          let (l', c') = step-Shrinks n r s w c (ap (λ p. p.0) q) in
          rw shift (
            run_goes (fuel + more) n r s w q
            ∙ rest n' s' w' (omega (arith, l, l')) c'
            ∙ sym (run_goes fuel n r s w q))

  measure-le-limit : (n : Node) (s : State) → measure n s ≤ step_limit
  unfolding measure
  measure-le-limit n s = go n
    where
      go : (n : Node) → measure n s ≤ step_limit
      go call_model = omega arith
      go read_tool = omega arith
      go n = omega arith

-- No run of the graph is cut off by the limit of 25 steps, whatever the model answers and the
-- services return: from any node, resumed or not, a higher limit gives the same outcome and world.
-- It is assumed that no tool step is counted before `call_model` while the trace is empty.
pub run_within_limit :
    {World : Type 0} (rules : Rules) (services : Services World) (more : ℕ) (n : Node)
    (r : Option Resume) (s : State) (w : World)
    → CountsTools n s
    → run rules services (step_limit + more) n r s w ≡ run rules services step_limit n r s w
run_within_limit rules services more n r s w c =
    run_enough rules services step_limit more n r s w (measure-le-limit rules services n s) c
