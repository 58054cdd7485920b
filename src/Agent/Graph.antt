-- ===== src/Agent/Graph.antt =====
-- The edges of `build_agent_graph`, and LangGraph's loop as far as the code relies on it: nodes run
-- one after the other, each state is kept with the node that is next, a waiting node stops the loop
-- unless it was just resumed, and a loop has at most 25 steps.
pub mod Bounds
pub mod Terminates
pub mod Edges
pub mod Worlds
pub mod Unapproved
pub mod Legacy
use opspilot_agent_platform.Prelude.{
  ℕ, zero, suc, String, Bool, true, false, ◌&&◌, ◌⊎◌, inl, inr, Option, none, some, ◌==◌, text_eq,
  if◌then◌else◌,
}
use opspilot_agent_platform.Prelude.Exec.{Result, Exec, ok, err}
use opspilot_agent_platform.Agent.State.{
  Status, running, waiting_confirmation, waiting_reason, completed, expired, GraphError, key_error,
  recursion_limit, tool_disabled, Decision, no_reason_allowed, reason_required, not_allowed, State,
  Services, Rules,
}
use opspilot_agent_platform.Agent.Policy.{tool_is_enabled}
use opspilot_agent_platform.Agent.Model.{call_model_node}
use opspilot_agent_platform.Agent.Read.{read_tool_node}
use opspilot_agent_platform.Agent.Writes.{
  Resume, ask_return_reason_node, approve, prepare_return_draft_node, finish_reason_collection_node,
  execute_return_node, cancel_return_node, propose_change_node, execute_change_node,
  cancel_change_node,
}

pub data Node : Type 0 where
  call_model read_tool prepare_return_draft ask_return_reason finish_reason_collection : Node
  await_return_confirmation execute_return cancel_return : Node
  propose_change await_approval execute_change cancel_change end : Node

to_tool : Option String → Result GraphError Node
to_tool none = err key_error
to_tool (some name) = ok (if name == "request_priority_change" then propose_change else read_tool)

after_running : Bool → Option String → Result GraphError Node
unfolding to_tool
after_running true name = ok call_model
after_running false name = to_tool name

after_turn : Status → State → Result GraphError Node
unfolding after_running
after_turn completed s = ok end
after_turn _ s = after_running s.retry_model s.tool_name

unfoldable pub route_after_model : State → Result GraphError Node
unfolding after_turn
route_after_model s = after_turn s.status s

can_be_returned : Option Decision → Bool
can_be_returned (some no_reason_allowed) = true
can_be_returned (some reason_required) = true
can_be_returned _ = false

to_model : Status → Node
to_model completed = end
to_model _ = call_model

unfoldable pub route_after_read : State → Node
unfolding can_be_returned to_model
route_after_read s =
    if s.apply_requested && can_be_returned s.return_decision
    then prepare_return_draft
    else to_model s.status

to_reason : Option String → Node
to_reason none = ask_return_reason
to_reason (some _) = finish_reason_collection

after_draft : Status → State → Node
unfolding to_reason
after_draft expired s = end
after_draft waiting_confirmation s = await_return_confirmation
after_draft _ s = to_reason s.return_reason

unfoldable pub route_after_draft : State → Node
unfolding after_draft
route_after_draft s = after_draft s.status s

after_review : Status → Node
after_review waiting_confirmation = await_return_confirmation
after_review _ = end

unfoldable pub route_after_return_review : State → Node
unfolding after_review
route_after_return_review s = after_review s.status

-- The edge that a decision takes; a decision that is not there is a `KeyError`.
abbrev by_decision : Option Bool → Node → Node → Result GraphError Node
by_decision none yes_node no_node = err key_error
by_decision (some true) yes_node no_node = ok yes_node
by_decision (some false) yes_node no_node = ok no_node

-- The edge that leaves a node, in the state after it.
unfoldable pub route : Node → State → Result GraphError Node
route call_model s = route_after_model s
route read_tool s = ok (route_after_read s)
route prepare_return_draft s = ok (route_after_draft s)
route ask_return_reason s = ok finish_reason_collection
route finish_reason_collection s = ok (route_after_return_review s)
route await_return_confirmation s = by_decision s.approved execute_return cancel_return
route execute_return s = ok end
route cancel_return s = ok end
route propose_change s = ok await_approval
route await_approval s = by_decision s.approved execute_change cancel_change
route execute_change s = ok end
route cancel_change s = ok end
route end s = ok end

-- What a node makes of the state: a new state, or a stop until the user answers.
pub data Effect : Type 0 where
  returns : State → Effect
  interrupts : Effect

resumed :
    (Resume → State → Result GraphError State) → Option Resume → State → Result GraphError Effect
resumed node none s = ok interrupts
resumed node (some r) s = elim (node r s) [ err e ↦ err e | ok s' ↦ ok (returns s') ]

-- `StateSnapshot`: the values and the node that is next.
pub record Snapshot : Type 0 where
  pub values : State
  pub next : Node

-- How a loop ends: at the end or at an interrupt, or by an exception, and what is kept then.
pub record Outcome : Type 0 where
  pub snapshot : Snapshot
  pub raised : Option GraphError

abbrev pub stopped : Node → State → Outcome
stopped n s = record { snapshot = record { values = s; next = n }; raised = none }

abbrev pub failed : Node → State → GraphError → Outcome
failed n s e = record { snapshot = record { values = s; next = n }; raised = some e }

module _ {World : Type 0} (rules : Rules) (services : Services World) where
  pub plain : (State → Exec GraphError World State) → State → Exec GraphError World Effect
  plain node s w =
      let (r, w') = node s w in elim r [ err e ↦ (err e, w') | ok s' ↦ (ok (returns s'), w') ]

  require_tickets_first : Option Resume → State → Result GraphError Effect
  unfolding resumed
  require_tickets_first r s =
      if tool_is_enabled rules.auth_required "request_priority_change"
      then resumed approve r s
      else err tool_disabled

  -- The body of each node.
  unfoldable pub run_node : Node → Option Resume → State → Exec GraphError World Effect
  unfolding plain resumed require_tickets_first
  run_node call_model r s w = plain (call_model_node rules services) s w
  run_node read_tool r s w = plain (read_tool_node rules services) s w
  run_node prepare_return_draft r s w = plain (prepare_return_draft_node rules services) s w
  run_node ask_return_reason r s w = (resumed ask_return_reason_node r s, w)
  run_node finish_reason_collection r s w = plain (finish_reason_collection_node rules services) s w
  run_node await_return_confirmation r s w = (resumed approve r s, w)
  run_node execute_return r s w = plain (execute_return_node rules services) s w
  run_node cancel_return r s w = plain (cancel_return_node rules services) s w
  run_node propose_change r s w = plain (propose_change_node rules services) s w
  run_node await_approval r s w = (require_tickets_first r s, w)
  run_node execute_change r s w = plain (execute_change_node rules services) s w
  run_node cancel_change r s w = plain (cancel_change_node rules services) s w
  run_node end r s w = (ok interrupts, w)

  -- One step of the loop: the state after the node with the edge that leaves it, or a stop.
  unfoldable pub step : Node → Option Resume → State → World → (Outcome ⊎ (Node × State)) × World
  step n r s w =
      let (e, w') = run_node n r s w in
      elim e [
        | err e ↦ (inl (failed n s e), w')
        | ok interrupts ↦ (inl (stopped n s), w')
        | ok (returns s') ↦ elim (route n s') [
          | err e ↦ (inl (failed n s e), w')
          | ok n' ↦ (inr (n', s'), w')
        ]
      ]

  -- The loop, from a node with the answer that it was resumed with.
  unfoldable pub run : ℕ → Node → Option Resume → State → World → Outcome × World
  unfolding step
  run zero n r s w = (failed n s recursion_limit, w)
  run (suc fuel) n r s w =
      let (o, w') = step n r s w in
      elim o [ inl outcome ↦ (outcome, w') | inr (n', s') ↦ run fuel n' none s' w' ]

abbrev pub step_limit : ℕ
step_limit = 25
