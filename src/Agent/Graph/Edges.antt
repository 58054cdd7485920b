-- ===== src/Agent/Graph/Edges.antt =====
-- Only an approval leads to a node that executes a write.
use opspilot_agent_platform.Prelude.{
  String, ◌≡◌, inl, inr, Bool, true, false, Option, none, some, arith, ◌==◌, text_eq, Bool-cases,
  ◌&&◌, if◌then◌else◌,
}
use opspilot_agent_platform.Prelude.Exec.{Result, ok, err}
use opspilot_agent_platform.Agent.State.{
  Status, waiting_confirmation, completed, expired, GraphError, State, Services, Rules,
}
use opspilot_agent_platform.Agent.Writes.{Resume, approval, reason, approve}
use opspilot_agent_platform.Agent.Policy.{tool_is_enabled}
use opspilot_agent_platform.Agent.Graph.{
  Node, call_model, read_tool, prepare_return_draft, ask_return_reason, finish_reason_collection,
  await_return_confirmation, execute_return, cancel_return, propose_change, await_approval,
  execute_change, cancel_change, end, returns, resumed, run_node, route, route_after_model,
  route_after_read, route_after_draft, route_after_return_review, after_running, after_turn,
  after_draft, after_review, to_tool, to_reason, to_model, can_be_returned, step, by_decision,
  require_tickets_first,
}
use opspilot_agent_platform.Agent.Graph.Bounds.{step_went}

-- The nodes that execute what was confirmed, and the answer that confirms.
abbrev pub Executes : Node → Type 0
Executes execute_return = Unit
Executes execute_change = Unit
Executes _ = ⊥

abbrev pub Approves : Option Resume → Type 0
Approves (some (approval true)) = Unit
Approves _ = ⊥

-- An edge to a node that does not execute a write.
Waits : Result GraphError Node → Type 0
Waits (err e) = Unit
Waits (ok n) = Executes n → ⊥

after_running-Waits : (b : Bool) (name : Option String) → Waits (after_running b name)
unfolding Waits after_running to_tool
after_running-Waits true name = λ x. x
after_running-Waits false none = tt
after_running-Waits false (some name) = elim (Bool-cases (name == "request_priority_change")) [
  | inl write ↦ rw write (λ x. x)
  | inr otherwise ↦ rw otherwise (λ x. x)
]

after_turn-Waits : (st : Status) (s : State) → Waits (after_turn st s)
unfolding Waits after_turn
after_turn-Waits completed s = λ x. x
after_turn-Waits st s = after_running-Waits s.retry_model s.tool_name

to_model-Waits : (st : Status) → Waits (ok (to_model st))
unfolding Waits to_model
to_model-Waits completed = λ x. x
to_model-Waits st = λ x. x

after_read-Waits :
    (b : Bool) (st : Status) → Waits (ok (if b then prepare_return_draft else to_model st))
unfolding Waits
after_read-Waits true st = λ x. x
after_read-Waits false st = to_model-Waits st

to_reason-Waits : (o : Option String) → Waits (ok (to_reason o))
unfolding Waits to_reason
to_reason-Waits none = λ x. x
to_reason-Waits (some _) = λ x. x

after_draft-Waits : (st : Status) (s : State) → Waits (ok (after_draft st s))
unfolding Waits after_draft
after_draft-Waits expired s = λ x. x
after_draft-Waits waiting_confirmation s = λ x. x
after_draft-Waits st s = to_reason-Waits s.return_reason

after_review-Waits : (st : Status) → Waits (ok (after_review st))
unfolding Waits after_review
after_review-Waits waiting_confirmation = λ x. x
after_review-Waits st = λ x. x

-- A waiting node goes on only with a decision, which is not an approval here.
approve-Waits :
    (r : Option Resume) (s s' : State) (yes_node no_node : Node)
    → (Approves r → ⊥)
    → (Executes no_node → ⊥)
    → resumed approve r s ≡ ok (returns s')
    → Waits (by_decision s'.approved yes_node no_node)
unfolding resumed approve Waits
approve-Waits none s s' y n a x h = ground arith
approve-Waits (some (approval true)) s s' y n a x h = absurd (a tt)
approve-Waits (some (approval false)) s s' y n a x h =
    let denied : s'.approved ≡ some false = ground arith in rw denied x
approve-Waits (some (reason _ _)) s s' y n a x h = ground arith

route-Waits :
    {World : Type 0} (rules : Rules) (services : Services World) (n : Node) (r : Option Resume)
    (s : State) (w : World) {s' : State}
    → (Executes n → ⊥)
    → (Approves r → ⊥)
    → (run_node rules services n r s w).0 ≡ ok (returns s')
    → Waits (route n s')
unfolding route route_after_model route_after_read route_after_draft route_after_return_review
    run_node Waits require_tickets_first
route-Waits rules services call_model r s w {s'} x a h = after_turn-Waits s'.status s'
route-Waits rules services read_tool r s w {s'} x a h =
    after_read-Waits (s'.apply_requested && can_be_returned s'.return_decision) s'.status
route-Waits rules services prepare_return_draft r s w {s'} x a h = after_draft-Waits s'.status s'
route-Waits rules services ask_return_reason r s w x a h = λ y. y
route-Waits rules services finish_reason_collection r s w {s'} x a h = after_review-Waits s'.status
route-Waits rules services await_return_confirmation r s w {s'} x a h =
    approve-Waits r s s' execute_return cancel_return a (λ y. y) h
route-Waits rules services await_approval r s w {s'} x a h =
    elim (Bool-cases (tool_is_enabled rules.auth_required "request_priority_change")) [
      | inl enabled ↦ approve-Waits r s s' execute_change cancel_change a (λ y. y) (ground arith)
      | inr disabled ↦ ground arith
    ]
route-Waits rules services propose_change r s w x a h = λ y. y
route-Waits rules services cancel_return r s w x a h = λ y. y
route-Waits rules services cancel_change r s w x a h = λ y. y
route-Waits rules services execute_return r s w x a h = absurd (x tt)
route-Waits rules services execute_change r s w x a h = absurd (x tt)
route-Waits rules services end r s w x a h = λ y. y

-- A step that is resumed with no approval does not lead to a node that executes a write.
pub step-waits :
    {World : Type 0} (rules : Rules) (services : Services World) (n : Node) (r : Option Resume)
    (s : State) (w : World) {n' : Node} {s' : State}
    → (Executes n → ⊥)
    → (Approves r → ⊥)
    → (step rules services n r s w).0 ≡ inr (n', s')
    → Executes n'
    → ⊥
unfolding Waits
step-waits rules services n r s w {n'} {s'} x a h e =
    let (ran, routed) = step_went rules services n r s w h in
    go (route n s') (route-Waits rules services n r s w x a ran) routed e
  where
    go : (o : Result GraphError Node) → Waits o → o ≡ ok n' → Executes n' → ⊥
    go (err e) k q = ground arith
    go (ok m) k q = let same : m ≡ n' = ground arith in rw⁻¹ same k

-- A prepared draft waits for the user.
pub draft-waits : (s : State) (n : Node) → route prepare_return_draft s ≡ ok n → Executes n → ⊥
unfolding route route_after_draft Waits
draft-waits s n e =
    let same : after_draft s.status s ≡ n = ground arith in rw⁻¹ same (after_draft-Waits s.status s)
