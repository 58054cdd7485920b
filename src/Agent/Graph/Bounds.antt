-- ===== src/Agent/Graph/Bounds.antt =====
-- The loop ends by itself: each step makes a measure smaller, which starts below LangGraph's limit.
use mathlib.Core.List.{◌++◌ as ◌+++◌}
use opspilot_agent_platform.Prelude.{
  ℕ, ◌+◌, ◌-◌, ◌*◌, ◌≤◌, ◌<◌, String, ◌≡◌, ◌≢◌, refl, sym, ap, ◌∙◌, inl, inr, Bool, true, false,
  ◌&&◌, Option, none, some, List, [], ◌∷◌, arith, text_eq, ◌==◌, Bool-cases, Option-cases,
}
use opspilot_agent_platform.Prelude.Exec.{Result, ok, err}
use opspilot_agent_platform.Agent.State.{
  Status, running, waiting_confirmation, waiting_reason, stale_confirmation, completed, cancelled,
  expired, GraphError, State, Services, Rules, TraceStep,
}
use opspilot_agent_platform.Agent.Policy.{max_tool_steps}
use opspilot_agent_platform.Agent.Model.Turns.{TurnCase, answers, retries, calls, direct}
use opspilot_agent_platform.Agent.Read.Filing.{IsRead}
use opspilot_agent_platform.Agent.Writes.{Resume}
use opspilot_agent_platform.Agent.Graph.{
  Node, call_model, read_tool, prepare_return_draft, ask_return_reason, finish_reason_collection,
  await_return_confirmation, execute_return, cancel_return, propose_change, await_approval,
  execute_change, cancel_change, end, Effect, returns, interrupts, run_node, route,
  route_after_model, route_after_read, route_after_draft, route_after_return_review, step,
  can_be_returned, to_reason,
}

-- How many steps are left at most.
unfoldable pub measure : Node → State → ℕ
measure call_model s = 7 + (2 * (max_tool_steps - s.tool_steps) + (1 - s.completion_retries))
measure read_tool s = 8 + (2 * (max_tool_steps - s.tool_steps) + (1 - s.completion_retries))
measure prepare_return_draft s = 6
measure ask_return_reason s = 5
measure finish_reason_collection s = 4
measure await_return_confirmation s = 3
measure execute_return s = 2
measure cancel_return s = 2
measure propose_change s = 5
measure await_approval s = 3
measure execute_change s = 2
measure cancel_change s = 2
measure end s = 1

-- While no tool has run, none has been counted.
abbrev pub CountsTools : Node → State → Type 0
CountsTools call_model s = s.tool_trace ≡ [] → s.tool_steps ≡ 0
CountsTools _ s = Unit

abbrev pub Shrinks : Node → State → Node → State → Type 0
Shrinks n s n' s' = (measure n' s' < measure n s) × CountsTools n' s'

-- A turn that calls for a tool goes on to a node that is near enough to the end.
to_tool-Shrinks :
    (s s' : State) (n' : Node)
    → s'.status ≡ running
    → s'.retry_model ≡ false
    → route_after_model s' ≡ ok n'
    → measure read_tool s' < measure call_model s
    → Shrinks call_model s n' s'
unfolding route_after_model measure
to_tool-Shrinks s s' n' e m r l = elim (Option-cases s'.tool_name) [
  | inl n ↦ ground arith
  | inr (name, n) ↦ elim (Bool-cases (name == "request_priority_change")) [
    | inl write ↦ let same : propose_change ≡ n' = ground arith in rw⁻¹ same (omega arith, tt)
    | inr otherwise ↦ let same : read_tool ≡ n' = ground arith in rw⁻¹ same (l, tt)
  ]
]

pub turn-Shrinks :
    (s s' : State) (n' : Node)
    → CountsTools call_model s
    → TurnCase s s'
    → route_after_model s' ≡ ok n'
    → Shrinks call_model s n' s'
unfolding route_after_model measure
turn-Shrinks s s' n' c (answers e) r =
    let same : end ≡ n' = ground arith in rw⁻¹ same (omega arith, tt)
turn-Shrinks s s' n' c (retries e m z o t tr) r =
    let same : call_model ≡ n' = ground arith in
    rw⁻¹ same (omega (arith, z, o, t), λ h. ground (arith, t, tr))
turn-Shrinks s s' n' c (calls e m l t o) r = to_tool-Shrinks s s' n' e m r (omega (arith, l, t, o))
turn-Shrinks s s' n' c (direct e m tr t o) r =
    let start : s.tool_steps ≡ 0 = c tr in
    to_tool-Shrinks s s' n' e m r (omega (arith, start, t, o))

-- After a tool has run there is a trace, and the next node is nearer to the end.
pub read-Shrinks :
    (s s' : State) (n' : Node) → IsRead s s' → route_after_read s' ≡ n' → Shrinks read_tool s n' s'
unfolding route_after_read measure
read-Shrinks s s' n' k r =
    elim (Bool-cases (s'.apply_requested && can_be_returned s'.return_decision)) [
      | inl applies ↦
          let same : prepare_return_draft ≡ n' = ground arith in rw⁻¹ same (omega arith, tt)
      | inr reads ↦ by_status s'.status refl reads
    ]
  where
    cons_ne : (ts : List TraceStep) (t : TraceStep) → (ts +++ (t ∷ [])) ≢ []
    cons_ne [] u h = ground arith
    cons_ne (t ∷ ts) u h = ground arith

    to_call_model : call_model ≡ n' → Shrinks read_tool s n' s'
    to_call_model same = rw⁻¹ same (
      omega (arith, k.steps, k.retries),
      λ h. absurd (cons_ne s.tool_trace k.last (sym k.trace ∙ h)),
    )

    by_status :
        (st : Status)
        → s'.status ≡ st
        → (s'.apply_requested && can_be_returned s'.return_decision) ≡ false
        → Shrinks read_tool s n' s'
    by_status completed e f = let same : end ≡ n' = ground arith in rw⁻¹ same (omega arith, tt)
    by_status running e f = to_call_model (ground arith)
    by_status waiting_confirmation e f = to_call_model (ground arith)
    by_status waiting_reason e f = to_call_model (ground arith)
    by_status stale_confirmation e f = to_call_model (ground arith)
    by_status cancelled e f = to_call_model (ground arith)
    by_status expired e f = to_call_model (ground arith)

-- Where a draft, and a reviewed reason, lead.
to_reason-near :
    (o : Option String) (s : State) → (measure (to_reason o) s ≤ 5) × CountsTools (to_reason o) s
unfolding to_reason measure
to_reason-near none s = (omega arith, tt)
to_reason-near (some _) s = (omega arith, tt)

after_draft-near :
    (s : State) (n : Node) → route_after_draft s ≡ n → (measure n s ≤ 5) × CountsTools n s
unfolding route_after_draft measure
after_draft-near s n r = go s.status refl
  where
    asks : to_reason s.return_reason ≡ n → (measure n s ≤ 5) × CountsTools n s
    asks same = rw⁻¹ same (to_reason-near s.return_reason s)

    go : (st : Status) → s.status ≡ st → (measure n s ≤ 5) × CountsTools n s
    go expired e = let same : end ≡ n = ground arith in rw⁻¹ same (omega arith, tt)
    go waiting_confirmation e =
        let same : await_return_confirmation ≡ n = ground arith in rw⁻¹ same (omega arith, tt)
    go running e = asks (ground arith)
    go waiting_reason e = asks (ground arith)
    go stale_confirmation e = asks (ground arith)
    go completed e = asks (ground arith)
    go cancelled e = asks (ground arith)

after_review-near :
    (s : State) (n : Node) → route_after_return_review s ≡ n → (measure n s ≤ 3) × CountsTools n s
unfolding route_after_return_review measure
after_review-near s n r = go s.status refl
  where
    ends : end ≡ n → (measure n s ≤ 3) × CountsTools n s
    ends same = rw⁻¹ same (omega arith, tt)

    go : (st : Status) → s.status ≡ st → (measure n s ≤ 3) × CountsTools n s
    go waiting_confirmation e =
        let same : await_return_confirmation ≡ n = ground arith in rw⁻¹ same (omega arith, tt)
    go running e = ends (ground arith)
    go waiting_reason e = ends (ground arith)
    go stale_confirmation e = ends (ground arith)
    go completed e = ends (ground arith)
    go cancelled e = ends (ground arith)
    go expired e = ends (ground arith)

-- The edges out of the nodes after the model's part lead nearer to the end, whatever the state.
pub writes-Shrinks :
    (n : Node) (s s' : State) (n' : Node)
    → n ≢ call_model
    → n ≢ read_tool
    → n ≢ end
    → route n s' ≡ ok n'
    → Shrinks n s n' s'
unfolding route measure route_after_draft route_after_return_review
writes-Shrinks call_model s s' n' a b c r = absurd (a refl)
writes-Shrinks read_tool s s' n' a b c r = absurd (b refl)
writes-Shrinks end s s' n' a b c r = absurd (c refl)
writes-Shrinks ask_return_reason s s' n' a b c r =
    let same : finish_reason_collection ≡ n' = ground arith in rw⁻¹ same (omega arith, tt)
writes-Shrinks propose_change s s' n' a b c r =
    let same : await_approval ≡ n' = ground arith in rw⁻¹ same (omega arith, tt)
writes-Shrinks execute_return s s' n' a b c r =
    let same : end ≡ n' = ground arith in rw⁻¹ same (omega arith, tt)
writes-Shrinks cancel_return s s' n' a b c r =
    let same : end ≡ n' = ground arith in rw⁻¹ same (omega arith, tt)
writes-Shrinks execute_change s s' n' a b c r =
    let same : end ≡ n' = ground arith in rw⁻¹ same (omega arith, tt)
writes-Shrinks cancel_change s s' n' a b c r =
    let same : end ≡ n' = ground arith in rw⁻¹ same (omega arith, tt)
writes-Shrinks await_approval s s' n' a b c r = go s'.approved refl
  where
    go : (o : Option Bool) → s'.approved ≡ o → Shrinks await_approval s n' s'
    go none e = ground arith
    go (some true) e = let same : execute_change ≡ n' = ground arith in rw⁻¹ same (omega arith, tt)
    go (some false) e = let same : cancel_change ≡ n' = ground arith in rw⁻¹ same (omega arith, tt)
writes-Shrinks await_return_confirmation s s' n' a b c r = go s'.approved refl
  where
    go : (o : Option Bool) → s'.approved ≡ o → Shrinks await_return_confirmation s n' s'
    go none e = ground arith
    go (some true) e = let same : execute_return ≡ n' = ground arith in rw⁻¹ same (omega arith, tt)
    go (some false) e = let same : cancel_return ≡ n' = ground arith in rw⁻¹ same (omega arith, tt)
writes-Shrinks prepare_return_draft s s' n' a b c r =
    let (l, k) = after_draft-near s' n' (ground arith) in (omega (arith, l), k)
writes-Shrinks finish_reason_collection s s' n' a b c r =
    let (l, k) = after_review-near s' n' (ground arith) in (omega (arith, l), k)

-- A step that goes on has run its node, and follows the edge out of it.
pub step_went :
    {World : Type 0} (rules : Rules) (services : Services World) (n : Node) (r : Option Resume)
    (s : State) (w : World) {n' : Node} {s' : State}
    → (step rules services n r s w).0 ≡ inr (n', s')
    → ((run_node rules services n r s w).0 ≡ ok (returns s')) × (route n s' ≡ ok n')
unfolding step
step_went {World} rules services n r s w {n'} {s'} h = go (run_node rules services n r s w) refl
  where
    at_route :
        (x : State) (w' : World)
        → run_node rules services n r s w ≡ (ok (returns x), w')
        → (o : Result GraphError Node) → route n x ≡ o
        → ((run_node rules services n r s w).0 ≡ ok (returns s')) × (route n s' ≡ ok n')
    at_route x w' q (err e) k = ground arith
    at_route x w' q (ok m) k =
        let same : x ≡ s' = ground arith in
        let next : m ≡ n' = ground arith in rw⁻¹ (same, next) (ap (λ p. p.0) q, k)

    go :
        (e : Result GraphError Effect × World)
        → run_node rules services n r s w ≡ e
        → ((run_node rules services n r s w).0 ≡ ok (returns s')) × (route n s' ≡ ok n')
    go (err e, w') q = ground arith
    go (ok interrupts, w') q = ground arith
    go (ok (returns x), w') q = at_route x w' q (route n x) refl
