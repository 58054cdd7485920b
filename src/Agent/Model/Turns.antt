-- ===== src/Agent/Model/Turns.antt =====
-- What one turn of the model can do to the counters that bound the loop.
use opspilot_agent_platform.Prelude.{
  ◌+◌, ◌<◌, String, ◌≡◌, refl, inl, inr, Bool, true, false, ◌&&◌, Option, none, some, List, [], ◌∷◌,
  arith, ltb, text_eq, ◌==◌, Bool-cases,
}
use opspilot_agent_platform.Prelude.Text.{is_blank}
use opspilot_agent_platform.Prelude.Exec.{Result, ok, err}
use opspilot_agent_platform.Agent.State.{
  Mode, mock, live, running, completed, GraphError, TraceStep, ModelReply, ToolCall, State,
  Services, Rules,
}
use opspilot_agent_platform.Agent.Policy.{
  max_tool_steps, state_tools_enabled, extract_tool_preview, call_id,
}
use opspilot_agent_platform.Agent.Model.{
  apply_reply, counted, call_turn, answer_turn, incomplete, answer_with, missing_tools,
  final_answer, turn, call_model_node, shortcut, first_turn, direct_query, direct_call,
}

-- The ways in which a turn leaves the state: done, to be asked once more, or with a tool to run.
pub data TurnCase (s s' : State) : Type 0 where
  answers : s'.status ≡ completed → TurnCase s s'
  retries :
      s'.status ≡ running
      → s'.retry_model ≡ true
      → s.completion_retries ≡ 0
      → s'.completion_retries ≡ 1
      → s'.tool_steps ≡ s.tool_steps
      → s'.tool_trace ≡ s.tool_trace
      → TurnCase s s'
  calls :
      s'.status ≡ running
      → s'.retry_model ≡ false
      → s.tool_steps < max_tool_steps
      → s'.tool_steps ≡ s.tool_steps + 1
      → s'.completion_retries ≡ s.completion_retries
      → TurnCase s s'
  direct :
      s'.status ≡ running
      → s'.retry_model ≡ false
      → s.tool_trace ≡ []
      → s'.tool_steps ≡ 1
      → s'.completion_retries ≡ s.completion_retries
      → TurnCase s s'

-- Counting a request leaves what the loop looks at.
record Counted (s c : State) : Type 0 where
  steps : c.tool_steps ≡ s.tool_steps
  retries : c.completion_retries ≡ s.completion_retries
  trace : c.tool_trace ≡ s.tool_trace
  again : c.retry_model ≡ false

counted-Counted : (reply : ModelReply) (s : State) → Counted s (counted reply s)
unfolding counted
counted-Counted reply s = record {
  steps = ground arith;
  retries = ground arith;
  trace = ground arith;
  again = ground arith;
}

module _ (rules : Rules) (s : State) (reply : ModelReply) where
  call_case :
      {s' : State}
      → call_turn rules (ltb s.tool_steps max_tool_steps) s (counted reply s) reply ≡ ok s'
      → TurnCase s s'
  unfolding call_turn
  call_case {s'} h = elim (Bool-cases (ltb s.tool_steps max_tool_steps)) [
    | inr over ↦ ground arith
    | inl under ↦
        by_preview (extract_tool_preview rules.auth_required reply.tool_calls) refl
          (call_id reply.tool_calls) refl under
  ]
    where
      by_preview :
          (p : Result GraphError (String × String))
          → extract_tool_preview rules.auth_required reply.tool_calls ≡ p
          → (i : Result GraphError String) → call_id reply.tool_calls ≡ i
          → ltb s.tool_steps max_tool_steps ≡ true
          → TurnCase s s'
      by_preview (err e) p i q under = ground arith
      by_preview (ok (name, arguments)) p (err e) q under = ground arith
      by_preview (ok (name, arguments)) p (ok id) q under =
          let k = counted-Counted reply s in
          calls (ground arith) (ground (arith, k.again)) (ground arith) (ground arith)
            (ground (arith, k.retries))

  incomplete_case :
      (offer : Bool) (missing : List String)
      → TurnCase s (incomplete offer missing s (counted reply s))
  unfolding incomplete
  incomplete_case offer missing = elim (Bool-cases (offer && ltb s.completion_retries 1)) [
    | inl again ↦
        let k = counted-Counted reply s in
        retries (ground arith) (ground arith) (ground arith) (ground arith)
          (ground (arith, k.steps)) (ground (arith, k.trace))
    | inr over ↦ answers (ground arith)
  ]

  answer_case :
      (offer : Bool) (content : Option String) {s' : State}
      → answer_turn rules offer s (counted reply s) content ≡ ok s'
      → TurnCase s s'
  unfolding answer_turn answer_with
  answer_case offer none h = ground arith
  answer_case offer (some content) {s'} h = elim (Bool-cases (is_blank content)) [
    | inl blank ↦ ground arith
    | inr filled ↦ by_missing (missing_tools rules s) refl filled
  ]
    where
      by_answer :
          (r : Result GraphError String)
          → final_answer rules s content (rules.required_tools s.task_question) s.rag_evidence ≡ r
          → missing_tools rules s ≡ []
          → is_blank content ≡ false
          → TurnCase s s'
      by_answer (err e) q m f = ground arith
      by_answer (ok a) q m f = answers (ground arith)

      by_missing :
          (missing : List String)
          → missing_tools rules s ≡ missing
          → is_blank content ≡ false
          → TurnCase s s'
      by_missing [] m f =
          by_answer
            (final_answer rules s content (rules.required_tools s.task_question) s.rag_evidence)
            refl m f
      by_missing (m ∷ ms) e f =
          let same : incomplete offer (m ∷ ms) s (counted reply s) ≡ s' = ground arith in
          rw⁻¹ same (incomplete_case offer (m ∷ ms))

  pub apply_reply_cases : {s' : State} → apply_reply rules s reply ≡ ok s' → TurnCase s s'
  unfolding apply_reply turn
  apply_reply_cases {s'} h = elim (Bool-cases (reply.role == "assistant")) [
    | inr other ↦ ground arith
    | inl role ↦ by_calls reply.tool_calls refl role
  ]
    where
      by_calls :
          (cs : List ToolCall)
          → reply.tool_calls ≡ cs
          → (reply.role == "assistant") ≡ true
          → TurnCase s s'
      by_calls [] e role =
          answer_case (ltb s.tool_steps max_tool_steps) reply.content (ground arith)
      by_calls (c ∷ cs) e role = call_case (ground arith)

-- A turn without the model ends the run, or calls for the order that was asked for.
direct_query-case :
    (s : State) (m : Mode) (o : Option String) {x : State}
    → direct_query s m o ≡ some x
    → s.tool_trace ≡ []
    → TurnCase s x
unfolding direct_query direct_call
direct_query-case s mock o h e = ground arith
direct_query-case s live none h e = ground arith
direct_query-case s live (some id) h e =
    direct (ground arith) (ground arith) e (ground arith) (ground arith)

first_turn-case :
    (rules : Rules) (s : State) (o : Option String) {x : State}
    → first_turn rules s o ≡ some x
    → s.tool_trace ≡ []
    → TurnCase s x
unfolding first_turn
first_turn-case rules s (some guidance) h e = answers (ground arith)
first_turn-case rules s none h e =
    direct_query-case s s.mode (rules.simple_order_query s.task_question) h e

shortcut-case :
    (rules : Rules) (s : State) (ts : List TraceStep) {x : State}
    → shortcut rules s ts ≡ some x
    → s.tool_trace ≡ ts
    → TurnCase s x
unfolding shortcut
shortcut-case rules s [] h e = first_turn-case rules s (rules.service_guidance s.task_question) h e
shortcut-case rules s (t ∷ ts) h e = ground arith

-- What the node `call_model` does when it returns.
pub call_model_cases :
    {World : Type 0} (rules : Rules) (services : Services World) (s : State) (w : World)
    {s' : State}
    → (call_model_node rules services s w).0 ≡ ok s'
    → TurnCase s s'
unfolding call_model_node
call_model_cases rules services s w {s'} h =
    elim (Bool-cases (state_tools_enabled rules.auth_required s)) [
      | inr disabled ↦ ground arith
      | inl enabled ↦ by_shortcut (shortcut rules s s.tool_trace) refl enabled
    ]
  where
    by_reply :
        (r : Result GraphError ModelReply × _)
        → services.request s.mode s.messages (ltb s.tool_steps max_tool_steps) w ≡ r
        → shortcut rules s s.tool_trace ≡ none
        → state_tools_enabled rules.auth_required s ≡ true
        → TurnCase s s'
    by_reply (err e, w') q n t = ground arith
    by_reply (ok reply, w') q n t = apply_reply_cases rules s reply (ground arith)

    by_shortcut :
        (o : Option State)
        → shortcut rules s s.tool_trace ≡ o
        → state_tools_enabled rules.auth_required s ≡ true
        → TurnCase s s'
    by_shortcut none n t =
        by_reply (services.request s.mode s.messages (ltb s.tool_steps max_tool_steps) w) refl n t
    by_shortcut (some x) n t =
        let same : x ≡ s' = ground arith in rw⁻¹ same (shortcut-case rules s s.tool_trace n refl)
