-- ===== src/Agent/Read/Filing.antt =====
-- Running a tool adds one entry to the trace and leaves the counters that bound the loop.
use mathlib.Core.List.{◌++◌ as ◌+++◌}
use opspilot_agent_platform.Prelude.{
  ℕ, String, ◌≡◌, refl, inl, inr, true, Option, none, some, List, [], ◌∷◌, arith, text_eq, ◌==◌,
  Bool-cases, Option-cases,
}
use opspilot_agent_platform.Prelude.Exec.{Result, ok, err}
use opspilot_agent_platform.Evidence.{
  Evidence, EvidenceVerdict, EvidenceError, verify_evidence_review,
}
use opspilot_agent_platform.Agent.State.{
  GraphError, Telemetry, TraceStep, State, Services, Rules, ToolResult, nothing, other, order,
  eligibility, action, passages,
}
use opspilot_agent_platform.Agent.Policy.{tool_is_enabled}
use opspilot_agent_platform.Agent.Read.{
  with_tool_message, with_trace, reviewed_search, reviewed_result, with_review, filed_search,
  search_passages, file_search, file_result, filed_other, filed_eligibility, direct_answer,
  read_tool_node, direct_id, gated,
}

-- The parts of the state that bound the loop are the same.
record Same (s s' : State) : Type 0 where
  steps : s'.tool_steps ≡ s.tool_steps
  retries : s'.completion_retries ≡ s.completion_retries
  trace : s'.tool_trace ≡ s.tool_trace

Same-refl : (s : State) → Same s s
Same-refl s = record { steps = refl; retries = refl; trace = refl }

Same-with_tool_message : (r : ToolResult) (s : State) → Same s (with_tool_message r s)
unfolding with_tool_message
Same-with_tool_message r s = record { steps = refl; retries = refl; trace = refl }

Same-with_review :
    (v : EvidenceVerdict) (t : Option Telemetry) (s : State) → Same s (with_review v t s)
unfolding with_review
Same-with_review v none s = record { steps = refl; retries = refl; trace = refl }
Same-with_review v (some t) s = record { steps = refl; retries = refl; trace = refl }

Same-filed_search :
    (items : List Evidence) (s a : State) → Same a s → Same a (filed_search (items, s))
unfolding filed_search with_tool_message
Same-filed_search [] s a h = record { steps = h.steps; retries = h.retries; trace = h.trace }
Same-filed_search (i ∷ is) s a h = record { steps = h.steps; retries = h.retries; trace = h.trace }

Same-filed_other :
    (name : String) (r : ToolResult) (s : State) {s' : State}
    → filed_other name r s ≡ ok s'
    → Same s s'
unfolding filed_other filed_eligibility with_tool_message
Same-filed_other name (eligibility e) s h = record {
  steps = ground arith;
  retries = ground arith;
  trace = ground arith;
}
Same-filed_other name nothing s h = record {
  steps = ground arith;
  retries = ground arith;
  trace = ground arith;
}
Same-filed_other name other s h = record {
  steps = ground arith;
  retries = ground arith;
  trace = ground arith;
}
Same-filed_other name (order o) s h = record {
  steps = ground arith;
  retries = ground arith;
  trace = ground arith;
}
Same-filed_other name (action a) s h = record {
  steps = ground arith;
  retries = ground arith;
  trace = ground arith;
}
Same-filed_other name (passages ps) s h = record {
  steps = ground arith;
  retries = ground arith;
  trace = ground arith;
}

Same-reviewed_result :
    (s : State) (cs : List Evidence) (limit : ℕ) (r : EvidenceVerdict × Option Telemetry)
    {x : List Evidence × State}
    → reviewed_result s cs limit r ≡ ok x
    → Same s x.1
unfolding reviewed_result
Same-reviewed_result s cs limit (v, t) {x} h = go (verify_evidence_review v cs (some limit)) refl
  where
    go :
        (r : Result EvidenceError (EvidenceVerdict × List Evidence))
        → verify_evidence_review v cs (some limit) ≡ r
        → Same s x.1
    go (err e) q = ground arith
    go (ok (v', items)) q =
        let same : (items, with_review v' t s) ≡ x = ground arith in
        rw⁻¹ same (Same-with_review v' t s)

module _ {World : Type 0} (rules : Rules) (services : Services World) where
  Same-reviewed_search :
      (s : State) (result : List Evidence) (query : String) (limit : ℕ) (cs : List Evidence)
      (w : World) {x : List Evidence × State}
      → (reviewed_search rules services s result query limit cs w).0 ≡ ok x
      → Same s x.1
  unfolding reviewed_search
  Same-reviewed_search s result query limit [] w {x} h =
      let same : (gated rules s result query limit, s) ≡ x = ground arith in rw⁻¹ same (Same-refl s)
  Same-reviewed_search s result query limit (c ∷ cs) w {x} h =
      elim (Bool-cases (rules.reviews s.mode)) [
        | inr off ↦
            let same : (gated rules s result query limit, s) ≡ x = ground arith in
            rw⁻¹ same (Same-refl s)
        | inl on ↦ go (services.review query (c ∷ cs) w) refl on
      ]
    where
      go :
          (r : Result GraphError (EvidenceVerdict × Option Telemetry) × World)
          → services.review query (c ∷ cs) w ≡ r
          → rules.reviews s.mode ≡ true
          → Same s x.1
      go (err e, w') q on = ground arith
      go (ok r, w') q on = Same-reviewed_result s (c ∷ cs) limit r {x = x} (ground arith)

  Same-search_passages :
      (s : State) (result : List Evidence) (w : World) {s' : State}
      → (search_passages rules services s result w).0 ≡ ok s'
      → Same s s'
  unfolding search_passages
  Same-search_passages s result w {s'} h =
      elim (Option-cases (rules.parse_search s.arguments_json)) [
        | inl n ↦ ground arith
        | inr ((query, limit), n) ↦
            go query limit n
              (reviewed_search rules services s result query limit
                (rules.admitted query result +++ rules.uncertain query result) w)
              refl
      ]
    where
      go :
          (query : String) (limit : ℕ)
          → rules.parse_search s.arguments_json ≡ some (query, limit)
          → (r : Result GraphError (List Evidence × State) × World)
          → reviewed_search rules services s result query limit
              (rules.admitted query result +++ rules.uncertain query result)
              w
            ≡ r
          → Same s s'
      go query limit n (err e, w') q = ground arith
      go query limit n (ok (items, s1), w') q =
          let same : filed_search (items, s1) ≡ s' = ground arith in
          let k : Same s s1 =
            Same-reviewed_search s result query limit
              (rules.admitted query result +++ rules.uncertain query result) w {x = (items, s1)}
              (ground arith) in
          rw⁻¹ same (Same-filed_search items s1 s k)

  Same-file_search :
      (s : State) (r : ToolResult) (w : World) {s' : State}
      → (file_search rules services s r w).0 ≡ ok s'
      → Same s s'
  unfolding file_search
  Same-file_search s (passages ps) w h = Same-search_passages s ps w h
  Same-file_search s nothing w h = ground arith
  Same-file_search s other w h = ground arith
  Same-file_search s (order o) w h = ground arith
  Same-file_search s (eligibility e) w h = ground arith
  Same-file_search s (action a) w h = ground arith

  Same-file_result :
      (name : String) (r : ToolResult) (id : Option String) (s : State) (w : World) {s' : State}
      → (file_result rules services name r id s w).0 ≡ ok s'
      → Same s s'
  unfolding file_result
  Same-file_result name r none s w h = elim (Bool-cases (name == "search_knowledge_base")) [
    | inl searched ↦ Same-file_search s r w (ground arith)
    | inr otherwise ↦ Same-filed_other name r s (ground arith)
  ]
  Same-file_result name r (some id) s w {s'} h = go (direct_answer id r) refl
    where
      go : (a : Result GraphError String) → direct_answer id r ≡ a → Same s s'
      go (err e) q = ground arith
      go (ok a) q =
          let k = Same-with_tool_message r s in
          record {
            steps = ground (arith, k.steps);
            retries = ground (arith, k.retries);
            trace = ground (arith, k.trace);
          }

-- What the node `read_tool` does to the counters and the trace when it returns.
pub record IsRead (s s' : State) : Type 0 where
  pub steps : s'.tool_steps ≡ s.tool_steps
  pub retries : s'.completion_retries ≡ s.completion_retries
  pub last : TraceStep
  pub trace : s'.tool_trace ≡ s.tool_trace +++ (last ∷ [])

pub read_tool_node-IsRead :
    {World : Type 0} (rules : Rules) (services : Services World) (s : State) (w : World)
    {s' : State}
    → (read_tool_node rules services s w).0 ≡ ok s'
    → IsRead s s'
unfolding read_tool_node
read_tool_node-IsRead {World} rules services s w {s'} h = elim (Option-cases s.tool_name) [
  | inl n ↦ ground arith
  | inr (name, n) ↦ elim (Bool-cases (tool_is_enabled rules.auth_required name)) [
    | inr disabled ↦ ground arith
    | inl enabled ↦ go name n enabled (services.run_tool name s.arguments_json w) refl
  ]
]
  where
    go :
        (name : String)
        → s.tool_name ≡ some name
        → tool_is_enabled rules.auth_required name ≡ true
        → (r : Result GraphError ToolResult × World) → services.run_tool name s.arguments_json w ≡ r
        → IsRead s s'
    go name n enabled (err e, w') q = ground arith
    go name n enabled (ok r, w') q =
        let id = direct_id s.mode (rules.simple_order_query s.task_question) name in
        let k : Same (with_trace name r s) s' =
          Same-file_result rules services name r id (with_trace name r s) w' (ground arith) in
        record {
          steps = k.steps;
          retries = k.retries;
          last = record { step = s.tool_steps; tool_name = name; result = r };
          trace = k.trace;
        }
