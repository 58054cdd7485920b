-- ===== src/Agent/Read/Worlds.antt =====
-- Reading changes the world only by the tool that it runs and the reviewer that it asks.
use mathlib.Core.List.{◌++◌ as ◌+++◌}
use opspilot_agent_platform.Prelude.{
  ℕ, String, ◌≡◌, refl, inl, inr, Option, none, some, true, List, [], ◌∷◌, arith, text_eq,
  Option-cases, Bool-cases,
}
use opspilot_agent_platform.Prelude.Exec.{Result, ok, err, Preserves}
use opspilot_agent_platform.Evidence.{Evidence}
use opspilot_agent_platform.Agent.State.{
  GraphError, State, Services, Rules, ToolResult, nothing, other, order, eligibility, action,
  passages,
}
use opspilot_agent_platform.Agent.Policy.{tool_is_enabled}
use opspilot_agent_platform.Agent.Read.{
  with_trace, reviewed_search, search_passages, file_search, file_result, read_tool_node, direct_id,
}

module _ {World : Type 0} (P : World → Type 0) (rules : Rules) (services : Services World)
    (reviews : (q : String) (es : List Evidence) → Preserves P (services.review q es)) where
  reviewed_search-Preserves :
      (s : State) (result : List Evidence) (query : String) (limit : ℕ) (cs : List Evidence)
      → Preserves P (reviewed_search rules services s result query limit cs)
  unfolding reviewed_search
  reviewed_search-Preserves s result query limit [] w h = h
  reviewed_search-Preserves s result query limit (c ∷ cs) w h =
      ground (arith, reviews query (c ∷ cs) w h)

  search_passages-Preserves :
      (s : State) (result : List Evidence) → Preserves P (search_passages rules services s result)
  unfolding search_passages
  search_passages-Preserves s result w h =
      elim (Option-cases (rules.parse_search s.arguments_json)) [
        | inl n ↦ ground arith
        | inr ((query, limit), n) ↦ ground (
          arith,
          reviewed_search-Preserves s result query limit
              (rules.admitted query result +++ rules.uncertain query result) w h,
        )
      ]

  file_result-Preserves :
      (name : String) (r : ToolResult) (id : Option String) (s : State)
      → Preserves P (file_result rules services name r id s)
  unfolding file_result file_search
  file_result-Preserves name r (some id) s w h = ground arith
  file_result-Preserves name (passages ps) none s w h =
      ground (arith, search_passages-Preserves s ps w h)
  file_result-Preserves name nothing none s w h = ground arith
  file_result-Preserves name other none s w h = ground arith
  file_result-Preserves name (order o) none s w h = ground arith
  file_result-Preserves name (eligibility e) none s w h = ground arith
  file_result-Preserves name (action a) none s w h = ground arith

  pub read_tool-Preserves :
      ((name arguments : String)
        → tool_is_enabled rules.auth_required name ≡ true
        → Preserves P (services.run_tool name arguments))
      → (s : State) → Preserves P (read_tool_node rules services s)
  unfolding read_tool_node
  read_tool-Preserves runs s w h = elim (Option-cases s.tool_name) [
    | inl n ↦ ground arith
    | inr (name, n) ↦ elim (Bool-cases (tool_is_enabled rules.auth_required name)) [
      | inr disabled ↦ ground arith
      | inl enabled ↦
          go name n (services.run_tool name s.arguments_json w) refl
            (runs name s.arguments_json enabled w h)
    ]
  ]
    where
      go :
          (name : String)
          → s.tool_name ≡ some name
          → (r : Result GraphError ToolResult × World)
          → services.run_tool name s.arguments_json w ≡ r
          → P (services.run_tool name s.arguments_json w).1
          → P (read_tool_node rules services s w).1
      go name n (err e, w') q k = ground arith
      go name n (ok r, w') q k =
          let id = direct_id s.mode (rules.simple_order_query s.task_question) name in
          let k' : P w' = ground arith in
          ground (arith, file_result-Preserves name r id (with_trace name r s) w' k')
