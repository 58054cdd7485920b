-- ===== src/Agent/Model/Words.antt =====
-- Where there is evidence, the model's own words do not reach the answer.
use opspilot_agent_platform.Prelude.{
  String, ◌≡◌, refl, Bool, false, some, List, [], ◌∷◌, arith, ltb, text_eq,
}
use opspilot_agent_platform.Prelude.Text.{is_blank}
use opspilot_agent_platform.Evidence.{Evidence}
use opspilot_agent_platform.Agent.State.{ModelReply, State, Rules}
use opspilot_agent_platform.Agent.Policy.{max_tool_steps}
use opspilot_agent_platform.Agent.Model.{
  apply_reply, turn, counted, answer_turn, answer_with, final_answer, missing_tools,
}

-- A reply that only answers.
abbrev pub saying : ModelReply → String → ModelReply
saying reply content = record reply { content = some content; tool_calls = [] }

module _ (rules : Rules) (s : State) (c c' : String) {e : Evidence} {es : List Evidence}
    (evidence : s.rag_evidence ≡ e ∷ es) where
  final_answer-ignores :
      (required : List String)
      → final_answer rules s c required s.rag_evidence
        ≡ final_answer rules s c' required s.rag_evidence
  unfolding final_answer
  final_answer-ignores (r ∷ rs) = refl
  final_answer-ignores [] = ground arith

  answer_with-ignores :
      (offer : Bool) (next : State) (missing : List String)
      → answer_with rules offer s next c missing ≡ answer_with rules offer s next c' missing
  unfolding answer_with
  answer_with-ignores offer next (m ∷ ms) = refl
  answer_with-ignores offer next [] =
      ground (arith, final_answer-ignores (rules.required_tools s.task_question))

  -- Once passages have been admitted as evidence, two replies that only answer, and differ only in
  -- their words, lead to the same state: the answer is made from the evidence.
  pub apply_reply_ignores_words :
      (reply : ModelReply)
      → is_blank c ≡ false
      → is_blank c' ≡ false
      → apply_reply rules s (saying reply c) ≡ apply_reply rules s (saying reply c')
  unfolding apply_reply turn answer_turn counted
  apply_reply_ignores_words reply b b' = ground (
    arith,
    answer_with-ignores (ltb s.tool_steps max_tool_steps) (counted (saying reply c) s)
        (missing_tools rules s),
  )
