-- ===== src/Portal/Api/Followup.antt =====
-- resolve_followup of portal_api.py: a question that continues an earlier one names its order again.
use Prim.Native.String.{String, ◌++◌}
use opspilot_agent_platform.Prelude.{
  Bool, false, not, ◌&&◌, ◌||◌, Option, none, some, List, [], ◌∷◌, ◌==◌, text_eq, contains,
  if◌then◌else◌,
}
use opspilot_agent_platform.Prelude.Text.{occurs_in}
use opspilot_agent_platform.Portal.{TurnResult, PublicTurn}

-- The regular expressions of the function, and the field `tool_name` of a result.
pub record Patterns : Type 0 where
  pub names_order : String → Bool
  pub names_number : String → Bool
  pub order_ids : String → List String
  pub asks_application : String → Bool
  pub tool_name : TurnResult → Option String

unfoldable pub any_occurs : List String → String → Bool
any_occurs [] text = false
any_occurs (word ∷ words) text = occurs_in word text || any_occurs words text

-- `set(…)`
distinct : List String → List String
distinct [] = []
distinct (x ∷ xs) = let rest = distinct xs in if contains rest x then rest else x ∷ rest

-- The orders that the newest turn names that names any; the turns are the oldest first.
unfoldable pub latest_orders : Patterns → List PublicTurn → List String
unfolding distinct
latest_orders r [] = []
latest_orders r (t ∷ ts) = elim (latest_orders r ts) [
  | [] ↦ distinct (r.order_ids t.message)
  | i ∷ is ↦ i ∷ is
]

-- `turns[-1]`
last_turn : List PublicTurn → Option PublicTurn
last_turn [] = none
last_turn (t ∷ []) = some t
last_turn (t ∷ (u ∷ us)) = last_turn (u ∷ us)

used_eligibility : Patterns → Option TurnResult → Bool
used_eligibility r none = false
used_eligibility r (some result) = elim (r.tool_name result) [
  | none ↦ false
  | some name ↦ name == "check_return_eligibility"
]

is_return_context : Patterns → Option PublicTurn → Bool
unfolding used_eligibility
is_return_context r none = false
is_return_context r (some t) = occurs_in "退货" t.message || used_eligibility r t.result

unfoldable pub add_order : Patterns → String → List PublicTurn → List String → String
unfolding last_turn is_return_context
add_order r question turns (id ∷ []) =
    let asked =
      if is_return_context r (last_turn turns) && r.asks_application question
      then "帮我申请退货"
      else question in
    asked ++ ("（本轮指代订单 " ++ (id ++ "，当前状态和资格须重新查询）"))
add_order r question turns _ = question

unfoldable pub resolve_followup : Patterns → String → List PublicTurn → String
unfolding any_occurs latest_orders add_order
resolve_followup r question turns =
    if r.names_order question
      || r.names_number question
      || not (any_occurs ("这" ∷ "那" ∷ "它" ∷ "继续" ∷ "申请" ∷ "退货" ∷ []) question)
    then question
    else add_order r question turns (latest_orders r turns)
