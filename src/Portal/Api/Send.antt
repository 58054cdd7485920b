-- ===== src/Portal/Api/Send.antt =====
-- send_turn of portal_api.py: a question is claimed as a turn, answered by the agent or, with images, by
-- the vision model, and the turn is ended, by its answer or by its error.
use Prim.Native.String.{String, ◌++◌, count as text_length}
use opspilot_agent_platform.Prelude.{
  ℕ, Bool, true, false, not, ◌&&◌, ◌||◌, Option, none, some, List, [], ◌∷◌, ◌==◌, text_eq, contains,
  ltb, if◌then◌else◌,
}
use opspilot_agent_platform.Prelude.Exec.{Exec, pure, raise, raise_if, ◌>>=◌, ◌>>◌}
use opspilot_agent_platform.Agent.State.{Mode, mock, live}
use opspilot_agent_platform.Portal.{Kind, agent, vision, TurnResult, Image, PublicTurn}
use opspilot_agent_platform.Portal.Turns.{TurnRequest, Ending, claim_turn, finish_turn, prefix}
use opspilot_agent_platform.Portal.Reads.{image, conversation}
use opspilot_agent_platform.Portal.Api.{
  RunView, RunError, http, failed, ApiError, run_error, http_error, Route, on_tables, on_world,
  catch, type_name, ending_of,
}
use opspilot_agent_platform.Portal.Api.Followup.{Patterns, resolve_followup, any_occurs}

-- The vision model's reply, and a reply on policies, each with its JSON.
pub record Observation : Type 0 where
  pub answer : String
  pub uncertainty : String
  pub json : String

pub record PolicyReply : Type 0 where
  pub answer : String
  pub json : String

-- The dicts that are saved as a result: of a question on images, and of a known failure.
pub data Sent : Type 0 where
  completed : Observation → Option PolicyReply → String → Mode → Sent
  failure : String → Mode → Sent

-- What a question calls: the agent, the models, the memory and the choice of the history, and the
-- configuration. `is_request_error` says which types derive from `httpx.RequestError`.
pub record Services (World History : Type 0) : Type 0 where
  pub is_local : Bool
  pub patterns : Patterns
  pub memory_context : String → String → List PublicTurn → Exec RunError World (List PublicTurn)
  pub visible_history : List PublicTurn → String → History
  pub vision_reply : String → List Image → History → Mode → Exec RunError World Observation
  pub read_policy : String → Mode → Exec RunError World PolicyReply
  pub start_run : String → String → Mode → History → Exec RunError World RunView
  pub dumps : Sent → TurnResult
  pub is_request_error : String → Bool

unfoldable pub is_empty : {A : Type 0} → List A → Bool
is_empty [] = true
is_empty (x ∷ xs) = false

unfoldable pub has_repeats : List String → Bool
has_repeats [] = false
has_repeats (i ∷ is) = contains is i || has_repeats is

unfoldable pub is_live : Mode → Bool
is_live live = true
is_live mock = false

-- The images of the newest turn that has any.
unfoldable pub latest_images : List PublicTurn → List String
unfolding is_empty
latest_images [] = []
latest_images (t ∷ ts) = let rest = latest_images ts in if is_empty rest then t.image_ids else rest

-- `body.policy_query or body.message[:200]`
unfoldable pub policy_question : TurnRequest → String
policy_question body = elim body.policy_query [
  | none ↦ prefix 200 body.message
  | some query ↦ if query == "" then prefix 200 body.message else query
]

-- How a failure is told apart: by the types of the exceptions.
known_input : ApiError → Bool
unfolding type_name
known_input e =
    contains ("AgentGraphInputError" ∷ "AgentGraphConfigurationError" ∷ []) (type_name e)

is_admission : ApiError → Bool
unfolding type_name
is_admission e =
    contains ("ModelAdmissionError" ∷ "ModelRateLimitExceeded" ∷ "ModelAdmissionUnavailable" ∷ [])
      (type_name e)

known_order : ApiError → Bool
unfolding type_name
known_order e =
    contains ("OrderServiceError" ∷ "ReturnDraftExpired" ∷ "ReturnDraftRejected" ∷ []) (type_name e)

known_context : ApiError → Bool
unfolding type_name
known_context e =
    contains
      ("ContextBudgetExceeded" ∷ "ContextWindowRejected" ∷ "ConversationMemoryUnavailable" ∷ [])
      (type_name e)

known_model : (String → Bool) → ApiError → Bool
unfolding is_admission type_name
known_model is_request_error e =
    is_admission e
    || contains
        ("ModelAPIError" ∷ "LocalModelFormatError" ∷ "LocalModelTruncatedError"
          ∷ "EvidenceResponseFormatError" ∷ "EvidenceContractError" ∷ [])
        (type_name e)
    || is_request_error (type_name e)

is_http : ApiError → Bool
is_http (run_error (http n)) = true
is_http (http_error n) = true
is_http _ = false

-- `str(error)`
error_text : ApiError → String
error_text (run_error (failed name text)) = text
error_text _ = ""

-- What is raised after an error.
unfoldable pub raised_for : ApiError → ApiError
unfolding known_context known_input is_http is_admission type_name
raised_for e =
    if known_context e
    then http_error (if type_name e == "ConversationMemoryUnavailable" then 503 else 422)
    else if known_input e
    then http_error (if type_name e == "AgentGraphInputError" then 400 else 503)
    else if is_http e || is_admission e
    then e
    else http_error 503

unfoldable pub needs_policy : TurnRequest → Bool
unfolding is_live any_occurs
needs_policy body =
    body.use_policy
    || is_live body.mode && any_occurs ("政策" ∷ "退货" ∷ "退款" ∷ "保修" ∷ "赔偿" ∷ "运费" ∷ []) body.message

unfoldable pub image_answer : Observation → Option PolicyReply → String
image_answer o policy =
    let quoted : String = elim policy [
      | none ↦ ""
      | some reply ↦ "\n\n政策原文与引用（是否适用于该订单仍需业务核实）：\n" ++ reply.answer
    ] in
    "图片观察（模型推断，需核对）：\n"
    ++ (o.answer
        ++ ("\n\n不确定与待核实："
            ++ (o.uncertainty ++ (quoted ++ "\n\n图片问答不会批准或提交退款；办理申请须另行查询订单、校验资格并明确确认。"))))

unfoldable pub select_images :
    {World : Type 0} → TurnRequest → List PublicTurn → Route World (List String)
unfolding is_empty latest_images has_repeats
select_images body previous = do
  raise_if (has_repeats body.image_ids) (http_error 400)
  if is_empty body.image_ids && body.reuse_images
      then (do
        raise_if (is_empty (latest_images previous)) (http_error 400)
        pure (latest_images previous))
      else pure body.image_ids

unfoldable pub kind_of : List Image → Kind
unfolding is_empty
kind_of images = if is_empty images then agent else vision

-- A question that is sent: its services, the order of the database's identifiers, the hash of a payload,
-- the user and the conversation, the identifier of a new turn, and the times of its claim and its end.
pub record Sending (World History : Type 0) : Type 0 where
  pub services : Services World History
  pub before : String → String → Bool
  pub fingerprint : TurnRequest → String
  pub user_id : String
  pub conversation_id : String
  pub fresh : String
  pub claimed_at : ℕ
  pub finished_at : ℕ

module _ {World History : Type 0} (x : Sending World History) where
  unfoldable pub failure_text : ApiError → Option String
  unfolding known_context known_order known_model known_input error_text type_name
  failure_text e =
      if known_context e
      then some (error_text e)
      else if known_order e
      then some "订单服务暂时不可用，请稍后再查询；不能据此判断订单不存在。本轮没有提交售后申请。"
      else if known_model x.services.is_request_error e
      then some "模型未返回有效结果，请稍后重新发送；本轮没有提交售后申请。"
      else if known_input e
      then some (
          if type_name e == "AgentGraphInputError"
          then "模拟模式需要明确的订单或政策问题，请调整问题。"
          else "真实模型配置不可用，请选择模拟模式或检查服务端配置。")
      else none

  -- The turn's end after an error: what is known to have written nothing is a failure.
  unfoldable pub ending_failed : TurnRequest → List Image → ApiError → Ending
  unfolding failure_text is_empty type_name
  ending_failed body images e = elim (failure_text e) [
    | some text ↦ record {
      result = some (x.services.dumps (failure text body.mode));
      status = "FAILED";
      error_code = some (type_name e);
    }
    | none ↦ record {
      result = none;
      status = if is_empty images then "RESULT_UNKNOWN" else "FAILED";
      error_code = some (type_name e);
    }
  ]

  unfoldable pub finish_failed :
      TurnRequest → List Image → String → ApiError → Route World PublicTurn
  unfolding ending_failed raised_for
  finish_failed body images turn_id e = do
    on_tables (
        finish_turn x.finished_at x.user_id x.conversation_id turn_id (ending_failed body images e)
          none)
    raise (raised_for e)

  unfoldable pub read_policy_of : TurnRequest → Route World (Option PolicyReply)
  unfolding needs_policy policy_question
  read_policy_of body =
      if needs_policy body
      then (do
        reply ← on_world (x.services.read_policy (policy_question body) body.mode)
        pure (some reply))
      else pure none

  -- The end of a turn whose images were looked at.
  unfoldable pub ending_seen : TurnRequest → Observation → Option PolicyReply → Ending
  unfolding image_answer
  ending_seen body o policy = record {
    result = some (x.services.dumps (completed o policy (image_answer o policy) body.mode));
    status = "COMPLETED";
    error_code = none;
  }

  unfoldable pub see : TurnRequest → List Image → History → Route World Ending
  unfolding read_policy_of ending_seen
  see body images history = do
    o ← on_world (x.services.vision_reply body.message images history body.mode)
    policy ← read_policy_of body
    pure (ending_seen body o policy)

  unfoldable pub ask : TurnRequest → String → String → History → Route World Ending
  unfolding ending_of
  ask body question turn_id history = do
    v ← on_world (x.services.start_run turn_id question body.mode history)
    pure (ending_of v)

  unfoldable pub recall : TurnRequest → List PublicTurn → Route World (List PublicTurn)
  unfolding is_live
  recall body previous =
      if is_live body.mode
      then on_world (x.services.memory_context x.conversation_id body.message previous)
      else pure previous

  unfoldable pub answer_turn :
      TurnRequest → List Image → String → List PublicTurn → String → Route World PublicTurn
  unfolding is_empty recall see ask
  answer_turn body images question previous turn_id = do
    candidates ← recall body previous
    let history = x.services.visible_history candidates body.message
    e ← if is_empty images then ask body question turn_id history else see body images history
    on_tables (finish_turn x.finished_at x.user_id x.conversation_id turn_id e none)

  unfoldable pub load_images : List String → Route World (List Image)
  load_images [] = pure []
  load_images (i ∷ is) = do
    found ← on_tables (image x.user_id x.conversation_id i)
    xs ← load_images is
    pure (found ∷ xs)

  unfoldable pub question_of : TurnRequest → List Image → List PublicTurn → String
  unfolding resolve_followup is_empty policy_question
  question_of body images previous =
      let question = resolve_followup x.services.patterns body.message previous in
      if is_empty images && body.use_policy
      then question ++ ("\n请同时结合售后政策：" ++ policy_question body)
      else question

  -- A turn that was not created is returned as it is.
  unfoldable pub after_send :
      TurnRequest
      → List Image
      → String
      → List PublicTurn
      → PublicTurn
      → Bool
      → Route World PublicTurn
  unfolding answer_turn finish_failed
  after_send body images question previous t created =
      if not created
      then pure t
      else catch (answer_turn body images question previous t.id) (finish_failed body images t.id)

  unfoldable pub claim_and_answer :
      TurnRequest → List String → List Image → List PublicTurn → Route World PublicTurn
  unfolding question_of kind_of after_send
  claim_and_answer body image_ids images previous = do
    let question = question_of body images previous
    raise_if (ltb 1000 (text_length question)) (http_error 400)
    (t, created) ← on_tables (
        claim_turn x.fingerprint x.fresh x.claimed_at x.user_id x.conversation_id body image_ids
          (kind_of images))
    after_send body images question previous t created

  -- `send_turn`
  unfoldable pub send_turn : TurnRequest → Route World PublicTurn
  unfolding select_images is_empty is_live load_images claim_and_answer
  send_turn body = do
    page ← on_tables (conversation x.before x.user_id x.conversation_id none)
    image_ids ← select_images body page.turns
    raise_if
        (not (is_empty image_ids)
          && is_live body.mode
          && not x.services.is_local
          && not body.allow_external_images)
        (http_error 400)
    images ← load_images image_ids
    claim_and_answer body image_ids images page.turns
