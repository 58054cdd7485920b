-- ===== src/Portal/Api.antt =====
-- portal_api.py: an action on a turn, and the synchronisation of a turn, over the portal's tables and
-- the runs of the agent.
pub mod Claims
pub mod Rules
pub mod Ends
pub mod Holding
pub mod Performs
pub mod Releases
pub mod Stale
pub mod Followup
pub mod Send
pub mod Asked
pub mod Answers
pub mod Sends
mod Tests
mod SendTests
use Prim.Native.String.{String}
use opspilot_agent_platform.Prelude.{
  ℕ, ◌+◌, Bool, true, false, not, ◌&&◌, ◌||◌, Option, none, some, ◌==◌, text_eq, ltb, if◌then◌else◌,
}
use opspilot_agent_platform.Prelude.Dict.{lookup, is_some}
use opspilot_agent_platform.Prelude.Exec.{
  Result, ok, err, Exec, pure, raise, gets, or_raise, raise_if, lift, ◌>>=◌, ◌>>◌,
}
use opspilot_agent_platform.Portal.{
  PortalError, Kind, agent, vision, TurnResult, reply, Conversation, Tables, StoreMethod,
  PublicTurn,
}
use opspilot_agent_platform.Portal.Turns.{
  Ending, owned_conversation, turn, claim_action, finish_turn, recover_interrupted_vision,
  is_vision, same_id,
}

-- What a run of the agent shows: its status, its draft and its JSON.
pub record RunView : Type 0 where
  pub status : String
  pub draft_id : Option String
  pub json : String

-- `ReturnOrderChanged`, an `HTTPException` with its code, and any other exception by its type's name
-- and its text.
pub data RunError : Type 0 where
  order_changed : RunError
  http : ℕ → RunError
  failed : String → String → RunError

-- What the routes of the agent do for the portal, by the identifier of the thread.
pub record Runs (World : Type 0) : Type 0 where
  pub read_run : String → Exec RunError World RunView
  pub resume_run : String → Bool → Exec RunError World RunView
  pub submit_reason : String → String → String → Exec RunError World RunView
  pub refresh_run : String → Exec RunError World RunView

-- An error of the store, or of a run, is passed on as it is.
pub data ApiError : Type 0 where
  store_error : PortalError → ApiError
  run_error : RunError → ApiError
  http_error : ℕ → ApiError

pub record Site (World : Type 0) : Type 0 where
  pub tables : Tables
  pub world : World

abbrev pub Route : Type 0 → Type 0 → Type 0
Route World A = Exec ApiError (Site World) A

pub data Action : Type 0 where
  confirm cancel refresh : Action
  reason : Option String → String → Action

abbrev pub map_error : {E F A : Type 0} → (E → F) → Result E A → Result F A
map_error f (ok a) = ok a
map_error f (err e) = err (f e)

module _ {World : Type 0} where
  -- A call of the store, and a call of a run.
  unfoldable pub on_tables : {A : Type 0} → StoreMethod A → Route World A
  on_tables m s = let (r, t) = m s.tables in (map_error store_error r, record s { tables = t })

  unfoldable pub on_world : {A : Type 0} → Exec RunError World A → Route World A
  on_world m s = let (r, w) = m s.world in (map_error run_error r, record s { world = w })

  -- `try: … except Exception: …`
  unfoldable pub catch : {A : Type 0} → Route World A → (ApiError → Route World A) → Route World A
  catch m handler s = let (r, s') = m s in elim r [ ok a ↦ (ok a, s') | err e ↦ handler e s' ]

unfoldable pub type_name : ApiError → String
type_name (store_error PortalError.not_found) = "PortalNotFoundError"
type_name (store_error PortalError.conflict) = "PortalConflictError"
type_name (store_error PortalError.permission) = "PermissionError"
type_name (store_error PortalError.integrity_error) = "IntegrityError"
type_name (run_error order_changed) = "ReturnOrderChanged"
type_name (run_error (http n)) = "HTTPException"
type_name (run_error (failed name text)) = name
type_name (http_error n) = "HTTPException"

unfoldable pub ending_of : RunView → Ending
ending_of v = record { result = some (reply v.json); status = v.status; error_code = none }

unfoldable pub ending_before : PublicTurn → Ending
ending_before t = record { result = t.result; status = t.status; error_code = none }

unfoldable pub ending_unknown : PublicTurn → ApiError → Ending
unfolding type_name
ending_unknown t e = record {
  result = t.result;
  status = "RESULT_UNKNOWN";
  error_code = some (type_name e);
}

-- The draft that is confirmed is the one that the user has seen.
unfoldable pub saw_draft : Action → Option String → RunView → Bool
unfolding same_id
saw_draft confirm expected v = not (is_some v.draft_id) || same_id expected v.draft_id
saw_draft _ expected v = true

unfoldable pub needs_text : Action → Bool
needs_text (reason none code) = true
needs_text (reason (some text) code) = text == ""
needs_text _ = false

-- What is run for an action.
unfoldable pub perform :
    {World : Type 0} → Runs World → String → Action → Exec RunError World RunView
perform runs turn_id confirm = runs.resume_run turn_id true
perform runs turn_id cancel = runs.resume_run turn_id false
perform runs turn_id refresh = runs.refresh_run turn_id
perform runs turn_id (reason none code) = runs.submit_reason turn_id "" code
perform runs turn_id (reason (some text) code) = runs.submit_reason turn_id text code

-- An action on a turn, or its synchronisation: the runs, the user, the conversation and the turn, and the
-- times, in microseconds, at which the turn is claimed or read and at which its end is written.
pub record Request (World : Type 0) : Type 0 where
  pub runs : Runs World
  pub user_id : String
  pub conversation_id : String
  pub turn_id : String
  pub claimed_at : ℕ
  pub finished_at : ℕ

module _ {World : Type 0} (call : Request World) where
  unfoldable pub finish : Ending → Route World PublicTurn
  finish e =
      on_tables (finish_turn call.finished_at call.user_id call.conversation_id call.turn_id e none)

  -- The check before the run: after an error the turn is left as it was, and the error is raised.
  unfoldable pub check_error : PublicTurn → Option RunView → ApiError → Route World RunView
  unfolding finish ending_of ending_before
  check_error t none e = do finish (ending_before t); raise e
  check_error t (some v) e = do finish (ending_of v); raise e

  unfoldable pub check_draft : PublicTurn → Action → Option String → Route World RunView
  unfolding saw_draft check_error
  check_draft t action expected = do
    v ← catch (on_world (call.runs.read_run call.turn_id)) (check_error t none)
    if saw_draft action expected v then pure v else check_error t (some v) (http_error 409)

  unfoldable pub perform_error : PublicTurn → ApiError → Route World PublicTurn
  unfolding finish ending_of ending_unknown
  perform_error t (run_error order_changed) = do
    v ← on_world (call.runs.read_run call.turn_id)
    finish (ending_of v)
    raise (http_error 409)
  perform_error t (run_error (failed name text)) = do
    finish (ending_unknown t (run_error (failed name text)))
    raise (http_error 503)
  perform_error t (store_error e) = do
    finish (ending_unknown t (store_error e))
    raise (http_error 503)
  perform_error t e = do finish (ending_unknown t e); raise e

  unfoldable pub perform_and_finish : Action → Route World PublicTurn
  unfolding perform finish ending_of
  perform_and_finish action = do
    v ← on_world (perform call.runs call.turn_id action)
    finish (ending_of v)

  unfoldable pub reread : PublicTurn → Route World PublicTurn
  unfolding finish ending_before
  reread t =
      catch (on_tables (turn call.user_id call.conversation_id call.turn_id))
        (λ e. do finish (ending_before t); raise e)

  unfoldable pub after_claim : PublicTurn → Action → Option String → Route World PublicTurn
  unfolding reread check_draft perform_and_finish perform_error
  after_claim before action expected = do
    t ← reread before
    check_draft t action expected
    catch (perform_and_finish action) (perform_error t)

  -- `act`
  unfoldable pub act : Action → Option String → Route World PublicTurn
  unfolding is_vision needs_text after_claim
  act action expected = do
    before ← on_tables (turn call.user_id call.conversation_id call.turn_id)
    raise_if (is_vision before.kind) (http_error 409)
    raise_if (needs_text action) (http_error 400)
    on_tables (claim_action call.claimed_at call.user_id call.conversation_id call.turn_id)
    after_claim before action expected

  unfoldable pub sync_agent : Conversation → PublicTurn → Route World PublicTurn
  unfolding ending_of
  sync_agent c t = do
    raise_if (is_some c.active_turn_id && ltb call.claimed_at (t.updated_at + 900000000))
        (http_error 409)
    v ← on_world (call.runs.read_run call.turn_id)
    raise_if (v.status == "RUNNING") (http_error 409)
    on_tables (
        finish_turn call.finished_at call.user_id call.conversation_id call.turn_id (ending_of v)
          (some (t.updated_at, c.active_turn_id)))

  -- `sync`
  unfoldable pub sync : Route World PublicTurn
  unfolding is_vision sync_agent
  sync = do
    c ← on_tables (owned_conversation call.user_id call.conversation_id)
    t ← on_tables (turn call.user_id call.conversation_id call.turn_id)
    if is_vision t.kind
        then on_tables (
            recover_interrupted_vision call.finished_at call.user_id call.conversation_id
              call.turn_id)
        else sync_agent c t
