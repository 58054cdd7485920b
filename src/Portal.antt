-- ===== src/Portal.antt =====
-- portal_store.py: the tables of the portal. A method is one transaction; the connection rolls back
-- what a method wrote that raises.
pub mod Turns
pub mod Conversations
pub mod Reads
pub mod Step
pub mod Calls
pub mod Running
pub mod Resend
pub mod Interrupted
pub mod Quotas
pub mod Accounts
pub mod Admins
pub mod Sessions
pub mod Api
mod Tests
use Prim.Native.String.{String}
use opspilot_agent_platform.Prelude.{ℕ, Bool, Option, List, ◌==◌, text_eq, ◌&&◌}
use opspilot_agent_platform.Prelude.Dict.{Dict}
use opspilot_agent_platform.Prelude.Exec.{Exec, ok, err}
use opspilot_agent_platform.Agent.State.{Mode}

-- `PortalNotFoundError`, `PortalConflictError`, `PermissionError`, and a refusal of PostgreSQL for a
-- duplicate key or a failed CHECK.
pub data PortalError : Type 0 where
  not_found conflict permission integrity_error : PortalError

-- The column `kind`, with its CHECK.
pub data Kind : Type 0 where
  agent vision : Kind

-- The column `result`: the dict that `recover_interrupted_vision` writes, or the JSON of a reply.
pub data TurnResult : Type 0 where
  interrupted : Mode → TurnResult
  reply : String → TurnResult

-- `portal_conversations`, by its primary key.
pub record Conversation : Type 0 where
  pub owner_user_id : String
  pub title : String
  pub active_turn_id : Option String
  pub created_at : ℕ
  pub updated_at : ℕ

-- `portal_turns`
pub record Turn : Type 0 where
  pub id : String
  pub conversation_id : String
  pub request_id : String
  pub request_hash : String
  pub message : String
  pub mode : Mode
  pub image_ids : List String
  pub kind : Kind
  pub status : String
  pub result : Option TurnResult
  pub error_code : Option String
  pub created_at : ℕ
  pub updated_at : ℕ

-- `portal_images`; `content` is its bytes.
pub record Image : Type 0 where
  pub id : String
  pub conversation_id : String
  pub owner_user_id : String
  pub mime_type : String
  pub content : List ℕ
  pub sha256 : String
  pub width : ℕ
  pub height : ℕ

pub record Tables : Type 0 where
  pub conversations : Dict String Conversation
  pub turns : List Turn
  pub images : List Image

abbrev pub StoreMethod : Type 0 → Type 0
StoreMethod = Exec PortalError Tables

-- `transaction`: the writes of a method that raises are rolled back.
abbrev pub transaction : {E S A : Type 0} → Exec E S A → Exec E S A
transaction m s = let (r, s') = m s in elim r [ ok a ↦ (ok a, s') | err e ↦ (err e, s) ]

-- A turn as it is shown: its row without `request_hash`.
pub record PublicTurn : Type 0 where
  pub id : String
  pub conversation_id : String
  pub request_id : String
  pub message : String
  pub mode : Mode
  pub image_ids : List String
  pub kind : Kind
  pub status : String
  pub result : Option TurnResult
  pub error_code : Option String
  pub created_at : ℕ
  pub updated_at : ℕ

unfoldable pub public_turn : Turn → PublicTurn
public_turn t = record {
  id = t.id;
  conversation_id = t.conversation_id;
  request_id = t.request_id;
  message = t.message;
  mode = t.mode;
  image_ids = t.image_ids;
  kind = t.kind;
  status = t.status;
  result = t.result;
  error_code = t.error_code;
  created_at = t.created_at;
  updated_at = t.updated_at;
}

-- `WHERE conversation_id=… AND request_id=…`, and `WHERE id=… AND conversation_id=…`.
abbrev pub of_request : String → String → Turn → Bool
of_request conversation_id request_id t =
    t.conversation_id == conversation_id && t.request_id == request_id

abbrev pub of_turn : String → String → Turn → Bool
of_turn conversation_id turn_id t = t.id == turn_id && t.conversation_id == conversation_id
