-- ===== src/Portal/Turns.antt =====
-- The turns of a conversation: a request is claimed, an action takes its turn again, and a turn ends.
use Prim.Native.String.{String}
use opspilot_agent_platform.Prelude.{
  ℕ, zero, suc, ◌+◌, Bool, true, false, not, ◌&&◌, ◌||◌, Option, none, some, List, [], ◌∷◌, ◌++◌,
  ◌==◌, text_eq, nat_eq, leb, if◌then◌else◌,
}
use opspilot_agent_platform.Prelude.Dict.{lookup, insert, is_some}
use opspilot_agent_platform.Prelude.Tables.{first, update_where}
use opspilot_agent_platform.Prelude.Exec.{
  pure, raise, gets, or_raise, modify, raise_if, ◌>>=◌, ◌>>◌,
}
use opspilot_agent_platform.Agent.State.{Mode}
use opspilot_agent_platform.Portal.{
  not_found, conflict, integrity_error, Kind, agent, vision, TurnResult, interrupted, Conversation,
  Turn, Image, Tables, StoreMethod, transaction, PublicTurn, public_turn, of_request, of_turn,
}

-- `TurnRequest` of portal_api.py, which is the payload of a claim.
pub record TurnRequest : Type 0 where
  pub request_id : String
  pub message : String
  pub mode : Mode
  pub image_ids : List String
  pub reuse_images : Bool
  pub use_policy : Bool
  pub policy_query : Option String
  pub allow_external_images : Bool

owner_check : String → Option Conversation → StoreMethod Conversation
owner_check user_id none = raise not_found
owner_check user_id (some c) = do raise_if (not (c.owner_user_id == user_id)) not_found; pure c

-- `_conversation`
unfoldable pub owned_conversation : String → String → StoreMethod Conversation
unfolding owner_check
owned_conversation user_id conversation_id = do
  found ← gets (λ s. lookup conversation_id s.conversations)
  owner_check user_id found

unfoldable pub put_conversation : String → Conversation → Tables → Tables
put_conversation k c s = record s { conversations = insert k c s.conversations }

unfoldable pub change_turn : String → String → (Turn → Turn) → Tables → Tables
change_turn conversation_id turn_id f s = record s {
  turns = update_where (of_turn conversation_id turn_id) f s.turns;
}

-- `str(a) == str(b)` of two columns that are an identifier or NULL.
unfoldable pub same_id : Option String → Option String → Bool
same_id none none = true
same_id (some a) (some b) = a == b
same_id _ _ = false

-- `UPDATE portal_conversations SET active_turn_id=NULL … WHERE id=… AND active_turn_id=…`
unfoldable pub release : String → String → ℕ → Conversation → Tables → Tables
unfolding same_id put_conversation
release conversation_id turn_id now c s =
    if same_id c.active_turn_id (some turn_id)
    then put_conversation conversation_id (record c { active_turn_id = none; updated_at = now }) s
    else s

-- `message[:n]`
unfoldable pub prefix : ℕ → String → String
prefix zero s = ""
prefix (suc n) String.[] = ""
prefix (suc n) (String.◌∷◌ c s) = String.◌∷◌ c (prefix n s)

unfoldable pub titled : String → String → String
titled title message = if title == "新会话" then prefix 40 message else title

unfoldable pub image_of : String → String → String → Image → Bool
image_of user_id conversation_id image_id i =
    i.id == image_id && i.conversation_id == conversation_id && i.owner_user_id == user_id

unfoldable pub require_images : String → String → List String → StoreMethod (Unit {0})
unfolding image_of
require_images user_id conversation_id [] = pure tt
require_images user_id conversation_id (i ∷ is) = do
  found ← gets (λ s. first (image_of user_id conversation_id i) s.images)
  raise_if (not (is_some found)) not_found
  require_images user_id conversation_id is

-- The row that a claim inserts; `fresh` is `uuid4()` and `now` the transaction's time.
unfoldable pub new_turn : String → String → ℕ → String → TurnRequest → List String → Kind → Turn
new_turn request_hash fresh now conversation_id payload image_ids kind = record {
  id = fresh;
  conversation_id = conversation_id;
  request_id = payload.request_id;
  request_hash = request_hash;
  message = payload.message;
  mode = payload.mode;
  image_ids = image_ids;
  kind = kind;
  status = "RUNNING";
  result = none;
  error_code = none;
  created_at = now;
  updated_at = now;
}

unfoldable pub unknown_in : String → Turn → Bool
unknown_in conversation_id t = t.conversation_id == conversation_id && t.status == "RESULT_UNKNOWN"

insert_turn : Turn → Tables → Tables
insert_turn t s = record s { turns = s.turns ++ t ∷ [] }

-- The payload's fingerprint, a hash of its JSON, is an argument.
module _ (fingerprint : TurnRequest → String) where
  unfoldable pub claim_new :
      String
      → ℕ
      → String
      → String
      → Conversation
      → TurnRequest
      → List String
      → Kind
      → StoreMethod (PublicTurn × Bool)
  unfolding unknown_in insert_turn titled put_conversation
  claim_new fresh now user_id conversation_id c payload image_ids kind = do
    raise_if (is_some c.active_turn_id) conflict
    raise_if (is_some (← gets (λ s. first (unknown_in conversation_id) s.turns))) conflict
    require_images user_id conversation_id image_ids
    raise_if (is_some (← gets (λ s. first (λ t. t.id == fresh) s.turns))) integrity_error
    let t = new_turn (fingerprint payload) fresh now conversation_id payload image_ids kind
    modify (insert_turn t)
    modify (
        put_conversation conversation_id (record c {
          active_turn_id = some fresh;
          updated_at = now;
          title = titled c.title payload.message;
        }))
    pure (public_turn t, true)

  claim_after :
      String
      → ℕ
      → String
      → String
      → Conversation
      → TurnRequest
      → List String
      → Kind
      → Option Turn
      → StoreMethod (PublicTurn × Bool)
  unfolding claim_new
  claim_after fresh now user_id conversation_id c payload image_ids kind (some previous) = do
    raise_if (not (previous.request_hash == fingerprint payload)) conflict
    pure (public_turn previous, false)
  claim_after fresh now user_id conversation_id c payload image_ids kind none =
      claim_new fresh now user_id conversation_id c payload image_ids kind

  unfoldable pub claim_turn :
      String
      → ℕ
      → String
      → String
      → TurnRequest
      → List String
      → Kind
      → StoreMethod (PublicTurn × Bool)
  unfolding claim_after
  claim_turn fresh now user_id conversation_id payload image_ids kind = transaction do
    c ← owned_conversation user_id conversation_id
    previous ← gets (λ s. first (of_request conversation_id payload.request_id) s.turns)
    claim_after fresh now user_id conversation_id c payload image_ids kind previous

-- `turn`
unfoldable pub turn : String → String → String → StoreMethod PublicTurn
turn user_id conversation_id turn_id = transaction do
  owned_conversation user_id conversation_id
  row ← or_raise (← gets (λ s. first (of_turn conversation_id turn_id) s.turns)) not_found
  pure (public_turn row)

unfoldable pub request_turn : String → String → String → StoreMethod PublicTurn
request_turn user_id conversation_id request_id = transaction do
  owned_conversation user_id conversation_id
  row ← or_raise (← gets (λ s. first (of_request conversation_id request_id) s.turns)) not_found
  pure (public_turn row)

unfoldable pub claim_action : ℕ → String → String → String → StoreMethod (Unit {0})
unfolding change_turn put_conversation
claim_action now user_id conversation_id turn_id = transaction do
  c ← owned_conversation user_id conversation_id
  raise_if (is_some c.active_turn_id) conflict
  row ← gets (λ s. first (of_turn conversation_id turn_id) s.turns)
  modify (change_turn conversation_id turn_id (λ t. record t { updated_at = now }))
  raise_if (not (is_some row)) not_found
  modify (put_conversation conversation_id (record c { active_turn_id = some turn_id }))

unfoldable pub is_vision : Kind → Bool
is_vision vision = true
is_vision agent = false

-- 15 minutes, in microseconds.
abbrev timeout : ℕ
timeout = 900000000

unfoldable pub interrupt_turn : ℕ → Turn → Turn
interrupt_turn now t = record t {
  status = "FAILED";
  result = some (interrupted t.mode);
  error_code = some "VISION_INTERRUPTED";
  updated_at = now;
}

-- The turn has run out of its time, and is still the active one.
unfoldable pub may_interrupt : ℕ → String → Conversation → Turn → Bool
unfolding same_id
may_interrupt now turn_id c row =
    leb (row.updated_at + timeout) now && same_id c.active_turn_id (some turn_id)

recover_row : ℕ → String → String → Conversation → Turn → StoreMethod PublicTurn
unfolding is_vision may_interrupt change_turn interrupt_turn release
recover_row now conversation_id turn_id c row = do
  raise_if (not (is_vision row.kind)) conflict
  if not (row.status == "RUNNING") then pure (public_turn row) else do
    raise_if (not (may_interrupt now turn_id c row)) conflict
    modify (change_turn conversation_id turn_id (interrupt_turn now))
    recovered ← or_raise (← gets (λ s. first (of_turn conversation_id turn_id) s.turns)) not_found
    modify (release conversation_id turn_id now c)
    pure (public_turn recovered)

unfoldable pub recover_interrupted_vision : ℕ → String → String → String → StoreMethod PublicTurn
unfolding recover_row
recover_interrupted_vision now user_id conversation_id turn_id = transaction do
  c ← owned_conversation user_id conversation_id
  row ← or_raise (← gets (λ s. first (of_turn conversation_id turn_id) s.turns)) not_found
  recover_row now conversation_id turn_id c row

-- What a finish writes: the result, the status and the code of the error.
pub record Ending : Type 0 where
  pub result : Option TurnResult
  pub status : String
  pub error_code : Option String

unfoldable pub end_turn : ℕ → Ending → Turn → Turn
end_turn now e t = record t {
  result = e.result;
  status = e.status;
  error_code = e.error_code;
  updated_at = now;
}

-- The task has changed since the snapshot was read.
unfoldable pub moved_on : Option (ℕ × Option String) → Turn → Conversation → Bool
unfolding same_id
moved_on none current c = false
moved_on (some (updated_at, active)) current c =
    not (current.updated_at == updated_at) || not (same_id c.active_turn_id active)

unfoldable pub was_interrupted : Turn → Bool
unfolding is_vision same_id
was_interrupted t = is_vision t.kind && same_id t.error_code (some "VISION_INTERRUPTED")

finish_row :
    ℕ
    → String
    → String
    → Ending
    → Option (ℕ × Option String)
    → Conversation
    → Turn
    → StoreMethod PublicTurn
unfolding moved_on was_interrupted change_turn end_turn release
finish_row now conversation_id turn_id e expected c current = do
  raise_if (moved_on expected current c) conflict
  if was_interrupted current then pure (public_turn current) else do
    modify (change_turn conversation_id turn_id (end_turn now e))
    row ← or_raise (← gets (λ s. first (of_turn conversation_id turn_id) s.turns)) not_found
    modify (release conversation_id turn_id now c)
    pure (public_turn row)

unfoldable pub finish_turn :
    ℕ → String → String → String → Ending → Option (ℕ × Option String) → StoreMethod PublicTurn
unfolding finish_row
finish_turn now user_id conversation_id turn_id e expected = transaction do
  c ← owned_conversation user_id conversation_id
  current ← or_raise (← gets (λ s. first (of_turn conversation_id turn_id) s.turns)) not_found
  finish_row now conversation_id turn_id e expected c current
