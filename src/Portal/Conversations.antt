-- ===== src/Portal/Conversations.antt =====
-- The conversations and the images of a user, with their quotas.
use Prim.Native.String.{String}
use opspilot_agent_platform.Prelude.{
  ℕ, ◌+◌, Bool, not, ◌&&◌, ◌||◌, Option, none, some, List, [], ◌∷◌, ◌++◌, ◌==◌, text_eq, leb, ltb,
  length, if◌then◌else◌,
}
use opspilot_agent_platform.Prelude.Dict.{lookup, is_some}
use opspilot_agent_platform.Prelude.Tables.{first, count_where}
use opspilot_agent_platform.Prelude.Exec.{pure, gets, or_raise, modify, raise_if, ◌>>=◌, ◌>>◌}
use opspilot_agent_platform.Portal.{
  conflict, integrity_error, Conversation, Turn, Image, Tables, StoreMethod, transaction,
}
use opspilot_agent_platform.Portal.Turns.{owned_conversation, put_conversation}

-- A row of `portal_conversations` with its primary key.
abbrev pub Row : Type 0
Row = String × Conversation

-- `COUNT(*) … WHERE owner_user_id=…`
unfoldable pub owned_by : String → Row → Bool
owned_by user_id row = row.1.owner_user_id == user_id

unfoldable pub is_draft : Tables → String → Row → Bool
unfolding owned_by
is_draft s user_id row =
    owned_by user_id row
    && row.1.title == "新会话"
    && not (is_some row.1.active_turn_id)
    && not (is_some (first (λ (t : Turn). t.conversation_id == row.0) s.turns))
    && not (is_some (first (λ (i : Image). i.conversation_id == row.0) s.images))

-- `ORDER BY updated_at DESC, id`: the row that comes first, where `before` is the database's order
-- of identifiers.
unfoldable pub comes_before : (String → String → Bool) → Row → Row → Bool
comes_before before a b =
    ltb b.1.updated_at a.1.updated_at || not (ltb a.1.updated_at b.1.updated_at) && before a.0 b.0

unfoldable pub best : (Row → Row → Bool) → List Row → Option Row
best earlier [] = none
best earlier (r ∷ rs) = elim (best earlier rs) [
  | none ↦ some r
  | some b ↦ some (if earlier b r then b else r)
]

keep_rows : (Row → Bool) → List Row → List Row
keep_rows p [] = []
keep_rows p (r ∷ rs) = let rest = keep_rows p rs in if p r then r ∷ rest else rest

abbrev pub max_conversations : ℕ
max_conversations = 200

unfoldable pub new_conversation : String → String → ℕ → Conversation
new_conversation user_id title now = record {
  owner_user_id = user_id;
  title = title;
  active_turn_id = none;
  created_at = now;
  updated_at = now;
}

-- With the quota used up, an empty draft of the user's own is used again.
reuse_draft : (String → String → Bool) → String → StoreMethod Row
unfolding is_draft comes_before best keep_rows
reuse_draft before user_id = do
  drafts ← gets (λ s. keep_rows (is_draft s user_id) s.conversations)
  or_raise (best (comes_before before) drafts) conflict

create_new : (String → String → Bool) → String → ℕ → String → String → StoreMethod Row
unfolding reuse_draft new_conversation put_conversation
create_new before conversation_id now user_id title = do
  n ← gets (λ s. count_where (owned_by user_id) s.conversations)
  if leb max_conversations n then reuse_draft before user_id else do
    let c = new_conversation user_id title now
    modify (put_conversation conversation_id c)
    pure (conversation_id, c)

create_found :
    (String → String → Bool) → String → ℕ → String → String → Option Conversation → StoreMethod Row
unfolding create_new
create_found before conversation_id now user_id title (some existing) = do
  raise_if (not (existing.owner_user_id == user_id)) conflict
  pure (conversation_id, existing)
create_found before conversation_id now user_id title none =
    create_new before conversation_id now user_id title

-- `conversation_id` is the browser's, or a fresh `uuid4()`.
unfoldable pub create_conversation :
    (String → String → Bool) → String → ℕ → String → String → StoreMethod Row
unfolding create_found
create_conversation before conversation_id now user_id title = transaction do
  existing ← gets (λ s. lookup conversation_id s.conversations)
  create_found before conversation_id now user_id title existing

-- `validate_image`'s dict: what is uploaded.
pub record Upload : Type 0 where
  pub mime_type : String
  pub content : List ℕ
  pub sha256 : String
  pub width : ℕ
  pub height : ℕ

unfoldable pub image_by : String → Image → Bool
image_by user_id i = i.owner_user_id == user_id

-- `SUM(octet_length(content)) … WHERE owner_user_id=…`
unfoldable pub bytes_of : String → List Image → ℕ
unfolding image_by
bytes_of user_id [] = 0
bytes_of user_id (i ∷ is) =
    (if image_by user_id i then length i.content else 0) + bytes_of user_id is

-- The CHECKs of `portal_images`.
unfoldable pub is_valid_image : Upload → Bool
is_valid_image u =
    (u.mime_type == "image/png" || u.mime_type == "image/jpeg")
    && leb 1 u.width
    && leb u.width 6000
    && leb 1 u.height
    && leb u.height 6000
    && leb 1 (length u.content)
    && leb (length u.content) 4194304

abbrev pub max_images : ℕ
max_images = 100

abbrev pub max_bytes : ℕ
max_bytes = 104857600

unfoldable pub new_image : String → String → String → Upload → Image
new_image fresh user_id conversation_id u = record {
  id = fresh;
  conversation_id = conversation_id;
  owner_user_id = user_id;
  mime_type = u.mime_type;
  content = u.content;
  sha256 = u.sha256;
  width = u.width;
  height = u.height;
}

-- The quota leaves room for the upload.
unfoldable pub has_room : String → Upload → Tables → Bool
has_room user_id u s =
    ltb (count_where (image_by user_id) s.images) max_images
    && leb (bytes_of user_id s.images + length u.content) max_bytes

insert_image : Image → Tables → Tables
insert_image i s = record s { images = s.images ++ i ∷ [] }

-- The identifier of the new row; `fresh` is `uuid4()`.
unfoldable pub add_image : String → String → String → Upload → StoreMethod String
unfolding has_room insert_image new_image is_valid_image
add_image fresh user_id conversation_id u = transaction do
  owned_conversation user_id conversation_id
  raise_if (not (← gets (has_room user_id u))) conflict
  raise_if (not (is_valid_image u)) integrity_error
  raise_if (is_some (← gets (λ s. first (λ i. i.id == fresh) s.images))) integrity_error
  modify (insert_image (new_image fresh user_id conversation_id u))
  pure fresh
