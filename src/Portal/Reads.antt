-- ===== src/Portal/Reads.antt =====
-- What is read of the portal's tables: pages of conversations and of turns, and an image.
use Prim.Native.String.{String}
use opspilot_agent_platform.Prelude.{
  ℕ, Bool, true, ◌&&◌, ◌||◌, Option, none, some, List, [], ◌∷◌, ◌++◌, ◌==◌, text_eq, nat_eq, ltb,
  length, take, drop, keep, map, if◌then◌else◌,
}
use opspilot_agent_platform.Prelude.Dict.{is_some}
use opspilot_agent_platform.Prelude.Tables.{first, order_by}
use opspilot_agent_platform.Prelude.Exec.{pure, gets, or_raise, ◌>>=◌, ◌>>◌}
use opspilot_agent_platform.Portal.{
  not_found, Conversation, Turn, Image, Tables, StoreMethod, transaction, PublicTurn, public_turn,
  of_turn,
}
use opspilot_agent_platform.Portal.Turns.{owned_conversation, image_of}
use opspilot_agent_platform.Portal.Conversations.{Row, owned_by, comes_before}

unfoldable pub image : String → String → String → StoreMethod Image
image user_id conversation_id image_id = transaction do
  owned_conversation user_id conversation_id
  or_raise (← gets (λ s. first (image_of user_id conversation_id image_id) s.images)) not_found

reverse : {A : Type 0} → List A → List A
reverse [] = []
reverse (x ∷ xs) = reverse xs ++ x ∷ []

-- A conversation with its 50 newest turns, or those before one of them, the oldest first.
pub record Page : Type 0 where
  pub row : Conversation
  pub turns : List PublicTurn
  pub next : Option String

-- The order of identifiers in the database is an argument.
module _ (before : String → String → Bool) where
  -- `EXISTS (SELECT 1 FROM portal_turns …)`
  has_turns : Tables → Row → Bool
  has_turns s row = is_some (first (λ (t : Turn). t.conversation_id == row.0) s.turns)

  unfoldable pub list_conversations : String → ℕ → StoreMethod (List Row)
  unfolding owned_by comes_before has_turns
  list_conversations user_id offset = transaction do
    rows ← gets (λ s. keep (λ row. owned_by user_id row && has_turns s row) s.conversations)
    pure (take 50 (drop offset (order_by (comes_before before) rows)))

  -- `(created_at,id) < (…)`
  is_older : Turn → Turn → Bool
  is_older a b = ltb a.created_at b.created_at || (a.created_at == b.created_at && before a.id b.id)

  -- `ORDER BY created_at DESC, id DESC`
  is_later : Turn → Turn → Bool
  unfolding is_older
  is_later a b = is_older b a

  within : Option Turn → Turn → Bool
  unfolding is_older
  within none t = true
  within (some anchor) t = is_older t anchor

  find_anchor : String → Option String → StoreMethod (Option Turn)
  find_anchor conversation_id none = pure none
  find_anchor conversation_id (some i) = do
    row ← or_raise (← gets (λ s. first (of_turn conversation_id i) s.turns)) not_found
    pure (some row)

  -- The identifier of the oldest turn shown, where there are older ones.
  next_before : List Turn → List Turn → Option String
  next_before found [] = none
  next_before found (t ∷ ts) = if ltb 50 (length found) then some t.id else none

  unfoldable pub conversation : String → String → Option String → StoreMethod Page
  unfolding is_later within find_anchor next_before reverse
  conversation user_id conversation_id boundary = transaction do
    c ← owned_conversation user_id conversation_id
    anchor ← find_anchor conversation_id boundary
    rows ← gets (λ s. keep (λ t. t.conversation_id == conversation_id && within anchor t) s.turns)
    let found = take 51 (order_by is_later rows)
    let turns = reverse (take 50 found)
    pure (record { row = c; turns = map public_turn turns; next = next_before found turns })
