-- ===== src/Portal/Step.antt =====
-- What a call can do to the tables, with what the code has checked before it.
pub mod Turns
pub mod Conversations
use Prim.Native.String.{String}
use opspilot_agent_platform.Prelude.{
  ℕ, ◌+◌, ◌≡◌, refl, sym, Bool, true, false, not, ◌&&◌, Option, none, some, List, [], ◌∷◌, ◌++◌,
  ◌==◌, text_eq, arith, inl, inr, Option-cases, Bool-cases, leb, ltb, length,
}
use mathlib.Core.Path.{subst}
use opspilot_agent_platform.Prelude.Dict.{lookup, insert, is_some}
use opspilot_agent_platform.Prelude.Tables.{
  first, update_where, count_where, first-update, first_passes,
}
use opspilot_agent_platform.Prelude.Exec.{Result, ok, err}
use opspilot_agent_platform.Portal.{
  PortalError, not_found, conflict, Conversation, Turn, Image, Tables, Kind, transaction,
  of_request, of_turn,
}
use opspilot_agent_platform.Portal.Turns.{
  TurnRequest, Ending, put_conversation, change_turn, release, owned_conversation, require_images,
  new_turn, end_turn, interrupt_turn, was_interrupted, claim_turn, claim_action, finish_turn,
  recover_interrupted_vision, same_id, moved_on, may_interrupt, is_vision, claim_new, unknown_in,
  titled,
}
use opspilot_agent_platform.Portal.Conversations.{
  Upload, create_conversation, add_image, owned_by, image_by, bytes_of, max_conversations,
  max_images, max_bytes, new_conversation, has_room, is_valid_image, new_image,
}

abbrev pub touch : ℕ → Turn → Turn
touch now t = record t { updated_at = now }

abbrev pub with_turn : Turn → Tables → Tables
with_turn t s = record s { turns = s.turns ++ t ∷ [] }

abbrev pub with_image : Image → Tables → Tables
with_image i s = record s { images = s.images ++ i ∷ [] }

-- A change of the tables, with what the code has checked before it.
pub data Step (s : Tables) : Tables → Type 0 where
  stays : Step s s
  opens :
      (k : String) (c : Conversation)
      → lookup k s.conversations ≡ none
      → c.active_turn_id ≡ none
      → ltb (count_where (owned_by c.owner_user_id) s.conversations) max_conversations ≡ true
      → Step s (put_conversation k c s)
  uploads :
      (i : Image)
      → ltb (count_where (image_by i.owner_user_id) s.images) max_images ≡ true
      → leb (bytes_of i.owner_user_id s.images + length i.content) max_bytes ≡ true
      → Step s (with_image i s)
  claims :
      (c c' : Conversation) (t : Turn)
      → lookup t.conversation_id s.conversations ≡ some c
      → c.active_turn_id ≡ none
      → first (of_request t.conversation_id t.request_id) s.turns ≡ none
      → first (λ (u : Turn). u.id == t.id) s.turns ≡ none
      → c'.owner_user_id ≡ c.owner_user_id
      → c'.active_turn_id ≡ some t.id
      → Step s (put_conversation t.conversation_id c' (with_turn t s))
  acts :
      (k i : String) (now : ℕ) (c : Conversation) (t : Turn)
      → lookup k s.conversations ≡ some c
      → c.active_turn_id ≡ none
      → first (of_turn k i) s.turns ≡ some t
      → Step s (
          put_conversation k (record c { active_turn_id = some i }) (change_turn k i (touch now) s))
  ends :
      (k i : String) (now : ℕ) (e : Ending) (c : Conversation) (t : Turn)
      → lookup k s.conversations ≡ some c
      → first (of_turn k i) s.turns ≡ some t
      → was_interrupted t ≡ false
      → (e.status == "RUNNING") ≡ false
      → Step s (release k i now c (change_turn k i (end_turn now e) s))
  interrupts :
      (k i : String) (now : ℕ) (c : Conversation) (t : Turn)
      → lookup k s.conversations ≡ some c
      → first (of_turn k i) s.turns ≡ some t
      → (t.status == "RUNNING") ≡ true
      → Step s (release k i now c (change_turn k i (interrupt_turn now) s))

-- Looking up a conversation of the user.
pub data OwnCase (user_id k : String) (s : Tables) : Type 0 where
  refused : (e : PortalError) → owned_conversation user_id k s ≡ (err e, s) → OwnCase user_id k s
  found :
      (c : Conversation)
      → lookup k s.conversations ≡ some c
      → (c.owner_user_id == user_id) ≡ true
      → owned_conversation user_id k s ≡ (ok c, s)
      → OwnCase user_id k s

pub own_cases : (user_id k : String) (s : Tables) → OwnCase user_id k s
unfolding owned_conversation
own_cases user_id k s = elim (Option-cases (lookup k s.conversations)) [
  | inl n ↦ OwnCase.refused not_found (ground arith)
  | inr (c, f) ↦ elim (Bool-cases (c.owner_user_id == user_id)) [
    | inl own ↦ OwnCase.found c f own (ground arith)
    | inr other ↦ OwnCase.refused not_found (ground arith)
  ]
]

pub Step-to : {s t u : Tables} → Step s t → u ≡ t → Step s u
Step-to {s} step e = subst (λ (v : Tables). Step s v) (sym e) step
