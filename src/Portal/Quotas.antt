-- ===== src/Portal/Quotas.antt =====
-- The quotas of conversations and images hold for every user, whatever calls are made.
use Prim.Native.String.{String}
use opspilot_agent_platform.Prelude.{
  ℕ, ◌+◌, ◌≤◌, ◌≡◌, refl, Bool, none, some, List, [], ◌∷◌, ◌++◌, ◌==◌, text_eq, eq_iff, arith, All,
  length, if◌then◌else◌,
}
use opspilot_agent_platform.Prelude.Dict.{Dict, lookup, insert}
use opspilot_agent_platform.Prelude.Tables.{count_where, count-append}
use opspilot_agent_platform.Portal.{Conversation, Turn, Image, Tables}
use opspilot_agent_platform.Portal.Turns.{
  TurnRequest, put_conversation, change_turn, release, end_turn, interrupt_turn,
}
use opspilot_agent_platform.Portal.Conversations.{
  owned_by, image_by, bytes_of, max_conversations, max_images, max_bytes,
}
use opspilot_agent_platform.Portal.Step.{
  Step, stays, opens, uploads, claims, acts, ends, interrupts,
}
use opspilot_agent_platform.Portal.Calls.{Call, Finishes, after_all, after_all-keeps}

-- What a user may have.
abbrev pub WithinQuota : String → Tables → Type 0
WithinQuota user_id s =
    (count_where (owned_by user_id) s.conversations ≤ max_conversations)
    × (count_where (image_by user_id) s.images ≤ max_images)
    × (bytes_of user_id s.images ≤ max_bytes)

module _ (user_id : String) where
  count-insert_new :
      (k : String) (c : Conversation) (d : Dict String Conversation)
      → lookup k d ≡ none
      → count_where (owned_by user_id) (insert k c d)
        ≡ count_where (owned_by user_id) d + (if c.owner_user_id == user_id then 1 else 0)
  unfolding count_where insert lookup owned_by
  count-insert_new k c [] n = ground arith
  count-insert_new k c ((j, x) ∷ d) n = ground (arith, count-insert_new k c d)

  -- Writing a conversation of the same owner leaves the count.
  count-insert_same :
      (k : String) (c x : Conversation) (d : Dict String Conversation)
      → lookup k d ≡ some x
      → c.owner_user_id ≡ x.owner_user_id
      → count_where (owned_by user_id) (insert k c d) ≡ count_where (owned_by user_id) d
  unfolding count_where insert lookup owned_by
  count-insert_same k c x [] n e = ground arith
  count-insert_same k c x ((j, y) ∷ d) n e = ground (arith, count-insert_same k c x d)

  bytes-append :
      (i : Image) (is : List Image)
      → bytes_of user_id (is ++ i ∷ [])
        ≡ bytes_of user_id is + (if image_by user_id i then length i.content else 0)
  unfolding bytes_of
  bytes-append i [] = ground arith
  bytes-append i (x ∷ is) = ground (arith, bytes-append i is)

  release-WithinQuota :
      (k n : String) (now : ℕ) (c : Conversation) (f : Turn → Turn) (s : Tables)
      → lookup k s.conversations ≡ some c
      → WithinQuota user_id s
      → WithinQuota user_id (release k n now c (change_turn k n f s))
  unfolding release change_turn
  release-WithinQuota k n now c f s l h = ground (
    arith,
    count-insert_same k (record c { active_turn_id = none; updated_at = now }) c s.conversations,
  )

  Step-WithinQuota : (s t : Tables) → Step s t → WithinQuota user_id s → WithinQuota user_id t
  unfolding put_conversation change_turn image_by count_where
  Step-WithinQuota s t stays h = h
  Step-WithinQuota s t (opens k c n a q) h =
      ground (arith, count-insert_new k c s.conversations n, eq_iff c.owner_user_id user_id)
  Step-WithinQuota s t (uploads i n b) h = ground (
    arith,
    bytes-append i s.images,
    count-append (image_by user_id) s.images (i ∷ []),
    eq_iff i.owner_user_id user_id,
  )
  Step-WithinQuota s t (claims c c' u f a m n o b) h =
      ground (arith, count-insert_same u.conversation_id c' c s.conversations f o)
  Step-WithinQuota s t (acts k i now c u f a m) h =
      ground
        (arith, count-insert_same k (record c { active_turn_id = some i }) c s.conversations f refl)
  Step-WithinQuota s t (ends j n now e c u f m w x) h =
      release-WithinQuota j n now c (end_turn now e) s f h
  Step-WithinQuota s t (interrupts j n now c u f m w) h =
      release-WithinQuota j n now c (interrupt_turn now) s f h

-- Whatever calls are made, a user who is within the quotas stays within them: at most 200
-- conversations, 100 images and 100 MiB of image content; no call finishes a turn with the status
-- of a running one.
pub quotas_hold :
    (before : String → String → Bool) (fingerprint : TurnRequest → String) (user_id : String)
    (cs : List Call) (s : Tables)
    → WithinQuota user_id s
    → All Finishes cs
    → WithinQuota user_id (after_all before fingerprint cs s)
quotas_hold before fingerprint user_id cs s h a =
    after_all-keeps before fingerprint (WithinQuota user_id) (Step-WithinQuota user_id) cs s a h
