-- ===== src/Portal/Step/Conversations.antt =====
-- Opening a conversation and adding an image are among the steps.
use Prim.Native.String.{String}
use opspilot_agent_platform.Prelude.{
  ℕ, refl, Bool, ◌==◌, text_eq, arith, inl, inr, Option-cases, Bool-cases, leb,
}
use opspilot_agent_platform.Prelude.Dict.{lookup}
use opspilot_agent_platform.Prelude.Tables.{first, count_where}
use opspilot_agent_platform.Portal.{Image, Tables}
use opspilot_agent_platform.Portal.Conversations.{
  Upload, create_conversation, add_image, owned_by, max_conversations, new_conversation, has_room,
  is_valid_image, new_image,
}
use opspilot_agent_platform.Portal.Step.{Step, stays, opens, uploads, OwnCase, own_cases, Step-to}

pub create_conversation-Step :
    (before : String → String → Bool) (k : String) (now : ℕ) (user_id title : String) (s : Tables)
    → Step s (create_conversation before k now user_id title s).1
unfolding create_conversation new_conversation
create_conversation-Step before k now user_id title s =
    elim (Option-cases (lookup k s.conversations)) [
      | inr (c, f) ↦ Step-to stays (ground arith)
      | inl n ↦
          elim (Bool-cases
            (leb max_conversations (count_where (owned_by user_id) s.conversations))) [
              | inl many ↦ Step-to stays (ground arith)
              | inr few ↦
                  Step-to (opens k (new_conversation user_id title now) n refl (ground arith))
                    (ground arith)
            ]
    ]

pub add_image-Step :
    (fresh user_id k : String) (u : Upload) (s : Tables) → Step s (add_image fresh user_id k u s).1
unfolding add_image has_room new_image
add_image-Step fresh user_id k u s = elim (own_cases user_id k s) [
  | OwnCase.refused e q ↦ Step-to stays (ground arith)
  | OwnCase.found c f own q ↦ elim (Bool-cases (has_room user_id u s)) [
    | inr no_room ↦ Step-to stays (ground arith)
    | inl room ↦ elim (Bool-cases (is_valid_image u)) [
      | inr invalid ↦ Step-to stays (ground arith)
      | inl valid ↦ elim (Option-cases (first (λ (i : Image). i.id == fresh) s.images)) [
        | inr (old, n) ↦ Step-to stays (ground arith)
        | inl n ↦
            Step-to (uploads (new_image fresh user_id k u) (ground arith) (ground arith))
              (ground arith)
      ]
    ]
  ]
]
