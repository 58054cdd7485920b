-- ===== src/Portal/Calls.antt =====
-- Any sequence of the portal's calls.
use Prim.Native.String.{String}
use opspilot_agent_platform.Prelude.{ℕ, ◌≡◌, Bool, false, Option, List, [], ◌∷◌, ◌==◌, text_eq, All}
use opspilot_agent_platform.Portal.{Tables, Kind}
use opspilot_agent_platform.Portal.Turns.{
  TurnRequest, Ending, claim_turn, claim_action, finish_turn, recover_interrupted_vision,
}
use opspilot_agent_platform.Portal.Conversations.{Upload, create_conversation, add_image}
use opspilot_agent_platform.Portal.Step.{Step}
use opspilot_agent_platform.Portal.Step.Turns.{
  claim_turn-Step, claim_action-Step, finish_turn-Step, recover-Step,
}
use opspilot_agent_platform.Portal.Step.Conversations.{create_conversation-Step, add_image-Step}

-- A call that writes; the environment chooses the times and the identifiers.
pub data Call : Type 0 where
  create_call : String → ℕ → String → String → Call
  image_call : String → String → String → Upload → Call
  claim_call : String → ℕ → String → String → TurnRequest → List String → Kind → Call
  action_call : ℕ → String → String → String → Call
  recover_call : ℕ → String → String → String → Call
  finish_call : ℕ → String → String → String → Ending → Option (ℕ × Option String) → Call

-- A turn is not finished with the status of a running one.
abbrev pub Finishes : Call → Type 0
Finishes (finish_call now user_id k i e expected) = (e.status == "RUNNING") ≡ false
Finishes _ = Unit

module _ (before : String → String → Bool) (fingerprint : TurnRequest → String) where
  unfoldable pub after : Call → Tables → Tables
  after (create_call k now user_id title) s = (create_conversation before k now user_id title s).1
  after (image_call fresh user_id k u) s = (add_image fresh user_id k u s).1
  after (claim_call fresh now user_id k p is kind) s =
      (claim_turn fingerprint fresh now user_id k p is kind s).1
  after (action_call now user_id k i) s = (claim_action now user_id k i s).1
  after (recover_call now user_id k i) s = (recover_interrupted_vision now user_id k i s).1
  after (finish_call now user_id k i e expected) s = (finish_turn now user_id k i e expected s).1

  unfoldable pub after_all : List Call → Tables → Tables
  after_all [] s = s
  after_all (c ∷ cs) s = after_all cs (after c s)

  pub after-Step : (c : Call) (s : Tables) → Finishes c → Step s (after c s)
  unfolding after
  after-Step (create_call k now user_id title) s h =
      create_conversation-Step before k now user_id title s
  after-Step (image_call fresh user_id k u) s h = add_image-Step fresh user_id k u s
  after-Step (claim_call fresh now user_id k p is kind) s h =
      claim_turn-Step fingerprint fresh now user_id k p is kind s
  after-Step (action_call now user_id k i) s h = claim_action-Step now user_id k i s
  after-Step (recover_call now user_id k i) s h = recover-Step now user_id k i s
  after-Step (finish_call now user_id k i e expected) s h =
      finish_turn-Step now user_id k i e expected s h

  -- What every step keeps holds after all calls.
  pub after_all-keeps :
      (P : Tables → Type 0)
      → ((s t : Tables) → Step s t → P s → P t)
      → (cs : List Call) (s : Tables) → All Finishes cs
      → P s
      → P (after_all cs s)
  unfolding after_all
  after_all-keeps P step [] s a h = h
  after_all-keeps P step (c ∷ cs) s (f, a) h =
      after_all-keeps P step cs (after c s) a (step s (after c s) (after-Step c s f) h)
