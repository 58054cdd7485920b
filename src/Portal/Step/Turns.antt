-- ===== src/Portal/Step/Turns.antt =====
-- Each call on a turn is one of the steps.
use Prim.Native.String.{String}
use opspilot_agent_platform.Prelude.{
  ℕ, ◌≡◌, refl, false, Option, none, some, List, [], ◌∷◌, ◌==◌, text_eq, arith, inl, inr,
  Option-cases, Bool-cases,
}
use opspilot_agent_platform.Prelude.Dict.{lookup}
use opspilot_agent_platform.Prelude.Tables.{first, first-update, first_passes}
use opspilot_agent_platform.Prelude.Exec.{Result, ok, err}
use opspilot_agent_platform.Portal.{
  PortalError, Conversation, Turn, Tables, Kind, transaction, of_request, of_turn,
}
use opspilot_agent_platform.Portal.Turns.{
  TurnRequest, Ending, change_turn, require_images, new_turn, end_turn, interrupt_turn,
  was_interrupted, claim_turn, claim_action, finish_turn, recover_interrupted_vision, moved_on,
  may_interrupt, is_vision, claim_new, unknown_in, titled,
}
use opspilot_agent_platform.Portal.Step.{
  Step, stays, claims, acts, ends, interrupts, OwnCase, own_cases, Step-to,
}

pub claim_action-Step :
    (now : ℕ) (user_id k i : String) (s : Tables) → Step s (claim_action now user_id k i s).1
unfolding claim_action
claim_action-Step now user_id k i s = elim (own_cases user_id k s) [
  | OwnCase.refused e q ↦ Step-to stays (ground arith)
  | OwnCase.found c f own q ↦ elim (Option-cases c.active_turn_id) [
    | inr (a, n) ↦ Step-to stays (ground arith)
    | inl n ↦ elim (Option-cases (first (of_turn k i) s.turns)) [
      | inl m ↦ Step-to stays (ground arith)
      | inr (t, m) ↦ Step-to (acts k i now c t f n m) (ground arith)
    ]
  ]
]

-- The changed row is found again.
pub changed :
    (k i : String) (f : Turn → Turn) (s : Tables) (t : Turn)
    → ((x : Turn) → of_turn k i (f x) ≡ of_turn k i x)
    → first (of_turn k i) s.turns ≡ some t
    → first (of_turn k i) (change_turn k i f s).turns ≡ some (f t)
unfolding change_turn
changed k i f s t same h = ground (
  arith,
  first-update (of_turn k i) (of_turn k i) f s.turns same,
  first_passes (of_turn k i) s.turns t h,
)

pub finish_turn-Step :
    (now : ℕ) (user_id k i : String) (e : Ending) (expected : Option (ℕ × Option String))
    (s : Tables)
    → (e.status == "RUNNING") ≡ false
    → Step s (finish_turn now user_id k i e expected s).1
unfolding finish_turn end_turn
finish_turn-Step now user_id k i e expected s ended = elim (own_cases user_id k s) [
  | OwnCase.refused e q ↦ Step-to stays (ground arith)
  | OwnCase.found c f own q ↦ elim (Option-cases (first (of_turn k i) s.turns)) [
    | inl m ↦ Step-to stays (ground arith)
    | inr (t, m) ↦ elim (Bool-cases (was_interrupted t)) [
      | inl late ↦ Step-to stays (ground arith)
      | inr current ↦ elim (Bool-cases (moved_on expected t c)) [
        | inl moved ↦ Step-to stays (ground arith)
        | inr same ↦
            Step-to (ends k i now e c t f m current ended)
              (ground (arith, changed k i (end_turn now e) s t (λ x. refl) m))
      ]
    ]
  ]
]

pub recover-Step :
    (now : ℕ) (user_id k i : String) (s : Tables)
    → Step s (recover_interrupted_vision now user_id k i s).1
unfolding recover_interrupted_vision may_interrupt interrupt_turn
recover-Step now user_id k i s = elim (own_cases user_id k s) [
  | OwnCase.refused e q ↦ Step-to stays (ground arith)
  | OwnCase.found c f own q ↦ elim (Option-cases (first (of_turn k i) s.turns)) [
    | inl m ↦ Step-to stays (ground arith)
    | inr (t, m) ↦ elim (Bool-cases (is_vision t.kind)) [
      | inr business ↦ Step-to stays (ground arith)
      | inl image ↦ elim (Bool-cases (t.status == "RUNNING")) [
        | inr ended ↦ Step-to stays (ground arith)
        | inl runs ↦ elim (Bool-cases (may_interrupt now i c t)) [
          | inr waits ↦ Step-to stays (ground arith)
          | inl may ↦
              Step-to (interrupts k i now c t f m runs)
                (ground (arith, changed k i (interrupt_turn now) s t (λ x. refl) m))
        ]
      ]
    ]
  ]
]

-- Looking for the images changes nothing.
pub require_images_keeps :
    (user_id k : String) (is : List String) (s : Tables) → (require_images user_id k is s).1 ≡ s
unfolding require_images
require_images_keeps user_id k [] s = refl
require_images_keeps user_id k (i ∷ is) s = ground (arith, require_images_keeps user_id k is s)

module _ (fingerprint : TurnRequest → String) (fresh : String) (now : ℕ) (user_id k : String)
    (p : TurnRequest) (is : List String) (kind : Kind) (s : Tables) where
  claim_new-Step :
      (c : Conversation)
      → lookup k s.conversations ≡ some c
      → first (of_request k p.request_id) s.turns ≡ none
      → Step s (transaction (claim_new fingerprint fresh now user_id k c p is kind) s).1
  unfolding claim_new new_turn
  claim_new-Step c f m =
      let kept = require_images_keeps user_id k is s in
      elim (Option-cases c.active_turn_id) [
        | inr (a, n) ↦ Step-to stays (ground arith)
        | inl n ↦ elim (Option-cases (first (unknown_in k) s.turns)) [
          | inr (u, x) ↦ Step-to stays (ground arith)
          | inl x ↦ elim (Option-cases (first (λ (t : Turn). t.id == fresh) s.turns)) [
            | inr (u, y) ↦ Step-to stays (ground arith)
            | inl y ↦ go c f m n x y (require_images user_id k is s).0 refl kept
          ]
        ]
      ]
    where
      go :
          (c : Conversation)
          → lookup k s.conversations ≡ some c
          → first (of_request k p.request_id) s.turns ≡ none
          → c.active_turn_id ≡ none
          → first (unknown_in k) s.turns ≡ none
          → first (λ (t : Turn). t.id == fresh) s.turns ≡ none
          → (o : Result PortalError (Unit {0})) → (require_images user_id k is s).0 ≡ o
          → (require_images user_id k is s).1 ≡ s
          → Step s (transaction (claim_new fingerprint fresh now user_id k c p is kind) s).1
      go c f m n x y (err e) q kept = Step-to stays (ground arith)
      go c f m n x y (ok u) q kept =
          Step-to
            (claims c
              (record c {
                active_turn_id = some fresh;
                updated_at = now;
                title = titled c.title p.message;
              })
              (new_turn (fingerprint p) fresh now k p is kind) f n m y refl refl)
            (ground arith)

  pub claim_turn-Step : Step s (claim_turn fingerprint fresh now user_id k p is kind s).1
  unfolding claim_turn
  claim_turn-Step = elim (own_cases user_id k s) [
    | OwnCase.refused e q ↦ Step-to stays (ground arith)
    | OwnCase.found c f own q ↦ elim (Option-cases (first (of_request k p.request_id) s.turns)) [
      | inl m ↦ Step-to (claim_new-Step c f m) (ground arith)
      | inr (t, m) ↦ Step-to stays (ground arith)
    ]
  ]
