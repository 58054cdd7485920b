-- ===== src/Portal/Api/Claims.antt =====
-- A turn that an action has claimed, and a conversation with no active turn.
use Prim.Native.String.{String}
use opspilot_agent_platform.Prelude.{
  ℕ, ◌≡◌, refl, true, false, none, some, ◌==◌, text_eq, eq_iff, arith, inl, inr, Option-cases,
}
use opspilot_agent_platform.Prelude.Dict.{lookup, lookup-insert}
use opspilot_agent_platform.Prelude.Tables.{first}
use opspilot_agent_platform.Prelude.Exec.{ok, err}
use opspilot_agent_platform.Portal.{
  PortalError, Conversation, Turn, Tables, PublicTurn, public_turn, of_turn,
}
use opspilot_agent_platform.Portal.Turns.{
  Ending, owned_conversation, turn, claim_action, finish_turn, is_vision, same_id, end_turn,
  release, put_conversation, was_interrupted,
}
use opspilot_agent_platform.Portal.Step.{OwnCase, own_cases, touch}
use opspilot_agent_platform.Portal.Step.Turns.{changed}
use opspilot_agent_platform.Portal.Running.{active}

-- The conversation has no active turn.
abbrev pub Idle : String → Tables → Type 0
Idle k t = active k t.conversations ≡ none

module _ (user_id k i : String) where
  -- The turn is the active one of its owner's conversation, and was not interrupted.
  pub record Claimed (t : Tables) : Type 0 where
    pub c : Conversation
    pub row : Turn
    pub there : lookup k t.conversations ≡ some c
    pub own : (c.owner_user_id == user_id) ≡ true
    pub claimed : c.active_turn_id ≡ some i
    pub found : first (of_turn k i) t.turns ≡ some row
    pub current : was_interrupted row ≡ false

  pub finish_turn-Idle :
      (now : ℕ) (e : Ending) (t : Tables)
      → Claimed t
      → Idle k (finish_turn now user_id k i e none t).1
  unfolding finish_turn owned_conversation release same_id end_turn
  finish_turn-Idle now e t h = ground (
    arith,
    changed k i (end_turn now e) t h.row (λ x. refl) h.found,
    lookup-insert k k (record h.c { active_turn_id = none; updated_at = now }) t.conversations,
    eq_iff k k,
    eq_iff i i,
  )

  pub turn-keeps : (t : Tables) → (turn user_id k i t).1 ≡ t
  unfolding turn
  turn-keeps t = elim (own_cases user_id k t) [
    | OwnCase.refused e q ↦ ground arith
    | OwnCase.found c f own q ↦ elim (Option-cases (first (of_turn k i) t.turns)) [
      | inl n ↦ ground arith
      | inr (row, n) ↦ ground arith
    ]
  ]

  -- A claim that fails changes nothing, and one that succeeds on a turn of the agent has claimed it.
  pub claim_action-Claimed :
      (now : ℕ) (p : PublicTurn) (t : Tables)
      → (turn user_id k i t).0 ≡ ok p
      → is_vision p.kind ≡ false
      → (claim_action now user_id k i t).0 ≡ ok tt
      → Claimed (claim_action now user_id k i t).1
  unfolding turn claim_action public_turn put_conversation was_interrupted
  claim_action-Claimed now p t shown business done = elim (own_cases user_id k t) [
    | OwnCase.refused e q ↦ absurd (ground arith)
    | OwnCase.found c f own q ↦ elim (Option-cases c.active_turn_id) [
      | inr (a, n) ↦ absurd (ground arith)
      | inl n ↦ elim (Option-cases (first (of_turn k i) t.turns)) [
        | inl m ↦ absurd (ground arith)
        | inr (row, m) ↦
            let again = changed k i (touch now) t row (λ x. refl) m in
            let c' = record c { active_turn_id = some i } in
            let there = lookup-insert k k c' t.conversations in
            record {
              c = c';
              row = touch now row;
              there = ground (arith, there, eq_iff k k);
              own = own;
              claimed = refl;
              found = ground arith;
              current = ground arith;
            }
      ]
    ]
  ]

  pub claim_action-refused :
      (now : ℕ) (e : PortalError) (t : Tables)
      → (claim_action now user_id k i t).0 ≡ err e
      → (claim_action now user_id k i t).1 ≡ t
  unfolding claim_action
  claim_action-refused now e t done = elim (own_cases user_id k t) [
    | OwnCase.refused e q ↦ ground arith
    | OwnCase.found c f own q ↦ elim (Option-cases c.active_turn_id) [
      | inr (a, n) ↦ ground arith
      | inl n ↦ elim (Option-cases (first (of_turn k i) t.turns)) [
        | inl m ↦ ground arith
        | inr (row, m) ↦ absurd (ground arith)
      ]
    ]
  ]
