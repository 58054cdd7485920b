-- ===== src/Portal/Api/Asked.antt =====
-- How the claim of a question can end: refused, found again, or with a new turn that is now active.
use Prim.Native.String.{String}
use opspilot_agent_platform.Prelude.{
  ℕ, ◌≡◌, refl, Bool, true, false, none, some, List, [], ◌∷◌, ◌++◌, ◌==◌, text_eq, eq_iff, arith,
  inl, inr, Option-cases, Bool-cases,
}
use opspilot_agent_platform.Prelude.Dict.{lookup, lookup-insert}
use opspilot_agent_platform.Prelude.Tables.{first, first-append_new}
use opspilot_agent_platform.Prelude.Exec.{Result, ok, err}
use opspilot_agent_platform.Portal.{
  PortalError, Conversation, Turn, Tables, Kind, PublicTurn, public_turn, transaction, of_request,
  of_turn,
}
use opspilot_agent_platform.Portal.Turns.{
  TurnRequest, put_conversation, claim_turn, claim_new, new_turn, require_images,
  owned_conversation, titled, unknown_in, was_interrupted, same_id,
}
use opspilot_agent_platform.Portal.Step.{OwnCase, own_cases}
use opspilot_agent_platform.Portal.Step.Turns.{require_images_keeps}
use opspilot_agent_platform.Portal.Api.Claims.{Idle, Claimed}
use mathlib.Core.Path.{subst}

module _ (user_id k request_id : String) where
  pub data Asked (s : Tables) (o : Result PortalError (PublicTurn × Bool) × Tables) : Type 0 where
    refused : (e : PortalError) → o ≡ (err e, s) → Asked s o
    repeated :
        (t : Turn)
        → first (of_request k request_id) s.turns ≡ some t
        → o ≡ (ok (public_turn t, false), s)
        → Asked s o
    created :
        (t : PublicTurn) (s' : Tables)
        → first (of_request k request_id) s.turns ≡ none
        → o ≡ (ok (t, true), s')
        → Idle k s
        → Claimed user_id k t.id s'
        → Asked s o

-- No row has an identifier that no row has, in any conversation.
first-of_turn :
    (k i : String) (ts : List Turn)
    → first (λ (t : Turn). t.id == i) ts ≡ none
    → first (of_turn k i) ts ≡ none
unfolding first
first-of_turn k i [] h = refl
first-of_turn k i (t ∷ ts) h = ground (arith, first-of_turn k i ts)

module _ (fingerprint : TurnRequest → String) (fresh : String) (now : ℕ) (user_id k : String)
    (p : TurnRequest) (is : List String) (kind : Kind) (s : Tables) where
  claimed_by : Conversation → Conversation
  claimed_by c = record c {
    active_turn_id = some fresh;
    updated_at = now;
    title = titled c.title p.message;
  }

  added : Conversation → Tables
  unfolding claimed_by put_conversation
  added c =
      put_conversation k (claimed_by c)
        (record s { turns = s.turns ++ new_turn (fingerprint p) fresh now k p is kind ∷ [] })

  added-Claimed :
      (c : Conversation)
      → (c.owner_user_id == user_id) ≡ true
      → first (λ (t : Turn). t.id == fresh) s.turns ≡ none
      → Claimed user_id k fresh (added c)
  unfolding added claimed_by put_conversation new_turn was_interrupted same_id
  added-Claimed c own n =
      let t = new_turn (fingerprint p) fresh now k p is kind in
      let passes : of_turn k fresh t ≡ true = ground (arith, eq_iff k k, eq_iff fresh fresh) in
      record {
        c = claimed_by c;
        row = t;
        there = ground (arith, lookup-insert k k (claimed_by c) s.conversations, eq_iff k k);
        own = own;
        claimed = refl;
        found =
            first-append_new (of_turn k fresh) s.turns t (first-of_turn k fresh s.turns n) passes;
        current = ground arith;
      }

  abbrev Ends : Conversation → Type 0
  Ends c =
      Asked user_id k p.request_id s
        (transaction (claim_new fingerprint fresh now user_id k c p is kind) s)

  claim_idle-Asked :
      (c : Conversation)
      → lookup k s.conversations ≡ some c
      → (c.owner_user_id == user_id) ≡ true
      → c.active_turn_id ≡ none
      → first (unknown_in k) s.turns ≡ none
      → first (of_request k p.request_id) s.turns ≡ none
      → (o : Result PortalError (Unit {0})) → (require_images user_id k is s).0 ≡ o
      → Ends c
  unfolding claim_new added claimed_by public_turn new_turn
  claim_idle-Asked c f own n x m (err e) q =
      let kept = require_images_keeps user_id k is s in refused e (ground arith)
  claim_idle-Asked c f own n x m (ok u) q =
      let kept = require_images_keeps user_id k is s in
      elim (Option-cases (first (λ (t : Turn). t.id == fresh) s.turns)) [
        | inr (v, y) ↦ refused PortalError.integrity_error (ground arith)
        | inl y ↦
            created (public_turn (new_turn (fingerprint p) fresh now k p is kind)) (added c) m
              (ground arith) (ground arith) (added-Claimed c own y)
      ]

  claim_new-Asked :
      (c : Conversation)
      → lookup k s.conversations ≡ some c
      → (c.owner_user_id == user_id) ≡ true
      → first (of_request k p.request_id) s.turns ≡ none
      → Ends c
  unfolding claim_new
  claim_new-Asked c f own m = elim (Option-cases c.active_turn_id) [
    | inr (a, n) ↦ refused PortalError.conflict (ground arith)
    | inl n ↦ elim (Option-cases (first (unknown_in k) s.turns)) [
      | inr (u, x) ↦ refused PortalError.conflict (ground arith)
      | inl x ↦ claim_idle-Asked c f own n x m (require_images user_id k is s).0 refl
    ]
  ]

  pub claim_turn-Asked :
      Asked user_id k p.request_id s (claim_turn fingerprint fresh now user_id k p is kind s)
  unfolding claim_turn
  claim_turn-Asked = elim (own_cases user_id k s) [
    | OwnCase.refused e q ↦ refused e (ground arith)
    | OwnCase.found c f own q ↦ elim (Option-cases (first (of_request k p.request_id) s.turns)) [
      | inl m ↦
          subst (Asked user_id k p.request_id s) (found_none c q m) (claim_new-Asked c f own m)
      | inr (t, m) ↦ elim (Bool-cases (t.request_hash == fingerprint p)) [
        | inl same ↦ repeated t m (ground arith)
        | inr differs ↦ refused PortalError.conflict (ground arith)
      ]
    ]
  ]
    where
      found_none :
          (c : Conversation)
          → owned_conversation user_id k s ≡ (ok c, s)
          → first (of_request k p.request_id) s.turns ≡ none
          → transaction (claim_new fingerprint fresh now user_id k c p is kind) s
            ≡ claim_turn fingerprint fresh now user_id k p is kind s
      found_none c q m = ground arith
