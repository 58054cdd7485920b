-- ===== src/Portal/Api/Releases.antt =====
-- An action gives its claim of the turn back, however the run ends.
use Prim.Native.String.{String}
use opspilot_agent_platform.Prelude.{
  ◌≡◌, refl, ◌≢◌, sym, false, Option, text_eq, arith, inl, inr, Bool-cases,
}
use mathlib.Core.Path.{subst}
use opspilot_agent_platform.Prelude.Exec.{Result, ok, err, raise_if, ◌>>◌, bind_rule}
use opspilot_agent_platform.Portal.{PortalError, PublicTurn}
use opspilot_agent_platform.Portal.Turns.{turn, claim_action, is_vision}
use opspilot_agent_platform.Portal.Api.{
  Request, ApiError, http_error, Site, Action, on_tables, catch, act, check_draft, perform_error,
  perform_and_finish, reread, needs_text, after_claim,
}
use opspilot_agent_platform.Portal.Api.Claims.{
  Idle, turn-keeps, claim_action-Claimed, claim_action-refused,
}
use opspilot_agent_platform.Portal.Api.Rules.{catch_rule, site_at, turn-shown}
use opspilot_agent_platform.Portal.Api.Holding.{
  Held, Released, HeldOrReleased, check_draft-holds, reread-holds,
}
use opspilot_agent_platform.Portal.Api.Performs.{
  Readable, Performed, perform_and_finish-Performed, perform_error-Released,
}

module _ {World : Type 0} (call : Request World) (action : Action)
    (readable : Readable call.runs call.turn_id action) where
  after_claim-Released :
      (before : PublicTurn) (expected : Option String) (s : Site World)
      → Held call s
      → Released call (after_claim call before action expected s)
  unfolding after_claim
  after_claim-Released before expected s h =
      bind_rule (reread call before)
        (λ t. do
          check_draft call t action expected
          catch (perform_and_finish call action) (perform_error call t))
        s (Released call) (λ t s' q. checked t s' (subst Holds q (reread-holds call before s h)))
        (λ e s' q. subst Holds q (reread-holds call before s h))
    where
      Holds : {A : Type 0} → Result ApiError A × Site World → Type 0
      Holds = HeldOrReleased call

      run :
          (t : PublicTurn) (s : Site World)
          → Held call s
          → Released call (catch (perform_and_finish call action) (perform_error call t) s)
      run t s h =
          let performed = perform_and_finish-Performed call action readable s h in
          catch_rule (perform_and_finish call action) (perform_error call t) s (Released call)
            (λ p s' q. subst (Performed call action readable s) q performed)
            (λ e s' q.
              let (held, raised) = subst (Performed call action readable s) q performed in
              perform_error-Released call action readable t e s s' held raised)

      checked :
          (t : PublicTurn) (s : Site World)
          → Held call s
          → Released call (
              (do
                check_draft call t action expected
                catch (perform_and_finish call action) (perform_error call t))
                s)
      checked t s h =
          let c = check_draft-holds call t action expected s h in
          bind_rule (check_draft call t action expected)
            (λ _. catch (perform_and_finish call action) (perform_error call t)) s (Released call)
            (λ v s' q. run t s' (subst Holds q c)) (λ e s' q. subst Holds q c)

  -- The claim of the action, and what follows it, in a conversation with no active turn.
  claim_and_run-Released :
      (before : PublicTurn) (expected : Option String) (s : Site World)
      → Idle call.conversation_id s.tables
      → (turn call.user_id call.conversation_id call.turn_id s.tables).0 ≡ ok before
      → is_vision before.kind ≡ false
      → Released call (
          (do
            on_tables (claim_action call.claimed_at call.user_id call.conversation_id call.turn_id)
            after_claim call before action expected)
            s)
  unfolding on_tables
  claim_and_run-Released before expected s idle shown business =
      bind_rule
        (on_tables (claim_action call.claimed_at call.user_id call.conversation_id call.turn_id))
        (λ _. after_claim call before action expected) s (Released call)
        (λ v s' q. after_claim-Released before expected s' (
          site_at (λ z. Held call z) q
            (claim_action-Claimed call.user_id call.conversation_id call.turn_id call.claimed_at
              before s.tables shown business (ground arith))))
        (λ e s' q.
          site_at (λ z. Idle call.conversation_id z.tables) q
            (go
              (claim_action call.claimed_at call.user_id call.conversation_id call.turn_id
                s.tables).0
              refl (ground arith)))
    where
      go :
          (r : Result PortalError Unit)
          → (claim_action call.claimed_at call.user_id call.conversation_id call.turn_id s.tables).0
            ≡ r
          → r ≢ ok tt
          → Idle call.conversation_id
              (claim_action call.claimed_at call.user_id call.conversation_id call.turn_id
                s.tables).1
      go (ok v) q n = absurd (n refl)
      go (err e) q n =
          subst (Idle call.conversation_id)
            (sym (
              claim_action-refused call.user_id call.conversation_id call.turn_id call.claimed_at e
                s.tables q))
            idle

  -- For any runs of the agent and any action on a turn: if the conversation had no active turn, then it
  -- has none after `act`, whether it returns a turn or raises. The condition is that a run whose action
  -- has reported that the order changed can be read again.
  pub act_releases :
      (expected : Option String) (s : Site World)
      → Idle call.conversation_id s.tables
      → Released call (act call action expected s)
  unfolding act on_tables
  act_releases expected s idle =
      bind_rule (on_tables (turn call.user_id call.conversation_id call.turn_id))
        (λ before. do
          raise_if (is_vision before.kind) (http_error 409)
          raise_if (needs_text action) (http_error 400)
          on_tables (claim_action call.claimed_at call.user_id call.conversation_id call.turn_id)
          after_claim call before action expected)
        s (Released call) (λ before s' q. claim before s' (kept s' q) (shown before s' q))
        (λ e s' q. kept s' q)
    where
      kept :
          {r : Result ApiError PublicTurn} (s' : Site World)
          → on_tables (turn call.user_id call.conversation_id call.turn_id) s ≡ (r, s')
          → Idle call.conversation_id s'.tables
      kept s' q =
          site_at (λ z. Idle call.conversation_id z.tables) q
            (subst (Idle call.conversation_id)
              (sym (turn-keeps call.user_id call.conversation_id call.turn_id s.tables)) idle)

      shown :
          (before : PublicTurn) (s' : Site World)
          → on_tables (turn call.user_id call.conversation_id call.turn_id) s ≡ (ok before, s')
          → (turn call.user_id call.conversation_id call.turn_id s'.tables).0 ≡ ok before
      shown before s' q = turn-shown call.user_id call.conversation_id call.turn_id before s s' q

      claim :
          (before : PublicTurn) (s : Site World)
          → Idle call.conversation_id s.tables
          → (turn call.user_id call.conversation_id call.turn_id s.tables).0 ≡ ok before
          → Released call (
              (do
                raise_if (is_vision before.kind) (http_error 409)
                raise_if (needs_text action) (http_error 400)
                on_tables
                    (claim_action call.claimed_at call.user_id call.conversation_id call.turn_id)
                after_claim call before action expected)
                s)
      claim before s idle read = elim (Bool-cases (is_vision before.kind)) [
        | inl v ↦ rw v idle
        | inr business ↦ elim (Bool-cases (needs_text action)) [
          | inl n ↦ rw (business, n) idle
          | inr n ↦ rw (business, n) (claim_and_run-Released before expected s idle read business)
        ]
      ]
