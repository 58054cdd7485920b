-- ===== src/Portal/Api/Ends.antt =====
-- Ending a claimed turn gives its claim back.
use Prim.Native.String.{String}
use opspilot_agent_platform.Prelude.{ℕ, ◌≡◌, refl, none, text_eq, arith}
use opspilot_agent_platform.Prelude.Exec.{Result, ok, err, raise, ◌>>◌, bind_rule}
use opspilot_agent_platform.Portal.{PublicTurn, public_turn}
use opspilot_agent_platform.Portal.Turns.{Ending, owned_conversation, finish_turn, end_turn}
use opspilot_agent_platform.Portal.Step.Turns.{changed}
use opspilot_agent_platform.Portal.Api.{ApiError, Site, Route, on_tables}
use opspilot_agent_platform.Portal.Api.Claims.{Idle, Claimed, finish_turn-Idle}
use opspilot_agent_platform.Portal.Api.Rules.{site_at}

module _ {World : Type 0} (user_id k i : String) (finished_at : ℕ) where
  abbrev pub ends : Ending → Route World PublicTurn
  ends e = on_tables (finish_turn finished_at user_id k i e none)

  pub ends-Idle :
      (e : Ending) (s : Site World) → Claimed user_id k i s.tables → Idle k (ends e s).1.tables
  unfolding on_tables
  ends-Idle e s h = finish_turn-Idle user_id k i finished_at e s.tables h

  -- Whatever is raised after the end was written, the claim is released.
  pub ends-raise :
      (A : Type 0) (e : Ending) (x : ApiError) (s : Site World)
      (Q : Result ApiError A × Site World → Type 0)
      → Claimed user_id k i s.tables
      → ((y : ApiError) (s' : Site World) → Idle k s'.tables → Q (err y, s'))
      → Q ((do ends e; raise x) s)
  ends-raise A e x s Q h raised =
      bind_rule (ends e) (λ _. raise x) s Q
        (λ p s' q. raised x s' (site_at (λ z. Idle k z.tables) q (ends-Idle e s h)))
        (λ y s' q. raised y s' (site_at (λ z. Idle k z.tables) q (ends-Idle e s h)))

  pub ends-ok :
      (e : Ending) (s : Site World)
      → Claimed user_id k i s.tables
      → (p : PublicTurn) × ((ends e s).0 ≡ ok p)
  unfolding on_tables finish_turn owned_conversation end_turn
  ends-ok e s h =
      let again = changed k i (end_turn finished_at e) s.tables h.row (λ x. refl) h.found in
      (public_turn (end_turn finished_at e h.row), ground arith)
