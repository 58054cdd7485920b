-- ===== src/Portal/Api/Holding.antt =====
-- The claim of an action is held until the end of its turn is written.
use Prim.Native.String.{String}
use opspilot_agent_platform.Prelude.{
  ◌≡◌, sym, Option, none, some, text_eq, inl, inr, Bool-cases, if◌then◌else◌,
}
use mathlib.Core.Path.{subst}
use opspilot_agent_platform.Prelude.Exec.{Result, ok, err, Exec, pure, raise, ◌>>◌, bind_rule}
use opspilot_agent_platform.Portal.{PublicTurn}
use opspilot_agent_platform.Portal.Turns.{Ending, turn}
use opspilot_agent_platform.Portal.Api.{
  RunView, RunError, Request, ApiError, http_error, Site, Action, on_tables, on_world, catch,
  saw_draft, finish, check_error, check_draft, reread, ending_before, ending_of,
}
use opspilot_agent_platform.Portal.Api.Claims.{Idle, Claimed, turn-keeps}
use opspilot_agent_platform.Portal.Api.Ends.{ends-Idle, ends-raise, ends-ok}
use opspilot_agent_platform.Portal.Api.Rules.{catch_rule, site_at}

module _ {World : Type 0} (call : Request World) where
  abbrev pub Released : {A : Type 0} → Result ApiError A × Site World → Type 0
  Released o = Idle call.conversation_id o.1.tables

  abbrev pub Held : Site World → Type 0
  Held s = Claimed call.user_id call.conversation_id call.turn_id s.tables

  pub finish-Released : (e : Ending) (s : Site World) → Held s → Released (finish call e s)
  unfolding finish
  finish-Released = ends-Idle call.user_id call.conversation_id call.turn_id call.finished_at

  -- Whatever is raised after the end was written, the claim is released.
  pub finish_raise :
      (A : Type 0) (e : Ending) (x : ApiError) (s : Site World)
      (Q : Result ApiError A × Site World → Type 0)
      → Held s
      → ((y : ApiError) (s' : Site World) → Idle call.conversation_id s'.tables → Q (err y, s'))
      → Q ((do finish call e; raise x) s)
  unfolding finish
  finish_raise = ends-raise call.user_id call.conversation_id call.turn_id call.finished_at

  pub on_world-Held :
      {A : Type 0} (m : Exec RunError World A) (s : Site World) → Held s → Held (on_world m s).1
  unfolding on_world
  on_world-Held m s h = h

  -- A check lets the claim be held, or has released it.
  abbrev pub HeldOrReleased : {A : Type 0} → Result ApiError A × Site World → Type 0
  HeldOrReleased (ok a, s) = Held s
  HeldOrReleased (err e, s) = Idle call.conversation_id s.tables

  pub check_error-holds :
      (t : PublicTurn) (o : Option RunView) (e : ApiError) (s : Site World)
      → Held s
      → HeldOrReleased (check_error call t o e s)
  unfolding check_error
  check_error-holds t none e s h =
      finish_raise RunView (ending_before t) e s HeldOrReleased h (λ y s' x. x)
  check_error-holds t (some v) e s h =
      finish_raise RunView (ending_of v) e s HeldOrReleased h (λ y s' x. x)

  pub check_draft-holds :
      (t : PublicTurn) (action : Action) (expected : Option String) (s : Site World)
      → Held s
      → HeldOrReleased (check_draft call t action expected s)
  unfolding check_draft
  check_draft-holds t action expected s h =
      let reading = catch (on_world (call.runs.read_run call.turn_id)) (check_error call t none) in
      let read : HeldOrReleased (reading s) =
        catch_rule (on_world (call.runs.read_run call.turn_id)) (check_error call t none) s
          HeldOrReleased
          (λ v s' q. site_at Held q (on_world-Held (call.runs.read_run call.turn_id) s h))
          (λ e s' q.
            check_error-holds t none e s'
              (site_at Held q (on_world-Held (call.runs.read_run call.turn_id) s h))) in
      bind_rule reading _ s HeldOrReleased (λ v s' q. decide v s' (subst HeldOrReleased q read))
        (λ e s' q. subst HeldOrReleased q read)
    where
      decide :
          (v : RunView) (s' : Site World)
          → Held s'
          → HeldOrReleased (
              (if saw_draft action expected v
                  then pure v
                  else check_error call t (some v) (http_error 409))
                s')
      decide v s' held = elim (Bool-cases (saw_draft action expected v)) [
        | inl saw ↦ rw saw held
        | inr stale ↦ rw stale (check_error-holds t (some v) (http_error 409) s' held)
      ]

  pub finish-ok :
      (e : Ending) (s : Site World) → Held s → (p : PublicTurn) × ((finish call e s).0 ≡ ok p)
  unfolding finish
  finish-ok = ends-ok call.user_id call.conversation_id call.turn_id call.finished_at

  pub reread-holds : (t : PublicTurn) (s : Site World) → Held s → HeldOrReleased (reread call t s)
  unfolding reread on_tables
  reread-holds t s h =
      catch_rule (on_tables (turn call.user_id call.conversation_id call.turn_id))
        (λ e. do finish call (ending_before t); raise e) s (HeldOrReleased) (λ p s' q. held s' q)
        (λ e s' q.
          finish_raise PublicTurn (ending_before t) e s' (HeldOrReleased) (held s' q) (λ y z x. x))
    where
      held :
          {r : Result ApiError PublicTurn} (s' : Site World)
          → on_tables (turn call.user_id call.conversation_id call.turn_id) s ≡ (r, s')
          → Held s'
      held s' q =
          site_at (λ z. Held z) q
            (subst (Claimed call.user_id call.conversation_id call.turn_id)
              (sym (turn-keeps call.user_id call.conversation_id call.turn_id s.tables)) h)
