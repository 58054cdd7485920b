-- ===== src/Portal/Api/Performs.antt =====
-- What is run for an action, and how its errors are handled.
use Prim.Native.String.{String}
use opspilot_agent_platform.Prelude.{◌≡◌, refl, text_eq, arith}
use opspilot_agent_platform.Prelude.Exec.{Result, ok, err, raise, ◌>>◌, bind_rule}
use opspilot_agent_platform.Portal.{PublicTurn}
use opspilot_agent_platform.Portal.Turns.{Ending}
use opspilot_agent_platform.Portal.Api.{
  RunView, RunError, order_changed, http, failed, Runs, Request, ApiError, store_error, run_error,
  http_error, Site, Action, on_world, finish, perform, perform_error, perform_and_finish, ending_of,
  ending_unknown,
}
use opspilot_agent_platform.Portal.Api.Claims.{Idle}
use opspilot_agent_platform.Portal.Api.Rules.{site_at}
use opspilot_agent_platform.Portal.Api.Holding.{
  Held, Released, finish-Released, finish_raise, on_world-Held, finish-ok,
}

-- After an action has reported that the order changed, its run can be read.
abbrev pub Readable : {World : Type 0} → Runs World → String → Action → Type 0
Readable {World} runs i action =
    (w w' : World)
    → perform runs i action w ≡ (err order_changed, w')
    → (v : RunView) × ((runs.read_run i w').0 ≡ ok v)

module _ {World : Type 0} (call : Request World) (action : Action)
    (readable : Readable call.runs call.turn_id action) where
  -- The action was performed and its end written, or it has raised with the claim held.
  abbrev pub Performed : Site World → Result ApiError PublicTurn × Site World → Type 0
  Performed s (ok p, s') = Idle call.conversation_id s'.tables
  Performed s (err e, s') =
      Held call s' × (on_world (perform call.runs call.turn_id action) s ≡ (err e, s'))

  pub perform_and_finish-Performed :
      (s : Site World) → Held call s → Performed s (perform_and_finish call action s)
  unfolding perform_and_finish
  perform_and_finish-Performed s h =
      bind_rule (on_world (perform call.runs call.turn_id action)) _ s (Performed s)
        (λ v s' q. ended (ending_of v) s' (held s' q)) (λ e s' q. (held s' q, q))
    where
      held :
          {r : Result ApiError RunView} (s' : Site World)
          → on_world (perform call.runs call.turn_id action) s ≡ (r, s')
          → Held call s'
      held s' q =
          site_at (λ z. Held call z) q
            (on_world-Held call (perform call.runs call.turn_id action) s h)

      ended : (e : Ending) (s' : Site World) → Held call s' → Performed s (finish call e s')
      ended e s' c = go (finish call e s') refl
        where
          go : (o : Result ApiError PublicTurn × Site World) → finish call e s' ≡ o → Performed s o
          go (ok p, z) q =
              site_at (λ y. Idle call.conversation_id y.tables) q (finish-Released call e s' c)
          go (err x, z) q = let (p, w) = finish-ok call e s' c in absurd (ground arith)

  pub perform_error-Released :
      (t : PublicTurn) (e : ApiError) (s s' : Site World)
      → Held call s'
      → on_world (perform call.runs call.turn_id action) s ≡ (err e, s')
      → Released call (perform_error call t e s')
  unfolding perform_error on_world
  perform_error-Released t (run_error order_changed) s s' h q =
      bind_rule (on_world (call.runs.read_run call.turn_id))
        (λ v. do finish call (ending_of v); raise (http_error 409)) s' (Released call)
        (λ v z r.
          finish_raise call PublicTurn (ending_of v) (http_error 409) z (Released call)
            (site_at (λ y. Held call y) r
              (on_world-Held call (call.runs.read_run call.turn_id) s' h))
            (λ y z' x. x))
        (λ x z r. absurd (unreadable x z r))
    where
      unreadable :
          (x : ApiError) (z : Site World)
          → on_world (call.runs.read_run call.turn_id) s' ≡ (err x, z)
          → ⊥
      unreadable x z r = go (perform call.runs call.turn_id action s.world) refl
        where
          go :
              (o : Result RunError RunView × World)
              → perform call.runs call.turn_id action s.world ≡ o
              → ⊥
          go (ok v, w) p = ground arith
          go (err y, w) p =
              let changed_order : y ≡ order_changed = ground arith in
              let same : w ≡ s'.world = ground arith in
              let (v, reads) = readable s.world w (cc (p, changed_order)) in ground arith
  perform_error-Released t (run_error (failed name text)) s s' h q =
      finish_raise call PublicTurn (ending_unknown t (run_error (failed name text)))
        (http_error 503) s' (Released call) h (λ y z x. x)
  perform_error-Released t (run_error (http n)) s s' h q =
      finish_raise call PublicTurn (ending_unknown t (run_error (http n))) (run_error (http n)) s'
        (Released call) h (λ y z x. x)
  perform_error-Released t (store_error e) s s' h q =
      finish_raise call PublicTurn (ending_unknown t (store_error e)) (http_error 503) s'
        (Released call) h (λ y z x. x)
  perform_error-Released t (http_error n) s s' h q =
      finish_raise call PublicTurn (ending_unknown t (http_error n)) (http_error n) s'
        (Released call) h (λ y z x. x)
