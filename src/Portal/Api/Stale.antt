-- ===== src/Portal/Api/Stale.antt =====
-- A confirmation of another draft than the one that the run shows.
use Prim.Native.String.{String}
use opspilot_agent_platform.Prelude.{
  ap, ◌⊎◌, ◌≡◌, refl, ◌≢◌, sym, false, Option, none, some, text_eq, eq_iff, arith, inl, inr,
  Bool-cases, if◌then◌else◌,
}
use mathlib.Core.Path.{subst}
use opspilot_agent_platform.Prelude.Exec.{
  Result, ok, err, pure, raise, raise_if, ◌>>=◌, ◌>>◌, bind_rule,
}
use opspilot_agent_platform.Portal.{StoreMethod, PublicTurn}
use opspilot_agent_platform.Portal.Turns.{
  Ending, turn, claim_action, finish_turn, is_vision, same_id,
}
use opspilot_agent_platform.Portal.Api.{
  RunView, Request, ApiError, http_error, Site, Route, confirm, on_tables, on_world, catch,
  saw_draft, act, finish, check_error, check_draft, perform_error, perform_and_finish, reread,
  needs_text, ending_before, ending_of, after_claim,
}
use opspilot_agent_platform.Portal.Api.Rules.{catch_ok, bind_ok, on_world-ok, catch_rule, site_at}

-- A call of the store leaves the world as it was.
on_tables-world :
    {World A : Type 0} (m : StoreMethod A) (s : Site World) → (on_tables m s).1.world ≡ s.world
unfolding on_tables
on_tables-world m s = refl

world_of :
    {World A : Type 0} (m : StoreMethod A) {r : Result ApiError A} (s s' : Site World)
    → on_tables m s ≡ (r, s')
    → s'.world ≡ s.world
world_of m s s' q = site_at (λ z. z.world ≡ s.world) q (on_tables-world m s)

-- No turn is returned, and the world is `w`, or `w'`.
abbrev pub Refused : {World A : Type 0} → World → World → Result ApiError A × Site World → Type 0
Refused w w' (ok a, s) = ⊥
Refused w w' (err e, s) = (s.world ≡ w) ⊎ (s.world ≡ w')

module _ {World : Type 0} (call : Request World) (expected : Option String) (w w' : World) where
  -- The world is as it was, or the route was refused.
  abbrev Kept : {A : Type 0} → Result ApiError A × Site World → Type 0
  Kept (ok a, s) = s.world ≡ w
  Kept (err e, s) = (s.world ≡ w) ⊎ (s.world ≡ w')

  Refused-Kept : {A : Type 0} (o : Result ApiError A × Site World) → Refused w w' o → Kept o
  Refused-Kept (ok a, s) h = absurd h
  Refused-Kept (err e, s) h = h

  on_tables-Kept :
      {A : Type 0} (m : StoreMethod A) (s : Site World) → s.world ≡ w → Kept (on_tables m s)
  on_tables-Kept {A} m s h = go (on_tables m s) refl
    where
      go : (o : Result ApiError A × Site World) → on_tables m s ≡ o → Kept o
      go (ok a, s') q = rw (world_of m s s' q) h
      go (err e, s') q = inl (rw (world_of m s s' q) h)

  -- What is refused before a continuation is refused.
  Refused-bind :
      {A B : Type 0} (m : Route World A) (f : A → Route World B) (s : Site World)
      → Kept (m s)
      → ((a : A) (s' : Site World) → m s ≡ (ok a, s') → s'.world ≡ w → Refused w w' (f a s'))
      → Refused w w' ((m >>= f) s)
  Refused-bind m f s h k =
      bind_rule m f s (Refused w w') (λ a s' q. k a s' q (subst Kept q h))
        (λ e s' q. subst Kept q h)

  finish-raise-Refused :
      (A : Type 0) (d : Ending) (e : ApiError) (s : Site World)
      → (s.world ≡ w) ⊎ (s.world ≡ w')
      → Refused {A = A} w w' ((do finish call d; raise e) s)
  unfolding finish
  finish-raise-Refused A d e s h =
      let m = finish_turn call.finished_at call.user_id call.conversation_id call.turn_id d none in
      bind_rule (on_tables m) (λ _. raise e) s (Refused w w') (λ p s' q. rw (world_of m s s' q) h)
        (λ y s' q. rw (world_of m s s' q) h)

  reread-Kept : (t : PublicTurn) (s : Site World) → s.world ≡ w → Kept (reread call t s)
  unfolding reread
  reread-Kept t s h =
      catch_rule (on_tables (turn call.user_id call.conversation_id call.turn_id))
        (λ e. do finish call (ending_before t); raise e) s Kept
        (λ p s' q. rw (world_of (turn call.user_id call.conversation_id call.turn_id) s s' q) h)
        (λ e s' q.
          let h' : s'.world ≡ w =
            rw (world_of (turn call.user_id call.conversation_id call.turn_id) s s' q) h in
          Refused-Kept _ (finish-raise-Refused PublicTurn (ending_before t) e s' (inl h')))

  module _ (v : RunView) (reads : call.runs.read_run call.turn_id w ≡ (ok v, w'))
      (stale : saw_draft confirm expected v ≡ false) where
    check_draft-Refused :
        (t : PublicTurn) (s : Site World)
        → s.world ≡ w
        → Refused w w' (check_draft call t confirm expected s)
    unfolding check_draft check_error
    check_draft-Refused t s h =
        let at = record s { world = w' } in
        let handler = check_error call t none in
        let read = on_world (call.runs.read_run call.turn_id) in
        let shown =
          catch_ok read (on_world-ok (call.runs.read_run call.turn_id) v w' s (rw h reads))
            handler in
        let left = finish-raise-Refused RunView (ending_of v) (http_error 409) at (inr refl) in
        let decide = λ (u : RunView).
          if saw_draft confirm expected u
          then pure u
          else check_error call t (some u) (http_error 409) in
        subst (Refused w w') (sym (bind_ok (catch read handler) shown decide)) (rw stale left)

    after_claim-Refused :
        (before : PublicTurn) (s : Site World)
        → s.world ≡ w
        → Refused w w' (after_claim call before confirm expected s)
    unfolding after_claim
    after_claim-Refused before s h =
        Refused-bind (reread call before) _ s (reread-Kept before s h) (λ t s' q h'.
          let checked = check_draft-Refused t s' h' in
          Refused-bind (check_draft call t confirm expected)
            (λ _. catch (perform_and_finish call confirm) (perform_error call t)) s'
            (Refused-Kept _ checked) (λ u z r x. absurd (subst (Refused w w') r checked)))

    act-Refused : (s : Site World) → s.world ≡ w → Refused w w' (act call confirm expected s)
    unfolding act needs_text
    act-Refused s h =
        Refused-bind (on_tables (turn call.user_id call.conversation_id call.turn_id)) _ s
          (on_tables-Kept (turn call.user_id call.conversation_id call.turn_id) s h)
          (λ before s' q h'. claim before s' h')
      where
        claim :
            (before : PublicTurn) (s : Site World)
            → s.world ≡ w
            → Refused w w' (
                (do
                  raise_if (is_vision before.kind) (http_error 409)
                  raise_if (needs_text confirm) (http_error 400)
                  on_tables
                      (claim_action call.claimed_at call.user_id call.conversation_id call.turn_id)
                  after_claim call before confirm expected)
                  s)
        claim before s h = elim (Bool-cases (is_vision before.kind)) [
          | inl n ↦ rw n (inl h)
          | inr n ↦ rw n (
              Refused-bind
                (on_tables
                  (claim_action call.claimed_at call.user_id call.conversation_id call.turn_id))
                _ s
                (on_tables-Kept
                  (claim_action call.claimed_at call.user_id call.conversation_id call.turn_id) s h)
                (λ u s' q h'. after_claim-Refused before s' h'))
        ]

saw_another_draft :
    (d : String) (expected : Option String) (v : RunView)
    → v.draft_id ≡ some d
    → expected ≢ some d
    → saw_draft confirm expected v ≡ false
unfolding saw_draft same_id
saw_another_draft d none v q n = ground arith
saw_another_draft d (some e) v q n =
    let other : e ≢ d = λ p. n (ap some p) in ground (arith, eq_iff e d)

-- For any runs of the agent: where the run shows a draft, confirming with another draft than that one,
-- or with none, returns no turn, and the world is as it was or as one reading of the run has left it.
pub stale_confirm_runs_nothing :
    {World : Type 0} (call : Request World) (d : String) (expected : Option String) (v : RunView)
    (s : Site World) (w' : World)
    → call.runs.read_run call.turn_id s.world ≡ (ok v, w')
    → v.draft_id ≡ some d
    → expected ≢ some d
    → Refused s.world w' (act call confirm expected s)
stale_confirm_runs_nothing call d expected v s w' reads q n =
    act-Refused call expected s.world w' v reads (saw_another_draft d expected v q n) s refl
