-- ===== src/Portal/Api/Answers.antt =====
-- Answering a claimed question ends its turn, whatever the agent and the models do.
use Prim.Native.String.{String}
use mathlib.Core.Path.{subst}
use opspilot_agent_platform.Prelude.{
  ◌≡◌, refl, true, some, List, text_eq, arith, inl, inr, Bool-cases, if◌then◌else◌,
}
use opspilot_agent_platform.Prelude.Exec.{
  Result, ok, err, Exec, pure, ◌>>=◌, bind_rule, Preserves, Preserves_bind,
}
use opspilot_agent_platform.Portal.{Tables, Image, PublicTurn}
use opspilot_agent_platform.Portal.Turns.{TurnRequest, Ending}
use opspilot_agent_platform.Portal.Api.{RunError, ApiError, Site, Route, on_world, ending_of}
use opspilot_agent_platform.Portal.Api.Claims.{Idle, Claimed}
use opspilot_agent_platform.Portal.Api.Rules.{catch_rule, site_at}
use opspilot_agent_platform.Portal.Api.Ends.{ends, ends-Idle, ends-raise, ends-ok}
use opspilot_agent_platform.Portal.Api.Send.{
  Sending, is_empty, recall, see, ask, answer_turn, finish_failed, after_send, read_policy_of,
  needs_policy, policy_question, ending_failed, ending_seen, raised_for, is_live,
}

-- A part that calls only the world keeps what holds of the tables.
on_world_keeps :
    {World A : Type 0} (P : Tables → Type 0) (m : Exec RunError World A)
    → Preserves (λ (s : Site World). P s.tables) (on_world m)
unfolding on_world
on_world_keeps P m s h = h

module _ {World History : Type 0} (x : Sending World History) where
  module _ (P : Tables → Type 0) where
    abbrev pub At : Site World → Type 0
    At s = P s.tables

    recall_keeps :
        (body : TurnRequest) (previous : List PublicTurn) → Preserves At (recall x body previous)
    unfolding recall
    recall_keeps body previous s h = elim (Bool-cases (is_live body.mode)) [
      | inl l ↦
          rw l (
            on_world_keeps P (x.services.memory_context x.conversation_id body.message previous) s
              h)
      | inr l ↦ rw l h
    ]

    ask_keeps :
        (body : TurnRequest) (question i : String) (h : History)
        → Preserves At (ask x body question i h)
    unfolding ask
    ask_keeps body question i h =
        Preserves_bind At (on_world (x.services.start_run i question body.mode h))
          (λ v. pure (ending_of v)) (on_world_keeps P (x.services.start_run i question body.mode h))
          (λ v s p. p)

    read_policy_keeps : (body : TurnRequest) → Preserves At (read_policy_of x body)
    unfolding read_policy_of
    read_policy_keeps body s p = elim (Bool-cases (needs_policy body)) [
      | inl n ↦ rw n (
          Preserves_bind At (on_world (x.services.read_policy (policy_question body) body.mode))
            (λ r. pure (some r))
            (on_world_keeps P (x.services.read_policy (policy_question body) body.mode))
            (λ r s p. p) s p)
      | inr n ↦ rw n p
    ]

    see_keeps :
        (body : TurnRequest) (images : List Image) (h : History)
        → Preserves At (see x body images h)
    unfolding see
    see_keeps body images h =
        let reply = x.services.vision_reply body.message images h body.mode in
        let policy = read_policy_of x body in
        let seen = ending_seen x body in
        Preserves_bind At (on_world reply) (λ o. do r ← policy; pure (seen o r))
          (on_world_keeps P reply)
          (λ o.
            Preserves_bind At policy (λ r. pure (seen o r)) (read_policy_keeps body) (λ r s p. p))

    answer_keeps :
        (body : TurnRequest) (images : List Image) (question i : String) (h : History)
        → Preserves At (if is_empty images then ask x body question i h else see x body images h)
    answer_keeps body images question i h s p = elim (Bool-cases (is_empty images)) [
      | inl e ↦ rw e (ask_keeps body question i h s p)
      | inr e ↦ rw e (see_keeps body images h s p)
    ]

  -- The turn was answered and ended, or it has raised with the claim held.
  module _ (i : String) where
    abbrev Answered : Result ApiError PublicTurn × Site World → Type 0
    Answered (ok p, s) = Idle x.conversation_id s.tables
    Answered (err e, s) = Claimed x.user_id x.conversation_id i s.tables

    abbrev Held : Site World → Type 0
    Held s = Claimed x.user_id x.conversation_id i s.tables

    ends-Answered :
        (e : Ending) (s : Site World)
        → Held s
        → Answered (ends x.user_id x.conversation_id i x.finished_at e s)
    ends-Answered e s h = go (ends x.user_id x.conversation_id i x.finished_at e s) refl
      where
        go :
            (o : Result ApiError PublicTurn × Site World)
            → ends x.user_id x.conversation_id i x.finished_at e s ≡ o
            → Answered o
        go (ok p, z) q =
            site_at (λ y. Idle x.conversation_id y.tables) q
              (ends-Idle x.user_id x.conversation_id i x.finished_at e s h)
        go (err y, z) q =
            let (p, w) = ends-ok x.user_id x.conversation_id i x.finished_at e s h in
            absurd (ground arith)

    Held-bind :
        {A : Type 0} (m : Route World A) (f : A → Route World PublicTurn) (s : Site World)
        → Preserves Held m
        → Held s
        → ((a : A) (s' : Site World) → Held s' → Answered (f a s'))
        → Answered ((m >>= f) s)
    Held-bind m f s keeps h next =
        bind_rule m f s Answered (λ a s' q. next a s' (site_at Held q (keeps s h)))
          (λ e s' q. site_at Held q (keeps s h))

    answer_turn-Answered :
        (body : TurnRequest) (images : List Image) (question : String) (previous : List PublicTurn)
        (s : Site World)
        → Held s
        → Answered (answer_turn x body images question previous i s)
    unfolding answer_turn
    answer_turn-Answered body images question previous s h =
        let recalled = recall x body previous in
        let answer = λ (history : History).
          if is_empty images then ask x body question i history else see x body images history in
        let answered = λ (candidates : List PublicTurn).
          answer (x.services.visible_history candidates body.message)
          >>= ends x.user_id x.conversation_id i x.finished_at in
        Held-bind recalled answered s
          (recall_keeps (Claimed x.user_id x.conversation_id i) body previous) h
          (λ candidates s' h'.
            let history = x.services.visible_history candidates body.message in
            Held-bind (answer history) (ends x.user_id x.conversation_id i x.finished_at) s'
              (answer_keeps (Claimed x.user_id x.conversation_id i) body images question i history)
              h' (λ e z x. ends-Answered e z x))

    pub after_send-Idle :
        (body : TurnRequest) (images : List Image) (question : String) (previous : List PublicTurn)
        (t : PublicTurn) (s : Site World)
        → t.id ≡ i
        → Held s
        → Idle x.conversation_id (after_send x body images question previous t true s).1.tables
    unfolding after_send finish_failed
    after_send-Idle body images question previous t s same h = rw same (
        catch_rule (answer_turn x body images question previous i) (finish_failed x body images i) s
          (λ o. Idle x.conversation_id o.1.tables) (λ p s' q. subst Answered q answered)
          (λ e s' q.
            ends-raise x.user_id x.conversation_id i x.finished_at PublicTurn
              (ending_failed x body images e) (raised_for e) s'
              (λ o. Idle x.conversation_id o.1.tables) (subst Answered q answered) (λ y z x. x)))
      where
        answered : Answered (answer_turn x body images question previous i s)
        answered = answer_turn-Answered body images question previous s h
