-- ===== src/Agent/Api/Writes.antt =====
-- No call of the API but an approval executes a write.
use opspilot_agent_platform.Prelude.{
  String, ◌≡◌, refl, false, Option, none, some, List, arith, text_eq,
}
use opspilot_agent_platform.Agent.State.{Message, State, Services, Rules, ReasonCode}
use opspilot_agent_platform.Agent.Writes.{Resume, approval, reason}
use opspilot_agent_platform.Agent.Graph.{
  Node, call_model, ask_return_reason, finish_reason_collection, await_approval,
  await_return_confirmation, Snapshot, step_limit,
}
use opspilot_agent_platform.Agent.Graph.Edges.{Executes, Approves}
use opspilot_agent_platform.Agent.Graph.Unapproved.{KeptUntilConfirmed, run_unapproved}
use opspilot_agent_platform.Agent.Api.Owners.{OwnedCase, owned_cases}
use opspilot_agent_platform.Agent.Api.{
  Threads, StartRequest, checkpoint_id, initial_state, invoke, start_agent_graph,
  resume_agent_graph, resume_snapshot, submit_return_reason, submit_snapshot,
}

module _ {World : Type 0} (P : World → Type 0) (rules : Rules) (services : Services World)
    (kept : KeptUntilConfirmed P services) (t : Threads World) (h : P t.world) where
  pub invoke-keeps :
      (key : String) (n : Node) (r : Option Resume) (s : State)
      → (Executes n → ⊥)
      → (Approves r → ⊥)
      → P (invoke rules services key n r s t).1.world
  unfolding invoke
  invoke-keeps key n r s x a = run_unapproved P rules services kept step_limit n r s t.world x a h

  start-keeps :
      (user_id : String) (ms : List Message) (request : StartRequest)
      → P (start_agent_graph rules services user_id ms request t).1.world
  unfolding start_agent_graph
  start-keeps user_id ms request = ground (
    arith,
    invoke-keeps (checkpoint_id user_id request.thread_id) call_model none
        (initial_state user_id ms request) (λ x. x) (λ x. x),
  )

  refuse_snapshot-keeps :
      (key : String) (found : Snapshot)
      → P (resume_snapshot rules services key false found t).1.world
  unfolding resume_snapshot
  refuse_snapshot-keeps key found = go found.next refl
    where
      go :
          (n : Node) → found.next ≡ n → P (resume_snapshot rules services key false found t).1.world
      go await_approval e = ground (
        arith,
        invoke-keeps key await_approval (some (approval false)) found.values (λ x. x) (λ x. x),
      )
      go await_return_confirmation e = ground (
        arith,
        invoke-keeps key await_return_confirmation (some (approval false)) found.values (λ x. x)
            (λ x. x),
      )
      go n e = ground arith

  resume-keeps :
      (user_id thread_id : String)
      → P (resume_agent_graph rules services user_id thread_id false t).1.world
  unfolding resume_agent_graph
  resume-keeps user_id thread_id = elim (owned_cases rules services user_id thread_id t) [
    | OwnedCase.refused e eq ↦ ground arith
    | OwnedCase.found x n o i eq ↦
        ground (arith, refuse_snapshot-keeps (checkpoint_id user_id thread_id) x)
  ]

  submit_snapshot-keeps :
      (key text : String) (code : ReasonCode) (x : Snapshot) (n : Node)
      → P (submit_snapshot rules services key text code x n t).1.world
  unfolding submit_snapshot
  submit_snapshot-keeps key text code x finish_reason_collection =
      ground (arith, invoke-keeps key finish_reason_collection none x.values (λ y. y) (λ y. y))
  submit_snapshot-keeps key text code x ask_return_reason = ground (
    arith,
    invoke-keeps key ask_return_reason (some (reason text code)) x.values (λ y. y) (λ y. y),
  )
  submit_snapshot-keeps key text code x n = h

  submit-keeps :
      (user_id thread_id text : String) (code : ReasonCode)
      → P (submit_return_reason rules services user_id thread_id text code t).1.world
  unfolding submit_return_reason
  submit-keeps user_id thread_id text code = elim (owned_cases rules services user_id thread_id t) [
    | OwnedCase.refused e eq ↦ ground arith
    | OwnedCase.found x n o i eq ↦
        ground (arith, submit_snapshot-keeps (checkpoint_id user_id thread_id) text code x x.next)
  ]

  -- Whatever only the two services that execute a confirmed write can change stays as it was when a
  -- thread is started, when it is resumed with a refusal, and when it is given a reason, whatever
  -- the model, the tools and the thread's state are.
  pub unapproved_calls_write_nothing :
      (user_id thread_id text : String) (code : ReasonCode) (ms : List Message)
      (request : StartRequest)
      → P (start_agent_graph rules services user_id ms request t).1.world
        × P (resume_agent_graph rules services user_id thread_id false t).1.world
        × P (submit_return_reason rules services user_id thread_id text code t).1.world
  unapproved_calls_write_nothing user_id thread_id text code ms request = (
    start-keeps user_id ms request,
    resume-keeps user_id thread_id,
    submit-keeps user_id thread_id text code,
  )
