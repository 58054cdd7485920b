-- ===== src/Agent/Api/Owners.antt =====
-- A user's calls find and change only the user's own threads.
use opspilot_agent_platform.Prelude.{
  String, ◌≡◌, ◌≢◌, inl, inr, Bool, Option, none, some, List, arith, eq_iff, text_eq, Option-cases,
  Bool-cases,
}
use opspilot_agent_platform.Prelude.Dict.{lookup, lookup-insert_ne}
use opspilot_agent_platform.Prelude.Exec.{ok, err}
use opspilot_agent_platform.Agent.State.{
  Message, State, Services, Rules, ReasonCode, GraphError, not_found, tool_disabled,
}
use opspilot_agent_platform.Agent.Policy.{state_tools_enabled}
use opspilot_agent_platform.Agent.Writes.{Resume, approval, reason}
use opspilot_agent_platform.Agent.Graph.{
  Node, call_model, ask_return_reason, finish_reason_collection, Snapshot,
}
use opspilot_agent_platform.Agent.Api.{
  Threads, StartRequest, checkpoint_id, initial_state, invoke, owned_snapshot, is_owned,
  start_agent_graph, resume_agent_graph, resume_snapshot, submit_return_reason, submit_snapshot,
}

-- How looking up a thread can end.
pub data OwnedCase {World : Type 0} (rules : Rules) (services : Services World)
    (user_id thread_id : String) (t : Threads World) : Type 0 where
  refused :
      (e : GraphError)
      → owned_snapshot rules services user_id thread_id t ≡ (err e, t)
      → OwnedCase rules services user_id thread_id t
  found :
      (s : Snapshot)
      → lookup (checkpoint_id user_id thread_id) t.saved ≡ some s
      → s.values.owner_user_id ≡ user_id
      → s.values.thread_id ≡ thread_id
      → owned_snapshot rules services user_id thread_id t ≡ (ok s, t)
      → OwnedCase rules services user_id thread_id t

pub owned_cases :
    {World : Type 0} (rules : Rules) (services : Services World) (user_id thread_id : String)
    (t : Threads World)
    → OwnedCase rules services user_id thread_id t
unfolding owned_snapshot is_owned
owned_cases rules services user_id thread_id t =
    elim (Option-cases (lookup (checkpoint_id user_id thread_id) t.saved)) [
      | inl n ↦ refused not_found (ground arith)
      | inr (s, n) ↦ elim (Bool-cases (is_owned user_id thread_id s)) [
        | inr other ↦ refused not_found (ground arith)
        | inl own ↦ elim (Bool-cases (state_tools_enabled rules.auth_required s.values)) [
          | inr disabled ↦ refused tool_disabled (ground arith)
          | inl enabled ↦
              found s n (ground (arith, eq_iff s.values.owner_user_id user_id))
                (ground (arith, eq_iff s.values.thread_id thread_id)) (ground arith)
        ]
      ]
    ]

-- Running a thread leaves what is saved under every other key.
invoke-others :
    {World : Type 0} (rules : Rules) (services : Services World) (key : String) (n : Node)
    (r : Option Resume) (s : State) (t : Threads World) (k : String)
    → key ≢ k
    → lookup k (invoke rules services key n r s t).1.saved ≡ lookup k t.saved
unfolding invoke
invoke-others rules services key n r s t k apart = lookup-insert_ne key k _ t.saved apart

module _ {World : Type 0} (rules : Rules) (services : Services World) (user_id : String)
    (t : Threads World) (k : String) {s : Snapshot} (there : lookup k t.saved ≡ some s)
    (others : s.values.owner_user_id ≢ user_id) where
  -- Another user's thread is not under a key that the user finds a thread of theirs at.
  apart_from :
      (thread_id : String) (own : Snapshot)
      → lookup (checkpoint_id user_id thread_id) t.saved ≡ some own
      → own.values.owner_user_id ≡ user_id
      → checkpoint_id user_id thread_id ≢ k
  apart_from thread_id own n o e = let same : own ≡ s = ground arith in others (rw⁻¹ same o)

  start-others :
      (ms : List Message) (request : StartRequest)
      → lookup k (start_agent_graph rules services user_id ms request t).1.saved ≡ some s
  unfolding start_agent_graph
  start-others ms request =
      elim (Option-cases (lookup (checkpoint_id user_id request.thread_id) t.saved)) [
        | inr (old, n) ↦ ground arith
        | inl free ↦ ground (
          arith,
          invoke-others rules services (checkpoint_id user_id request.thread_id) call_model none
              (initial_state user_id ms request) t k (λ e. ground arith),
        )
      ]

  resume_snapshot-others :
      (key : String) (approved : Bool) (x : Snapshot)
      → key ≢ k
      → lookup k (resume_snapshot rules services key approved x t).1.saved ≡ some s
  unfolding resume_snapshot
  resume_snapshot-others key approved x apart = ground (
    arith,
    invoke-others rules services key x.next none x.values t k apart,
    invoke-others rules services key x.next (some (approval approved)) x.values t k apart,
  )

  resume-others :
      (thread_id : String) (approved : Bool)
      → lookup k (resume_agent_graph rules services user_id thread_id approved t).1.saved ≡ some s
  unfolding resume_agent_graph
  resume-others thread_id approved = elim (owned_cases rules services user_id thread_id t) [
    | OwnedCase.refused e eq ↦ ground arith
    | OwnedCase.found x n o i eq ↦ ground (
      arith,
      resume_snapshot-others (checkpoint_id user_id thread_id) approved x
          (apart_from thread_id x n o),
    )
  ]

  submit_snapshot-others :
      (key text : String) (code : ReasonCode) (x : Snapshot) (n : Node)
      → key ≢ k
      → lookup k (submit_snapshot rules services key text code x n t).1.saved ≡ some s
  unfolding submit_snapshot
  submit_snapshot-others key text code x finish_reason_collection apart =
      ground
        (arith, invoke-others rules services key finish_reason_collection none x.values t k apart)
  submit_snapshot-others key text code x ask_return_reason apart = ground (
    arith,
    invoke-others rules services key ask_return_reason (some (reason text code)) x.values t k apart,
  )
  submit_snapshot-others key text code x n apart = there

  submit-others :
      (thread_id text : String) (code : ReasonCode)
      → lookup k (submit_return_reason rules services user_id thread_id text code t).1.saved
        ≡ some s
  unfolding submit_return_reason
  submit-others thread_id text code = elim (owned_cases rules services user_id thread_id t) [
    | OwnedCase.refused e eq ↦ ground arith
    | OwnedCase.found x n o i eq ↦ ground (
      arith,
      submit_snapshot-others (checkpoint_id user_id thread_id) text code x x.next
          (apart_from thread_id x n o),
    )
  ]

  -- A user who starts, resumes or gives a reason to any thread leaves the threads of other users as
  -- they were, even where two users' names and threads make the same key.
  pub other_users_untouched :
      (thread_id text : String) (approved : Bool) (code : ReasonCode) (ms : List Message)
      (request : StartRequest)
      → (lookup k (start_agent_graph rules services user_id ms request t).1.saved ≡ some s)
        × (lookup k (resume_agent_graph rules services user_id thread_id approved t).1.saved
            ≡ some s)
        × (lookup k (submit_return_reason rules services user_id thread_id text code t).1.saved
            ≡ some s)
  other_users_untouched thread_id text approved code ms request =
      (start-others ms request, resume-others thread_id approved, submit-others thread_id text code)
