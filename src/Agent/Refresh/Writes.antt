-- ===== src/Agent/Refresh/Writes.antt =====
-- Refreshing a confirmation asks the user again and executes nothing.
use opspilot_agent_platform.Prelude.{
  String, ◌≡◌, refl, ap, none, some, inl, inr, arith, text_eq, Option-cases,
}
use opspilot_agent_platform.Prelude.Dict.{insert}
use opspilot_agent_platform.Prelude.Exec.{Result, ok, err, Preserves}
use opspilot_agent_platform.Agent.State.{
  GraphError, Draft, Eligibility, ToolResult, State, Services, Rules,
}
use opspilot_agent_platform.Agent.Graph.{Node, prepare_return_draft, Snapshot, route}
use opspilot_agent_platform.Agent.Graph.Edges.{draft-waits}
use opspilot_agent_platform.Agent.Graph.Unapproved.{KeptUntilConfirmed}
use opspilot_agent_platform.Agent.Api.{Threads, checkpoint_id}
use opspilot_agent_platform.Agent.Api.Owners.{OwnedCase, owned_cases}
use opspilot_agent_platform.Agent.Api.Writes.{invoke-keeps}
use opspilot_agent_platform.Agent.Refresh.{
  as_eligibility, refreshed, ask_again, refresh_draft, refresh_ineligible, refresh_snapshot,
  refresh_return_confirmation,
}

abbrev saved_as : {World : Type 0} → String → Node → State → Threads World → Threads World
saved_as key n s t = record t { saved = insert key (record { values = s; next = n }) t.saved }

module _ {World : Type 0} (P : World → Type 0) (rules : Rules) (services : Services World)
    (kept : KeptUntilConfirmed P services)
    (refreshes : (order_id draft_id : String)
      → Preserves P (services.refresh_draft order_id draft_id))
    (checks : (order_id : String) → Preserves P (services.execute_eligibility order_id)) where
  ask_again-keeps :
      (key : String) (s : State) (t : Threads World)
      → P t.world
      → P (ask_again rules services key s t).1.world
  unfolding ask_again
  ask_again-keeps key s t h = go (route prepare_return_draft s) refl
    where
      go :
          (o : Result GraphError Node)
          → route prepare_return_draft s ≡ o
          → P (ask_again rules services key s t).1.world
      go (err e) q = ground arith
      go (ok n) q = ground (
        arith,
        invoke-keeps P rules services kept (saved_as key n s t) h key n none s (draft-waits s n q)
            (λ y. y),
      )

  refresh_draft-keeps :
      (key order_id : String) (e : Eligibility) (s : State) (t : Threads World)
      → P t.world
      → P (refresh_draft rules services key order_id e s t).1.world
  unfolding refresh_draft
  refresh_draft-keeps key order_id e s t h = elim (Option-cases s.return_draft) [
    | inl n ↦ ground arith
    | inr (old, d) ↦
        go old d (services.refresh_draft order_id old.draft_id t.world) refl
          (refreshes order_id old.draft_id t.world h)
  ]
    where
      go :
          (old : Draft)
          → s.return_draft ≡ some old
          → (o : Result GraphError Draft × World)
          → services.refresh_draft order_id old.draft_id t.world ≡ o
          → P (services.refresh_draft order_id old.draft_id t.world).1
          → P (refresh_draft rules services key order_id e s t).1.world
      go old d (err x, w) q k = ground arith
      go old d (ok draft, w) q k =
          let kept_by : P w = rw⁻¹ (ap (λ o. o.1) q) k in
          ground (arith, ask_again-keeps key (refreshed e draft s) (record t { world = w }) kept_by)

  refresh_ineligible-keeps :
      (key order_id : String) (e : Eligibility) (s : State) (t : Threads World)
      → P t.world
      → P (refresh_ineligible rules services key order_id e s t).1.world
  unfolding refresh_ineligible
  refresh_ineligible-keeps key order_id e s t h = ground arith

  refresh_snapshot-keeps :
      (key : String) (x : Snapshot) (t : Threads World)
      → P t.world
      → P (refresh_snapshot rules services key x t).1.world
  unfolding refresh_snapshot
  refresh_snapshot-keeps key x t h = elim (Option-cases x.values.order_id) [
    | inl n ↦ ground arith
    | inr (order_id, d) ↦
        go order_id d (services.execute_eligibility order_id t.world) refl
          (checks order_id t.world h)
  ]
    where
      go :
          (order_id : String)
          → x.values.order_id ≡ some order_id
          → (o : Result GraphError ToolResult × World)
          → services.execute_eligibility order_id t.world ≡ o
          → P (services.execute_eligibility order_id t.world).1
          → P (refresh_snapshot rules services key x t).1.world
      go order_id d (err e, w) q k = ground arith
      go order_id d (ok result, w) q k =
          let kept_by : P w = rw⁻¹ (ap (λ o. o.1) q) k in
          elim (Option-cases (as_eligibility result)) [
            | inl n ↦ ground arith
            | inr (e, f) ↦ ground (
              arith,
              refresh_draft-keeps key order_id e x.values (record t { world = w }) kept_by,
              refresh_ineligible-keeps key order_id e x.values (record t { world = w }) kept_by,
            )
          ]

  -- Whatever only the two services that execute a confirmed write can change stays as it was when
  -- a stale confirmation is refreshed, whatever order, eligibility and draft come back, if asking
  -- for the eligibility and for a new draft keeps it too.
  pub refresh_writes_nothing :
      (user_id thread_id : String) (t : Threads World)
      → P t.world
      → P (refresh_return_confirmation rules services user_id thread_id t).1.world
  unfolding refresh_return_confirmation
  refresh_writes_nothing user_id thread_id t h =
      elim (owned_cases rules services user_id thread_id t) [
        | OwnedCase.refused e eq ↦ ground arith
        | OwnedCase.found x n o i eq ↦
            ground (arith, refresh_snapshot-keeps (checkpoint_id user_id thread_id) x t h)
      ]
