-- ===== src/Agent/Refresh/Views.antt =====
-- Reading the state of a thread, with the draft that Java has now.
use opspilot_agent_platform.Prelude.{
  String, ◌≡◌, Option, none, some, inl, inr, arith, text_eq, Option-cases,
}
use opspilot_agent_platform.Prelude.Dict.{lookup}
use opspilot_agent_platform.Agent.State.{Draft, State, Services, Rules}
use opspilot_agent_platform.Agent.Api.{Threads, checkpoint_id, owned_snapshot, to_response}
use opspilot_agent_platform.Agent.Refresh.{view_draft, get_agent_graph_state}

module _ {World : Type 0} (rules : Rules) (services : Services World) where
  saved-to_response :
      (s : State) (t : Threads World) → (to_response rules services s t).1.saved ≡ t.saved
  unfolding to_response
  saved-to_response s t = ground arith

  saved-view_draft :
      (s : State) (order_id : Option String) (draft : Option Draft) (t : Threads World)
      → (view_draft rules services s order_id draft t).1.saved ≡ t.saved
  unfolding view_draft to_response
  saved-view_draft s (some order_id) (some draft) t = ground arith
  saved-view_draft s none (some draft) t = ground arith
  saved-view_draft s none none t = ground arith
  saved-view_draft s (some order_id) none t = ground arith

  -- Reading a thread's state saves nothing, whatever Java answers about its draft.
  pub get_agent_graph_state_saves_nothing :
      (user_id thread_id : String) (t : Threads World)
      → (get_agent_graph_state rules services user_id thread_id t).1.saved ≡ t.saved
  unfolding get_agent_graph_state owned_snapshot to_response
  get_agent_graph_state_saves_nothing user_id thread_id t =
      elim (Option-cases (lookup (checkpoint_id user_id thread_id) t.saved)) [
        | inl n ↦ ground arith
        | inr (found, f) ↦ ground (
          arith,
          saved-view_draft found.values found.values.order_id found.values.return_draft t,
          saved-to_response found.values t,
        )
      ]
