-- ===== src/Actions/Propose.antt =====
-- Proposing a change: every way to fail changes nothing, and success adds one new pending action.
use opspilot_agent_platform.Prelude.{
  String, ◌≡◌, refl, inl, inr, true, false, none, some, arith, eq_iff, Option-cases, Bool-cases,
  text_eq,
}
use opspilot_agent_platform.Prelude.Dict.{lookup, insert, lookup-insert}
use opspilot_agent_platform.Prelude.Exec.{ok, err}
use opspilot_agent_platform.Actions.{
  pending, PendingAction, ticket_not_found, id_conflict, validation_error, ActionStore,
  is_valid_action, propose_priority_change, put_action,
}
use opspilot_agent_platform.Actions.Tickets.{Ticket, query_ticket}

abbrev pub proposal : String → String → String → Ticket → PendingAction
proposal fresh ticket_id new_priority ticket = record {
  action_id = fresh;
  tool_name = "change_ticket_priority";
  ticket_id = ticket_id;
  previous_priority = ticket.priority;
  new_priority = new_priority;
  status = pending;
}

pub data ProposeCase (fresh ticket_id p : String) (s : ActionStore) : Type 0 where
  no_ticket :
      query_ticket ticket_id s.tickets ≡ none
      → propose_priority_change fresh ticket_id p s ≡ (err ticket_not_found, s)
      → ProposeCase fresh ticket_id p s
  invalid :
      (t : Ticket)
      → query_ticket ticket_id s.tickets ≡ some t
      → is_valid_action (proposal fresh ticket_id p t) ≡ false
      → propose_priority_change fresh ticket_id p s ≡ (err validation_error, s)
      → ProposeCase fresh ticket_id p s
  taken :
      (t : Ticket) (a : PendingAction)
      → query_ticket ticket_id s.tickets ≡ some t
      → is_valid_action (proposal fresh ticket_id p t) ≡ true
      → lookup fresh s.actions ≡ some a
      → propose_priority_change fresh ticket_id p s ≡ (err id_conflict, s)
      → ProposeCase fresh ticket_id p s
  creates :
      (t : Ticket)
      → query_ticket ticket_id s.tickets ≡ some t
      → is_valid_action (proposal fresh ticket_id p t) ≡ true
      → lookup fresh s.actions ≡ none
      → propose_priority_change fresh ticket_id p s ≡ (
        ok (proposal fresh ticket_id p t),
        record s { actions = insert fresh (proposal fresh ticket_id p t) s.actions },
      )
      → ProposeCase fresh ticket_id p s

pub propose_cases : (fresh ticket_id p : String) (s : ActionStore) → ProposeCase fresh ticket_id p s
unfolding propose_priority_change put_action
propose_cases fresh ticket_id p s = elim (Option-cases (query_ticket ticket_id s.tickets)) [
  | inl h ↦ no_ticket h (ground arith)
  | inr (t, h) ↦ elim (Bool-cases (is_valid_action (proposal fresh ticket_id p t))) [
    | inr bad ↦ invalid t h bad (ground arith)
    | inl good ↦ elim (Option-cases (lookup fresh s.actions)) [
      | inr (a, there) ↦ taken t a h good there (ground arith)
      | inl free ↦ creates t h good free (ground arith)
    ]
  ]
]

-- Proposing writes no ticket, and no stored action is overwritten or lost by it.
pub propose_priority_change_keeps :
    (fresh ticket_id p : String) (s : ActionStore)
    → let s' = (propose_priority_change fresh ticket_id p s).1 in
      (s'.tickets ≡ s.tickets)
      × ((k : String) (a : PendingAction)
          → lookup k s.actions ≡ some a
          → lookup k s'.actions ≡ some a)
propose_priority_change_keeps fresh ticket_id p s = elim (propose_cases fresh ticket_id p s) [
  | no_ticket _ eq ↦ rw eq (refl, λ k a h. h)
  | invalid t _ _ eq ↦ rw eq (refl, λ k a h. h)
  | taken t a _ _ _ eq ↦ rw eq (refl, λ k a h. h)
  | creates t _ _ free eq ↦ rw eq (
    refl,
    λ k a h.
        ground
          (arith, lookup-insert fresh k (proposal fresh ticket_id p t) s.actions, eq_iff fresh k),
  )
]
