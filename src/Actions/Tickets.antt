-- ===== src/Actions/Tickets.antt =====
-- tickets.py: the ticket list of the in-memory repository.
use opspilot_agent_platform.Prelude.{
  String, ◌≡◌, refl, Option, none, some, List, [], ◌∷◌, arith, eq_iff, ◌==◌, text_eq, if◌then◌else◌,
}

pub record Ticket : Type 0 where
  pub id : String
  pub status : String
  pub priority : String

unfoldable pub query_ticket : String → List Ticket → Option Ticket
query_ticket ticket_id [] = none
query_ticket ticket_id (t ∷ ts) = if t.id == ticket_id then some t else query_ticket ticket_id ts

-- The ticket that was written, and the list with it; the first ticket of that number is changed.
unfoldable pub change_ticket_priority : String → String → List Ticket → Option Ticket × List Ticket
change_ticket_priority ticket_id p [] = (none, [])
change_ticket_priority ticket_id p (t ∷ ts) =
    let rest = change_ticket_priority ticket_id p ts in
    if t.id == ticket_id
    then (some (record t { priority = p }), record t { priority = p } ∷ ts)
    else (rest.0, t ∷ rest.1)

abbrev pub with_priority : String → Option Ticket → Option Ticket
with_priority p none = none
with_priority p (some t) = some (record t { priority = p })

-- A write reports the ticket with the new priority, exactly when there is such a ticket.
pub change-query_ticket :
    (ticket_id p : String) (ts : List Ticket)
    → (change_ticket_priority ticket_id p ts).0 ≡ with_priority p (query_ticket ticket_id ts)
unfolding query_ticket change_ticket_priority
change-query_ticket ticket_id p [] = refl
change-query_ticket ticket_id p (t ∷ ts) = ground (arith, change-query_ticket ticket_id p ts)

-- After a write the ticket has the new priority, and every other ticket is as it was.
pub query_ticket-change :
    (ticket_id p j : String) (ts : List Ticket)
    → query_ticket j (change_ticket_priority ticket_id p ts).1
      ≡ (if ticket_id == j then with_priority p (query_ticket j ts) else query_ticket j ts)
unfolding query_ticket change_ticket_priority
query_ticket-change ticket_id p j [] = ground arith
query_ticket-change ticket_id p j (t ∷ ts) = ground (
  arith,
  query_ticket-change ticket_id p j ts,
  eq_iff ticket_id j,
  eq_iff t.id ticket_id,
  eq_iff t.id j,
)

-- A write that finds no ticket leaves the list as it was.
pub change_absent :
    (ticket_id p : String) (ts : List Ticket)
    → query_ticket ticket_id ts ≡ none
    → (change_ticket_priority ticket_id p ts).1 ≡ ts
unfolding query_ticket change_ticket_priority
change_absent ticket_id p [] h = refl
change_absent ticket_id p (t ∷ ts) h = ground (arith, change_absent ticket_id p ts)
