-- ===== src/Redis/Refines.antt =====
-- The Redis action store does what the in-memory store does: the same results on every branch, and
-- databases that keep representing the same actions.
use opspilot_agent_platform.Prelude.{
  String, ◌≡◌, refl, ap, inl, inr, Option, none, some, arith, eq_iff, text_eq, ◌∙◌, List,
}
use opspilot_agent_platform.Prelude.Dict.{lookup, insert, lookup-insert, lookup-insert_cases}
use opspilot_agent_platform.Prelude.Exec.{Result}
use opspilot_agent_platform.Actions.{
  PendingAction, ActionError, ActionStore, propose_priority_change, confirm_action, cancel_action,
}
use opspilot_agent_platform.Actions.Tickets.{Ticket, query_ticket, change_ticket_priority}
use opspilot_agent_platform.Actions.Confirm.{ConfirmCase, confirm_cases, done, dropped}
use opspilot_agent_platform.Actions.Cancel.{CancelCase, cancel_cases}
use opspilot_agent_platform.Actions.Propose.{ProposeCase, propose_cases, proposal}
use opspilot_agent_platform.Redis.Database.{Codec, Database}
use opspilot_agent_platform.Redis.Keys.{action_key, action_key-injective}
use opspilot_agent_platform.Redis.ActionStore as Stored
use opspilot_agent_platform.Redis.ActionCases.{
  confirm_missing, confirm_again, confirm_refused, confirm_no_ticket, confirm_writes,
  cancel_missing, cancel_again, cancel_refused, cancel_drops, propose_no_ticket, propose_invalid,
  propose_taken, propose_creates,
}

abbrev pub encoded : Codec PendingAction → Option PendingAction → Option String
encoded json none = none
encoded json (some a) = some (json.encode a)

-- The database holds, under each action's name, the JSON of what the store holds.
pub record Represents (namespace : String) (json : Codec PendingAction) (mem : ActionStore)
    (db : Database) : Type 0 where
  pub same_tickets : db.tickets ≡ mem.tickets
  pub same_actions :
      (k : String) → lookup (action_key namespace k) db.values ≡ encoded json (lookup k mem.actions)
  pub keyed : (k : String) (a : PendingAction) → lookup k mem.actions ≡ some a → a.action_id ≡ k

-- Two calls agree when they return or raise the same, and their stores still correspond.
abbrev pub Agree :
    String
    → Codec PendingAction
    → Result ActionError PendingAction × ActionStore
    → Result ActionError PendingAction × Database
    → Type 0
Agree namespace json (r, mem) (r', db) = (r' ≡ r) × Represents namespace json mem db

module _ {namespace : String} {json : Codec PendingAction} {mem : ActionStore} {db : Database}
    (r : Represents namespace json mem db) where
  found_raw :
      (k : String) {a : PendingAction}
      → lookup k mem.actions ≡ some a
      → (lookup (action_key namespace k) db.values ≡ some (json.encode a))
        × (json.decode (json.encode a) ≡ some a)
  found_raw k {a} h = (r.same_actions k ∙ ap (encoded json) h, json.round_trip a)

  -- Writing an action under its own identifier, with any ticket list, keeps the stores related.
  put-Represents :
      (k : String) (a : PendingAction)
      → a.action_id ≡ k
      → {tickets tickets' : List Ticket} → tickets' ≡ tickets
      → Represents namespace json
          (record { tickets = tickets; actions = insert k a mem.actions })
          (record {
            tickets = tickets';
            values = insert (action_key namespace a.action_id) (json.encode a) db.values;
          })
  put-Represents k a own same = record {
    same_tickets = same;
    same_actions = λ j. ground (
      arith,
      lookup-insert (action_key namespace a.action_id) (action_key namespace j) (json.encode a)
          db.values,
      lookup-insert k j a mem.actions,
      r.same_actions j,
      eq_iff k j,
      eq_iff (action_key namespace a.action_id) (action_key namespace j),
      action_key-injective namespace a.action_id j,
    );
    keyed = λ j b h. elim (lookup-insert_cases k j a mem.actions h) [
      | inl (e, e') ↦ cc
      | inr (_, there) ↦ r.keyed j b there
    ];
  }

  -- Confirming by the Redis store returns or raises what the in-memory store does, and afterwards
  -- the database still represents the store.
  pub confirm_action-Agree :
      (k : String)
      → Agree namespace json (confirm_action k mem) (Stored.confirm_action namespace json k db)
  confirm_action-Agree k = elim (confirm_cases k mem) [
    | ConfirmCase.missing h eq ↦
        let there : lookup (action_key namespace k) db.values ≡ none =
          r.same_actions k ∙ ap (encoded json) h in
        rw (eq, confirm_missing namespace json k db there) (refl, r)
    | ConfirmCase.again a h e eq ↦
        rw (eq, confirm_again namespace json k db (found_raw k h).0 e) (refl, r)
    | ConfirmCase.refused a h e eq ↦
        rw (eq, confirm_refused namespace json k db (found_raw k h).0 e) (refl, r)
    | ConfirmCase.no_ticket a h e q eq ↦
        let none_there : query_ticket a.ticket_id db.tickets ≡ none =
          ap (query_ticket a.ticket_id) r.same_tickets ∙ q in
        rw (eq, confirm_no_ticket namespace json k db (found_raw k h).0 e none_there) (refl, r)
    | ConfirmCase.writes a t h e q eq ↦
        let there : query_ticket a.ticket_id db.tickets ≡ some t =
          ap (query_ticket a.ticket_id) r.same_tickets ∙ q in
        rw (eq, confirm_writes namespace json k db (found_raw k h).0 e there)
          (
            refl,
            put-Represents k (done a) (r.keyed k a h) (
                ap (λ ts. (change_ticket_priority a.ticket_id a.new_priority ts).1) r.same_tickets),
          )
  ]

  -- Cancelling by the Redis store returns or raises what the in-memory store does, and afterwards
  -- the database still represents the store.
  pub cancel_action-Agree :
      (k : String)
      → Agree namespace json (cancel_action k mem) (Stored.cancel_action namespace json k db)
  cancel_action-Agree k = elim (cancel_cases k mem) [
    | CancelCase.missing h eq ↦
        let there : lookup (action_key namespace k) db.values ≡ none =
          r.same_actions k ∙ ap (encoded json) h in
        rw (eq, cancel_missing namespace json k db there) (refl, r)
    | CancelCase.again a h e eq ↦
        rw (eq, cancel_again namespace json k db (found_raw k h).0 e) (refl, r)
    | CancelCase.refused a h e eq ↦
        rw (eq, cancel_refused namespace json k db (found_raw k h).0 e) (refl, r)
    | CancelCase.drops a h e eq ↦
        rw (eq, cancel_drops namespace json k db (found_raw k h).0 e)
          (refl, put-Represents k (dropped a) (r.keyed k a h) r.same_tickets)
  ]

  -- Proposing by the Redis store, with the same fresh identifier, returns or raises what the
  -- in-memory store does, and afterwards the database still represents the store.
  pub propose_priority_change-Agree :
      (fresh ticket_id p : String)
      → Agree namespace json
          (propose_priority_change fresh ticket_id p mem)
          (Stored.propose_priority_change namespace json fresh ticket_id p db)
  propose_priority_change-Agree fresh ticket_id p =
      let tickets_there : query_ticket ticket_id db.tickets ≡ query_ticket ticket_id mem.tickets =
        ap (query_ticket ticket_id) r.same_tickets in
      elim (propose_cases fresh ticket_id p mem) [
        | ProposeCase.no_ticket h eq ↦
            rw (eq, propose_no_ticket namespace json fresh ticket_id p db (tickets_there ∙ h))
              (refl, r)
        | ProposeCase.invalid t h v eq ↦
            rw (eq, propose_invalid namespace json fresh ticket_id p db (tickets_there ∙ h) v)
              (refl, r)
        | ProposeCase.taken t a h v there eq ↦
            rw
              (
                eq,
                propose_taken namespace json fresh ticket_id p db (tickets_there ∙ h) v
                    (found_raw fresh there).0,
              )
              (refl, r)
        | ProposeCase.creates t h v free eq ↦
            rw
              (
                eq,
                propose_creates namespace json fresh ticket_id p db (tickets_there ∙ h) v
                    (r.same_actions fresh ∙ ap (encoded json) free),
              )
              (refl, put-Represents fresh (proposal fresh ticket_id p t) refl r.same_tickets)
      ]
