-- ===== src/Redis/ActionCases.antt =====
-- The Redis action store's methods as equations, by what the database holds.
use opspilot_agent_platform.Prelude.{String, ◌≡◌, true, false, none, some, arith, text_eq}
use opspilot_agent_platform.Prelude.Dict.{lookup, insert}
use opspilot_agent_platform.Prelude.Exec.{ok, err}
use opspilot_agent_platform.Actions.{
  PendingAction, is_valid_action, executed, cancelled, pending, action_not_found, ticket_not_found,
  state_error, id_conflict, validation_error,
}
use opspilot_agent_platform.Actions.Tickets.{
  Ticket, query_ticket, change_ticket_priority, change-query_ticket, change_absent,
}
use opspilot_agent_platform.Actions.Confirm.{done, dropped}
use opspilot_agent_platform.Actions.Propose.{proposal}
use opspilot_agent_platform.Redis.Database.{Codec, Database}
use opspilot_agent_platform.Redis.Keys.{action_key}
use opspilot_agent_platform.Redis.ActionStore as Stored

module _ (namespace : String) (json : Codec PendingAction) (k : String) (db : Database) where
  pub confirm_missing :
      lookup (action_key namespace k) db.values ≡ none
      → Stored.confirm_action namespace json k db ≡ (err action_not_found, db)
  unfolding Stored.confirm_action
  confirm_missing h = ground arith

  pub cancel_missing :
      lookup (action_key namespace k) db.values ≡ none
      → Stored.cancel_action namespace json k db ≡ (err action_not_found, db)
  unfolding Stored.cancel_action
  cancel_missing h = ground arith

  module _ {a : PendingAction}
      (found : lookup (action_key namespace k) db.values ≡ some (json.encode a)) where
    pub confirm_again : a.status ≡ executed → Stored.confirm_action namespace json k db ≡ (ok a, db)
    unfolding Stored.confirm_action
    confirm_again e = ground (arith, json.round_trip a)

    pub confirm_refused :
        a.status ≡ cancelled → Stored.confirm_action namespace json k db ≡ (err state_error, db)
    unfolding Stored.confirm_action
    confirm_refused e = ground (arith, json.round_trip a)

    pub confirm_no_ticket :
        a.status ≡ pending
        → query_ticket a.ticket_id db.tickets ≡ none
        → Stored.confirm_action namespace json k db ≡ (err ticket_not_found, db)
    unfolding Stored.confirm_action
    confirm_no_ticket e n = ground (
      arith,
      json.round_trip a,
      change-query_ticket a.ticket_id a.new_priority db.tickets,
      change_absent a.ticket_id a.new_priority db.tickets,
    )

    pub confirm_writes :
        {t : Ticket}
        → a.status ≡ pending
        → query_ticket a.ticket_id db.tickets ≡ some t
        → Stored.confirm_action namespace json k db ≡ (
          ok (done a),
          record {
            tickets = (change_ticket_priority a.ticket_id a.new_priority db.tickets).1;
            values = insert (action_key namespace a.action_id) (json.encode (done a)) db.values;
          },
        )
    unfolding Stored.confirm_action
    confirm_writes e q =
        ground (arith, json.round_trip a, change-query_ticket a.ticket_id a.new_priority db.tickets)

    pub cancel_again : a.status ≡ cancelled → Stored.cancel_action namespace json k db ≡ (ok a, db)
    unfolding Stored.cancel_action
    cancel_again e = ground (arith, json.round_trip a)

    pub cancel_refused :
        a.status ≡ executed → Stored.cancel_action namespace json k db ≡ (err state_error, db)
    unfolding Stored.cancel_action
    cancel_refused e = ground (arith, json.round_trip a)

    pub cancel_drops :
        a.status ≡ pending
        → Stored.cancel_action namespace json k db ≡ (
          ok (dropped a),
          record db {
            values = insert (action_key namespace a.action_id) (json.encode (dropped a)) db.values;
          },
        )
    unfolding Stored.cancel_action
    cancel_drops e = ground (arith, json.round_trip a)

module _ (namespace : String) (json : Codec PendingAction) (fresh ticket_id p : String)
    (db : Database) where
  pub propose_no_ticket :
      query_ticket ticket_id db.tickets ≡ none
      → Stored.propose_priority_change namespace json fresh ticket_id p db
        ≡ (err ticket_not_found, db)
  unfolding Stored.propose_priority_change
  propose_no_ticket h = ground arith

  module _ {t : Ticket} (found : query_ticket ticket_id db.tickets ≡ some t) where
    pub propose_invalid :
        is_valid_action (proposal fresh ticket_id p t) ≡ false
        → Stored.propose_priority_change namespace json fresh ticket_id p db
          ≡ (err validation_error, db)
    unfolding Stored.propose_priority_change
    propose_invalid h = ground arith

    pub propose_taken :
        {v : String}
        → is_valid_action (proposal fresh ticket_id p t) ≡ true
        → lookup (action_key namespace fresh) db.values ≡ some v
        → Stored.propose_priority_change namespace json fresh ticket_id p db ≡ (err id_conflict, db)
    unfolding Stored.propose_priority_change
    propose_taken h there = ground arith

    pub propose_creates :
        is_valid_action (proposal fresh ticket_id p t) ≡ true
        → lookup (action_key namespace fresh) db.values ≡ none
        → Stored.propose_priority_change namespace json fresh ticket_id p db ≡ (
          ok (proposal fresh ticket_id p t),
          record db {
            values =
                insert
                  (action_key namespace fresh)
                  (json.encode (proposal fresh ticket_id p t))
                  db.values;
          },
        )
    unfolding Stored.propose_priority_change
    propose_creates h free = ground arith
