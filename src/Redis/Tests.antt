-- ===== src/Redis/Tests.antt =====
-- Concrete runs of the Redis stores, over a codec that writes a record's fields one by one.
use opspilot_agent_platform.Prelude.{
  ℕ, zero, suc, ◌≡◌, ◌≢◌, refl, none, some, List, [], ◌∷◌, arith, text_eq, eq_iff,
}
use opspilot_agent_platform.Prelude.Text.{is_blank}
use opspilot_agent_platform.Prelude.Dict.{lookup}
use opspilot_agent_platform.Prelude.Exec.{ok}
use opspilot_agent_platform.Actions.{
  ActionStatus, pending, executed, cancelled, PendingAction, ActionStore, confirm_action,
  propose_priority_change,
}
use opspilot_agent_platform.Actions.Tickets.{Ticket}
use opspilot_agent_platform.Runs.Checkpoint.{
  RunStatus, waiting_confirmation, completed, run_cancelled, nothing, Run, new_run, checked_texts,
  pending_of, text_result, is_valid_run,
}
use opspilot_agent_platform.Redis.Database.{Codec, Database}
use opspilot_agent_platform.Redis.Keys.{run_key, idempotency_key}
use opspilot_agent_platform.Redis.ActionStore as Stored
use opspilot_agent_platform.Redis.RunStore.{ChatRunner, start}
use opspilot_agent_platform.Redis.Refines.{
  Represents, Agree, confirm_action-Agree, propose_priority_change-Agree,
}
use opspilot_agent_platform.Redis.Collision.{start_idempotent_stored, start_crosses_sessions}
use opspilot_agent_platform.Redis.Serial.{text, number, pair, option, list, via, codec}

abbrev from_action_status : ActionStatus → ℕ
from_action_status pending = 0
from_action_status executed = 1
from_action_status cancelled = 2

abbrev to_action_status : ℕ → ActionStatus
to_action_status zero = pending
to_action_status (suc zero) = executed
to_action_status (suc (suc _)) = cancelled

action_status_back : (s : ActionStatus) → to_action_status (from_action_status s) ≡ s
action_status_back pending = refl
action_status_back executed = refl
action_status_back cancelled = refl

action_json : Codec PendingAction
action_json = codec (
    via
      (pair text (
        pair text (
          pair text (
            pair text
              (pair text (via number from_action_status to_action_status action_status_back))))))
      (λ a. (
        a.action_id,
        (a.tool_name, (a.ticket_id, (a.previous_priority, (a.new_priority, a.status)))),
      ))
      (λ (i, (n, (t, (p, (q, s))))). record {
        action_id = i;
        tool_name = n;
        ticket_id = t;
        previous_priority = p;
        new_priority = q;
        status = s;
      })
      (λ a. refl))

abbrev from_run_status : RunStatus → ℕ
from_run_status waiting_confirmation = 0
from_run_status completed = 1
from_run_status run_cancelled = 2

abbrev to_run_status : ℕ → RunStatus
to_run_status zero = waiting_confirmation
to_run_status (suc zero) = completed
to_run_status (suc (suc _)) = run_cancelled

run_status_back : (s : RunStatus) → to_run_status (from_run_status s) ≡ s
run_status_back waiting_confirmation = refl
run_status_back completed = refl
run_status_back run_cancelled = refl

run_json : Codec Run
run_json = codec (
    via
      (pair text (
        pair text (
          pair text (
            pair (via number from_run_status to_run_status run_status_back) (
              pair text (
                pair (option text) (
                  pair text (
                    pair (option (list (pair text text)))
                      (pair text (pair number (pair number number)))))))))))
      (λ r. (
        r.run_id,
        (
          r.thread_id,
          (
            r.idempotency_key,
            (
              r.status,
              (
                r.user_message,
                (
                  r.pending_action_id,
                  (
                    r.tool_name,
                    (
                      r.tool_result,
                      (r.answer, (r.version, (r.model_requests, r.simulated_model_requests))),
                    ),
                  ),
                ),
              ),
            ),
          ),
        ),
      ))
      (λ (i, (t, (k, (s, (m, (p, (n, (v, (a, (w, (q, z))))))))))). record {
        run_id = i;
        thread_id = t;
        idempotency_key = k;
        status = s;
        user_message = m;
        pending_action_id = p;
        tool_name = n;
        tool_result = v;
        answer = a;
        version = w;
        model_requests = q;
        simulated_model_requests = z;
      })
      (λ r. refl))

abbrev tickets : List Ticket
tickets = record { id = "T-1001"; status = "open"; priority = "high" } ∷ []

abbrev memory : ActionStore
memory = record { tickets = tickets; actions = [] }

abbrev database : Database
database = record { tickets = tickets; values = [] }

empty_Represents : Represents "ops" action_json memory database
unfolding lookup
empty_Represents = record {
  same_tickets = refl;
  same_actions = λ k. refl;
  keyed = λ k a h. ground arith;
}

propose_priority_change-Agree_example :
    Agree "ops" action_json
      (propose_priority_change "act_1" "T-1001" "low" memory)
      (Stored.propose_priority_change "ops" action_json "act_1" "T-1001" "low" database)
propose_priority_change-Agree_example =
    propose_priority_change-Agree empty_Represents "act_1" "T-1001" "low"

confirm_action-Agree_example :
    let mem = (propose_priority_change "act_1" "T-1001" "low" memory).1 in
    let db = (Stored.propose_priority_change "ops" action_json "act_1" "T-1001" "low" database).1 in
    Agree "ops" action_json
      (confirm_action "act_1" mem)
      (Stored.confirm_action "ops" action_json "act_1" db)
confirm_action-Agree_example =
    confirm_action-Agree (propose_priority_change-Agree empty_Represents "act_1" "T-1001" "low").1
      "act_1"

-- A chat that answers a question.
abbrev answers : ChatRunner
answers message db = (
  some (record {
    tool_name = some "query_ticket";
    tool_result = nothing;
    answer = some "done";
    model_requests = none;
    simulated_model_requests = some 2;
  }),
  db,
)

abbrev started_run : Run
started_run = record {
  run_id = "run_1";
  thread_id = "t:a";
  idempotency_key = "b";
  status = completed;
  user_message = "hi";
  pending_action_id = none;
  tool_name = "query_ticket";
  tool_result = none;
  answer = "done";
  version = 1;
  model_requests = 0;
  simulated_model_requests = 2;
}

apart : run_key "ops" "run_1" ≢ idempotency_key "ops" "t:a" "b"
unfolding run_key idempotency_key
apart h = ground (arith, (eq_iff (run_key "ops" "run_1") (idempotency_key "ops" "t:a" "b")).1 h)

started_ok : (start "ops" run_json "run_1" "t:a" "b" "hi" answers database).0 ≡ ok started_run
unfolding start lookup new_run checked_texts pending_of text_result is_valid_run is_blank
started_ok = refl

start_idempotent_stored_example :
    let db' = (start "ops" run_json "run_1" "t:a" "b" "hi" answers database).1 in
    start "ops" run_json "run_2" "t:a" "b" "hi" answers db' ≡ (ok started_run, db')
start_idempotent_stored_example =
    start_idempotent_stored "ops" run_json "run_1" "t:a" "b" "hi" answers database apart started_ok
      "run_2" answers

start_crosses_sessions_example :
    let db' = (start "ops" run_json "run_1" "t:a" "b" "hi" answers database).1 in
    start "ops" run_json "run_2" "t" "a:b" "hi" answers db' ≡ (ok started_run, db')
start_crosses_sessions_example =
    start_crosses_sessions "ops" run_json "run_1" "t" "a" "b" "hi" answers database apart started_ok
      "run_2" answers
