-- ===== src/Runs/History.antt =====
-- Any sequence of calls of the run store.
use opspilot_agent_platform.Prelude.{String, List, [], ◌∷◌}
use opspilot_agent_platform.Runs.{RunStore, ChatRunner, start, confirm_run, cancel_run}
use opspilot_agent_platform.Runs.Invariant.{
  IsConsistent, start-IsConsistent, confirm_run-IsConsistent, cancel_run-IsConsistent,
}

-- A call of the store; the environment chooses identifiers and chat runners, which may do anything
-- to the action store.
pub data Call : Type 0 where
  start_call : String → String → String → String → ChatRunner → Call
  confirm_call cancel_call : String → Call

unfoldable pub after : Call → RunStore → RunStore
after (start_call fresh thread key message chat) s = (start fresh thread key message chat s).1
after (confirm_call i) s = (confirm_run i s).1
after (cancel_call i) s = (cancel_run i s).1

unfoldable pub after_all : List Call → RunStore → RunStore
after_all [] s = s
after_all (c ∷ cs) s = after_all cs (after c s)

after-IsConsistent : (c : Call) (s : RunStore) → IsConsistent s → IsConsistent (after c s)
unfolding after
after-IsConsistent (start_call fresh thread key message chat) s h =
    start-IsConsistent fresh thread key message chat s h
after-IsConsistent (confirm_call i) s h = confirm_run-IsConsistent i s h
after-IsConsistent (cancel_call i) s h = cancel_run-IsConsistent i s h

-- From a consistent store, whatever calls are made, the store stays consistent.
pub after_all-IsConsistent :
    (cs : List Call) (s : RunStore) → IsConsistent s → IsConsistent (after_all cs s)
unfolding after_all
after_all-IsConsistent [] s h = h
after_all-IsConsistent (c ∷ cs) s h =
    after_all-IsConsistent cs (after c s) (after-IsConsistent c s h)
