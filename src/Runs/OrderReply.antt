-- ===== src/Runs/OrderReply.antt =====
-- What `start` makes of a tool's result that is not made of texts alone, as an order's is.
use opspilot_agent_platform.Prelude.{
  String, ◌≡◌, ◌≢◌, refl, none, some, [], ◌∷◌, ◌++◌, arith, text_eq,
}
use opspilot_agent_platform.Prelude.Dict.{Dict, lookup, pair_eq}
use opspilot_agent_platform.Prelude.Exec.{ok}
use opspilot_agent_platform.Runs.Checkpoint.{
  Value, text, other, fields, Run, ChatReply, new_run, text_fields, text_result,
}
use opspilot_agent_platform.Runs.Checkpoint.Fields.{new_run_parts}
use opspilot_agent_platform.Runs.{RunStore, ChatRunner, start}
use opspilot_agent_platform.Runs.Start.{StartCase, start_cases}

text_fields_other :
    (d d' : Dict String Value) (k : String) → text_fields (d ++ (k, other) ∷ d') ≡ none
unfolding text_fields
text_fields_other [] d' k = refl
text_fields_other ((j, other) ∷ d) d' k = refl
text_fields_other ((j, text v) ∷ d) d' k = ground (arith, text_fields_other d d' k)

new_run_other :
    (fresh thread key message : String) (reply : ChatReply) (d d' : Dict String Value) (k : String)
    → reply.tool_result ≡ fields (d ++ (k, other) ∷ d')
    → {r : Run} → new_run fresh thread key message reply ≢ ok r
unfolding text_result
new_run_other fresh thread key message reply d d' k e {r} n =
    ground (arith, (new_run_parts fresh thread key message reply n).2, text_fields_other d d' k)

-- A new run is refused whenever some field of the tool's result is no text, whatever else the reply
-- holds: so is the lookup of an order, whose amount is a number.
pub start_needs_texts :
    (fresh thread key message : String) (chat : ChatRunner) (s : RunStore) {reply : ChatReply}
    (d d' : Dict String Value) (k : String)
    → lookup (thread, key) s.index ≡ none
    → (chat message s.actions).0 ≡ some reply
    → reply.tool_result ≡ fields (d ++ (k, other) ∷ d')
    → (r : Run) → (start fresh thread key message chat s).0 ≢ ok r
start_needs_texts fresh thread key message chat s {reply} d d' k free said e r h =
    elim (start_cases fresh thread key message chat s) [
      | StartCase.replays i x l q m eq ↦ cc
      | StartCase.conflicts i x l q m eq ↦ cc
      | StartCase.lost i l q eq ↦ cc
      | StartCase.fails x l eq ↦ cc
      | StartCase.creates x reply' l c n f eq ↦
          let same : reply' ≡ reply = cc in
          new_run_other fresh thread key message reply' d d' k (cc (same, e)) n
    ]
