-- ===== src/Redis/Keys.antt =====
-- The names under which the stores keep their values.
use Prim.Native.String.{◌++◌}
use text.Mathlib.TextLemmas.{append_cancel_left, append_assoc}
use opspilot_agent_platform.Prelude.{String, ◌≡◌, ap, ◌∙◌}

unfoldable pub action_key : String → String → String
action_key namespace action_id = namespace ++ (":pending_action:" ++ action_id)

unfoldable pub run_key : String → String → String
run_key namespace run_id = namespace ++ (":agent_run:" ++ run_id)

unfoldable pub idempotency_key : String → String → String → String
idempotency_key namespace thread_id key =
    namespace ++ (":agent_run:idempotency:" ++ (thread_id ++ (":" ++ key)))

pub action_key-injective : (n a b : String) → action_key n a ≡ action_key n b → a ≡ b
unfolding action_key
action_key-injective n a b e =
    append_cancel_left ":pending_action:" a b (append_cancel_left n _ _ e)

pub run_key-injective : (n a b : String) → run_key n a ≡ run_key n b → a ≡ b
unfolding run_key
run_key-injective n a b e = append_cancel_left ":agent_run:" a b (append_cancel_left n _ _ e)

-- A colon moves from the session's name to the key without changing the index's name.
pub idempotency_key_shifts :
    (n t a b : String)
    → idempotency_key n (t ++ (":" ++ a)) b ≡ idempotency_key n t (a ++ (":" ++ b))
unfolding idempotency_key
idempotency_key_shifts n t a b =
    ap (λ x. n ++ (":agent_run:idempotency:" ++ x))
      (append_assoc t (":" ++ a) (":" ++ b) ∙ ap (λ x. t ++ x) (append_assoc ":" a (":" ++ b)))
