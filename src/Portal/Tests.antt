-- ===== src/Portal/Tests.antt =====
-- Concrete calls of the portal.
use Prim.Native.String.{String}
use opspilot_agent_platform.Prelude.{
  ◌≡◌, refl, sym, Bool, true, false, none, some, List, [], ◌∷◌, ◌==◌, text_eq, inl, arith, All,
  Member,
}
use mathlib.Core.Path.{subst}
use opspilot_agent_platform.Prelude.Dict.{lookup, insert}
use opspilot_agent_platform.Prelude.Tables.{first, update_where, count_where}
use opspilot_agent_platform.Prelude.Exec.{Result, ok}
use opspilot_agent_platform.Agent.State.{mock}
use opspilot_agent_platform.Portal.{
  PortalError, Conversation, Turn, Tables, agent, vision, reply, public_turn, of_turn, PublicTurn,
}
use opspilot_agent_platform.Portal.Turns.{
  TurnRequest, Ending, owned_conversation, put_conversation, new_turn, claim_turn, claim_new,
  recover_interrupted_vision, require_images, unknown_in, titled, change_turn, release, same_id,
  may_interrupt, is_vision, interrupt_turn,
}
use opspilot_agent_platform.Portal.Conversations.{owned_by, image_by, bytes_of}
use opspilot_agent_platform.Portal.Calls.{
  Call, Finishes, claim_call, finish_call, action_call, create_call, after, after_all,
}
use opspilot_agent_platform.Portal.Running.{one_runs}
use opspilot_agent_platform.Portal.Resend.{resend_finds_turn}
use opspilot_agent_platform.Portal.Interrupted.{GivenUp, interrupted_for_good}
use opspilot_agent_platform.Portal.Quotas.{WithinQuota, quotas_hold}

abbrev before : String → String → Bool
before a b = false

abbrev fingerprint : TurnRequest → String
fingerprint p = p.message

abbrev request : TurnRequest
request = record {
  request_id = "r1";
  message = "hello";
  mode = mock;
  image_ids = [];
  reuse_images = false;
  use_policy = false;
  policy_query = none;
  allow_external_images = false;
}

abbrev open_conversation : Conversation
open_conversation = record {
  owner_user_id = "u1";
  title = "orders";
  active_turn_id = none;
  created_at = 0;
  updated_at = 0;
}

abbrev tables : Tables
tables = record { conversations = ("c1", open_conversation) ∷ []; turns = []; images = [] }

abbrev claimed : Turn
claimed = new_turn "hello" "t1" 5 "c1" request [] vision

abbrev busy : Tables
busy = record {
  conversations =
      ("c1", record open_conversation { active_turn_id = some "t1"; updated_at = 5 }) ∷ [];
  turns = claimed ∷ [];
  images = [];
}

claims_first :
    claim_turn fingerprint "t1" 5 "u1" "c1" request [] vision tables
    ≡ (ok (public_turn claimed, true), busy)
unfolding claim_turn claim_new owned_conversation require_images unknown_in titled put_conversation
    new_turn lookup insert first public_turn
claims_first = refl

abbrev ending : Ending
ending = record { result = some (reply "{}"); status = "COMPLETED"; error_code = none }

not_running : (ending.status == "RUNNING") ≡ false
not_running = refl

abbrev calls : List Call
calls =
    finish_call 7 "u1" "c1" "t1" ending none
    ∷ create_call "c2" 8 "u1" "more"
    ∷ action_call 9 "u1" "c1" "t1"
    ∷ []

calls-Finish : All Finishes calls
calls-Finish = (not_running, (tt, (tt, tt)))

resend_finds_turn_example :
    (t : Turn) × (claim_turn fingerprint "t2" 20 "u1" "c1" request [] agent
        (after_all before fingerprint calls busy)
      ≡ (ok (public_turn t, false), after_all before fingerprint calls busy))
    × (t.id ≡ (public_turn claimed).id)
resend_finds_turn_example =
    resend_finds_turn before fingerprint "t1" "t2" 5 20 "u1" "c1" request [] [] vision agent calls
      tables busy (public_turn claimed) true claims_first calls-Finish

abbrev one_claim : List Call
one_claim = claim_call "t1" 5 "u1" "c1" request [] vision ∷ []

claimed-Member : Member claimed (after_all before fingerprint one_claim tables).turns
unfolding after_all after
claimed-Member =
    subst (λ (o : Result PortalError (PublicTurn × Bool) × Tables). Member claimed o.1.turns)
      (sym claims_first) (inl refl)

claimed_runs : (claimed.status == "RUNNING") ≡ true
unfolding new_turn
claimed_runs = refl

one_runs_example : claimed.id ≡ claimed.id
one_runs_example =
    one_runs before fingerprint one_claim tables claimed claimed tt (tt, tt) claimed-Member
      claimed-Member claimed_runs claimed_runs refl

abbrev late : Tables
late = record {
  conversations =
      ("c1", record open_conversation { active_turn_id = none; updated_at = 2000000000 }) ∷ [];
  turns = interrupt_turn 2000000000 claimed ∷ [];
  images = [];
}

found_claimed : first (of_turn "c1" "t1") busy.turns ≡ some claimed
unfolding first new_turn
found_claimed = refl

recovers :
    recover_interrupted_vision 2000000000 "u1" "c1" "t1" busy
    ≡ (ok (public_turn (interrupt_turn 2000000000 claimed)), late)
unfolding recover_interrupted_vision owned_conversation change_turn release put_conversation
    may_interrupt is_vision interrupt_turn new_turn lookup insert first update_where same_id
recovers = refl

interrupted_for_good_example : GivenUp "c1" "t1" (after_all before fingerprint calls late)
interrupted_for_good_example =
    interrupted_for_good before fingerprint 2000000000 "u1" "c1" "t1" calls busy late claimed
      (public_turn (interrupt_turn 2000000000 claimed)) found_claimed claimed_runs recovers
      calls-Finish

tables-WithinQuota : WithinQuota "u1" tables
unfolding count_where owned_by image_by bytes_of
tables-WithinQuota = (omega arith, omega arith, omega arith)

quotas_hold_example : WithinQuota "u1" (after_all before fingerprint calls tables)
quotas_hold_example =
    quotas_hold before fingerprint "u1" calls tables tables-WithinQuota calls-Finish
