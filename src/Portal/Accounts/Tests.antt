-- ===== src/Portal/Accounts/Tests.antt =====
-- Concrete calls on the accounts.
use Prim.Native.String.{String}
use opspilot_agent_platform.Prelude.{
  ◌≡◌, refl, true, false, none, some, List, [], ◌∷◌, ◌==◌, text_eq,
}
use opspilot_agent_platform.Prelude.Dict.{lookup, insert}
use opspilot_agent_platform.Prelude.Tables.{count_where}
use opspilot_agent_platform.Prelude.Exec.{ok}
use opspilot_agent_platform.Portal.Accounts.{
  Account, Session, AccountTables, set_account_active, is_admin, is_active_admin, session,
  check_target, may_disable, end_sessions,
}
use opspilot_agent_platform.Portal.Accounts.Calls.{
  AccountCall, switch_call, login_call, after_accounts,
}
use opspilot_agent_platform.Portal.Admins.{HasAdmin, an_admin_remains}
use opspilot_agent_platform.Portal.Sessions.{disabled_for_good}

abbrev fingerprint : String → String
fingerprint s = s

abbrev boss : Account
boss = record {
  user_id = "U-1";
  password_hash = "x";
  active = true;
  roles = some ("admin" ∷ []);
  demo_order_id = none;
}

abbrev customer : Account
customer = record boss { user_id = "U-2"; roles = some ("customer" ∷ []) }

abbrev login : Session
login = record { token_hash = "h1"; username = "ann"; csrf_hash = "c"; expires_at = 28800 }

abbrev tables : AccountTables
tables = record {
  accounts = ("root", boss) ∷ ("ann", customer) ∷ [];
  sessions = login ∷ [];
  login_attempts = [];
  events = [];
  orders = [];
}

abbrev disabled : AccountTables
disabled = record tables {
  accounts = ("root", boss) ∷ ("ann", record customer { active = false }) ∷ [];
  sessions = [];
  events = ("root", "ann", false) ∷ [];
}

disables :
    set_account_active "root" "ann" false tables
    ≡ (ok (record customer { active = false }), disabled)
unfolding set_account_active is_admin is_active_admin check_target may_disable end_sessions lookup
    insert count_where
disables = refl

other_token : (◌==◌ {T = String} "h2" "h1") ≡ false
other_token = refl

abbrev calls : List AccountCall
calls = switch_call "root" "ann" true ∷ login_call 100 "ann" "h2" "c" ∷ []

disabled_for_good_example :
    (session 200 "h1" (after_accounts fingerprint calls disabled)).0 ≡ ok none
disabled_for_good_example =
    disabled_for_good fingerprint 200 "root" "ann" "h1" calls tables disabled
      (record customer { active = false }) ((λ e. refl), tt) disables (tt, (other_token, tt))

tables-HasAdmin : HasAdmin tables
unfolding is_active_admin is_admin lookup
tables-HasAdmin = ("root", boss, refl, refl)

an_admin_remains_example : HasAdmin (
    after_accounts fingerprint
      (switch_call "root" "ann" false ∷ switch_call "root" "root" false ∷ [])
      tables)
an_admin_remains_example =
    an_admin_remains fingerprint
      (switch_call "root" "ann" false ∷ switch_call "root" "root" false ∷ []) tables tables-HasAdmin
