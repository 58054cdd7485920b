-- ===== src/Portal/Accounts.antt =====
-- The accounts of the portal: registering, switching an account on and off, sessions and the limit
-- of login attempts.
pub mod Switch
pub mod Calls
mod Tests
use Prim.Native.String.{String, ◌++◌ as ◌+++◌}
use opspilot_agent_platform.Prelude.{
  ℕ, zero, suc, ◌+◌, ◌/◌, Bool, true, false, not, ◌&&◌, ◌||◌, Option, none, some, List, [], ◌∷◌,
  ◌++◌, ◌==◌, text_eq, nat_eq, leb, ltb, keep, contains, if◌then◌else◌,
}
use opspilot_agent_platform.Prelude.Dict.{Dict, lookup, insert, is_some}
use opspilot_agent_platform.Prelude.Tables.{first, count_where}
use opspilot_agent_platform.Prelude.Exec.{
  Exec, ok, err, pure, raise, gets, or_raise, modify, raise_if, ◌>>=◌, ◌>>◌,
}
use opspilot_agent_platform.Evidence.{decimal}
use opspilot_agent_platform.Portal.{
  PortalError, not_found, conflict, permission, integrity_error, transaction,
}

-- `portal_accounts`, by its primary key `username`.
pub record Account : Type 0 where
  pub user_id : String
  pub password_hash : String
  pub active : Bool
  pub roles : Option (List String)
  pub demo_order_id : Option String

-- `portal_sessions`; times are in seconds.
pub record Session : Type 0 where
  pub token_hash : String
  pub username : String
  pub csrf_hash : String
  pub expires_at : ℕ

-- `portal_login_attempts`, by its primary key `scope`.
pub record Attempts : Type 0 where
  pub window_start : ℕ
  pub attempts : ℕ

pub record AccountTables : Type 0 where
  pub accounts : Dict String Account
  pub sessions : List Session
  pub login_attempts : Dict String Attempts
  pub events : List (String × String × Bool)
  pub orders : Dict String String

abbrev pub AccountMethod : Type 0 → Type 0
AccountMethod = Exec PortalError AccountTables

abbrev pub AccountRow : Type 0
AccountRow = String × Account

has_user_id : String → AccountRow → Bool
has_user_id user_id row = row.1.user_id == user_id

put_account : String → Account → AccountTables → AccountTables
put_account username a s = record s { accounts = insert username a s.accounts }

-- The account of that name, or of that user, is there: both columns are unique.
unfoldable pub is_taken : String → String → AccountTables → Bool
unfolding has_user_id
is_taken username user_id s =
    is_some (lookup username s.accounts) || is_some (first (has_user_id user_id) s.accounts)

unfoldable pub new_account : String → String → Option (List String) → Option String → Account
new_account user_id password_hash roles demo_order_id = record {
  user_id = user_id;
  password_hash = password_hash;
  active = true;
  roles = roles;
  demo_order_id = demo_order_id;
}

-- `account`
unfoldable pub account : String → AccountMethod (Option Account)
account username = do
  found ← gets (λ s. lookup username s.accounts)
  pure (elim found [ none ↦ none | some a ↦ if a.active then some a else none ])

-- Whether the account is new; `ON CONFLICT DO NOTHING` leaves one that is there.
unfoldable pub create_account : String → String → String → AccountMethod Bool
unfolding put_account new_account is_taken
create_account username user_id password_hash = transaction do
  taken ← gets (is_taken username user_id)
  if taken
      then pure false
      else do modify (put_account username (new_account user_id password_hash none none)); pure true

-- The first free number from `n` on, among so many.
pub free_order : ℕ → ℕ → Dict String String → Option String
free_order zero n orders = none
free_order (suc left) n orders = elim (is_some (lookup ("O-" +++ decimal n) orders)) [
  | true ↦ free_order left (n + 1) orders
  | false ↦ some ("O-" +++ decimal n)
]

put_order : String → String → AccountTables → AccountTables
put_order order_id user_id s = record s { orders = insert order_id user_id s.orders }

-- `user_id` is "U-" with a fresh `uuid4()`. The order's policy row is not kept.
unfoldable pub register : String → String → String → AccountMethod Account
unfolding put_account new_account put_order is_taken
register user_id username password_hash = transaction do
  raise_if (is_some (← gets (λ s. lookup username s.accounts))) conflict
  order ← or_raise (← gets (λ s. free_order 2000 8000 s.orders)) conflict
  raise_if (← gets (is_taken username user_id)) integrity_error
  let a = new_account user_id password_hash (some ("customer" ∷ [])) (some order)
  modify (put_account username a)
  modify (put_order order user_id)
  pure a

unfoldable pub is_admin : Account → Bool
is_admin a = elim a.roles [ none ↦ false | some rs ↦ contains rs "admin" ]

unfoldable pub is_active_admin : AccountRow → Bool
unfolding is_admin
is_active_admin row = row.1.active && is_admin row.1

-- A disabled account loses its sessions.
unfoldable pub end_sessions : Bool → String → AccountTables → AccountTables
end_sessions true target s = s
end_sessions false target s = record s {
  sessions = keep (λ (r : Session). not (r.username == target)) s.sessions;
}

add_event : String → String → Bool → AccountTables → AccountTables
add_event actor target active s = record s { events = s.events ++ (actor, target, active) ∷ [] }

-- What must hold before an account is disabled.
unfoldable pub may_disable : String → String → Account → AccountMethod (Unit {0})
unfolding is_admin is_active_admin
may_disable actor target row = do
  raise_if (actor == target) conflict
  admins ← gets (λ s. count_where is_active_admin s.accounts)
  raise_if (is_admin row && leb admins 1) conflict

unfoldable pub check_target : Bool → String → String → Account → AccountMethod (Unit {0})
unfolding may_disable
check_target true actor target row = pure tt
check_target false actor target row = may_disable actor target row

unfoldable pub set_account_active : String → String → Bool → AccountMethod Account
unfolding is_admin check_target put_account end_sessions add_event
set_account_active actor target active = transaction do
  source ← or_raise (← gets (λ s. lookup actor s.accounts)) permission
  raise_if (not (source.active && is_admin source)) permission
  row ← or_raise (← gets (λ s. lookup target s.accounts)) not_found
  check_target active actor target row
  modify (put_account target (record row { active = active }))
  modify (end_sessions active target)
  modify (add_event actor target active)
  pure (record row { active = active })

-- The UPSERT of one scope: the attempts of the current window, this one included.
counted : ℕ → Option Attempts → ℕ
counted window none = 1
counted window (some a) = if a.window_start == window then a.attempts + 1 else 1

put_attempts : String → ℕ → ℕ → AccountTables → AccountTables
put_attempts scope window n s = record s {
  login_attempts = insert scope (record { window_start = window; attempts = n }) s.login_attempts;
}

count_attempt : String → ℕ → AccountMethod ℕ
unfolding counted put_attempts
count_attempt scope window = do
  n ← gets (λ s. counted window (lookup scope s.login_attempts))
  modify (put_attempts scope window n)
  pure n

-- `fingerprint` is SHA-256 in hexadecimal.
unfoldable pub admit_login : (String → String) → ℕ → String → String → AccountMethod Bool
unfolding count_attempt
admit_login fingerprint now username address = transaction do
  by_user ← count_attempt (fingerprint ("user:" +++ username)) (now / 900)
  by_address ← count_attempt (fingerprint ("address:" +++ address)) (now / 900)
  pure (leb by_address 60 && leb by_user 10)

-- A session of 8 hours.
unfoldable pub new_session : ℕ → String → String → String → Session
new_session now username token_hash csrf_hash = record {
  token_hash = token_hash;
  username = username;
  csrf_hash = csrf_hash;
  expires_at = now + 28800;
}

add_session : Session → AccountTables → AccountTables
add_session r s = record s { sessions = s.sessions ++ r ∷ [] }

drop_expired : ℕ → AccountTables → AccountTables
drop_expired now s = record s { sessions = keep (λ (r : Session). ltb now r.expires_at) s.sessions }

unfoldable pub create_session : ℕ → String → String → String → AccountMethod (Unit {0})
unfolding new_session add_session drop_expired
create_session now username token_hash csrf_hash = transaction do
  found ← gets (λ s. lookup username s.accounts)
  a ← or_raise found conflict
  raise_if (not a.active) conflict
  modify (drop_expired now)
  raise_if (is_some (← gets (λ s. first (λ r. r.token_hash == token_hash) s.sessions)))
      integrity_error
  modify (add_session (new_session now username token_hash csrf_hash))

-- `JOIN portal_accounts …`: a session of an active account that has not expired.
unfoldable pub is_live : ℕ → String → AccountTables → Session → Bool
is_live now token_hash s r =
    r.token_hash == token_hash
    && ltb now r.expires_at
    && elim (lookup r.username s.accounts) [ none ↦ false | some a ↦ a.active ]

joined : Option Session → AccountTables → Option (Account × Session)
joined none s = none
joined (some r) s = elim (lookup r.username s.accounts) [ none ↦ none | some a ↦ some (a, r) ]

unfoldable pub session : ℕ → String → AccountMethod (Option (Account × Session))
unfolding is_live joined
session now token_hash = do
  found ← gets (λ s. first (is_live now token_hash s) s.sessions)
  gets (joined found)

unfoldable pub revoke_session : String → AccountMethod (Unit {0})
revoke_session token_hash = do
  modify (λ s. record s {
    sessions = keep (λ (r : Session). not (r.token_hash == token_hash)) s.sessions;
  })
