-- ===== src/Portal/Accounts/Calls.antt =====
-- Any sequence of calls on the accounts.
use Prim.Native.String.{String}
use opspilot_agent_platform.Prelude.{ℕ, Bool, List, [], ◌∷◌, text_eq}
use opspilot_agent_platform.Portal.Accounts.{
  AccountTables, create_account, register, set_account_active, admit_login, create_session,
  revoke_session,
}

-- A call on the accounts; the environment chooses times, identifiers and hashes.
pub data AccountCall : Type 0 where
  create_call : String → String → String → AccountCall
  register_call : String → String → String → AccountCall
  switch_call : String → String → Bool → AccountCall
  attempt_call : ℕ → String → String → AccountCall
  login_call : ℕ → String → String → String → AccountCall
  logout_call : String → AccountCall

module _ (fingerprint : String → String) where
  unfoldable pub after_account : AccountCall → AccountTables → AccountTables
  after_account (create_call n u h) s = (create_account n u h s).1
  after_account (register_call u n h) s = (register u n h s).1
  after_account (switch_call a t b) s = (set_account_active a t b s).1
  after_account (attempt_call now u a) s = (admit_login fingerprint now u a s).1
  after_account (login_call now u t c) s = (create_session now u t c s).1
  after_account (logout_call t) s = (revoke_session t s).1

  unfoldable pub after_accounts : List AccountCall → AccountTables → AccountTables
  after_accounts [] s = s
  after_accounts (c ∷ cs) s = after_accounts cs (after_account c s)
