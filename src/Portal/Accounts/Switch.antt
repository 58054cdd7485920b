-- ===== src/Portal/Accounts/Switch.antt =====
-- The ways in which switching an account on or off ends.
use Prim.Native.String.{String}
use opspilot_agent_platform.Prelude.{
  ◌≡◌, ◌≢◌, Bool, true, false, ◌&&◌, some, ◌==◌, text_eq, eq_iff, arith, inl, inr, Option-cases,
  Bool-cases, leb,
}
use opspilot_agent_platform.Prelude.Dict.{lookup, insert}
use opspilot_agent_platform.Prelude.Tables.{count_where}
use opspilot_agent_platform.Prelude.Exec.{ok, err}
use opspilot_agent_platform.Portal.{PortalError, not_found, conflict, permission}
use opspilot_agent_platform.Portal.Accounts.{
  Account, AccountTables, is_admin, is_active_admin, set_account_active, end_sessions,
}

-- The ways in which an account is switched.
pub data SwitchCase (actor target : String) (active : Bool) (s : AccountTables) : Type 0 where
  refused :
      (e : PortalError)
      → set_account_active actor target active s ≡ (err e, s)
      → SwitchCase actor target active s
  switched :
      (a row : Account)
      → lookup actor s.accounts ≡ some a
      → is_active_admin (actor, a) ≡ true
      → lookup target s.accounts ≡ some row
      → (active ≡ false → actor ≢ target)
      → (set_account_active actor target active s).0 ≡ ok (record row { active = active })
      → (set_account_active actor target active s).1.accounts
        ≡ insert target (record row { active = active }) s.accounts
      → (set_account_active actor target active s).1.sessions
        ≡ (end_sessions active target s).sessions
      → SwitchCase actor target active s

pub switch_cases :
    (actor target : String) (active : Bool) (s : AccountTables) → SwitchCase actor target active s
unfolding set_account_active is_active_admin
switch_cases actor target true s = elim (Option-cases (lookup actor s.accounts)) [
  | inl n ↦ refused permission (ground arith)
  | inr (a, n) ↦ elim (Bool-cases (a.active && is_admin a)) [
    | inr weak ↦ refused permission (ground arith)
    | inl strong ↦ elim (Option-cases (lookup target s.accounts)) [
      | inl m ↦ refused not_found (ground arith)
      | inr (row, m) ↦
          switched a row n strong m (λ x. absurd (cc x)) (ground arith) (ground arith)
            (ground arith)
    ]
  ]
]
switch_cases actor target false s = elim (Option-cases (lookup actor s.accounts)) [
  | inl n ↦ refused permission (ground arith)
  | inr (a, n) ↦ elim (Bool-cases (a.active && is_admin a)) [
    | inr weak ↦ refused permission (ground arith)
    | inl strong ↦ elim (Option-cases (lookup target s.accounts)) [
      | inl m ↦ refused not_found (ground arith)
      | inr (row, m) ↦ elim (Bool-cases (actor == target)) [
        | inl self ↦ refused conflict (ground arith)
        | inr other ↦
            elim (Bool-cases (is_admin row && leb (count_where is_active_admin s.accounts) 1)) [
              | inl last ↦ refused conflict (ground arith)
              | inr spare ↦
                  switched a row n strong m (λ x e. ground (arith, eq_iff actor target))
                    (ground arith) (ground arith) (ground arith)
            ]
      ]
    ]
  ]
]
