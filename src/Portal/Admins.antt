-- ===== src/Portal/Admins.antt =====
-- The portal never loses its last active administrator.
use Prim.Native.String.{String}
use opspilot_agent_platform.Prelude.{
  ℕ, ◌≡◌, ◌≢◌, refl, Bool, true, false, none, some, List, [], ◌∷◌, ◌==◌, text_eq, eq_iff, arith,
  inl, inr, Option-cases, Bool-cases,
}
use opspilot_agent_platform.Prelude.Dict.{Dict, lookup, insert, lookup-insert}
use opspilot_agent_platform.Portal.Accounts.{
  Account, AccountTables, is_active_admin, is_taken, create_account, register, set_account_active,
  admit_login, create_session, revoke_session, new_account, free_order,
}
use opspilot_agent_platform.Portal.Accounts.Switch.{refused, switched, switch_cases}
use opspilot_agent_platform.Portal.Accounts.Calls.{
  AccountCall, create_call, register_call, switch_call, attempt_call, login_call, logout_call,
  after_account, after_accounts,
}

-- An account that is active and an administrator's.
abbrev HasAdminIn : Dict String Account → Type 0
HasAdminIn d =
    (k : String) × (a : Account) × (lookup k d ≡ some a) × (is_active_admin (k, a) ≡ true)

abbrev pub HasAdmin : AccountTables → Type 0
HasAdmin s = HasAdminIn s.accounts

-- Whoever switches their own account switches it on.
switched_on :
    (active : Bool) (actor target : String)
    → (active ≡ false → actor ≢ target)
    → actor ≡ target
    → active ≡ true
switched_on true actor target apart e = refl
switched_on false actor target apart e = absurd (apart refl e)

module _ (fingerprint : String → String) where
  -- A name that is not taken is not the administrator's.
  add-HasAdmin :
      (n : String) (b : Account) (d d' : Dict String Account)
      → lookup n d ≡ none
      → d' ≡ insert n b d
      → HasAdminIn d
      → HasAdminIn d'
  add-HasAdmin n b d d' free e (k, a, there, strong) =
      (k, a, ground (arith, lookup-insert n k b d, eq_iff n k), strong)

  same-HasAdmin : (d d' : Dict String Account) → d' ≡ d → HasAdminIn d → HasAdminIn d'
  same-HasAdmin d d' e (k, a, there, strong) = (k, a, ground arith, strong)

  create-HasAdmin :
      (n u h : String) (s : AccountTables) → HasAdmin s → HasAdmin (create_account n u h s).1
  unfolding create_account is_taken
  create-HasAdmin n u h s admin = elim (Bool-cases (is_taken n u s)) [
    | inl taken ↦ same-HasAdmin s.accounts (create_account n u h s).1.accounts (ground arith) admin
    | inr free ↦
        add-HasAdmin n (new_account u h none none) s.accounts (create_account n u h s).1.accounts
          (ground arith) (ground arith) admin
  ]

  register-HasAdmin :
      (u n h : String) (s : AccountTables) → HasAdmin s → HasAdmin (register u n h s).1
  unfolding register is_taken
  register-HasAdmin u n h s admin = elim (Option-cases (lookup n s.accounts)) [
    | inr (b, there) ↦ same-HasAdmin s.accounts (register u n h s).1.accounts (ground arith) admin
    | inl free ↦ elim (Option-cases (free_order 2000 8000 s.orders)) [
      | inl full ↦ same-HasAdmin s.accounts (register u n h s).1.accounts (ground arith) admin
      | inr (order, o) ↦ elim (Bool-cases (is_taken n u s)) [
        | inl taken ↦ same-HasAdmin s.accounts (register u n h s).1.accounts (ground arith) admin
        | inr new ↦
            add-HasAdmin n (new_account u h (some ("customer" ∷ [])) (some order)) s.accounts
              (register u n h s).1.accounts free (ground arith) admin
      ]
    ]
  ]

  switch-HasAdmin :
      (actor target : String) (active : Bool) (s : AccountTables)
      → HasAdmin s
      → HasAdmin (set_account_active actor target active s).1
  unfolding is_active_admin
  switch-HasAdmin actor target active s admin = elim (switch_cases actor target active s) [
    | refused e q ↦
        same-HasAdmin s.accounts (set_account_active actor target active s).1.accounts
          (ground arith) admin
    | switched a row n strong m apart r accounts sessions ↦ elim (Bool-cases (actor == target)) [
      | inr other ↦ (
        actor,
        a,
        ground (
          arith,
          lookup-insert target actor (record row { active = active }) s.accounts,
          eq_iff target actor,
          eq_iff actor target,
        ),
        strong,
      )
      | inl self ↦ (
        actor,
        record row { active = active },
        ground (
          arith,
          lookup-insert target actor (record row { active = active }) s.accounts,
          eq_iff target actor,
          eq_iff actor target,
        ),
        ground (arith, eq_iff actor target, switched_on active actor target apart),
      )
    ]
  ]

  attempt-accounts :
      (now : ℕ) (u a : String) (s : AccountTables)
      → (admit_login fingerprint now u a s).1.accounts ≡ s.accounts
  unfolding admit_login
  attempt-accounts now u a s = ground arith

  login-accounts :
      (now : ℕ) (u t c : String) (s : AccountTables)
      → (create_session now u t c s).1.accounts ≡ s.accounts
  unfolding create_session
  login-accounts now u t c s = ground arith

  after-HasAdmin :
      (c : AccountCall) (s : AccountTables) → HasAdmin s → HasAdmin (after_account fingerprint c s)
  unfolding after_account revoke_session
  after-HasAdmin (create_call n u h) s admin = create-HasAdmin n u h s admin
  after-HasAdmin (register_call u n h) s admin = register-HasAdmin u n h s admin
  after-HasAdmin (switch_call a t b) s admin = switch-HasAdmin a t b s admin
  after-HasAdmin (attempt_call now u a) s admin =
      same-HasAdmin s.accounts (admit_login fingerprint now u a s).1.accounts
        (attempt-accounts now u a s) admin
  after-HasAdmin (login_call now u t c) s admin =
      same-HasAdmin s.accounts (create_session now u t c s).1.accounts (login-accounts now u t c s)
        admin
  after-HasAdmin (logout_call t) s admin = admin

  -- While there is an active administrator there always will be one, whatever calls are made.
  pub an_admin_remains :
      (cs : List AccountCall) (s : AccountTables)
      → HasAdmin s
      → HasAdmin (after_accounts fingerprint cs s)
  unfolding after_accounts
  an_admin_remains [] s admin = admin
  an_admin_remains (c ∷ cs) s admin =
      an_admin_remains cs (after_account fingerprint c s) (after-HasAdmin c s admin)
