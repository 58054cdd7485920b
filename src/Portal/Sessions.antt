-- ===== src/Portal/Sessions.antt =====
-- A session of an account that was disabled never works again.
use Prim.Native.String.{String}
use opspilot_agent_platform.Prelude.{
  ℕ, ◌≡◌, ap, Bool, true, false, not, none, List, [], ◌∷◌, ◌++◌, ◌==◌, text_eq, eq_iff, arith, inl,
  inr, Option-cases, Bool-cases, All, All-keep, All-append, All-weaken, ltb, keep,
}
use opspilot_agent_platform.Prelude.Dict.{lookup}
use opspilot_agent_platform.Prelude.Tables.{first, first-none}
use opspilot_agent_platform.Prelude.Exec.{ok}
use opspilot_agent_platform.Portal.Accounts.{
  Account, Session, AccountTables, create_account, register, set_account_active, admit_login,
  create_session, revoke_session, end_sessions, session, is_live, new_session,
}
use opspilot_agent_platform.Portal.Accounts.Switch.{refused, switched, switch_cases}
use opspilot_agent_platform.Portal.Accounts.Calls.{
  AccountCall, create_call, register_call, switch_call, attempt_call, login_call, logout_call,
  after_account, after_accounts,
}

-- No session has the token.
abbrev Gone : String → List Session → Type 0
Gone h rs = All (λ (r : Session). (r.token_hash == h) ≡ false) rs

-- A login makes another token.
abbrev pub Other : String → AccountCall → Type 0
Other h (login_call now u t c) = (t == h) ≡ false
Other h _ = Unit

module _ (h : String) where
  keep-Gone : (p : Session → Bool) (rs : List Session) → Gone h rs → Gone h (keep p rs)
  keep-Gone p rs g =
      All-keep (λ (r : Session). (r.token_hash == h) ≡ false)
        (λ (r : Session). (r.token_hash == h) ≡ false) p rs (λ r kept e. e) g

  create-sessions :
      (n u w : String) (s : AccountTables) → (create_account n u w s).1.sessions ≡ s.sessions
  unfolding create_account
  create-sessions n u w s = ground arith

  register-sessions :
      (u n w : String) (s : AccountTables) → (register u n w s).1.sessions ≡ s.sessions
  unfolding register
  register-sessions u n w s = ground arith

  attempt-sessions :
      (f : String → String) (now : ℕ) (u a : String) (s : AccountTables)
      → (admit_login f now u a s).1.sessions ≡ s.sessions
  unfolding admit_login
  attempt-sessions f now u a s = ground arith

  end_sessions-Gone :
      (active : Bool) (target : String) (s : AccountTables)
      → Gone h s.sessions
      → Gone h (end_sessions active target s).sessions
  unfolding end_sessions
  end_sessions-Gone true target s g = g
  end_sessions-Gone false target s g = keep-Gone _ s.sessions g

  to_Gone : (rs rs' : List Session) → rs' ≡ rs → Gone h rs → Gone h rs'
  to_Gone rs rs' e g = rw e g

  login-Gone :
      (now : ℕ) (u t c : String) (s : AccountTables)
      → (t == h) ≡ false
      → Gone h s.sessions
      → Gone h (create_session now u t c s).1.sessions
  unfolding create_session new_session
  login-Gone now u t c s other g = elim (Option-cases (lookup u s.accounts)) [
    | inl n ↦ to_Gone s.sessions (create_session now u t c s).1.sessions (ground arith) g
    | inr (a, n) ↦ elim (Bool-cases a.active) [
      | inr off ↦ to_Gone s.sessions (create_session now u t c s).1.sessions (ground arith) g
      | inl on ↦
          let live = keep (λ (r : Session). ltb now r.expires_at) s.sessions in
          elim (Option-cases (first (λ (r : Session). r.token_hash == t) live)) [
            | inr (r, m) ↦
                to_Gone s.sessions (create_session now u t c s).1.sessions (ground arith) g
            | inl m ↦
                to_Gone (live ++ new_session now u t c ∷ []) (create_session now u t c s).1.sessions
                  (ground arith)
                  (All-append (λ (r : Session). (r.token_hash == h) ≡ false) live
                    (new_session now u t c ∷ []) (keep-Gone _ s.sessions g) (other, tt))
          ]
    ]
  ]

  after-Gone :
      (f : String → String) (c : AccountCall) (s : AccountTables)
      → Other h c
      → Gone h s.sessions
      → Gone h (after_account f c s).sessions
  unfolding after_account revoke_session
  after-Gone f (create_call n u w) s o g = rw (create-sessions n u w s) g
  after-Gone f (register_call u n w) s o g = rw (register-sessions u n w s) g
  after-Gone f (attempt_call now u a) s o g = rw (attempt-sessions f now u a s) g
  after-Gone f (login_call now u t c) s o g = login-Gone now u t c s o g
  after-Gone f (logout_call t) s o g = keep-Gone _ s.sessions g
  after-Gone f (switch_call a t b) s o g = elim (switch_cases a t b s) [
    | refused e q ↦ to_Gone s.sessions (set_account_active a t b s).1.sessions (ground arith) g
    | switched x row n strong m apart r accounts sessions ↦ rw sessions (end_sessions-Gone b t s g)
  ]

  after_accounts-Gone :
      (f : String → String) (cs : List AccountCall) (s : AccountTables)
      → All (Other h) cs
      → Gone h s.sessions
      → Gone h (after_accounts f cs s).sessions
  unfolding after_accounts
  after_accounts-Gone f [] s o g = g
  after_accounts-Gone f (c ∷ cs) s (o, os) g =
      after_accounts-Gone f cs (after_account f c s) os (after-Gone f c s o g)

  session-Gone : (now : ℕ) (s : AccountTables) → Gone h s.sessions → session now h s ≡ (ok none, s)
  unfolding session
  session-Gone now s g = ground (
    arith,
    first-none (is_live now h s) s.sessions (
        All-weaken (λ (r : Session). (r.token_hash == h) ≡ false) (λ r. is_live now h s r ≡ false)
          s.sessions (λ r e. ground arith) g),
  )

-- Disabling an account ends the sessions of a token whose sessions were its own.
target-Gone :
    (h target : String) (s : AccountTables)
    → All (λ (r : Session). (r.token_hash == h) ≡ true → r.username ≡ target) s.sessions
    → Gone h (end_sessions false target s).sessions
unfolding end_sessions
target-Gone h target s own =
    All-keep (λ (r : Session). (r.token_hash == h) ≡ true → r.username ≡ target)
      (λ (r : Session). (r.token_hash == h) ≡ false) (λ (r : Session). not (r.username == target))
      s.sessions
      (λ r kept e. elim (Bool-cases (r.token_hash == h)) [
        | inl its ↦ let named = e its in ground (arith, eq_iff r.username target)
        | inr other ↦ other
      ])
      own

switched_sessions :
    (actor target : String) (s s' : AccountTables) (row : Account)
    → set_account_active actor target false s ≡ (ok row, s')
    → s'.sessions ≡ (end_sessions false target s).sessions
switched_sessions actor target s s' row done = elim (switch_cases actor target false s) [
  | refused e q ↦ absurd (ground arith)
  | switched x r n strong m apart w accounts sessions ↦ ground arith
]

-- Once an account has been disabled, a token whose sessions were its own never opens a session
-- again, whatever calls follow, the account being enabled again included; a later login makes
-- another token.
pub disabled_for_good :
    (fingerprint : String → String) (now : ℕ) (actor target token_hash : String)
    (cs : List AccountCall) (s s' : AccountTables) (row : Account)
    → All (λ (r : Session). (r.token_hash == token_hash) ≡ true → r.username ≡ target) s.sessions
    → set_account_active actor target false s ≡ (ok row, s')
    → All (Other token_hash) cs
    → (session now token_hash (after_accounts fingerprint cs s')).0 ≡ ok none
disabled_for_good fingerprint now actor target h cs s s' row own done others =
    let gone =
      to_Gone h (end_sessions false target s).sessions s'.sessions
        (switched_sessions actor target s s' row done) (target-Gone h target s own) in
    ap (λ o. o.0)
      (session-Gone h now (after_accounts fingerprint cs s')
        (after_accounts-Gone h fingerprint cs s' others gone))
