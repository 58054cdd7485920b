-- ===== src/Redis/Collision.antt =====
-- Starting a run in the Redis store, and which starts share one index entry.
use opspilot_agent_platform.Prelude.{
  String, ◌≡◌, ◌≢◌, refl, sym, ap, ◌∙◌, inl, inr, none, some, arith, eq_iff, ◌==◌, text_eq,
  Option-cases, Bool-cases,
}
use Prim.Native.String.{◌++◌}
use opspilot_agent_platform.Prelude.Dict.{lookup, insert, lookup-insert_self, lookup-insert_ne}
use opspilot_agent_platform.Prelude.Exec.{Result, ok, err}
use opspilot_agent_platform.Runs.Checkpoint.{Run, ChatReply, RunError, new_run}
use opspilot_agent_platform.Runs.Checkpoint.Fields.{new_run-IsNewRun}
use opspilot_agent_platform.Redis.Database.{Codec, Database}
use opspilot_agent_platform.Redis.Keys.{run_key, idempotency_key, idempotency_key_shifts}
use opspilot_agent_platform.Redis.RunStore.{ChatRunner, start}

-- What the database holds under a start's index entry: its run, as JSON, started by the message.
abbrev IsStarted : String → Codec Run → String → String → String → Run → Database → Type 0
IsStarted namespace json thread key message r s =
    (i : String) × (v : String) × (lookup (idempotency_key namespace thread key) s.values ≡ some i)
    × (lookup (run_key namespace i) s.values ≡ some v)
    × (json.decode v ≡ some r)
    × (r.user_message ≡ message)

module _ (namespace : String) (json : Codec Run) (fresh thread key message : String)
    (chat : ChatRunner) (db : Database) where
  -- The database after a run was added to what the chat runner left.
  abbrev added : Run → Database
  added r = record (chat message db).1 {
    values =
        insert (idempotency_key namespace thread key) r.run_id
          (insert (run_key namespace r.run_id) (json.encode r) (chat message db).1.values);
  }

  -- A start that returns a run either found it or made it.
  data Started (r : Run) : Type 0 where
    found :
        IsStarted namespace json thread key message r db
        → start namespace json fresh thread key message chat db ≡ (ok r, db)
        → Started r
    made :
        (reply : ChatReply)
        → new_run fresh thread key message reply ≡ ok r
        → start namespace json fresh thread key message chat db ≡ (ok r, added r)
        → Started r

  module _ {r : Run} (ok_r : (start namespace json fresh thread key message chat db).0 ≡ ok r) where
    started_found :
        (i : String) → lookup (idempotency_key namespace thread key) db.values ≡ some i → Started r
    unfolding start
    started_found i h = elim (Option-cases (lookup (run_key namespace i) db.values)) [
      | inl l ↦ ground arith
      | inr (v, l) ↦ elim (Option-cases (json.decode v)) [
        | inl d ↦ ground arith
        | inr (x, d) ↦ elim (Bool-cases (x.user_message == message)) [
          | inr m ↦ ground arith
          | inl m ↦
              found (i, v, h, l, ground arith, ground (arith, eq_iff x.user_message message))
                (ground arith)
        ]
      ]
    ]

    started_new :
        (reply : ChatReply)
        → lookup (idempotency_key namespace thread key) db.values ≡ none
        → (chat message db).0 ≡ some reply
        → (o : Result RunError Run) → new_run fresh thread key message reply ≡ o
        → Started r
    unfolding start
    started_new reply h c (err e) n = ground arith
    started_new reply h c (ok x) n = made reply (ground arith) (ground arith)

    started : Started r
    unfolding start
    started = elim (Option-cases (lookup (idempotency_key namespace thread key) db.values)) [
      | inr (i, h) ↦ started_found i h
      | inl h ↦ elim (Option-cases (chat message db).0) [
        | inl c ↦ ground arith
        | inr (reply, c) ↦ started_new reply h c (new_run fresh thread key message reply) refl
      ]
    ]

module _ (namespace : String) (json : Codec Run) (fresh thread key message : String)
    (chat : ChatRunner) (db : Database) where
  -- The index entry is written after the run and does not overwrite it.
  start-IsStarted :
      {r : Run}
      → run_key namespace fresh ≢ idempotency_key namespace thread key
      → (start namespace json fresh thread key message chat db).0 ≡ ok r
      → IsStarted namespace json thread key message r
          (start namespace json fresh thread key message chat db).1
  start-IsStarted {r} apart h = elim (started namespace json fresh thread key message chat db h) [
    | found s eq ↦ rw eq s
    | made reply n eq ↦
        let new = new_run-IsNewRun fresh thread key message reply n in
        let entry = idempotency_key namespace thread key in
        let name = run_key namespace r.run_id in
        let differs : entry ≢ name = λ e. apart (ap (run_key namespace) (sym new.run_id) ∙ sym e) in
        rw eq (
          r.run_id,
          json.encode r,
          lookup-insert_self entry r.run_id _,
          lookup-insert_ne entry name r.run_id _ differs
              ∙ lookup-insert_self name (json.encode r) _,
          json.round_trip r,
          new.user_message,
        )
  ]

-- A start whose index entry leads to a run with its message returns that run and changes nothing.
start_finds :
    (namespace : String) (json : Codec Run) (fresh thread key message : String) (chat : ChatRunner)
    (db : Database) {r : Run}
    → IsStarted namespace json thread key message r db
    → start namespace json fresh thread key message chat db ≡ (ok r, db)
unfolding start
start_finds namespace json fresh thread key message chat db {r} (i, v, h, l, d, m) =
    ground (arith, eq_iff r.user_message message)

module _ (namespace : String) (json : Codec Run) (fresh thread key message : String)
    (chat : ChatRunner) (db : Database) where
  -- In the Redis store, once a start has returned a run, starting again with the same session, key
  -- and message returns the same run and changes nothing, provided that the run's name in the
  -- database is not the index entry's name.
  pub start_idempotent_stored :
      {r : Run}
      → run_key namespace fresh ≢ idempotency_key namespace thread key
      → (start namespace json fresh thread key message chat db).0 ≡ ok r
      → (fresh' : String) (chat' : ChatRunner)
      → let db' = (start namespace json fresh thread key message chat db).1 in
        start namespace json fresh' thread key message chat' db' ≡ (ok r, db')
  start_idempotent_stored apart h fresh' chat' =
      start_finds namespace json fresh' thread key message chat' _
        (start-IsStarted namespace json fresh thread key message chat db apart h)

-- In the Redis store, after session `t:a` started a run under key `b`, session `t` with key `a:b`
-- and the same message is given that run of the other session, and its own chat is never run.
pub start_crosses_sessions :
    (namespace : String) (json : Codec Run) (fresh t a b message : String) (chat : ChatRunner)
    (db : Database) {r : Run}
    → let thread = t ++ (":" ++ a) in
      run_key namespace fresh ≢ idempotency_key namespace thread b
      → (start namespace json fresh thread b message chat db).0 ≡ ok r
      → (fresh' : String) (chat' : ChatRunner)
      → let db' = (start namespace json fresh thread b message chat db).1 in
        start namespace json fresh' t (a ++ (":" ++ b)) message chat' db' ≡ (ok r, db')
start_crosses_sessions namespace json fresh t a b message chat db apart h fresh' chat' =
    let (i, v, l, k, d, m) =
      start-IsStarted namespace json fresh (t ++ (":" ++ a)) b message chat db apart h in
    let db' = (start namespace json fresh (t ++ (":" ++ a)) b message chat db).1 in
    start_finds namespace json fresh' t (a ++ (":" ++ b)) message chat' db' (
      i,
      v,
      ap (λ k. lookup k db'.values) (sym (idempotency_key_shifts namespace t a b)) ∙ l,
      k,
      d,
      m,
    )
