-- ===== src/Portal/Running.antt =====
-- A conversation never has two turns that run.
use Prim.Native.String.{String}
use opspilot_agent_platform.Prelude.{
  ℕ, ◌≡◌, refl, sym, Bool, true, false, Option, none, some, List, [], ◌∷◌, ◌==◌, text_eq, eq_iff,
  arith, All, All-weaken, All-append, Member, All-Member,
}
use mathlib.Core.Path.{subst}
use opspilot_agent_platform.Prelude.Dict.{Dict, lookup, insert, lookup-insert}
use opspilot_agent_platform.Prelude.Tables.{All-update}
use opspilot_agent_platform.Portal.{Conversation, Turn, Tables, of_turn}
use opspilot_agent_platform.Portal.Turns.{
  TurnRequest, put_conversation, change_turn, release, end_turn, interrupt_turn,
}
use opspilot_agent_platform.Portal.Step.{
  Step, stays, opens, uploads, claims, acts, ends, interrupts, touch,
}
use opspilot_agent_platform.Portal.Calls.{Call, Finishes, after_all, after_all-keeps}

-- The active turn of a conversation.
abbrev pub active : String → Dict String Conversation → Option String
active k d = elim (lookup k d) [ none ↦ none | some c ↦ c.active_turn_id ]

abbrev RunsActive : Dict String Conversation → Turn → Type 0
RunsActive d t = (t.status == "RUNNING") ≡ true → active t.conversation_id d ≡ some t.id

-- Each running turn is the active one of its conversation.
abbrev pub RunningActive : Tables → Type 0
RunningActive s = All (RunsActive s.conversations) s.turns

module _ (d : Dict String Conversation) (k : String) (c : Conversation) (t : Turn) where
  -- A conversation with no active turn has no running one, and may be written.
  RunsActive-insert : active k d ≡ none → RunsActive d t → RunsActive (insert k c d) t
  RunsActive-insert idle h runs =
      ground (arith, h runs, lookup-insert k t.conversation_id c d, eq_iff k t.conversation_id)

module _ (k : String) (c : Conversation) (t : Turn) where
  RunsActive-release :
      (i : String) (now : ℕ) (ts : List Turn) (s : Tables)
      → lookup k s.conversations ≡ some c
      → of_turn k i t ≡ false
      → RunsActive s.conversations t
      → RunsActive (release k i now c (record s { turns = ts })).conversations t
  unfolding release
  RunsActive-release i now ts s f other h runs = ground (
    arith,
    h runs,
    lookup-insert k t.conversation_id (record c { active_turn_id = none; updated_at = now })
        s.conversations,
    eq_iff k t.conversation_id,
    eq_iff t.conversation_id k,
    eq_iff t.id i,
  )

pub release-turns :
    (k i : String) (now : ℕ) (c : Conversation) (s : Tables) → (release k i now c s).turns ≡ s.turns
unfolding release
release-turns k i now c s = ground arith

-- A change of the running turn to one that does not run.
release-RunningActive :
    (k i : String) (now : ℕ) (c : Conversation) (f : Turn → Turn) (s : Tables)
    → lookup k s.conversations ≡ some c
    → ((t : Turn) → ((f t).status == "RUNNING") ≡ false)
    → RunningActive s
    → RunningActive (release k i now c (change_turn k i f s))
unfolding change_turn
release-RunningActive k i now c f s l stops h =
    let d = (release k i now c (change_turn k i f s)).conversations in
    subst (All (RunsActive d)) (sym (release-turns k i now c (change_turn k i f s))) (
      All-update (RunsActive s.conversations) (RunsActive d) (of_turn k i) f s.turns
        (λ t of p runs. absurd (cc (runs, stops t)))
        (λ t other p. RunsActive-release k c t i now _ s l other p) h)

Step-RunningActive : (s t : Tables) → Step s t → RunningActive s → RunningActive t
unfolding put_conversation change_turn end_turn interrupt_turn
Step-RunningActive s t stays h = h
Step-RunningActive s t (uploads i n b) h = h
Step-RunningActive s t (opens k c n a q) h =
    All-weaken (RunsActive s.conversations) _ s.turns
      (λ u. RunsActive-insert s.conversations k c u (ground arith)) h
Step-RunningActive s t (claims c c' u f a r n o b) h =
    All-append (RunsActive (insert u.conversation_id c' s.conversations)) s.turns (u ∷ [])
      (All-weaken (RunsActive s.conversations) _ s.turns
        (λ x. RunsActive-insert s.conversations u.conversation_id c' x (ground arith)) h)
      (
        (λ runs. ground (
          arith,
          lookup-insert u.conversation_id u.conversation_id c' s.conversations,
          eq_iff u.conversation_id u.conversation_id,
        )),
        tt,
      )
Step-RunningActive s t (acts k i now c u f a r) h =
    let idle : active k s.conversations ≡ none = ground arith in
    let d = insert k (record c { active_turn_id = some i }) s.conversations in
    let write : (x : Turn) → RunsActive s.conversations x → RunsActive d x =
      λ x. RunsActive-insert s.conversations k (record c { active_turn_id = some i }) x idle in
    All-update (RunsActive s.conversations) (RunsActive d) (of_turn k i) (touch now) s.turns
      (λ x q. write x) (λ x q. write x) h
Step-RunningActive s t (ends k i now e c u f r w n) h =
    release-RunningActive k i now c (end_turn now e) s f (λ x. n) h
Step-RunningActive s t (interrupts k i now c u f r w) h =
    release-RunningActive k i now c (interrupt_turn now) s f (λ x. refl) h

-- From tables in which each running turn is the active one of its conversation, whatever calls are
-- made, two turns of one conversation that run have the same identifier; no call finishes a turn
-- with the status of a running one.
pub one_runs :
    (before : String → String → Bool) (fingerprint : TurnRequest → String) (cs : List Call)
    (s : Tables) (t u : Turn)
    → RunningActive s
    → All Finishes cs
    → Member t (after_all before fingerprint cs s).turns
    → Member u (after_all before fingerprint cs s).turns
    → (t.status == "RUNNING") ≡ true
    → (u.status == "RUNNING") ≡ true
    → t.conversation_id ≡ u.conversation_id
    → t.id ≡ u.id
one_runs before fingerprint cs s t u h a f g runs runs' same =
    let s' = after_all before fingerprint cs s in
    let kept = after_all-keeps before fingerprint RunningActive Step-RunningActive cs s a h in
    let one = All-Member (RunsActive s'.conversations) t s'.turns kept f runs in
    let other = All-Member (RunsActive s'.conversations) u s'.turns kept g runs' in
    cc (one, other, same)
