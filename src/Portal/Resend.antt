-- ===== src/Portal/Resend.antt =====
-- A request that was claimed is not claimed again, whatever happens in between.
use Prim.Native.String.{String}
use opspilot_agent_platform.Prelude.{
  ℕ, ◌≡◌, refl, Bool, true, false, Option, none, some, List, [], ◌∷◌, ◌==◌, text_eq, eq_iff, arith,
  All, inl, inr, Option-cases, Bool-cases,
}
use opspilot_agent_platform.Prelude.Dict.{Dict, lookup, insert, lookup-insert}
use opspilot_agent_platform.Prelude.Tables.{
  first, update_where, first-append, first-append_new, first-update,
}
use opspilot_agent_platform.Prelude.Exec.{Result, ok, err}
use opspilot_agent_platform.Portal.{
  PortalError, Conversation, Turn, Tables, Kind, PublicTurn, public_turn, of_request, of_turn,
}
use opspilot_agent_platform.Portal.Turns.{
  TurnRequest, put_conversation, change_turn, release, end_turn, interrupt_turn, claim_turn,
  claim_new, new_turn, require_images, owned_conversation, titled,
}
use opspilot_agent_platform.Portal.Step.{
  Step, stays, opens, uploads, claims, acts, ends, interrupts, touch, OwnCase, own_cases,
}
use opspilot_agent_platform.Portal.Step.Turns.{require_images_keeps}
use opspilot_agent_platform.Portal.Calls.{Call, Finishes, after_all, after_all-keeps}

abbrev owner_of : String → Dict String Conversation → Option String
owner_of k d = elim (lookup k d) [ none ↦ none | some c ↦ some c.owner_user_id ]

-- The identifier and the fingerprint under which a request is filed.
abbrev filed_as : Turn → String × String
filed_as t = (t.id, t.request_hash)

abbrev filed : String → String → List Turn → Option (String × String)
filed k r ts = elim (first (of_request k r) ts) [ none ↦ none | some t ↦ some (filed_as t) ]

abbrev Filed : String → String → String → String → String → Tables → Type 0
Filed user_id k r i h s =
    (owner_of k s.conversations ≡ some user_id) × (filed k r s.turns ≡ some (i, h))

module _ (user_id k r i h : String) where
  owner-insert :
      (j : String) (c : Conversation) (d : Dict String Conversation)
      → owner_of j d ≡ some c.owner_user_id
      → owner_of k d ≡ some user_id
      → owner_of k (insert j c d) ≡ some user_id
  owner-insert j c d same own = ground (arith, lookup-insert j k c d, eq_iff j k)

  filed-update :
      (q : Turn → Bool) (f : Turn → Turn) (ts : List Turn)
      → ((t : Turn) → of_request k r (f t) ≡ of_request k r t)
      → ((t : Turn) → filed_as (f t) ≡ filed_as t)
      → filed k r ts ≡ some (i, h)
      → filed k r (update_where q f ts) ≡ some (i, h)
  filed-update q f ts same keeps there = elim (Option-cases (first (of_request k r) ts)) [
    | inl n ↦ ground arith
    | inr (t, n) ↦ ground (arith, first-update (of_request k r) q f ts same, keeps t)
  ]

  release-Filed :
      (j n : String) (now : ℕ) (c : Conversation) (s : Tables)
      → lookup j s.conversations ≡ some c
      → (q : Turn → Bool) (f : Turn → Turn) → ((t : Turn) → of_request k r (f t) ≡ of_request k r t)
      → ((t : Turn) → filed_as (f t) ≡ filed_as t)
      → Filed user_id k r i h s
      → Filed user_id k r i h (release j n now c (change_turn j n f s))
  unfolding release change_turn
  release-Filed j n now c s l q f same keeps (own, there) = ground (
    arith,
    owner-insert j (record c { active_turn_id = none; updated_at = now }) s.conversations,
    filed-update (of_turn j n) f s.turns same keeps there,
  )

  Step-Filed : (s t : Tables) → Step s t → Filed user_id k r i h s → Filed user_id k r i h t
  unfolding put_conversation change_turn end_turn interrupt_turn
  Step-Filed s t stays h = h
  Step-Filed s t (uploads x n b) h = h
  Step-Filed s t (opens j c n a q) (own, there) =
      (ground (arith, lookup-insert j k c s.conversations, eq_iff j k), there)
  Step-Filed s t (claims c c' u f a m n o b) (own, there) = (
    owner-insert u.conversation_id c' s.conversations (ground arith) own,
    elim (Option-cases (first (of_request k r) s.turns)) [
      | inl e ↦ ground arith
      | inr (x, e) ↦ ground (arith, first-append (of_request k r) s.turns (u ∷ []) x e)
    ],
  )
  Step-Filed s t (acts j n now c u f a m) (own, there) = (
    owner-insert j (record c { active_turn_id = some n }) s.conversations (ground arith) own,
    filed-update (of_turn j n) (touch now) s.turns (λ x. refl) (λ x. refl) there,
  )
  Step-Filed s t (ends j n now e c u f m w x) h =
      release-Filed j n now c s f (of_turn j n) (end_turn now e) (λ x. refl) (λ x. refl) h
  Step-Filed s t (interrupts j n now c u f m w) h =
      release-Filed j n now c s f (of_turn j n) (interrupt_turn now) (λ x. refl) (λ x. refl) h

module _ (fingerprint : TurnRequest → String) (fresh : String) (now : ℕ) (user_id k : String)
    (p : TurnRequest) (is : List String) (kind : Kind) (s : Tables) where
  Filed-new :
      (shown : PublicTurn) (b : Bool) (s' : Tables) (c : Conversation)
      → lookup k s.conversations ≡ some c
      → (c.owner_user_id == user_id) ≡ true
      → owned_conversation user_id k s ≡ (ok c, s)
      → first (of_request k p.request_id) s.turns ≡ none
      → claim_turn fingerprint fresh now user_id k p is kind s ≡ (ok (shown, b), s')
      → (o : Result PortalError (Unit {0})) → (require_images user_id k is s).0 ≡ o
      → Filed user_id k p.request_id shown.id (fingerprint p) s'
  unfolding claim_turn claim_new public_turn new_turn put_conversation
  Filed-new shown b s' c f own q m h (err e) r =
      let kept = require_images_keeps user_id k is s in absurd (ground arith)
  Filed-new shown b s' c f own q m h (ok u) r =
      let kept = require_images_keeps user_id k is s in
      let t = new_turn (fingerprint p) fresh now k p is kind in
      let passes : of_request k p.request_id t ≡ true =
        ground (arith, eq_iff k k, eq_iff p.request_id p.request_id) in
      let there = first-append_new (of_request k p.request_id) s.turns t m passes in
      ground (
        arith,
        eq_iff c.owner_user_id user_id,
        lookup-insert k k
            (record c {
              active_turn_id = some fresh;
              updated_at = now;
              title = titled c.title p.message;
            })
            s.conversations,
        eq_iff k k,
      )

  -- A claim that succeeds has filed the request.
  claim_turn-Filed :
      (shown : PublicTurn) (b : Bool) (s' : Tables)
      → claim_turn fingerprint fresh now user_id k p is kind s ≡ (ok (shown, b), s')
      → Filed user_id k p.request_id shown.id (fingerprint p) s'
  unfolding claim_turn claim_new public_turn new_turn put_conversation
  claim_turn-Filed shown b s' h = elim (own_cases user_id k s) [
    | OwnCase.refused e q ↦ absurd (ground arith)
    | OwnCase.found c f own q ↦ elim (Option-cases (first (of_request k p.request_id) s.turns)) [
      | inr (t, m) ↦ elim (Bool-cases (t.request_hash == fingerprint p)) [
        | inl same ↦
            ground (arith, eq_iff t.request_hash (fingerprint p), eq_iff c.owner_user_id user_id)
        | inr differs ↦ absurd (ground arith)
      ]
      | inl m ↦ Filed-new shown b s' c f own q m h (require_images user_id k is s).0 refl
    ]
  ]

-- Once a request has been claimed, sending it again finds its turn and changes nothing, whatever
-- calls were made in between, at any time and with any kind and images of the second claim; no call
-- finishes a turn with the status of a running one.
pub resend_finds_turn :
    (before : String → String → Bool) (fingerprint : TurnRequest → String) (fresh fresh' : String)
    (now now' : ℕ) (user_id k : String) (p : TurnRequest) (is is' : List String) (kind kind' : Kind)
    (cs : List Call) (s s' : Tables) (shown : PublicTurn) (b : Bool)
    → claim_turn fingerprint fresh now user_id k p is kind s ≡ (ok (shown, b), s')
    → All Finishes cs
    → (t : Turn) × (claim_turn fingerprint fresh' now' user_id k p is' kind'
          (after_all before fingerprint cs s')
        ≡ (ok (public_turn t, false), after_all before fingerprint cs s'))
      × (t.id ≡ shown.id)
unfolding claim_turn owned_conversation
resend_finds_turn before fingerprint fresh fresh' now now' user_id k p is is' kind kind' cs s s'
      shown b h a =
    let s'' = after_all before fingerprint cs s' in
    let filed_then = claim_turn-Filed fingerprint fresh now user_id k p is kind s shown b s' h in
    let (own, there) =
      after_all-keeps before fingerprint (Filed user_id k p.request_id shown.id (fingerprint p))
        (Step-Filed user_id k p.request_id shown.id (fingerprint p)) cs s' a filed_then in
    elim (Option-cases (first (of_request k p.request_id) s''.turns)) [
      | inl n ↦ absurd (ground arith)
      | inr (t, n) ↦ elim (Option-cases (lookup k s''.conversations)) [
        | inl m ↦ absurd (ground arith)
        | inr (c, m) ↦ (
          t,
          ground (arith, eq_iff c.owner_user_id user_id, eq_iff t.request_hash (fingerprint p)),
          ground arith,
        )
      ]
    ]
