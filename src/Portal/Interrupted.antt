-- ===== src/Portal/Interrupted.antt =====
-- A vision turn that was given up stays given up.
use Prim.Native.String.{String}
use mathlib.Core.Path.{subst}
use opspilot_agent_platform.Prelude.{
  ℕ, ◌≡◌, refl, sym, Bool, true, false, some, List, [], ◌∷◌, ◌==◌, text_eq, eq_iff, arith, All, inl,
  inr, Bool-cases,
}
use opspilot_agent_platform.Prelude.Tables.{first, first-append, first-update, first_passes}
use opspilot_agent_platform.Prelude.Exec.{ok}
use opspilot_agent_platform.Portal.{Turn, Tables, vision, interrupted, PublicTurn, of_turn}
use opspilot_agent_platform.Portal.Turns.{
  TurnRequest, put_conversation, change_turn, release, end_turn, interrupt_turn, same_id,
  was_interrupted, is_vision, may_interrupt, recover_interrupted_vision,
}
use opspilot_agent_platform.Portal.Step.{
  Step, stays, opens, uploads, claims, acts, ends, interrupts, touch, OwnCase, own_cases,
}
use opspilot_agent_platform.Portal.Step.Turns.{changed}
use opspilot_agent_platform.Portal.Calls.{Call, Finishes, after_all, after_all-keeps}
use opspilot_agent_platform.Portal.Running.{release-turns}

-- How a turn that was given up looks.
pub record IsInterrupted (t : Turn) : Type 0 where
  pub kind : t.kind ≡ vision
  pub status : t.status ≡ "FAILED"
  pub code : t.error_code ≡ some "VISION_INTERRUPTED"
  pub result : t.result ≡ some (interrupted t.mode)

abbrev GivenUpIn : String → String → List Turn → Type 0
GivenUpIn k i ts = (t : Turn) × (first (of_turn k i) ts ≡ some t) × IsInterrupted t

abbrev pub GivenUp : String → String → Tables → Type 0
GivenUp k i s = GivenUpIn k i s.turns

failed_stops : (◌==◌ {T = String} "FAILED" "RUNNING") ≡ false
failed_stops = refl

module _ (k i : String) where
  -- A change of another turn leaves it.
  update-GivenUp :
      (j n : String) (f : Turn → Turn) (s : Tables) (t : Turn)
      → ((x : Turn) → of_turn k i (f x) ≡ of_turn k i x)
      → first (of_turn k i) s.turns ≡ some t
      → IsInterrupted t
      → (of_turn j n t ≡ true → IsInterrupted (f t))
      → GivenUp k i (change_turn j n f s)
  unfolding change_turn
  update-GivenUp j n f s t same e h own = elim (Bool-cases (of_turn j n t)) [
    | inl hit ↦
        (f t, ground (arith, first-update (of_turn k i) (of_turn j n) f s.turns same), own hit)
    | inr miss ↦ (t, ground (arith, first-update (of_turn k i) (of_turn j n) f s.turns same), h)
  ]

  -- The turn that another pair of identifiers finds is the same one, if it passes their test.
  same_row :
      (j n : String) (s : Tables) (t u : Turn)
      → first (of_turn k i) s.turns ≡ some t
      → first (of_turn j n) s.turns ≡ some u
      → of_turn j n t ≡ true
      → t ≡ u
  same_row j n s t u e f hit = ground (
    arith,
    first_passes (of_turn k i) s.turns t e,
    eq_iff t.id i,
    eq_iff t.conversation_id k,
    eq_iff t.id n,
    eq_iff t.conversation_id j,
  )

  Step-GivenUp : (s t : Tables) → Step s t → GivenUp k i s → GivenUp k i t
  unfolding put_conversation was_interrupted is_vision same_id end_turn interrupt_turn
  Step-GivenUp s t stays h = h
  Step-GivenUp s t (opens j c n a q) h = h
  Step-GivenUp s t (uploads x n b) h = h
  Step-GivenUp s t (claims c c' u f a m n o b) (x, e, h) =
      (x, first-append (of_turn k i) s.turns (u ∷ []) x e, h)
  Step-GivenUp s t (acts j n now c u f a m) (x, e, h) =
      update-GivenUp j n (touch now) s x (λ y. refl) e h
        (λ hit. record { kind = h.kind; status = h.status; code = h.code; result = h.result })
  Step-GivenUp s t (ends j n now e c u f m w y) (x, g, h) =
      subst (GivenUpIn k i) (sym (release-turns j n now c (change_turn j n (end_turn now e) s))) (
        update-GivenUp j n (end_turn now e) s x (λ z. refl) g h
          (λ hit.
            let same = same_row j n s x u g m hit in
            absurd (ground (arith, eq_iff "VISION_INTERRUPTED" "VISION_INTERRUPTED"))))
  Step-GivenUp s t (interrupts j n now c u f m w) (x, g, h) =
      subst (GivenUpIn k i) (sym (release-turns j n now c (change_turn j n (interrupt_turn now) s)))
        (update-GivenUp j n (interrupt_turn now) s x (λ z. refl) g h
          (λ hit.
            let same = same_row j n s x u g m hit in absurd (cc (w, same, h.status, failed_stops))))

module _ (now : ℕ) (user_id k i : String) (s : Tables) (t : Turn) where
  -- A recovery that succeeds gives up the turn that runs.
  recover-GivenUp :
      (shown : PublicTurn) (s' : Tables)
      → first (of_turn k i) s.turns ≡ some t
      → (t.status == "RUNNING") ≡ true
      → recover_interrupted_vision now user_id k i s ≡ (ok shown, s')
      → GivenUp k i s'
  unfolding recover_interrupted_vision may_interrupt interrupt_turn
  recover-GivenUp shown s' f runs h = elim (own_cases user_id k s) [
    | OwnCase.refused e q ↦ absurd (ground arith)
    | OwnCase.found c l own q ↦ elim (Bool-cases (is_vision t.kind)) [
      | inr business ↦ absurd (ground arith)
      | inl image ↦ elim (Bool-cases (may_interrupt now i c t)) [
        | inr waits ↦ absurd (ground arith)
        | inl may ↦
            let found_again = changed k i (interrupt_turn now) s t (λ x. refl) f in
            let done : (recover_interrupted_vision now user_id k i s).1
                ≡ release k i now c (change_turn k i (interrupt_turn now) s) =
              ground arith in
            let same : s' ≡ release k i now c (change_turn k i (interrupt_turn now) s) = cc in
            (
              interrupt_turn now t,
              ground (arith, release-turns k i now c (change_turn k i (interrupt_turn now) s)),
              record { kind = ground arith; status = refl; code = refl; result = refl },
            )
      ]
    ]
  ]

-- Once a vision turn that ran has been given up, it stays failed with that result, whatever calls
-- follow, a late end of the old request included; no call finishes a turn with the status of a
-- running one.
pub interrupted_for_good :
    (before : String → String → Bool) (fingerprint : TurnRequest → String) (now : ℕ)
    (user_id k i : String) (cs : List Call) (s s' : Tables) (t : Turn) (shown : PublicTurn)
    → first (of_turn k i) s.turns ≡ some t
    → (t.status == "RUNNING") ≡ true
    → recover_interrupted_vision now user_id k i s ≡ (ok shown, s')
    → All Finishes cs
    → GivenUp k i (after_all before fingerprint cs s')
interrupted_for_good before fingerprint now user_id k i cs s s' t shown f runs h a =
    after_all-keeps before fingerprint (GivenUp k i) (Step-GivenUp k i) cs s' a
      (recover-GivenUp now user_id k i s t shown s' f runs h)
