-- ===== src/Portal/Api/Sends.antt =====
-- What sending a question leaves: the active turn of the conversation, and a request that is sent again.
use Prim.Native.String.{String, count as text_length}
use mathlib.Core.Path.{subst}
use opspilot_agent_platform.Prelude.{
  ◌∙◌, ◌≡◌, refl, sym, Bool, true, false, not, ◌&&◌, none, some, List, [], ◌∷◌, text_eq, arith, inl,
  inr, Bool-cases, Option-cases, ltb,
}
use opspilot_agent_platform.Prelude.Tables.{first}
use opspilot_agent_platform.Prelude.Exec.{Result, ok, err, pure, raise_if, ◌>>=◌, ◌>>◌}
use opspilot_agent_platform.Portal.{Turn, Tables, Image, PublicTurn, public_turn, of_request}
use opspilot_agent_platform.Portal.Turns.{image_of, TurnRequest, claim_turn}
use opspilot_agent_platform.Portal.Step.{OwnCase, own_cases}
use opspilot_agent_platform.Portal.Running.{active}
use opspilot_agent_platform.Portal.Reads.{image, conversation, Page}
use opspilot_agent_platform.Portal.Api.{store_error, ApiError, http_error, Site, on_tables}
use opspilot_agent_platform.Portal.Api.Claims.{Idle, Claimed}
use opspilot_agent_platform.Portal.Api.Rules.{
  bind_ok, bind_err, on_tables-ok, on_tables-err, Reads, reads_bind, Reads-bind, Reads-raise_if,
  Reads-on_tables,
}
use opspilot_agent_platform.Portal.Api.Asked.{refused, repeated, created, claim_turn-Asked}
use opspilot_agent_platform.Portal.Api.Send.{
  Sending, send_turn, is_empty, after_send, claim_and_answer, load_images, select_images,
  question_of, kind_of, has_repeats, latest_images, is_live,
}
use opspilot_agent_platform.Portal.Api.Answers.{after_send-Idle}

module _ (user_id k : String) where
  conversation-keeps :
      (before : String → String → Bool) (t : Tables) → (conversation before user_id k none t).1 ≡ t
  unfolding conversation
  conversation-keeps before t = elim (own_cases user_id k t) [
    | OwnCase.refused e q ↦ ground arith
    | OwnCase.found c f own q ↦ ground arith
  ]

  image-keeps : (i : String) (t : Tables) → (image user_id k i t).1 ≡ t
  unfolding image
  image-keeps i t = elim (own_cases user_id k t) [
    | OwnCase.refused e q ↦ ground arith
    | OwnCase.found c f own q ↦ elim (Option-cases (first (image_of user_id k i) t.images)) [
      | inl n ↦ ground arith
      | inr (x, n) ↦ ground arith
    ]
  ]

-- The request's turn is shown, or an error is raised, and nothing has changed.
abbrev pub Resent :
    {World : Type 0} → Turn → Site World → Result ApiError PublicTurn × Site World → Type 0
Resent t s (ok p, s') = (p ≡ public_turn t) × (s' ≡ s)
Resent t s (err e, s') = s' ≡ s

module _ {World History : Type 0} (x : Sending World History) where
  load_images-Reads : (is : List String) → Reads (load_images x is)
  unfolding load_images
  load_images-Reads [] = λ s. refl
  load_images-Reads (i ∷ is) =
      let rest = load_images x is in
      Reads-bind (on_tables (image x.user_id x.conversation_id i))
        (λ x. do xs ← rest; pure (x ∷ xs))
        (Reads-on_tables (image x.user_id x.conversation_id i)
          (image-keeps x.user_id x.conversation_id i))
        (λ x. Reads-bind rest (λ xs. pure (x ∷ xs)) (load_images-Reads is) (λ xs s. refl))

  select_images-Reads :
      (body : TurnRequest) (previous : List PublicTurn)
      → Reads {World = World} (select_images body previous)
  unfolding select_images
  select_images-Reads body previous s = elim (Bool-cases (has_repeats body.image_ids)) [
    | inl r ↦ rw r refl
    | inr r ↦ elim (Bool-cases (is_empty body.image_ids && body.reuse_images)) [
      | inr own ↦ rw (r, own) refl
      | inl reused ↦ elim (Bool-cases (is_empty (latest_images previous))) [
        | inl n ↦ rw (r, reused, n) refl
        | inr n ↦ rw (r, reused, n) refl
      ]
    ]
  ]

  -- Up to the claim the tables and the world are only read.
  send_rule :
      (body : TurnRequest) (s : Site World) (Q : Result ApiError PublicTurn × Site World → Type 0)
      → ((e : ApiError) → Q (err e, s))
      → ((is : List String) (images : List Image) (previous : List PublicTurn)
          → Q (claim_and_answer x body is images previous s))
      → Q (send_turn x body s)
  unfolding send_turn
  send_rule body s Q raised next =
      let abroad = λ (is : List String).
        not (is_empty is)
        && is_live body.mode
        && not x.services.is_local
        && not body.allow_external_images in
      let answer = λ (is : List String) (images : List Image) (page : Page).
        claim_and_answer x body is images page.turns in
      let loaded =
        λ (is : List String) (page : Page). (do images ← load_images x is; answer is images page) in
      let permitted = λ (is : List String) (page : Page). (do
        raise_if (abroad is) (http_error 400)
        loaded is page) in
      reads_bind (on_tables (conversation x.before x.user_id x.conversation_id none))
        (λ page. do is ← select_images body page.turns; permitted is page) s Q
        (Reads-on_tables (conversation x.before x.user_id x.conversation_id none)
          (conversation-keeps x.user_id x.conversation_id x.before))
        raised
        (λ page.
          reads_bind (select_images body page.turns) (λ is. permitted is page) s Q
            (select_images-Reads body page.turns) raised
            (λ is.
              reads_bind (raise_if (abroad is) (http_error 400)) (λ _. loaded is page) s Q
                (Reads-raise_if (abroad is) (http_error 400)) raised
                (λ _.
                  reads_bind (load_images x is) (λ images. answer is images page) s Q
                    (load_images-Reads is) raised (λ images. next is images page.turns))))

  claim_rule :
      (body : TurnRequest) (is : List String) (images : List Image) (previous : List PublicTurn)
      (s : Site World) (Q : Result ApiError PublicTurn × Site World → Type 0)
      → ((e : ApiError) → Q (err e, s))
      → ((t : Turn)
          → first (of_request x.conversation_id body.request_id) s.tables.turns ≡ some t
          → Q (ok (public_turn t), s))
      → ((question : String) (t : PublicTurn) (tables : Tables)
          → first (of_request x.conversation_id body.request_id) s.tables.turns ≡ none
          → Idle x.conversation_id s.tables
          → Claimed x.user_id x.conversation_id t.id tables
          → Q (after_send x body images question previous t true (record s { tables = tables })))
      → Q (claim_and_answer x body is images previous s)
  unfolding claim_and_answer after_send
  claim_rule body is images previous s Q raised again answered =
      let question = question_of x body images previous in
      let m =
        claim_turn x.fingerprint x.fresh x.claimed_at x.user_id x.conversation_id body is
          (kind_of images) in
      let next = λ (o : PublicTurn × Bool). after_send x body images question previous o.0 o.1 in
      let too_long = raise_if (ltb 1000 (text_length question)) (http_error 400) in
      reads_bind too_long (λ _. on_tables m >>= next) s Q
        (Reads-raise_if (ltb 1000 (text_length question)) (http_error 400)) raised
        (λ _.
          elim (claim_turn-Asked x.fingerprint x.fresh x.claimed_at x.user_id x.conversation_id body
            is (kind_of images) s.tables) [
              | refused e q ↦
                  subst Q (sym (bind_err (on_tables m) (on_tables-err m s.tables s e q) next))
                    (raised (store_error e))
              | repeated t f q ↦
                  subst Q
                    (sym (
                      bind_ok (on_tables m) (on_tables-ok m s.tables s (public_turn t, false) q)
                        next))
                    (again t f)
              | created t tables f q idle claimed ↦
                  subst Q (sym (bind_ok (on_tables m) (on_tables-ok m tables s (t, true) q) next))
                    (answered question t tables f idle claimed)
            ])

  -- For any agent, models, memory and policies: sending a question leaves the conversation with the
  -- active turn that it had, whether it returns a turn or raises.
  pub send_keeps_active :
      (body : TurnRequest) (s : Site World)
      → active x.conversation_id (send_turn x body s).1.tables.conversations
        ≡ active x.conversation_id s.tables.conversations
  send_keeps_active body s =
      let Q = λ (o : Result ApiError PublicTurn × Site World).
        active x.conversation_id o.1.tables.conversations
        ≡ active x.conversation_id s.tables.conversations in
      send_rule body s Q (λ e. refl)
        (λ is images previous.
          claim_rule body is images previous s Q (λ e. refl) (λ t f. refl)
            (λ question t tables f idle claimed.
              after_send-Idle x t.id body images question previous t (record s { tables = tables })
                refl claimed
              ∙ sym idle))

  -- For any agent, models, memory and policies: where a turn of the conversation has the identifier of
  -- the request, sending it returns that turn or raises, and changes neither the tables nor the world.
  pub resend_calls_nothing :
      (body : TurnRequest) (t : Turn) (s : Site World)
      → first (of_request x.conversation_id body.request_id) s.tables.turns ≡ some t
      → Resent t s (send_turn x body s)
  resend_calls_nothing body t s there =
      send_rule body s (Resent t s) (λ e. refl)
        (λ is images previous.
          claim_rule body is images previous s (Resent t s) (λ e. refl)
            (λ u f. (ground arith, refl))
            (λ question u tables f idle claimed. absurd (ground arith)))
