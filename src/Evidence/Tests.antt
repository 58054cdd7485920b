-- ===== src/Evidence/Tests.antt =====
-- Concrete verdicts and citations.
use opspilot_agent_platform.Prelude.{
  ◌≡◌, refl, true, none, some, List, [], ◌∷◌, text_eq, contains, All, Member, String,
}
use opspilot_agent_platform.Prelude.Text.{is_blank, is_space, occurs_in}
use opspilot_agent_platform.Prelude.Dict.{lookup, insert}
use opspilot_agent_platform.Prelude.Exec.{ok, err}
use opspilot_agent_platform.Evidence.{
  Evidence, EvidenceVerdict, contract_error, verify_evidence_review, verify_supported,
  index_candidates, select_quotes, select, excerpt_items, join_lines, is_quoted, collect_citations,
  citation, append_verified_citations, join_citations, rstrip,
}
use opspilot_agent_platform.Evidence.Verify.{IsVerified, verify_evidence_review-IsVerified}
use opspilot_agent_platform.Evidence.Citations.{Distinct, Cites, collect_citations-AreCitations}

abbrev refund_policy : Evidence
refund_policy = record {
  chunk_id = some "c1";
  title = some "refunds";
  page = some 3;
  content = some "paid in 3 days. no fees.";
}

abbrev shipping_policy : Evidence
shipping_policy = record {
  chunk_id = some "c2";
  title = some "shipping";
  page = some 1;
  content = some "two days";
}

abbrev passages : List Evidence
passages = refund_policy ∷ shipping_policy ∷ refund_policy ∷ []

abbrev verdict : EvidenceVerdict
verdict = record {
  supported = true;
  supporting_quotes = record { chunk_id = "c1"; text = "paid in 3 days" } ∷ [];
  missing_information = "";
}

abbrev invented : EvidenceVerdict
invented = record verdict {
  supporting_quotes = record { chunk_id = "c1"; text = "paid in 9 days" } ∷ [];
}

abbrev excerpt : Evidence
excerpt = record refund_policy { content = some "paid in 3 days" }

verify_accepts :
    verify_evidence_review verdict (refund_policy ∷ shipping_policy ∷ []) (some 1)
    ≡ ok (verdict, excerpt ∷ [])
unfolding verify_evidence_review verify_supported index_candidates select_quotes select
    excerpt_items join_lines is_quoted is_blank is_space occurs_in lookup insert
verify_accepts = refl

verify_rejects :
    verify_evidence_review invented (refund_policy ∷ shipping_policy ∷ []) none ≡ err contract_error
unfolding verify_evidence_review verify_supported index_candidates select_quotes select is_quoted
    is_blank is_space occurs_in lookup insert
verify_rejects = refl

collects : collect_citations passages [] ≡ ok ("《refunds》第3页" ∷ "《shipping》第1页" ∷ [])
unfolding collect_citations citation is_blank is_space
collects = refl

appends : append_verified_citations "done  " (refund_policy ∷ []) ≡ ok "done\n\n来源：《refunds》第3页"
unfolding append_verified_citations collect_citations citation is_blank is_space rstrip
    join_citations
appends = refl

verify_evidence_review-IsVerified_example :
    IsVerified (refund_policy ∷ shipping_policy ∷ []) (some 1) verdict (excerpt ∷ [])
verify_evidence_review-IsVerified_example =
    verify_evidence_review-IsVerified verdict (refund_policy ∷ shipping_policy ∷ []) (some 1)
      verify_accepts

collect_citations-AreCitations_example :
    let r : List String = "《refunds》第3页" ∷ "《shipping》第1页" ∷ [] in
    Distinct r
    × ((c : String) → contains r c ≡ true → (item : Evidence) × Member item passages × Cites item c)
    × All (λ item. (c : String) × Cites item c × (contains r c ≡ true)) passages
collect_citations-AreCitations_example = collect_citations-AreCitations passages collects
