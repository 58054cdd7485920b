-- ===== src/Evidence.antt =====
-- evidence_review.py and grounding_policy.py: how a verdict on retrieved passages is verified, and
-- how an answer gets its citations. What a model says is checked against the passages' own text.
pub mod Verify
pub mod Citations
mod Tests
use Prim.Native.String.{◌++◌}
use mathlib.Core.List.{◌++◌ as ◌+++◌}
use Prim.Native.Char.{code}
use opspilot_agent_platform.Prelude.{
  ℕ, zero, suc, ◌/◌, ◌%◌, String, Bool, true, false, not, ◌&&◌, ◌||◌, Option, none, some, List, [],
  ◌∷◌, ◌==◌, nat_eq, text_eq, ltb, leb, length, contains, if◌then◌else◌,
}
use opspilot_agent_platform.Prelude.Text.{is_space, is_blank, occurs_in}
use opspilot_agent_platform.Prelude.Dict.{Dict, lookup, insert}
use opspilot_agent_platform.Prelude.Exec.{Result, ok, err}

-- A retrieved passage; `none` where the dict has no such field, or one of another type.
pub record Evidence : Type 0 where
  pub chunk_id : Option String
  pub title : Option String
  pub page : Option ℕ
  pub content : Option String

pub record SupportingQuote : Type 0 where
  pub chunk_id : String
  pub text : String

pub record EvidenceVerdict : Type 0 where
  pub supported : Bool
  pub supporting_quotes : List SupportingQuote
  pub missing_information : String

-- `EvidenceContractError`, the `ValueError` for passages that the program itself got wrong, and a
-- `KeyError`.
pub data EvidenceError : Type 0 where
  contract_error value_error key_error : EvidenceError

-- What pydantic checks of a quote, beyond its types.
is_valid_quote : SupportingQuote → Bool
is_valid_quote q = not (q.chunk_id == "") && not (q.text == "")

are_valid_quotes : List SupportingQuote → Bool
unfolding is_valid_quote
are_valid_quotes [] = true
are_valid_quotes (q ∷ qs) = is_valid_quote q && are_valid_quotes qs

-- The passages by their number; a blank number or a number seen before is an error.
unfoldable pub index_candidates :
    List Evidence → Dict String Evidence → Result EvidenceError (Dict String Evidence)
index_candidates [] by_id = ok by_id
index_candidates (c ∷ cs) by_id = elim c.chunk_id [
  | none ↦ err value_error
  | some chunk_id ↦
      let next = index_candidates cs (insert chunk_id c by_id) in
      if is_blank chunk_id
      then err value_error
      else elim (lookup chunk_id by_id) [ none ↦ next | some _ ↦ err value_error ]
]

-- `text in content`, where there is a content
unfoldable pub is_quoted : String → Option String → Bool
is_quoted text none = false
is_quoted text (some content) = occurs_in text content

add_excerpt : String → List String → List String
add_excerpt text excerpts = if contains excerpts text then excerpts else excerpts +++ (text ∷ [])

excerpts_of : Option (List String) → List String
excerpts_of none = []
excerpts_of (some excerpts) = excerpts

-- `selected.setdefault(…)` and the `append` after it
unfoldable pub select : SupportingQuote → Dict String (List String) → Dict String (List String)
unfolding add_excerpt excerpts_of
select q selected =
    insert q.chunk_id (add_excerpt q.text (excerpts_of (lookup q.chunk_id selected))) selected

-- The quotes of each passage, in order and once each.
unfoldable pub select_quotes :
    Dict String Evidence
    → List SupportingQuote
    → Dict String (List String)
    → Result EvidenceError (Dict String (List String))
select_quotes by_id [] selected = ok selected
select_quotes by_id (q ∷ qs) selected = elim (lookup q.chunk_id by_id) [
  | none ↦ err contract_error
  | some candidate ↦
      let next = select_quotes by_id qs (select q selected) in
      if not (is_blank q.text) && is_quoted q.text candidate.content
      then next
      else err contract_error
]

-- `"\n".join(excerpts)`
unfoldable pub join_lines : List String → String
join_lines [] = ""
join_lines (s ∷ []) = s
join_lines (s ∷ (t ∷ ss)) = let rest = join_lines (t ∷ ss) in s ++ ("\n" ++ rest)

-- The passages with what was quoted of them in place of their content.
unfoldable pub excerpt_items :
    Dict String Evidence → Dict String (List String) → Result EvidenceError (List Evidence)
excerpt_items by_id [] = ok []
excerpt_items by_id ((chunk_id, excerpts) ∷ selected) =
    let rest = excerpt_items by_id selected in
    elim (lookup chunk_id by_id) [
      | none ↦ err key_error
      | some candidate ↦ elim rest [
        | err e ↦ err e
        | ok items ↦ ok (record candidate { content = some (join_lines excerpts) } ∷ items)
      ]
    ]

over_limit : Option ℕ → ℕ → Bool
over_limit none n = false
over_limit (some limit) n = ltb limit n

abbrev too_many : EvidenceVerdict
too_many = record {
  supported = false;
  supporting_quotes = [];
  missing_information = "完整支持该问题的证据超过返回数量上限，请提高 limit 或拆分问题。";
}

within_limit :
    EvidenceVerdict
    → Option ℕ
    → Dict String Evidence
    → Dict String (List String)
    → Result EvidenceError (EvidenceVerdict × List Evidence)
unfolding over_limit
within_limit verdict limit by_id selected =
    if over_limit limit (length selected)
    then ok (too_many, [])
    else elim (excerpt_items by_id selected) [ err e ↦ err e | ok items ↦ ok (verdict, items) ]

-- A verdict that says the passages are enough, and names quotes.
unfoldable pub verify_supported :
    EvidenceVerdict
    → List Evidence
    → Option ℕ
    → Result EvidenceError (EvidenceVerdict × List Evidence)
unfolding within_limit
verify_supported verdict candidates limit = elim (index_candidates candidates []) [
  | err e ↦ err e
  | ok by_id ↦ elim (select_quotes by_id verdict.supporting_quotes []) [
    | err e ↦ err e
    | ok selected ↦ within_limit verdict limit by_id selected
  ]
]

abbrev is_empty : List SupportingQuote → Bool
is_empty [] = true
is_empty (_ ∷ _) = false

-- `verify_evidence_review`, once the raw verdict has the fields of the contract.
unfoldable pub verify_evidence_review :
    EvidenceVerdict
    → List Evidence
    → Option ℕ
    → Result EvidenceError (EvidenceVerdict × List Evidence)
unfolding are_valid_quotes
verify_evidence_review verdict candidates limit =
    if not (are_valid_quotes verdict.supporting_quotes)
    then err contract_error
    else if not verdict.supported
    then (if not (is_empty verdict.supporting_quotes) || is_blank verdict.missing_information
        then err contract_error
        else ok (verdict, []))
    else if is_empty verdict.supporting_quotes || not (is_blank verdict.missing_information)
    then err contract_error
    else verify_supported verdict candidates limit

abbrev pub no_evidence_answer : String
no_evidence_answer = "知识库中没有找到足够证据，暂时无法可靠回答。你可以联系人工客服，或留言补充问题。"

-- `str.rstrip`
unfoldable pub rstrip : String → String
rstrip String.[] = ""
rstrip (String.◌∷◌ c s) =
    let rest = rstrip s in if rest == "" && is_space (code c) then "" else String.◌∷◌ c rest

digit : ℕ → String
digit n =
    if n == 0
    then "0"
    else if n == 1
    then "1"
    else if n == 2
    then "2"
    else if n == 3
    then "3"
    else if n == 4
    then "4"
    else if n == 5
    then "5"
    else if n == 6
    then "6"
    else if n == 7
    then "7"
    else if n == 8
    then "8"
    else "9"

-- `str(n)`; a number has fewer digits than one more than itself, which is the fuel.
decimal_digits : ℕ → ℕ → String
unfolding digit
decimal_digits zero n = ""
decimal_digits (suc fuel) n =
    let front = decimal_digits fuel (n / 10) in
    if ltb n 10 then digit n else front ++ digit (n % 10)

pub decimal : ℕ → String
unfolding decimal_digits
decimal n = decimal_digits (suc n) n

unfoldable pub citation : String → ℕ → String
unfolding decimal
citation title page = "《" ++ (title ++ ("》第" ++ (decimal page ++ "页")))

-- The citations of the passages, once each; a passage without a title or a page is an error.
unfoldable pub collect_citations : List Evidence → List String → Result EvidenceError (List String)
collect_citations [] citations = ok citations
collect_citations (item ∷ items) citations = elim item.title [
  | none ↦ err value_error
  | some title ↦ elim item.page [
    | none ↦ err value_error
    | some page ↦
        let c = citation title page in
        let seen = collect_citations items citations in
        let new = collect_citations items (citations +++ (c ∷ [])) in
        if is_blank title || ltb page 1
        then err value_error
        else if contains citations c
        then seen
        else new
  ]
]

-- `'；'.join(citations)`
unfoldable pub join_citations : List String → String
join_citations [] = ""
join_citations (s ∷ []) = s
join_citations (s ∷ (t ∷ ss)) = let rest = join_citations (t ∷ ss) in s ++ ("；" ++ rest)

unfoldable pub append_verified_citations : String → List Evidence → Result EvidenceError String
append_verified_citations answer evidence = elim (collect_citations evidence []) [
  | err e ↦ err e
  | ok [] ↦ ok answer
  | ok (c ∷ cs) ↦ ok (rstrip answer ++ ("\n\n来源：" ++ join_citations (c ∷ cs)))
]
