-- ===== src/Evidence/Verify.antt =====
-- A verified verdict hands on only words of the passages that were given.
use opspilot_agent_platform.Prelude.{
  ℕ, ◌≤◌, String, ◌≡◌, refl, inl, inr, true, false, Option, none, some, List, [], ◌∷◌, arith,
  text_eq, length, All, Member, contains, Option-cases, Bool-cases, All-append, All-weaken,
}
use opspilot_agent_platform.Prelude.Dict.{Dict, lookup, insert, All-insert, All-lookup}
use opspilot_agent_platform.Prelude.Exec.{Result, ok, err}
use opspilot_agent_platform.Evidence.{
  Evidence, SupportingQuote, EvidenceVerdict, EvidenceError, index_candidates, is_quoted, select,
  select_quotes, join_lines, excerpt_items, verify_supported, verify_evidence_review, within_limit,
  add_excerpt, excerpts_of, over_limit,
}

-- A passage of the list whose content was cut down to some of its own words.
pub record IsExcerpt (candidates : List Evidence) (item : Evidence) : Type 0 where
  pub candidate : Evidence
  pub given : Member candidate candidates
  pub excerpts : List String
  pub quoted : All (λ t. is_quoted t candidate.content ≡ true) excerpts
  pub cut : item ≡ record candidate { content = some (join_lines excerpts) }

-- Every entry of the index is a passage of the list.
Indexed : List Evidence → String × Evidence → Type 0
Indexed candidates e = Member e.1 candidates

index-Indexed :
    (all cs : List Evidence) (by_id : Dict String Evidence) {r : Dict String Evidence}
    → All (λ c. Member c all) cs
    → All (Indexed all) by_id
    → index_candidates cs by_id ≡ ok r
    → All (Indexed all) r
unfolding index_candidates Indexed
index-Indexed all [] by_id {r} h k e = let same : by_id ≡ r = ground arith in rw⁻¹ same k
index-Indexed all (c ∷ cs) by_id (m, h) k e = elim (Option-cases c.chunk_id) [
  | inl n ↦ ground arith
  | inr (i, n) ↦
      index-Indexed all cs (insert i c by_id) h (All-insert (Indexed all) i c by_id m k)
        (ground arith)
]

-- What the quotes of a passage are: words of the passage that the index has under its number.
abbrev Quoted : Dict String Evidence → String × List String → Type 0
Quoted by_id e =
    (c : Evidence) × (lookup e.0 by_id ≡ some c) × All (λ t. is_quoted t c.content ≡ true) e.1

add_excerpt-quoted :
    (c : Evidence) (t : String) (ex : List String)
    → is_quoted t c.content ≡ true
    → All (λ t. is_quoted t c.content ≡ true) ex
    → All (λ t. is_quoted t c.content ≡ true) (add_excerpt t ex)
unfolding add_excerpt
add_excerpt-quoted c t ex q h = elim (Bool-cases (contains ex t)) [
  | inl there ↦ rw there h
  | inr new ↦ rw new (All-append (λ t. is_quoted t c.content ≡ true) ex (t ∷ []) h (q, tt))
]

select-Quoted :
    (by_id : Dict String Evidence) (q : SupportingQuote) (c : Evidence)
    (sel : Dict String (List String))
    → lookup q.chunk_id by_id ≡ some c
    → is_quoted q.text c.content ≡ true
    → All (Quoted by_id) sel
    → All (Quoted by_id) (select q sel)
unfolding select excerpts_of
select-Quoted by_id q c sel l t h =
    All-insert (Quoted by_id) q.chunk_id _ sel
      (
        c,
        l,
        elim (Option-cases (lookup q.chunk_id sel)) [
          | inl n ↦ rw n (add_excerpt-quoted c q.text [] t tt)
          | inr (ex, n) ↦
              let (c', l', all) = All-lookup (Quoted by_id) q.chunk_id sel h n in
              let same : c' ≡ c = ground arith in
              rw n (add_excerpt-quoted c q.text ex t (rw⁻¹ same all))
        ],
      )
      h

select_quotes-Quoted :
    (by_id : Dict String Evidence) (qs : List SupportingQuote) (sel : Dict String (List String))
    {r : Dict String (List String)}
    → All (Quoted by_id) sel
    → select_quotes by_id qs sel ≡ ok r
    → All (Quoted by_id) r
unfolding select_quotes
select_quotes-Quoted by_id [] sel {r} h e = let same : sel ≡ r = ground arith in rw⁻¹ same h
select_quotes-Quoted by_id (q ∷ qs) sel h e = elim (Option-cases (lookup q.chunk_id by_id)) [
  | inl n ↦ ground arith
  | inr (c, n) ↦ elim (Bool-cases (is_quoted q.text c.content)) [
    | inr missing ↦ ground arith
    | inl here ↦
        select_quotes-Quoted by_id qs (select q sel) (select-Quoted by_id q c sel n here h)
          (ground arith)
  ]
]

-- Quoted passages are found, and what is handed on is cut from them.
excerpt_items-IsExcerpt :
    (all : List Evidence) (by_id : Dict String Evidence) (sel : Dict String (List String))
    → All (Indexed all) by_id
    → All (Quoted by_id) sel
    → (items : List Evidence) × (excerpt_items by_id sel ≡ ok items)
      × (length items ≡ length sel)
      × All (IsExcerpt all) items
unfolding excerpt_items Indexed
excerpt_items-IsExcerpt all by_id [] h k = ([], refl, refl, tt)
excerpt_items-IsExcerpt all by_id ((i, ex) ∷ sel) h ((c, l, q), k) =
    let (items, eq, n, rest) = excerpt_items-IsExcerpt all by_id sel h k in
    (
      record c { content = some (join_lines ex) } ∷ items,
      ground arith,
      omega (arith, n),
      (
        record {
          candidate = c;
          given = All-lookup (Indexed all) i by_id h l;
          excerpts = ex;
          quoted = q;
          cut = refl;
        },
        rest,
      ),
    )

-- The count stays within the limit, where there is one.
abbrev pub AtMost : Option ℕ → ℕ → Type 0
AtMost none n = Unit
AtMost (some limit) n = n ≤ limit

over_limit-AtMost : (limit : Option ℕ) (n : ℕ) → over_limit limit n ≡ false → AtMost limit n
unfolding over_limit
over_limit-AtMost none n h = tt
over_limit-AtMost (some limit) n h = ground arith

-- What a verified verdict comes with.
pub record IsVerified (candidates : List Evidence) (limit : Option ℕ) (v : EvidenceVerdict)
    (items : List Evidence) : Type 0 where
  pub excerpts : All (IsExcerpt candidates) items
  pub count : AtMost limit (length items)
  pub refused : v.supported ≡ false → items ≡ []

empty-IsVerified :
    (candidates : List Evidence) (limit : Option ℕ) (v : EvidenceVerdict) {items : List Evidence}
    → [] ≡ items
    → IsVerified candidates limit v items
empty-IsVerified candidates limit v same =
    rw⁻¹ same (record { excerpts = tt; count = none_at_most limit; refused = λ _. refl })
  where
    none_at_most : (limit : Option ℕ) → AtMost limit 0
    none_at_most none = tt
    none_at_most (some limit) = omega arith

module _ (verdict : EvidenceVerdict) (candidates : List Evidence) (limit : Option ℕ)
    (claims : verdict.supported ≡ true) where
  within_limit-IsVerified :
      (by_id : Dict String Evidence) (sel : Dict String (List String)) {v : EvidenceVerdict}
      {items : List Evidence}
      → All (Indexed candidates) by_id
      → All (Quoted by_id) sel
      → within_limit verdict limit by_id sel ≡ ok (v, items)
      → IsVerified candidates limit v items
  unfolding within_limit
  within_limit-IsVerified by_id sel {v} {items} h k e =
      elim (Bool-cases (over_limit limit (length sel))) [
        | inl over ↦ empty-IsVerified candidates limit v (ground arith)
        | inr under ↦
            let (found, eq, n, all) = excerpt_items-IsExcerpt candidates by_id sel h k in
            let same : found ≡ items = ground arith in
            let kept : verdict ≡ v = ground arith in
            rw⁻¹ same (record {
              excerpts = all;
              count = rw n (over_limit-AtMost limit (length sel) under);
              refused = λ no. ground arith;
            })
      ]

  select-IsVerified :
      (by_id : Dict String Evidence) {v : EvidenceVerdict} {items : List Evidence}
      → (o : Result EvidenceError (Dict String (List String)))
      → select_quotes by_id verdict.supporting_quotes [] ≡ o
      → All (Indexed candidates) by_id
      → verify_supported verdict candidates limit ≡ ok (v, items)
      → index_candidates candidates [] ≡ ok by_id
      → IsVerified candidates limit v items
  unfolding verify_supported
  select-IsVerified by_id (err e) q h k i = ground arith
  select-IsVerified by_id (ok sel) q h k i =
      within_limit-IsVerified by_id sel h
        (select_quotes-Quoted by_id verdict.supporting_quotes [] tt q) (ground arith)

  supported-IsVerified :
      {v : EvidenceVerdict} {items : List Evidence}
      → (o : Result EvidenceError (Dict String Evidence)) → index_candidates candidates [] ≡ o
      → verify_supported verdict candidates limit ≡ ok (v, items)
      → IsVerified candidates limit v items
  unfolding verify_supported
  supported-IsVerified (err e) i k = ground arith
  supported-IsVerified (ok by_id) i k =
      select-IsVerified by_id (select_quotes by_id verdict.supporting_quotes []) refl
        (index-Indexed candidates candidates [] (all_members candidates) tt i) k i
    where
      all_members : (cs : List Evidence) → All (λ c. Member c cs) cs
      all_members [] = tt
      all_members (c ∷ cs) = (
        inl refl,
        All-weaken (λ x. Member x cs) (λ x. Member x (c ∷ cs)) cs (λ x m. inr m) (all_members cs),
      )

-- When a review is verified, every passage that it hands on is one of the given passages with its
-- content cut down to quotes that occur in that content; there are no more of them than the limit;
-- and there are none if the verdict handed on says that the evidence is not enough.
pub verify_evidence_review-IsVerified :
    (verdict : EvidenceVerdict) (candidates : List Evidence) (limit : Option ℕ)
    {v : EvidenceVerdict} {items : List Evidence}
    → verify_evidence_review verdict candidates limit ≡ ok (v, items)
    → IsVerified candidates limit v items
unfolding verify_evidence_review
verify_evidence_review-IsVerified verdict candidates limit {v} {items} h =
    elim (Bool-cases verdict.supported) [
      | inl claims ↦
          supported-IsVerified verdict candidates limit claims (index_candidates candidates []) refl
            (ground arith)
      | inr denies ↦ empty-IsVerified candidates limit v (ground arith)
    ]
