-- ===== src/Evidence/Citations.antt =====
-- The citations of an answer are those of its passages, once each.
use opspilot_agent_platform.Prelude.{
  ℕ, ◌≤◌, String, ◌||◌, ◌≡◌, refl, inl, inr, true, false, some, List, [], ◌∷◌, arith, text_eq, ltb,
  contains, All, Option-cases, Bool-cases, eq_iff, Member, ◌==◌,
}
use mathlib.Core.List.{◌++◌ as ◌+++◌}
use mathlib.Core.Logic.{◌⊎◌}
use opspilot_agent_platform.Prelude.Text.{is_blank}
use opspilot_agent_platform.Prelude.Exec.{ok}
use opspilot_agent_platform.Evidence.{Evidence, citation, collect_citations}

abbrev pub Distinct : List String → Type 0
Distinct [] = Unit
Distinct (c ∷ cs) = (contains cs c ≡ false) × Distinct cs

contains-append :
    (xs : List String) (c d : String) → contains (xs +++ (c ∷ [])) d ≡ (contains xs d || c == d)
contains-append [] c d = ground arith
contains-append (x ∷ xs) c d = ground (arith, contains-append xs c d)

Distinct-append :
    (xs : List String) (c : String)
    → contains xs c ≡ false
    → Distinct xs
    → Distinct (xs +++ (c ∷ []))
Distinct-append [] c n h = (refl, tt)
Distinct-append (x ∷ xs) c n (m, h) = (
  ground (arith, contains-append xs c x, eq_iff c x, eq_iff x c),
  Distinct-append xs c (ground arith) h,
)

-- A passage that can be cited, and its citation.
abbrev pub Cites : Evidence → String → Type 0
Cites item c =
    (title : String) × (page : ℕ) × (item.title ≡ some title)
    × (item.page ≡ some page)
    × (is_blank title ≡ false)
    × (1 ≤ page)
    × (citation title page ≡ c)

-- What collecting from `items` after `start` gives: no citation twice; every one was there at the
-- start or is an item's; what was there stays; and every item is cited.
pub record IsCitationList (items : List Evidence) (start r : List String) : Type 0 where
  pub distinct : Distinct r
  pub from_item :
      (c : String)
      → contains r c ≡ true
      → (contains start c ≡ true) ⊎ ((item : Evidence) × Member item items × Cites item c)
  pub kept : (c : String) → contains start c ≡ true → contains r c ≡ true
  pub each_cited : All (λ item. (c : String) × Cites item c × (contains r c ≡ true)) items

collect-skips :
    {item : Evidence} {items : List Evidence} {start r : List String} {c : String}
    → Cites item c
    → contains start c ≡ true
    → IsCitationList items start r
    → IsCitationList (item ∷ items) start r
collect-skips {item} {c = c} k there rest = record {
  distinct = rest.distinct;
  from_item =
      λ d h. elim (rest.from_item d h) [ inl old ↦ inl old | inr (i, m, k') ↦ inr (i, inr m, k') ];
  kept = rest.kept;
  each_cited = ((c, k, rest.kept c there), rest.each_cited);
}

collect-adds :
    {item : Evidence} {items : List Evidence} {start r : List String} {c : String}
    → Cites item c
    → IsCitationList items (start +++ (c ∷ [])) r
    → IsCitationList (item ∷ items) start r
collect-adds {item} {items} {start} {r} {c} k rest = record {
  distinct = rest.distinct;
  from_item = λ d h. elim (rest.from_item d h) [
    | inl old ↦ elim (Bool-cases (contains start d)) [
      | inl there ↦ inl there
      | inr new ↦
          let same : c ≡ d = ground (arith, contains-append start c d, eq_iff c d) in
          inr (item, inl refl, rw⁻¹ same k)
    ]
    | inr (i, m, k') ↦ inr (i, inr m, k')
  ];
  kept = λ d h. rest.kept d (ground (arith, contains-append start c d));
  each_cited = (
    (c, k, rest.kept c (ground (arith, contains-append start c c, eq_iff c c))),
    rest.each_cited,
  );
}

collect_citations-IsCitationList :
    (items : List Evidence) (start : List String) {r : List String}
    → Distinct start
    → collect_citations items start ≡ ok r
    → IsCitationList items start r
unfolding collect_citations
collect_citations-IsCitationList [] start {r} d h =
    let same : start ≡ r = ground arith in
    rw⁻¹ same (record { distinct = d; from_item = λ c k. inl k; kept = λ c k. k; each_cited = tt })
collect_citations-IsCitationList (item ∷ items) start d h = elim (Option-cases item.title) [
  | inl n ↦ ground arith
  | inr (title, t) ↦ elim (Option-cases item.page) [
    | inl n ↦ ground arith
    | inr (page, p) ↦ elim (Bool-cases (is_blank title || ltb page 1)) [
      | inl bad ↦ ground arith
      | inr good ↦
          let c = citation title page in
          let k : Cites item c = (title, page, t, p, ground arith, ground arith, refl) in
          elim (Bool-cases (contains start c)) [
            | inl there ↦
                collect-skips k there
                  (collect_citations-IsCitationList items start d (ground arith))
            | inr new ↦ collect-adds k (
                collect_citations-IsCitationList items (start +++ (c ∷ []))
                  (Distinct-append start c new d) (ground arith))
          ]
    ]
  ]
]

-- The citations of an answer are those of the passages given, each once: every passage has a title
-- and a page number of at least one and is cited, and nothing else is.
pub collect_citations-AreCitations :
    (items : List Evidence) {r : List String}
    → collect_citations items [] ≡ ok r
    → Distinct r
      × ((c : String) → contains r c ≡ true → (item : Evidence) × Member item items × Cites item c)
      × All (λ item. (c : String) × Cites item c × (contains r c ≡ true)) items
collect_citations-AreCitations items h =
    let list = collect_citations-IsCitationList items [] tt h in
    (
      list.distinct,
      (λ c k. elim (list.from_item c k) [ inl old ↦ ground arith | inr found ↦ found ]),
      list.each_cited,
    )
