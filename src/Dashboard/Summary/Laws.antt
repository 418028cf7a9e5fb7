-- ===== src/Dashboard/Summary/Laws.antt =====
-- What the summary says of the sources.
use leitstand.Common.{
  ◌+◌, ◌≡◌, refl, sym, ap, ◌∙◌, ◌≢◌, ◌↔◌, ◌⊎◌, inl, inr, true, false, none, some, List, [], ◌∷◌,
  any, count, length, filter_map, All, All-mono, count-sort_by, count_all, any-false_iff,
  All-count_iff, None-count_iff, Option-cases, Bool-cases, arith, if◌then◌else◌,
}
use leitstand.Snapshot.{fresh}
use leitstand.Dashboard.Sources.{artifact, fixture, Source, AttentionItem, summarize_source}
use leitstand.Dashboard.Summary.{
  State, healthy, attention, critical, Summary, before, is_unavailable, is_verified_fresh,
  is_critical, attention_of, is_empty, summarize_dashboard, critical_summary, attention_summary,
  healthy_summary,
}

verified_iff :
    (s : Source)
    → (is_verified_fresh s ≡ true) ↔ ((s.source_kind ≡ artifact) × (s.freshness_state ≡ fresh))
verified_iff s = ground arith

available_iff :
    (s : Source)
    → (is_unavailable s ≡ false) ↔ ((s.source_kind ≡ artifact) ⊎ (s.source_kind ≡ fixture))
available_iff s = ground arith

-- A source asks for attention unless it is a fresh artifact, and its item is critical exactly if it
-- gives no data.
no_item : (s : Source) → is_verified_fresh s ≡ true → summarize_source s ≡ none
unfolding summarize_source
no_item s h = ground arith

some_item :
    (s : Source)
    → is_verified_fresh s ≡ false
    → (i : AttentionItem) × (summarize_source s ≡ some i) × (is_critical i ≡ is_unavailable s)
unfolding summarize_source
some_item s h = elim (Option-cases (summarize_source s)) [
  | inl none_there ↦ absurd (ground arith)
  | inr (i, e) ↦ (i, e, ground arith)
]

unavailable-not_fresh : (s : Source) → is_verified_fresh s ≡ true → is_unavailable s ≡ false
unavailable-not_fresh s h = ground arith

length-items :
    (ss : List Source)
    → length (filter_map summarize_source ss) + count is_verified_fresh ss ≡ length ss
length-items [] = refl
length-items (s ∷ ss) = elim (Bool-cases (is_verified_fresh s)) [
  | inl e ↦ ground (arith, no_item s e, length-items ss)
  | inr e ↦ let (i, there, _) = some_item s e in ground (arith, length-items ss)
]

critical-items :
    (ss : List Source)
    → count is_critical (filter_map summarize_source ss) ≡ count is_unavailable ss
critical-items [] = refl
critical-items (s ∷ ss) = elim (Bool-cases (is_verified_fresh s)) [
  | inl e ↦ ground (arith, no_item s e, unavailable-not_fresh s e, critical-items ss)
  | inr e ↦ let (i, there, same) = some_item s e in ground (arith, critical-items ss)
]

module _ (ss : List Source) where
  critical-attention : count is_critical (attention_of ss) ≡ count is_unavailable ss
  critical-attention =
      count-sort_by (before ss) is_critical (filter_map summarize_source ss) ∙ critical-items ss

  length-attention : length (attention_of ss) + count is_verified_fresh ss ≡ length ss
  length-attention = omega (
    arith,
    count_all (attention_of ss),
    count_all (filter_map summarize_source ss),
    count-sort_by (before ss) (λ _. true) (filter_map summarize_source ss),
    length-items ss,
  )

-- The summary accounts for every source.
pub record Accounts (ss : List Source) (v : Summary) : Type 0 where
  pub total : v.total_count ≡ length ss
  pub each_noted : v.attention_count + v.verified_fresh_count ≡ v.total_count
  pub listed : v.attention_count ≡ length v.attention
  pub unavailable : v.unavailable_count ≡ count is_unavailable ss
  pub critical_listed : count is_critical v.attention ≡ v.unavailable_count

empty-nil : {A : Type 0} (xs : List A) → is_empty xs ≡ true → xs ≡ []
empty-nil [] h = refl
empty-nil (x ∷ xs) h = cc

module _ (ss : List Source) where
  critical-Accounts : Accounts ss (critical_summary ss (attention_of ss))
  unfolding critical_summary
  critical-Accounts = record {
    total = refl;
    each_noted = length-attention ss;
    listed = refl;
    unavailable = refl;
    critical_listed = critical-attention ss;
  }

  attention-Accounts : Accounts ss (attention_summary ss (attention_of ss))
  unfolding attention_summary
  attention-Accounts = record {
    total = refl;
    each_noted = length-attention ss;
    listed = refl;
    unavailable = refl;
    critical_listed = critical-attention ss;
  }

  healthy-Accounts : attention_of ss ≡ [] → Accounts ss (healthy_summary ss)
  unfolding healthy_summary
  healthy-Accounts e = record {
    total = refl;
    each_noted = ap (λ is. length is + count is_verified_fresh ss) (sym e) ∙ length-attention ss;
    listed = refl;
    unavailable = ap (count is_critical) (sym e) ∙ critical-attention ss;
    critical_listed = refl;
  }

-- The summary accounts for every source: the sources that ask for attention and the fresh artifacts
-- add up to all of them, the items listed are as many as the counter says, and the unavailable ones
-- are the sources that give no data and the critical items alike.
pub summarize_dashboard-Accounts : (ss : List Source) → Accounts ss (summarize_dashboard ss)
unfolding summarize_dashboard
summarize_dashboard-Accounts ss = elim (Bool-cases (any is_critical (attention_of ss))) [
  | inl e ↦ rw (e, summarize_dashboard) (critical-Accounts ss)
  | inr e ↦ elim (Bool-cases (is_empty (attention_of ss))) [
    | inl f ↦ rw (e, f, summarize_dashboard) (healthy-Accounts ss (empty-nil _ f))
    | inr f ↦ rw (e, f, summarize_dashboard) (attention-Accounts ss)
  ]
]

abbrev pub IsVerified : Source → Type 0
IsVerified s = (s.source_kind ≡ artifact) × (s.freshness_state ≡ fresh)

abbrev pub IsAvailable : Source → Type 0
IsAvailable s = (s.source_kind ≡ artifact) ⊎ (s.source_kind ≡ fixture)

abbrev state_of : List AttentionItem → State
state_of items =
    if any is_critical items then critical else if is_empty items then healthy else attention

state-summarize_dashboard :
    (ss : List Source) → (summarize_dashboard ss).state ≡ state_of (attention_of ss)
unfolding summarize_dashboard critical_summary attention_summary healthy_summary
state-summarize_dashboard ss = ground arith

state_of-healthy_iff :
    (items : List AttentionItem) → (state_of items ≡ healthy) ↔ (length items ≡ 0)
state_of-healthy_iff [] = (λ _. refl, λ _. refl)
state_of-healthy_iff (i ∷ is) = (λ h. absurd (ground arith), λ h. absurd (omega arith))

state_of-critical_iff :
    (items : List AttentionItem) → (state_of items ≢ critical) ↔ (count is_critical items ≡ 0)
state_of-critical_iff items = (
  λ h. (any-false_iff is_critical items).0 (ground arith),
  λ h. let quiet = (any-false_iff is_critical items).1 h in λ e. absurd (ground arith),
)

-- The dashboard is healthy exactly if every source is a fresh artifact, and it is not critical
-- exactly if every source gives data.
pub state-summarize_dashboard_iff :
    (ss : List Source)
    → (((summarize_dashboard ss).state ≡ healthy) ↔ All IsVerified ss)
      × (((summarize_dashboard ss).state ≢ critical) ↔ All IsAvailable ss)
state-summarize_dashboard_iff ss = rw (state-summarize_dashboard ss) (
  (
    λ h.
        All-mono (λ s v. (verified_iff s).0 v) ss
          ((All-count_iff is_verified_fresh ss).1
            (omega (arith, (state_of-healthy_iff (attention_of ss)).0 h, length-attention ss))),
    λ h. (state_of-healthy_iff (attention_of ss)).1 (
        omega (
          arith,
          (All-count_iff is_verified_fresh ss).0 (All-mono (λ s v. (verified_iff s).1 v) ss h),
          length-attention ss,
        )),
  ),
  (
    λ h.
        All-mono (λ s v. (available_iff s).0 v) ss
          ((None-count_iff is_unavailable ss).1
            (sym (critical-attention ss) ∙ (state_of-critical_iff (attention_of ss)).0 h)),
    λ h. (state_of-critical_iff (attention_of ss)).1 (
        critical-attention ss
        ∙ (None-count_iff is_unavailable ss).0 (All-mono (λ s v. (available_iff s).1 v) ss h)),
  ),
)

pub attention-summarize_dashboard :
    (ss : List Source) → (summarize_dashboard ss).attention ≡ attention_of ss
unfolding summarize_dashboard critical_summary attention_summary healthy_summary
attention-summarize_dashboard ss = ground (arith, empty-nil (attention_of ss))
