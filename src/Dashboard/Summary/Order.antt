-- ===== src/Dashboard/Summary/Order.antt =====
-- The order of the items: by severity, and then by the place of the source.
use leitstand.Common.{
  ℕ, zero, suc, ◌≤◌, ◌≡◌, refl, sym, ap, ◌∙◌, ◌≢◌, ◌⊎◌, inl, inr, Bool, true, false, String, eq_iff,
  some, List, [], ◌∷◌, ◌++◌, map, All, All-mono, All-append, filter, filter_map, nat_eq, leb,
  IsSortedBy, sort_by, insert_by, insert_by-past, insert_by-front, Option-cases, Bool-cases, arith,
}
use leitstand.Common.Distinct.{Distinct}
use leitstand.Dashboard.Sources.{
  Source, Severity, critical, warning, info, AttentionItem, summarize_source,
}
use leitstand.Dashboard.Summary.{severity_rank, next_index, index_of, before, summarize_dashboard}
use leitstand.Dashboard.Summary.Laws.{attention-summarize_dashboard}

abbrev pub source_ids : List Source → List String
source_ids ss = map (λ s. s.id) ss

abbrev is_severity : Severity → Severity → Bool
is_severity critical critical = true
is_severity warning warning = true
is_severity info info = true
is_severity _ _ = false

abbrev pub of_severity : Severity → List AttentionItem → List AttentionItem
of_severity v items = filter (λ i. is_severity i.severity v) items

-- The place of an item's source.
abbrev place : List Source → AttentionItem → ℕ
place ss i = index_of i.source_id ss

-- An item is of its source.
item_source : (s : Source) (i : AttentionItem) → summarize_source s ≡ some i → i.source_id ≡ s.id
unfolding summarize_source
item_source s i h = ground arith

next_index-suc : (n : ℕ) → 1 ≤ n → next_index n ≡ suc n
next_index-suc zero h = absurd (omega arith)
next_index-suc (suc n) h = refl

first_place :
    (s : Source) (ss : List Source) (i : AttentionItem) → i.source_id ≡ s.id → place (s ∷ ss) i ≡ 1
first_place s ss i e = ground (arith, eq_iff s.id i.source_id)

later_place :
    (s : Source) (ss : List Source) (i : AttentionItem)
    → 1 ≤ place ss i
    → i.source_id ≢ s.id
    → place (s ∷ ss) i ≡ suc (place ss i)
later_place s ss i h n = ground (arith, eq_iff s.id i.source_id, next_index-suc (place ss i) h)

placed : (s : Source) (ss : List Source) (i : AttentionItem) → 1 ≤ place ss i → 1 ≤ place (s ∷ ss) i
placed s ss i h = ground (arith, next_index-suc (place ss i) h)

-- Every item has a place, and it is of a source with another id if all these ids are other ones.
items-placed :
    (id : String) (ss : List Source)
    → All (λ k. k ≢ id) (source_ids ss)
    → All (λ i. (1 ≤ place ss i) × (i.source_id ≢ id)) (filter_map summarize_source ss)
items-placed id [] h = tt
items-placed id (s ∷ ss) (p, h) = elim (Option-cases (summarize_source s)) [
  | inl e ↦
      rw (e, filter_map) (All-mono (λ i (le, ne). (placed s ss i le, ne)) _ (items-placed id ss h))
  | inr (i, e) ↦
      let same = item_source s i e in
      rw (e, filter_map)
        (
          (omega (arith, first_place s ss i same), λ q. p (sym same ∙ q)),
          All-mono (λ i (le, ne). (placed s ss i le, ne)) _ (items-placed id ss h),
        )
]

IsSortedBy-mono :
    {A : Type 0} (le le' : A → A → Bool) (Q : A → Type 0)
    → ((a b : A) → Q a → Q b → le a b ≡ true → le' a b ≡ true)
    → (xs : List A) → All Q xs
    → IsSortedBy le xs
    → IsSortedBy le' xs
IsSortedBy-mono {A = A} le le' Q f [] q s = tt
IsSortedBy-mono {A = A} le le' Q f (x ∷ xs) (p, q) (h, s) =
    (both xs q h, IsSortedBy-mono le le' Q f xs q s)
  where
    both : (ys : List A) → All Q ys → All (λ y. le x y ≡ true) ys → All (λ y. le' x y ≡ true) ys
    both [] q h = tt
    both (y ∷ ys) (qy, q) (hy, h) = (f x y p qy hy, both ys q h)

-- The items are in the order of their places.
items-ordered :
    (ss : List Source)
    → Distinct (source_ids ss)
    → IsSortedBy (λ a b. leb (place ss a) (place ss b)) (filter_map summarize_source ss)
items-ordered [] h = tt
items-ordered (s ∷ ss) (p, h) =
    let others = items-placed s.id ss p in
    let later =
      IsSortedBy-mono (λ a b. leb (place ss a) (place ss b))
        (λ a b. leb (place (s ∷ ss) a) (place (s ∷ ss) b))
        (λ i. (1 ≤ place ss i) × (i.source_id ≢ s.id))
        (λ a b (le, ne) (le', ne') k.
          ground (arith, later_place s ss a le ne, later_place s ss b le' ne'))
        (filter_map summarize_source ss) others (items-ordered ss h) in
    elim (Option-cases (summarize_source s)) [
      | inl e ↦ rw (e, filter_map) later
      | inr (i, e) ↦
          let same = item_source s i e in
          rw (e, filter_map)
            (
              All-mono (λ y (le, ne). ground (arith, first_place s ss i same, placed s ss y le)) _
                  others,
              later,
            )
    ]

Severity-cases : (v : Severity) → (v ≡ critical) ⊎ ((v ≡ warning) ⊎ (v ≡ info))
Severity-cases critical = inl refl
Severity-cases warning = inr (inl refl)
Severity-cases info = inr (inr refl)

is_severity-eq : (v w : Severity) → is_severity v w ≡ true → v ≡ w
is_severity-eq v w h = grind arith

module _ (ss : List Source) (x : AttentionItem) (v : Severity) (e : x.severity ≡ v) where
  -- How an item compares with a later one of the severity `w`.
  before-later :
      (w : Severity) (b : Bool) (y : AttentionItem)
      → leb (severity_rank v) (severity_rank w) ≡ b
      → y.severity ≡ w
      → leb (place ss x) (place ss y) ≡ true
      → before ss x y ≡ b
  before-later w b y h k le = elim (Bool-cases (nat_eq (severity_rank v) (severity_rank w))) [
    | inl q ↦
        let level : leb (severity_rank v) (severity_rank w) ≡ true = ground arith in
        rw (e, k, q) (le ∙ sym level ∙ h)
    | inr q ↦ rw (e, k, q) h
  ]

  before-group :
      (w : Severity) (b : Bool)
      → leb (severity_rank v) (severity_rank w) ≡ b
      → (ys : List AttentionItem) → All (λ y. leb (place ss x) (place ss y) ≡ true) ys
      → All (λ y. before ss x y ≡ b) (of_severity w ys)
  before-group w b h [] le = tt
  before-group w b h (y ∷ ys) (p, le) = elim (Bool-cases (is_severity y.severity w)) [
    | inl k ↦
        rw (k, filter)
          (before-later w b y h (is_severity-eq y.severity w k) p, before-group w b h ys le)
    | inr k ↦ rw (k, filter) (before-group w b h ys le)
  ]

abbrev pub by_severity : List AttentionItem → List AttentionItem
by_severity is = of_severity critical is ++ (of_severity warning is ++ of_severity info is)

sort-by_severity :
    (ss : List Source) (is : List AttentionItem)
    → IsSortedBy (λ a b. leb (place ss a) (place ss b)) is
    → sort_by (before ss) is ≡ by_severity is
unfolding sort_by
sort-by_severity ss [] h = refl
sort-by_severity ss (x ∷ is) (p, h) =
    let le = before ss in
    let c = of_severity critical is in
    let w = of_severity warning is in
    let i = of_severity info is in
    ap (insert_by le x) (sort-by_severity ss is h) ∙ elim (Severity-cases x.severity) [
      | inl e ↦
          insert_by-front le x (c ++ (w ++ i)) (
            All-append _ c (w ++ i) (before-group ss x critical e critical true refl is p) (
              All-append _ w i (before-group ss x critical e warning true refl is p)
                (before-group ss x critical e info true refl is p)))
          ∙ rw e refl
      | inr (inl e) ↦
          insert_by-past le x c (w ++ i) (before-group ss x warning e critical false refl is p)
          ∙ ap (λ zs. c ++ zs)
              (insert_by-front le x (w ++ i) (
                All-append _ w i (before-group ss x warning e warning true refl is p)
                  (before-group ss x warning e info true refl is p)))
          ∙ rw e refl
      | inr (inr e) ↦
          insert_by-past le x c (w ++ i) (before-group ss x info e critical false refl is p)
          ∙ ap (λ zs. c ++ zs)
              (insert_by-past le x w i (before-group ss x info e warning false refl is p))
          ∙ ap (λ zs. c ++ (w ++ zs))
              (insert_by-front le x i (before-group ss x info e info true refl is p))
          ∙ rw e refl
    ]

-- Where the sources have distinct ids, the dashboard lists the items of its sources: first the
-- critical ones, then the warnings, then what is for information, each in the order of the sources.
pub attention-summarize_dashboard_sorted :
    (ss : List Source)
    → Distinct (source_ids ss)
    → let items = filter_map summarize_source ss in
      (summarize_dashboard ss).attention
      ≡ of_severity critical items ++ (of_severity warning items ++ of_severity info items)
attention-summarize_dashboard_sorted ss h =
    attention-summarize_dashboard ss
    ∙ sort-by_severity ss (filter_map summarize_source ss) (items-ordered ss h)
