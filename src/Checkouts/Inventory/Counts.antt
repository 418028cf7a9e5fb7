-- ===== src/Checkouts/Inventory/Counts.antt =====
-- The list of the page against the snapshot.
use leitstand.Common.{
  sort-sort, All-append, insert_by, ℕ, ◌+◌, ◌≡◌, refl, sym, ap, ◌∙◌, ◌⊎◌, inl, inr, Bool, true,
  false, ◌&&◌, ◌||◌, String, List, [], ◌∷◌, ◌++◌, All, All-mono, filter, filter-All, count, length,
  sort, sort_by, rank_le, insert_by-past, insert_by-front, leb, arith,
}
use leitstand.Host.{Host}
use leitstand.Snapshot.{SourceKind}
use leitstand.Checkouts.Parse.{
  Retention, orphan, archivable, retained, unknown, CheckoutView, Parsed,
}
use leitstand.Checkouts.Inventory.{
  ViewData, is_retention, is_sprawl, order, empty_data, data_from_parsed,
}

-- The checkouts of one retention, in their order.
abbrev pub of_retention : Retention → List CheckoutView → List CheckoutView
of_retention r cs = filter (λ c. is_retention c.retention r) cs

-- The worst retention first: orphans, archivable ones, those of unknown retention, retained ones.
abbrev pub worst_first : List CheckoutView → List CheckoutView
worst_first cs =
    of_retention orphan cs
    ++ (of_retention archivable cs ++ (of_retention unknown cs ++ of_retention retained cs))

-- Up for removal, but held by a process or by a lease.
abbrev pub is_anchored : CheckoutView → Bool
is_anchored c =
    (is_retention c.retention orphan || is_retention c.retention archivable)
    && (c.has_process || c.has_resource_lease)

abbrev rank : CheckoutView → ℕ
rank c = order c.retention

-- A sorted page: the counters are those of the retentions that they name, and the sprawl is what is
-- left of the orphans and the archivable ones without those that are anchored.
pub record IsConsistent (v : ViewData) : Type 0 where
  pub ordered : v.checkouts ≡ worst_first v.checkouts
  pub orphans : v.view_meta.orphan_count ≡ length (of_retention orphan v.checkouts)
  pub archivables : v.view_meta.archivable_count ≡ length (of_retention archivable v.checkouts)
  pub counted :
      v.view_meta.orphan_count
        + v.view_meta.archivable_count
        + length (of_retention unknown v.checkouts)
        + v.view_meta.retained_count
      ≡ v.view_meta.checkout_count
  pub all_counted : v.view_meta.checkout_count ≡ length v.checkouts
  pub sprawl :
      v.view_meta.sprawl_count + count is_anchored v.checkouts
      ≡ v.view_meta.orphan_count + v.view_meta.archivable_count

Retention-cases :
    (r : Retention) → (r ≡ orphan) ⊎ ((r ≡ archivable) ⊎ ((r ≡ unknown) ⊎ (r ≡ retained)))
Retention-cases orphan = inl refl
Retention-cases archivable = inr (inl refl)
Retention-cases unknown = inr (inr (inl refl))
Retention-cases retained = inr (inr (inr refl))

is_retention-eq : (a b : Retention) → is_retention a b ≡ true → a ≡ b
is_retention-eq a b h = grind arith

-- How a checkout compares with those of one retention.
of_retention-rank :
    (c : CheckoutView) (r s : Retention) (b : Bool) (cs : List CheckoutView)
    → c.retention ≡ r
    → leb (order r) (order s) ≡ b
    → All (λ x. rank_le rank c x ≡ b) (of_retention s cs)
of_retention-rank c r s b cs e h =
    All-mono
      (λ x k.
        ap (λ q. leb (order q) (order x.retention)) e
        ∙ ap (λ q. leb (order r) (order q)) (is_retention-eq x.retention s k)
        ∙ h)
      (of_retention s cs) (filter-All (λ x. is_retention x.retention s) cs)

-- The sort puts the groups one after the other, each in its order.
sort-worst_first : (cs : List CheckoutView) → sort rank cs ≡ worst_first cs
unfolding sort sort_by
sort-worst_first [] = refl
sort-worst_first (c ∷ cs) =
    let le = rank_le rank in
    let o = of_retention orphan cs in
    let a = of_retention archivable cs in
    let u = of_retention unknown cs in
    let k = of_retention retained cs in
    let past : (r s : Retention) (vs : List CheckoutView)
        → c.retention ≡ r
        → leb (order r) (order s) ≡ false
        → insert_by le c (of_retention s cs ++ vs) ≡ of_retention s cs ++ insert_by le c vs =
      λ r s vs e h.
        insert_by-past le c (of_retention s cs) vs (of_retention-rank c r s false cs e h) in
    let front : (r s : Retention)
        → c.retention ≡ r
        → leb (order r) (order s) ≡ true
        → All (λ x. le c x ≡ true) (of_retention s cs) =
      λ r s e h. of_retention-rank c r s true cs e h in
    let both : (xs ys : List CheckoutView)
        → All (λ x. le c x ≡ true) xs
        → All (λ x. le c x ≡ true) ys
        → All (λ x. le c x ≡ true) (xs ++ ys) =
      All-append (λ x. le c x ≡ true) in
    ap (insert_by le c) (sort-worst_first cs) ∙ elim (Retention-cases c.retention) [
      | inl e ↦
          insert_by-front le c (o ++ (a ++ (u ++ k))) (
            both o (a ++ (u ++ k)) (front orphan orphan e refl) (
              both a (u ++ k) (front orphan archivable e refl)
                (both u k (front orphan unknown e refl) (front orphan retained e refl))))
          ∙ rw e refl
      | inr (inl e) ↦
          past archivable orphan (a ++ (u ++ k)) e refl
          ∙ ap (λ zs. o ++ zs)
              (insert_by-front le c (a ++ (u ++ k)) (
                both a (u ++ k) (front archivable archivable e refl)
                  (both u k (front archivable unknown e refl) (front archivable retained e refl))))
          ∙ rw e refl
      | inr (inr (inl e)) ↦
          past unknown orphan (a ++ (u ++ k)) e refl
          ∙ ap (λ zs. o ++ zs) (past unknown archivable (u ++ k) e refl)
          ∙ ap (λ zs. o ++ (a ++ zs))
              (insert_by-front le c (u ++ k)
                (both u k (front unknown unknown e refl) (front unknown retained e refl)))
          ∙ rw e refl
      | inr (inr (inr e)) ↦
          past retained orphan (a ++ (u ++ k)) e refl
          ∙ ap (λ zs. o ++ zs) (past retained archivable (u ++ k) e refl)
          ∙ ap (λ zs. o ++ (a ++ zs)) (past retained unknown k e refl)
          ∙ ap (λ zs. o ++ (a ++ (u ++ zs)))
              (insert_by-front le c k (front retained retained e refl))
          ∙ rw e refl
    ]

all_eq_sum :
    (cs : List CheckoutView)
    → length (of_retention orphan cs)
        + length (of_retention archivable cs)
        + length (of_retention unknown cs)
        + length (of_retention retained cs)
      ≡ length cs
all_eq_sum [] = refl
all_eq_sum (c ∷ cs) = ground (arith, all_eq_sum cs)

sprawl-anchored :
    (cs : List CheckoutView)
    → count is_sprawl cs + count is_anchored cs
      ≡ length (of_retention orphan cs) + length (of_retention archivable cs)
sprawl-anchored [] = refl
sprawl-anchored (c ∷ cs) = ground (arith, sprawl-anchored cs)

pub data_from_parsed-IsConsistent :
    (H : Host) (p : Parsed) (kind : SourceKind) (path reason root : String)
    → IsConsistent (data_from_parsed H p kind path reason root)
unfolding data_from_parsed
data_from_parsed-IsConsistent H p kind path reason root =
    let cs = sort rank p.checkouts in
    record {
      ordered = sym (sort-sort rank p.checkouts) ∙ sort-worst_first cs;
      orphans = refl;
      archivables = refl;
      counted = all_eq_sum cs;
      all_counted = refl;
      sprawl = sprawl-anchored cs;
    }

pub empty_data-IsConsistent :
    (H : Host) (kind : SourceKind) (reason path root : String)
    → IsConsistent (empty_data H kind reason path root)
unfolding empty_data
empty_data-IsConsistent H kind reason path root = record {
  ordered = refl;
  orphans = refl;
  archivables = refl;
  counted = refl;
  all_counted = refl;
  sprawl = refl;
}

-- The page shows the orphans of the snapshot, then its archivable checkouts, then those of unknown
-- retention, then the retained ones, each group in the order of the snapshot.
pub data_from_parsed-checkouts :
    (H : Host) (p : Parsed) (kind : SourceKind) (path reason root : String)
    → (data_from_parsed H p kind path reason root).checkouts
      ≡ of_retention orphan p.checkouts
        ++ (of_retention archivable p.checkouts
            ++ (of_retention unknown p.checkouts ++ of_retention retained p.checkouts))
unfolding data_from_parsed
data_from_parsed-checkouts H p kind path reason root = sort-worst_first p.checkouts
