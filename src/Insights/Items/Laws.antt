-- ===== src/Insights/Items/Laws.antt =====
-- The index map leads from each kept item to its place among the kept ones.
use leitstand.Common.{
  ℕ, zero, suc, ◌+◌, ◌<◌, ◌≡◌, refl, Option, none, some, Option-cases, inl, inr, List, [], ◌∷◌, All,
  All-mono, filter_map, length, arith,
}
use leitstand.Json.{Json, null, boolean, number, string, array, object, Items, items}
use leitstand.Insights.Items.{IndexedItems, indexed_from, sanitize_indexed_items}

-- `xs[i]`
abbrev pub at {ℓ} : {A : Type ℓ} → ℕ → List A → Option A
at i [] = none
at zero (x ∷ xs) = some x
at (suc i) (x ∷ xs) = at i xs

pub at-lt {ℓ} : {A : Type ℓ} (i : ℕ) (xs : List A) {a : A} → at i xs ≡ some a → i < length xs
at-lt i [] h = cc
at-lt zero (x ∷ xs) h = omega arith
at-lt (suc i) (x ∷ xs) h = omega (arith, at-lt i xs h)

module _ {T : Type 0} (valid : Json → Option T) where
  -- Of a pair of indices: the raw item at the first is valid, and is the kept item at the second.
  pub record PointsAt (vs : List Json) (ts : List T) (index next i j : ℕ) : Type 0 where
    pub k : ℕ
    pub l : ℕ
    pub from_index : i ≡ index + k
    pub from_next : j ≡ next + l
    pub raw : Json
    pub kept : T
    pub raw_there : at k vs ≡ some raw
    pub is_valid : valid raw ≡ some kept
    pub kept_there : at l ts ≡ some kept

  later_kept :
      (v : Json) (vs : List Json) (t : T) (ts : List T) (index next i j : ℕ)
      → PointsAt vs ts (suc index) (suc next) i j
      → PointsAt (v ∷ vs) (t ∷ ts) index next i j
  later_kept v vs t ts index next i j p = record {
    k = suc p.k;
    l = suc p.l;
    from_index = omega (arith, p.from_index);
    from_next = omega (arith, p.from_next);
    raw = p.raw;
    kept = p.kept;
    raw_there = p.raw_there;
    is_valid = p.is_valid;
    kept_there = p.kept_there;
  }

  later_skipped :
      (v : Json) (vs : List Json) (ts : List T) (index next i j : ℕ)
      → PointsAt vs ts (suc index) next i j
      → PointsAt (v ∷ vs) ts index next i j
  later_skipped v vs ts index next i j p = record {
    k = suc p.k;
    l = p.l;
    from_index = omega (arith, p.from_index);
    from_next = p.from_next;
    raw = p.raw;
    kept = p.kept;
    raw_there = p.raw_there;
    is_valid = p.is_valid;
    kept_there = p.kept_there;
  }

  abbrev Points : List Json → ℕ → ℕ → IndexedItems T → Type 0
  Points vs index next r = All (λ (p : ℕ × ℕ). PointsAt vs r.kept index next p.0 p.1) r.index_map

  indexed_from-Points :
      (vs : List Json) (index next : ℕ) → Points vs index next (indexed_from valid vs index next)
  indexed_from-Points [] index next = tt
  indexed_from-Points (v ∷ vs) index next = elim (Option-cases (valid v)) [
    | inl e ↦
        rw (e, indexed_from)
          (All-mono
            (λ (p : ℕ × ℕ).
              later_skipped v vs (indexed_from valid vs (suc index) next).kept index next p.0 p.1)
            (indexed_from valid vs (suc index) next).index_map
            (indexed_from-Points vs (suc index) next))
    | inr (t, e) ↦
        let later = indexed_from valid vs (suc index) (suc next) in
        rw (e, indexed_from)
          (
            record {
              k = 0;
              l = 0;
              from_index = omega arith;
              from_next = omega arith;
              raw = v;
              kept = t;
              raw_there = refl;
              is_valid = e;
              kept_there = refl;
            },
            All-mono (λ (p : ℕ × ℕ). later_kept v vs t later.kept index next p.0 p.1)
                later.index_map (indexed_from-Points vs (suc index) (suc next)),
          )
  ]

  indexed_from-filter_map :
      (vs : List Json) (index next : ℕ)
      → (indexed_from valid vs index next).kept ≡ filter_map valid vs
  indexed_from-filter_map [] index next = refl
  indexed_from-filter_map (v ∷ vs) index next = elim (Option-cases (valid v)) [
    | inl e ↦ ground (arith, indexed_from-filter_map vs (suc index) next)
    | inr (t, e) ↦ ground (arith, indexed_from-filter_map vs (suc index) (suc next))
  ]

  -- All valid items are kept, in their order, and the raw item at an index is the kept item at the
  -- index that it is mapped to.
  pub sanitize_indexed_items-PointsAt :
      (us : Items)
      → ((sanitize_indexed_items valid (some (array us))).kept ≡ filter_map valid (items us))
        × All
            (λ (p : ℕ × ℕ).
              PointsAt (items us) (sanitize_indexed_items valid (some (array us))).kept 0 0 p.0 p.1)
            (sanitize_indexed_items valid (some (array us))).index_map
  unfolding sanitize_indexed_items
  sanitize_indexed_items-PointsAt us =
      (indexed_from-filter_map (items us) 0 0, indexed_from-Points (items us) 0 0)

  -- No index that is mapped to is out of range.
  pub index_map-lt :
      (raw : Option Json)
      → All
          (λ (p : ℕ × ℕ). p.1 < length (sanitize_indexed_items valid raw).kept)
          (sanitize_indexed_items valid raw).index_map
  unfolding sanitize_indexed_items
  index_map-lt (some (array us)) =
      All-mono
        (λ (p : ℕ × ℕ)
            (h : PointsAt (items us) (indexed_from valid (items us) 0 0).kept 0 0 p.0 p.1).
          omega
            (arith, h.from_next, at-lt h.l (indexed_from valid (items us) 0 0).kept h.kept_there))
        (indexed_from valid (items us) 0 0).index_map (indexed_from-Points (items us) 0 0)
  index_map-lt none = tt
  index_map-lt (some null) = tt
  index_map-lt (some (boolean b)) = tt
  index_map-lt (some (number n)) = tt
  index_map-lt (some (string s)) = tt
  index_map-lt (some (object ms)) = tt
