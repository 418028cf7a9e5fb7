-- ===== src/Insights/References/Anchors.antt =====
-- The references after the renumbering are of items that are there.
use leitstand.Common.{
  ℕ, ◌<◌, ◌≡◌, inl, inr, Option, none, some, Option-cases, List, [], ◌∷◌, All, arith,
}
use leitstand.Json.{Json, null, boolean, number, string, array, object, get}
use leitstand.Insights.References.{
  DataRefEntry, Section, DataRefs, data_refs_of, sanitize_data_refs, index_of, remap,
  remap_data_ref_section, remap_data_refs,
}
use leitstand.Insights.References.Laws.{
  IsUsable, AllUsable, WhenSome, or_none-WhenSome, sanitize_data_ref_section-AllUsable,
}

-- Each reference is of an item that is there, and is usable.
abbrev pub IsAnchored : ℕ → Section → Type 0
IsAnchored n = All (λ (p : ℕ × DataRefEntry). (p.0 < n) × IsUsable p.1)

index_of-lt :
    (n i j : ℕ) (m : List (ℕ × ℕ)) → All (λ (p : ℕ × ℕ). p.1 < n) m → index_of i m ≡ some j → j < n
index_of-lt n i j [] h e = cc
index_of-lt n i j ((a, b) ∷ rest) (p, h) e = ground (arith, index_of-lt n i j rest h)

remap-IsAnchored :
    (n : ℕ) (s : Section) (m : List (ℕ × ℕ))
    → All (λ (p : ℕ × ℕ). p.1 < n) m
    → AllUsable s
    → IsAnchored n (remap s m)
remap-IsAnchored n [] m h u = tt
remap-IsAnchored n ((i, entry) ∷ rest) m h (u, us) = elim (Option-cases (index_of i m)) [
  | inl e ↦ rw (e, remap) (remap-IsAnchored n rest m h us)
  | inr (j, e) ↦ rw (e, remap) ((index_of-lt n i j m h e, u), remap-IsAnchored n rest m h us)
]

remap_data_ref_section-IsAnchored :
    (n : ℕ) (s : Option Section) (m : List (ℕ × ℕ))
    → All (λ (p : ℕ × ℕ). p.1 < n) m
    → WhenSome AllUsable s
    → WhenSome (IsAnchored n) (remap_data_ref_section s m)
unfolding remap_data_ref_section
remap_data_ref_section-IsAnchored n none m h u = tt
remap_data_ref_section-IsAnchored n (some s) m h (_, u) =
    or_none-WhenSome (IsAnchored n) (remap s m) (remap-IsAnchored n s m h u)

-- The three sections, each against the number of items that it is about.
abbrev pub RefsHold :
    (Section → Type 0) → (Section → Type 0) → (Section → Type 0) → Option DataRefs → Type 0
RefsHold P Q R none = Unit
RefsHold P Q R (some d) = WhenSome P d.topics × WhenSome Q d.questions × WhenSome R d.deltas

data_refs_of-RefsHold :
    (P Q R : Section → Type 0) (a b c : Option Section)
    → WhenSome P a
    → WhenSome Q b
    → WhenSome R c
    → RefsHold P Q R (data_refs_of a b c)
data_refs_of-RefsHold P Q R (some a) b c p q r = (p, q, r)
data_refs_of-RefsHold P Q R none (some b) c p q r = (p, q, r)
data_refs_of-RefsHold P Q R none none (some c) p q r = (p, q, r)
data_refs_of-RefsHold P Q R none none none p q r = tt

pub sanitize_data_refs-RefsHold :
    (v : Option Json) → RefsHold AllUsable AllUsable AllUsable (sanitize_data_refs v)
unfolding sanitize_data_refs
sanitize_data_refs-RefsHold (some (object ms)) =
    data_refs_of-RefsHold AllUsable AllUsable AllUsable _ _ _
      (sanitize_data_ref_section-AllUsable (get "topics" (object ms)))
      (sanitize_data_ref_section-AllUsable (get "questions" (object ms)))
      (sanitize_data_ref_section-AllUsable (get "deltas" (object ms)))
sanitize_data_refs-RefsHold none = tt
sanitize_data_refs-RefsHold (some null) = tt
sanitize_data_refs-RefsHold (some (boolean b)) = tt
sanitize_data_refs-RefsHold (some (number n)) = tt
sanitize_data_refs-RefsHold (some (string s)) = tt
sanitize_data_refs-RefsHold (some (array vs)) = tt

pub remap_data_refs-RefsHold :
    (n k l : ℕ) (d : Option DataRefs) (a b c : List (ℕ × ℕ))
    → All (λ (p : ℕ × ℕ). p.1 < n) a
    → All (λ (p : ℕ × ℕ). p.1 < k) b
    → All (λ (p : ℕ × ℕ). p.1 < l) c
    → RefsHold AllUsable AllUsable AllUsable d
    → RefsHold (IsAnchored n) (IsAnchored k) (IsAnchored l) (remap_data_refs d a b c)
unfolding remap_data_refs
remap_data_refs-RefsHold n k l none a b c p q r h = tt
remap_data_refs-RefsHold n k l (some d) a b c p q r (x, y, z) =
    data_refs_of-RefsHold (IsAnchored n) (IsAnchored k) (IsAnchored l) _ _ _
      (remap_data_ref_section-IsAnchored n d.topics a p x)
      (remap_data_ref_section-IsAnchored k d.questions b q y)
      (remap_data_ref_section-IsAnchored l d.deltas c r z)
