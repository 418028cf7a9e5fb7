-- ===== src/DecisionAxis/Parse/Sections.antt =====
-- What every parsed section keeps to.
use leitstand.Common.{
  ◌≤◌, ◌≡◌, refl, subst, ap, sym, ◌≢◌, false, ◌&&◌, require, String, Option, none, some, List, [],
  ◌∷◌, map, take, length, length-take_le, All, ok, >>=-eq-ok, ok-injective, traverse,
  traverse-ok_iff, Pointwise, length-Pointwise, arith,
}
use leitstand.Json.{Json, get, is_number, is_text, is_object, as_array, as_string}
use leitstand.Host.{Host}
use leitstand.Snapshot.{FreshnessState, fresh}
use leitstand.DecisionAxis.Parse.{
  SectionStatus, unavailable, SectionId, AxisItem, AxisSection, Parsed, section_order, label_of,
  is_fresh, freshness_of, section_or_throw, sections_or_throw, or_throw, status_of, first_items,
  named_source, id_name, section_of, contract_kind, parse_item, parse_section, parse_snapshot,
}

-- One section: at most eight items, its label, and nothing shown of an observation that is not fresh.
pub record IsSound (s : AxisSection) : Type 0 where
  pub few : length s.items ≤ 8
  pub labelled : s.label ≡ label_of s.id
  pub silent : s.freshness_state ≢ fresh → (s.status ≡ unavailable) × (s.items ≡ [])

first_items-le :
    (vs : Option (List Json)) (xs : List AxisItem) → first_items vs ≡ ok xs → length xs ≤ 8
first_items-le none xs h = ground arith
first_items-le (some vs) xs h =
    let same =
      length-Pointwise _ (take 8 vs) xs ((traverse-ok_iff parse_item (take 8 vs) xs).0 h) in
    let few = length-take_le 8 vs in ground arith

pub is_fresh-false : (f : FreshnessState) → f ≢ fresh → is_fresh f ≡ false
is_fresh-false fresh n = absurd (n refl)
is_fresh-false FreshnessState.stale n = refl
is_fresh-false FreshnessState.unknown n = refl

section_of-IsSound :
    (H : Host) (id : SectionId) (status : SectionStatus) (source : String)
    (observed_at : Option String) (xs : List AxisItem)
    → length xs ≤ 8
    → IsSound (section_of H id status source observed_at xs)
unfolding section_of
section_of-IsSound H id status source observed_at xs few = record {
  few = ground arith;
  labelled = refl;
  silent = λ n.
      let withheld = is_fresh-false (freshness_of H observed_at) n in
      (rw withheld refl, rw withheld refl);
}

parse_section-IsSound :
    (H : Host) (sections : Json) (id : SectionId) (s : AxisSection)
    → parse_section H sections id ≡ ok s
    → (s.id ≡ id) × IsSound s
unfolding parse_section section_of
parse_section-IsSound H sections id s h =
    let (v, _, h1) = >>=-eq-ok (section_or_throw (get (id_name id) sections) id) _ h in
    let (status, _, h2) = >>=-eq-ok (or_throw (status_of (get "status" v)) _) _ h1 in
    let (xs, read, h3) = >>=-eq-ok (first_items (as_array (get "items" v))) _ h2 in
    let built = ok-injective h3 in
    (
      ap (λ (s : AxisSection). s.id) (sym built),
      subst IsSound built (
          section_of-IsSound H id status (named_source (get "source" v))
            (as_string (get "observedAt" v)) xs
            (first_items-le (as_array (get "items" v)) xs read)),
    )

sections-IsSound :
    (H : Host) (sections : Json) (ids : List SectionId) (ss : List AxisSection)
    → Pointwise (λ id s. parse_section H sections id ≡ ok s) ids ss
    → (map (λ s. s.id) ss ≡ ids) × All IsSound ss
sections-IsSound H sections [] [] h = (refl, tt)
sections-IsSound H sections [] (_ ∷ _) h = absurd h
sections-IsSound H sections (_ ∷ _) [] h = absurd h
sections-IsSound H sections (id ∷ ids) (s ∷ ss) (p, q) =
    let (here, sound) = parse_section-IsSound H sections id s p in
    let (later, sounds) = sections-IsSound H sections ids ss q in (cc, (sound, sounds))

pub parse_snapshot-IsSound :
    (H : Host) (raw : Json) (p : Parsed)
    → parse_snapshot H raw ≡ ok p
    → (map (λ s. s.id) p.sections ≡ section_order) × All IsSound p.sections
unfolding parse_snapshot
parse_snapshot-IsSound H raw p h =
    let (_, _, h1) = >>=-eq-ok (require (is_object raw) _) _ h in
    let (_, _, h2) =
      >>=-eq-ok
        (require (is_number (get "schemaVersion" raw) 1 && is_text (get "kind" raw) contract_kind)
          _)
        _ h1 in
    let (object, _, h3) = >>=-eq-ok (sections_or_throw (get "sections" raw)) _ h2 in
    let (ss, parsed, h4) = >>=-eq-ok (traverse (parse_section H object) section_order) _ h3 in
    subst (λ (p : Parsed). (map (λ s. s.id) p.sections ≡ section_order) × All IsSound p.sections)
      (ok-injective h4)
      (sections-IsSound H object section_order ss
        ((traverse-ok_iff (parse_section H object) section_order ss).0 parsed))
