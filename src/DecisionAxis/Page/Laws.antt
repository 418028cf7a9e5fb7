-- ===== src/DecisionAxis/Page/Laws.antt =====
-- What the page of the decision axis keeps to, whatever its source holds.
use leitstand.Common.{
  ◌≡◌, refl, sym, ◌∙◌, ◌≢◌, Bool-cases, inl, inr, true, false, ◌||◌, String, List, [], ◌∷◌, map,
  All, Result-cases, ok, >>=-eq-ok, arith,
}
use leitstand.Json.{Json}
use leitstand.Host.{Host, by_message}
use leitstand.Snapshot.{fresh, SourceKind, missing, corrupt, says}
use leitstand.DecisionAxis.Parse.{
  SectionId, now, focus, blocked, convergence, later, unavailable, AxisSection, Parsed,
  section_order, is_fresh, freshness_of, parse_snapshot,
}
use leitstand.DecisionAxis.Parse.Sections.{IsSound, is_fresh-false, parse_snapshot-IsSound}
use leitstand.DecisionAxis.Page.{
  ViewData, empty_section, withdrawn, snapshot_path, empty_data, data_from_parsed, load,
  get_decision_axis_data,
}

-- The page: the five sections in their order, each of them sound, and nothing shown of a snapshot
-- that is not fresh as a whole.
pub record IsConsistent (v : ViewData) : Type 0 where
  pub ordered : map (λ s. s.id) v.sections ≡ section_order
  pub sound : All IsSound v.sections
  pub silent :
      v.view_meta.freshness_state ≢ fresh
      → All (λ s. (s.status ≡ unavailable) × (s.items ≡ [])) v.sections

map-id_withdrawn : (ss : List AxisSection) → map (λ s. s.id) (map withdrawn ss) ≡ map (λ s. s.id) ss
map-id_withdrawn [] = refl
map-id_withdrawn (s ∷ ss) = rw (map-id_withdrawn ss) refl

withdrawn-IsSound : (ss : List AxisSection) → All IsSound ss → All IsSound (map withdrawn ss)
withdrawn-IsSound [] h = tt
withdrawn-IsSound (s ∷ ss) (p, q) = (
  record { few = omega arith; labelled = p.labelled; silent = λ n. (refl, refl) },
  withdrawn-IsSound ss q,
)

withdrawn-silent :
    (ss : List AxisSection)
    → All (λ s. (s.status ≡ unavailable) × (s.items ≡ [])) (map withdrawn ss)
withdrawn-silent [] = tt
withdrawn-silent (s ∷ ss) = ((refl, refl), withdrawn-silent ss)

full-IsConsistent :
    (H : Host) (p : Parsed) (path : String)
    → map (λ s. s.id) p.sections ≡ section_order
    → All IsSound p.sections
    → IsConsistent (data_from_parsed H p path)
unfolding data_from_parsed
full-IsConsistent H p path ordered sound =
    elim (Bool-cases (is_fresh (freshness_of H p.generated_at))) [
      | inl e ↦ record {
        ordered = rw e ordered;
        sound = rw e sound;
        silent =
            λ n. absurd (true-false (sym e ∙ is_fresh-false (freshness_of H p.generated_at) n));
      }
      | inr e ↦ record {
        ordered = rw e (map-id_withdrawn p.sections ∙ ordered);
        sound = rw e (withdrawn-IsSound p.sections sound);
        silent = λ n. rw e (withdrawn-silent p.sections);
      }
    ]
  where
    true-false : true ≡ false → ⊥
    true-false e = cc

empty-IsConsistent :
    (H : Host) (kind : SourceKind) (reason path : String)
    → IsConsistent (empty_data H kind reason path)
unfolding empty_data
empty-IsConsistent H kind reason path =
    let sound : (id : SectionId) → IsSound (empty_section id) =
      λ id. record { few = omega arith; labelled = refl; silent = λ n. (refl, refl) } in
    record {
      ordered = refl;
      sound = (sound now, (sound focus, (sound blocked, (sound convergence, (sound later, tt)))));
      silent =
          λ n. ((refl, refl), ((refl, refl), ((refl, refl), ((refl, refl), ((refl, refl), tt)))));
    }

load-parsed :
    (H : Host) (path : String) (p : Parsed)
    → load H path ≡ ok p
    → (raw : Json) × (parse_snapshot H raw ≡ ok p)
unfolding load
load-parsed H path p h =
    let (text, _, h1) = >>=-eq-ok (by_message (H.read_file path)) _ h in
    let (raw, _, h2) = >>=-eq-ok (H.parse_json text) _ h1 in (raw, h2)

-- Whatever the file holds, the page has the five sections in their order, each with its label and at
-- most eight items, and shows no item and no status of a section or a snapshot that is not fresh.
pub get_decision_axis_data-IsConsistent : (H : Host) → IsConsistent (get_decision_axis_data H)
unfolding get_decision_axis_data
get_decision_axis_data-IsConsistent H =
    let path = H.resolve (snapshot_path H) in
    elim (Result-cases (load H path)) [
      | inl (p, e) ↦
          let (raw, parsed) = load-parsed H path p e in
          let (ordered, sound) = parse_snapshot-IsSound H raw p parsed in
          rw (e, get_decision_axis_data) (full-IsConsistent H p path ordered sound)
      | inr (m, e) ↦ elim (Bool-cases (says m "enoent" || says m "no such file")) [
        | inl absent ↦ rw (e, get_decision_axis_data, absent) (empty-IsConsistent H missing _ path)
        | inr present ↦
            rw (e, get_decision_axis_data, present) (empty-IsConsistent H corrupt _ path)
      ]
    ]
