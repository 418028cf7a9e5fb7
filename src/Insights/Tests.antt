-- ===== src/Insights/Tests.antt =====
-- Insights with items that are dropped, and the theorems at them.
use leitstand.Common.{
  ℕ, ◌≡◌, refl, Bool, true, String, Option, none, some, List, [], ◌∷◌, All, filter_map, map,
}
use leitstand.Common.Text.{trim, trim_start, trim_end, starts, begins, print}
use leitstand.Json.{Json, null, string, array, object, Items, nil, cons, items, end, member}
use leitstand.Insights.Items.{as_text, sanitize_indexed_items}
use leitstand.Insights.Items.Laws.{PointsAt, sanitize_indexed_items-PointsAt}
use leitstand.Insights.References.{
  is_safe_drilldown_url, sanitize_data_ref_entry, collect, sanitize_data_ref_section,
  sanitize_data_refs, remap_data_ref_section, remap_data_refs,
}
use leitstand.Insights.Daily.{DailyInsights, sanitize_metadata, sanitize_daily_insights}
use leitstand.Insights.Daily.Laws.{IsConsistent, sanitize_daily_insights-IsConsistent}

run : Json → Bool → Option DailyInsights
unfolding sanitize_daily_insights sanitize_metadata sanitize_indexed_items remap_data_refs
    remap_data_ref_section sanitize_data_refs sanitize_data_ref_section collect
    sanitize_data_ref_entry is_safe_drilldown_url trim trim_start trim_end starts begins print
run = sanitize_daily_insights

abbrev reference : String → String → Json
reference text url = object (
    member "refs" (array (cons (string text) (cons (string " ") nil)))
      (member "drilldown_url" (string url) end))

abbrev questions : Items
questions = cons (string "q0") (cons null (cons (string "q2") nil))

abbrev insights : Json
insights = object (
    member "ts" (string " 2026-01-01 ") (
      member "questions" (array questions) (
        member "data_refs"
          (object (
            member "questions"
              (object (
                member "02" (reference "first" "//evil") (
                  member "2" (reference "second" "/events")
                    (member "1" (reference "lost" "/x") end))))
              end))
          end)))

abbrev urls : Option DailyInsights → Option (List (ℕ × Option String))
urls none = none
urls (some r) = elim r.data_refs [
  | none ↦ none
  | some d ↦ elim d.questions [
    | none ↦ none
    | some s ↦ some (map (λ p. (p.0, p.1.drilldown_url)) s)
  ]
]

runs : urls (run insights true) ≡ some ((1, some "/events") ∷ [])
unfolding run
runs = refl

sanitize_indexed_items-PointsAt_example :
    ((sanitize_indexed_items as_text (some (array questions))).kept
      ≡ filter_map as_text (items questions))
    × All
        (λ (p : ℕ × ℕ).
          PointsAt as_text
            (items questions)
            (sanitize_indexed_items as_text (some (array questions))).kept
            0
            0
            p.0
            p.1)
        (sanitize_indexed_items as_text (some (array questions))).index_map
sanitize_indexed_items-PointsAt_example = sanitize_indexed_items-PointsAt as_text questions

abbrev or_empty : Option DailyInsights → DailyInsights
or_empty (some r) = r
or_empty none = record {
  ts = "";
  topics = [];
  questions = [];
  deltas = [];
  source = none;
  data_refs = none;
  metadata = none;
}

abbrev sanitized : DailyInsights
sanitized = or_empty (sanitize_daily_insights insights true)

passes : sanitize_daily_insights insights true ≡ some sanitized
unfolding sanitize_daily_insights trim trim_start trim_end
passes = refl

sanitize_daily_insights-IsConsistent_example : IsConsistent true sanitized
sanitize_daily_insights-IsConsistent_example =
    sanitize_daily_insights-IsConsistent insights true sanitized passes
