-- ===== src/DecisionAxis/Tests.antt =====
-- A snapshot with one observation that is stale, and the theorem at it.
use leitstand.Common.{◌≡◌, refl, String, [], ◌∷◌, map, length, ok, err, Result}
use leitstand.Common.Int.{◌-ℤ◌}
use leitstand.Common.Text.{lower, includes, begins}
use leitstand.Json.{Json, string, array, object, nil, cons, end, member, Members}
use leitstand.Json.Laws.{one}
use leitstand.Host.{Host}
use leitstand.Host.Samples.{sample_host}
use leitstand.Snapshot.{says, display_source_path, freshness_within, corrupt, missing}
use leitstand.DecisionAxis.Parse.{
  available, unavailable, contract_kind, parse_item, section_of, parse_section, parse_snapshot,
}
use leitstand.DecisionAxis.Page.{
  ViewData, empty_data, data_from_parsed, load, get_decision_axis_data,
}
use leitstand.DecisionAxis.Page.Laws.{IsConsistent, get_decision_axis_data-IsConsistent}

run : Host → ViewData
unfolding get_decision_axis_data load parse_snapshot parse_section section_of parse_item empty_data
    data_from_parsed says lower includes begins display_source_path freshness_within ◌-ℤ◌
run = get_decision_axis_data

abbrev axis_item : Json
axis_item = object (member "id" (string "i") (member "title" (string "t") end))

abbrev section : String → String → Members → Members
section name date rest =
    member name
      (object (
        member "status" (string "available")
          (member "observedAt" (string date) (member "items" (array (cons axis_item nil)) end))))
      rest

abbrev snapshot : String → Json
snapshot date = object (
    member "schemaVersion" one (
      member "kind" (string contract_kind) (
        member "generatedAt" (string date) (
          member "sections"
            (object (
              section "later" "noon" (
                section "now" "19 before" (
                  section "focus" "21 before"
                    (section "blocked" "noon" (section "convergence" "noon" end))))))
            end))))

abbrev host : Result Json → Host
host content = sample_host (("/srv/artifacts/operator-decision-axis.json", content) ∷ []) []

runs :
    (map (λ s. s.status) (run (host (ok (snapshot "noon")))).sections
      ≡ available ∷ unavailable ∷ available ∷ available ∷ available ∷ [])
    × (map (λ s. length s.items) (run (host (ok (snapshot "21 before")))).sections
        ≡ 0 ∷ 0 ∷ 0 ∷ 0 ∷ 0 ∷ [])
    × ((run (host (err "Unexpected end of JSON input"))).view_meta.source_kind ≡ corrupt)
    × ((run (sample_host [] [])).view_meta.source_kind ≡ missing)
unfolding run
runs = (refl, refl, refl, refl)

get_decision_axis_data-IsConsistent_example :
    IsConsistent (get_decision_axis_data (host (ok (snapshot "noon"))))
get_decision_axis_data-IsConsistent_example =
    get_decision_axis_data-IsConsistent (host (ok (snapshot "noon")))
