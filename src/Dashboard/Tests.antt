-- ===== src/Dashboard/Tests.antt =====
-- A dashboard of three sources, and its theorems at them.
use leitstand.Common.{
  ◌++◌, eq_iff, arith, ◌≡◌, refl, ◌≢◌, ◌↔◌, String, none, List, [], ◌∷◌, All, filter_map, sort_by,
  map,
}
use leitstand.Common.Text.{print}
use leitstand.Snapshot.{FreshnessState, fresh, stale, unknown}
use leitstand.Dashboard.Sources.{
  Kind, artifact, missing, Source, Severity, warning, info, summarize_source,
}
use leitstand.Dashboard.Summary.{healthy, critical, summarize_dashboard}
use leitstand.Dashboard.Summary.Laws.{
  Accounts, IsVerified, IsAvailable, summarize_dashboard-Accounts, state-summarize_dashboard_iff,
}
use leitstand.Dashboard.Summary.Order.{
  source_ids, of_severity, attention-summarize_dashboard_sorted,
}
use leitstand.Common.Distinct.{Distinct}

abbrev source : String → Kind → FreshnessState → Source
source id kind freshness = record {
  id = id;
  title = id;
  description = "";
  href = "/";
  primary_source = "";
  authority_boundary = "";
  source_kind = kind;
  freshness_state = freshness;
  metric = "";
  error_reason = none;
}

abbrev three : List Source
three =
    source "bureau" artifact stale
    ∷ source "checkouts" artifact fresh
    ∷ source "storage" missing unknown
    ∷ []

three_summed :
    ((summarize_dashboard three).headline ≡ "1 Bereich liefert keine belastbaren Daten")
    × (map (λ i. i.source_id) (summarize_dashboard three).attention ≡ "storage" ∷ "bureau" ∷ [])
unfolding summarize_dashboard summarize_source sort_by print
three_summed = (refl, refl)

summarize_dashboard-Accounts_example : Accounts three (summarize_dashboard three)
summarize_dashboard-Accounts_example = summarize_dashboard-Accounts three

state-summarize_dashboard_iff_example :
    (((summarize_dashboard three).state ≡ healthy) ↔ All IsVerified three)
    × (((summarize_dashboard three).state ≢ critical) ↔ All IsAvailable three)
state-summarize_dashboard_iff_example = state-summarize_dashboard_iff three

three-Distinct : Distinct (source_ids three)
three-Distinct = (
  (
    (λ e. ground (arith, eq_iff "checkouts" "bureau")),
    ((λ e. ground (arith, eq_iff "storage" "bureau")), tt),
  ),
  (((λ e. ground (arith, eq_iff "storage" "checkouts")), tt), (tt, tt)),
)

attention-summarize_dashboard_sorted_example :
    let items = filter_map summarize_source three in
    (summarize_dashboard three).attention
    ≡ of_severity Severity.critical items ++ (of_severity warning items ++ of_severity info items)
attention-summarize_dashboard_sorted_example =
    attention-summarize_dashboard_sorted three three-Distinct
