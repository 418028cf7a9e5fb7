-- ===== src/Dashboard/Sources.antt =====
-- One source: `DashboardSource`, `safeLoad`, `summarizeSource`.
use leitstand.Common.{
  String, ◌<>◌, Option, none, some, List, [], ◌∷◌, ◌++◌, Result, ok, err, if◌then◌else◌,
}
use leitstand.Snapshot.{FreshnessState, fresh, stale, unknown, says}

pub data Kind : Type 0 where
  artifact fixture missing error corrupt : Kind

pub record Source : Type 0 where
  pub id : String
  pub title : String
  pub description : String
  pub href : String
  pub primary_source : String
  pub authority_boundary : String
  pub source_kind : Kind
  pub freshness_state : FreshnessState
  pub metric : String
  pub error_reason : Option String

pub data Severity : Type 0 where
  critical warning info : Severity

pub record AttentionItem : Type 0 where
  pub source_id : String
  pub title : String
  pub href : String
  pub severity : Severity
  pub reason : String

unfoldable pub public_error_reason : String → String
public_error_reason message =
    if says message "strict" then "strict-load-failed" else "controller-load-failed"

-- `{ data, error }`; the warning on the console is left out.
unfoldable pub safe_load {ℓ} : {T : Type ℓ} → Result T → Option T × Option String
safe_load (ok data_loaded) = (some data_loaded, none)
safe_load (err message) = (none, some (public_error_reason message))

abbrev pub item : Source → Severity → String → AttentionItem
item source severity reason = record {
  source_id = source.id;
  title = source.title;
  href = source.href;
  severity = severity;
  reason = reason;
}

-- `reasons.join(' · ')`
abbrev pub join_reasons : List String → String
join_reasons [] = ""
join_reasons (r ∷ []) = r
join_reasons (r ∷ s ∷ rest) = r <> " · " <> join_reasons (s ∷ rest)

-- The reasons collected, and the severity that the tests leave.
abbrev pub fixture_reasons : Kind → List String
fixture_reasons fixture = "Ersatzdaten statt eines Artefakts" ∷ []
fixture_reasons _ = []

abbrev pub freshness_reasons : FreshnessState → List String
freshness_reasons stale = "Daten sind veraltet" ∷ []
freshness_reasons unknown = "Datenfrische ist nicht belegt" ∷ []
freshness_reasons fresh = []

abbrev pub severity_of : Kind → FreshnessState → Severity
severity_of fixture _ = warning
severity_of _ stale = warning
severity_of _ _ = info

abbrev pub noted : Source → Severity → List String → Option AttentionItem
noted source severity [] = none
noted source severity (r ∷ rs) = some (item source severity (join_reasons (r ∷ rs)))

unfoldable pub summarize_source : Source → Option AttentionItem
summarize_source source = elim source.source_kind [
  | error ↦ some (item source critical "Datenquelle konnte nicht geladen werden")
  | missing ↦ some (item source critical "Keine belastbare Datenquelle verfügbar")
  | corrupt ↦ some (item source critical "Keine belastbare Datenquelle verfügbar")
  | kind ↦
      noted source (severity_of kind source.freshness_state)
        (fixture_reasons kind ++ freshness_reasons source.freshness_state)
]
