-- ===== src/Dashboard/Page.antt =====
-- `getDashboardData`: the start page, composed of what the controllers give.
pub mod Laws
mod Tests
use leitstand.Common.{
  ℕ, String, ◌==◌, ◌<>◌, Option, none, some, List, [], ◌∷◌, length, Result, ok, err, if◌then◌else◌,
}
use leitstand.Common.Text.{print}
use leitstand.Host.{Host, number_text}
use leitstand.Snapshot.{SourceKind, FreshnessState, unknown}
use leitstand.Snapshot
use leitstand.Bureau.Page.{get_bureau_data}
use leitstand.Bureau.Board
use leitstand.Checkouts.Page.{get_checkout_data}
use leitstand.Checkouts.Inventory
use leitstand.DecisionAxis.Page.{get_decision_axis_data}
use leitstand.DecisionAxis.Page as Axis
use leitstand.EcosystemMap.Page.{MapView, get_ecosystem_map_data}
use leitstand.RepoBrief.Page.{get_repo_brief_data}
use leitstand.RepoBrief.Page as Repo
use leitstand.StorageHealth.Page.{get_storage_health_data}
use leitstand.StorageHealth.Page as Storage
use leitstand.Dashboard.Sources.{
  Kind, artifact, fixture, missing, error, corrupt, Source, safe_load,
}
use leitstand.Dashboard.Summary.{Summary, summarize_dashboard}

pub record DashboardData : Type 0 where
  pub sources : List Source
  pub summary : Summary
  pub decision_axis : Axis.ViewData

-- `{ data, error }`
abbrev pub Loaded : Type 0 → Type 0
Loaded T = Option T × Option String

abbrev pub kind_name : SourceKind → Kind
kind_name Snapshot.artifact = artifact
kind_name Snapshot.fixture = fixture
kind_name Snapshot.missing = missing
kind_name Snapshot.corrupt = corrupt

abbrev is_error : Option String → Kind → Kind
is_error none kind = kind
is_error (some e) kind = if e == "" then kind else error

module _ {T : Type 0} where
  abbrev data_kind : (T → SourceKind) → Option T → Kind
  data_kind kind none = missing
  data_kind kind (some d) = kind_name (kind d)

  -- `loaded.error ? 'error' : (loaded.data?.view_meta.source_kind ?? 'missing')`
  abbrev kind_of : (T → SourceKind) → Loaded T → Kind
  kind_of kind (loaded, e) = is_error e (data_kind kind loaded)

  -- `loaded.data?.view_meta.freshness_state ?? 'unknown'`
  abbrev freshness_of : (T → FreshnessState) → Loaded T → FreshnessState
  freshness_of freshness (none, e) = unknown
  freshness_of freshness (some d, e) = freshness d

  abbrev metric_of : (T → String) → String → Loaded T → String
  metric_of metric absent (none, e) = absent
  metric_of metric absent (some d, e) = metric d

unfoldable pub bureau_source : Loaded Board.ViewData → Source
bureau_source l = record {
  id = "bureau";
  title = "Bureau";
  description = "Task- und Claim-Projektion.";
  href = "/bureau";
  primary_source = "Bureau";
  authority_boundary = "Nur Projektion; Aufgaben- und Claim-Wahrheit bleibt bei Bureau.";
  source_kind = kind_of (λ v. v.view_meta.source_kind) l;
  freshness_state = freshness_of (λ v. v.view_meta.freshness_state) l;
  metric = metric_of (λ v. print v.view_meta.task_count <> " Tasks") "keine Tasks" l;
  error_reason = l.1;
}

unfoldable pub checkout_source : Loaded Inventory.ViewData → Source
checkout_source l = record {
  id = "checkouts";
  title = "Checkouts";
  description = "Grabowski-Inventar.";
  href = "/checkouts";
  primary_source = "Grabowski";
  authority_boundary =
      "Nur Projektion; Checkout-, Worktree- und Ausführungswahrheit bleibt bei Grabowski.";
  source_kind = kind_of (λ v. v.view_meta.source_kind) l;
  freshness_state = freshness_of (λ v. v.view_meta.freshness_state) l;
  metric = metric_of (λ v. print v.view_meta.checkout_count <> " Checkouts") "keine Checkouts" l;
  error_reason = l.1;
}

abbrev storage_metric : Host → Storage.ViewData → String
storage_metric H v = elim v.current [
  | none ↦ "kein Storage Zustand"
  | some current ↦ number_text H current.summary.producer_count <> " Producer"
]

unfoldable pub storage_source : Host → Loaded Storage.ViewData → Source
storage_source H l = record {
  id = "storage_health";
  title = "Speicherzustand";
  description = "Heim-PC Storage Metriken.";
  href = "/storage-health";
  primary_source = "Storage-Health-Producer";
  authority_boundary =
      "Nur Projektion; Mess- und Erzeugerwahrheit bleibt beim Storage-Health-Producer.";
  source_kind = kind_of (λ v. v.view_meta.source_kind) l;
  freshness_state = freshness_of (λ v. v.view_meta.freshness_state) l;
  metric = metric_of (storage_metric H) "kein Storage Zustand" l;
  error_reason = l.1;
}

unfoldable pub map_source : Loaded MapView → Source
map_source l = record {
  id = "ecosystem_map";
  title = "Systemkarte";
  description = "Systemkatalog Map Manifest.";
  href = "/ecosystem-map";
  primary_source = "Systemkatalog";
  authority_boundary =
      "Nur Projektion; stabile Rollen- und Beziehungswahrheit bleibt beim Systemkatalog.";
  source_kind = kind_of (λ v. v.view_meta.source_kind) l;
  freshness_state = freshness_of (λ v. v.view_meta.freshness_state) l;
  metric =
      metric_of (λ v. print v.view_meta.verified_artifact_count <> " Artefakte") "keine Systemkarte"
        l;
  error_reason = l.1;
}

unfoldable pub repo_source : Loaded Repo.ViewData → Source
repo_source l = record {
  id = "repo_ground";
  title = "RepoGround";
  description = "Bundle-Ansicht.";
  href = "/repoground";
  primary_source = "RepoGround";
  authority_boundary =
      "Nur Projektion; Repository-Kontext und Publikationswahrheit bleibt bei RepoGround.";
  source_kind = kind_of (λ v. v.view_meta.source_kind) l;
  freshness_state = freshness_of (λ v. v.view_meta.freshness_state) l;
  metric = metric_of (λ v. print (length v.bundles) <> " Bundles") "keine Repos" l;
  error_reason = l.1;
}

abbrev or_failed : Option String → String
or_failed none = "decision_axis_load_failed"
or_failed (some e) = e

-- `decisionAxis.data ?? {…}`
abbrev axis_of : Loaded Axis.ViewData → Axis.ViewData
axis_of (some v, e) = v
axis_of (none, e) = record {
  sections = [];
  view_meta = record {
    source_kind = Snapshot.missing;
    source_path = "";
    source_path_display = "<unavailable>";
    missing_reason = or_failed e;
    generated_at = none;
    freshness_state = unknown;
    does_not_establish = "dispatch_or_mutation_authority" ∷ [];
  };
}

-- The controllers catch every error of their own, so that each load succeeds.
unfoldable pub dashboard_sources : Host → List Source
unfolding safe_load
dashboard_sources H =
    bureau_source (safe_load (ok (get_bureau_data H none)))
    ∷ checkout_source (safe_load (ok (get_checkout_data H none)))
    ∷ storage_source H (safe_load (ok (get_storage_health_data H none)))
    ∷ map_source (safe_load (ok (get_ecosystem_map_data H)))
    ∷ repo_source (safe_load (ok (get_repo_brief_data H)))
    ∷ []

unfoldable pub get_dashboard_data : Host → DashboardData
unfolding safe_load
get_dashboard_data H = record {
  sources = dashboard_sources H;
  summary = summarize_dashboard (dashboard_sources H);
  decision_axis = axis_of (safe_load (ok (get_decision_axis_data H)));
}
