-- ===== src/Dashboard/Page/Laws.antt =====
-- When the start page says that all is well.
use leitstand.Common.{◌≡◌, none, All, arith}
use leitstand.Host.{Host}
use leitstand.Snapshot.{SourceKind, artifact, FreshnessState, fresh}
use leitstand.Bureau.Page.{get_bureau_data}
use leitstand.Checkouts.Page.{get_checkout_data}
use leitstand.StorageHealth.Page.{get_storage_health_data}
use leitstand.EcosystemMap.Page.{get_ecosystem_map_data}
use leitstand.EcosystemMap.Page.Laws.{IsFresh, get_ecosystem_map_data-IsFresh}
use leitstand.RepoBrief.Page.{get_repo_brief_data}
use leitstand.Dashboard.Sources
use leitstand.Dashboard.Summary.{healthy}
use leitstand.Dashboard.Summary.Laws.{IsVerified, state-summarize_dashboard_iff}
use leitstand.Dashboard.Page.{
  kind_name, bureau_source, checkout_source, storage_source, map_source, repo_source,
  dashboard_sources, get_dashboard_data,
}

kind_name-artifact : (k : SourceKind) → kind_name k ≡ Sources.artifact → k ≡ artifact
kind_name-artifact k h = grind arith

abbrev IsFreshArtifact : SourceKind → FreshnessState → Type 0
IsFreshArtifact kind freshness = (kind ≡ artifact) × (freshness ≡ fresh)

-- All five sources are fresh artifacts.
pub record AllFresh (H : Host) : Type 0 where
  pub bureau :
      let v = get_bureau_data H none in
      IsFreshArtifact v.view_meta.source_kind v.view_meta.freshness_state
  pub checkouts :
      let v = get_checkout_data H none in
      IsFreshArtifact v.view_meta.source_kind v.view_meta.freshness_state
  pub storage :
      let v = get_storage_health_data H none in
      IsFreshArtifact v.view_meta.source_kind v.view_meta.freshness_state
  pub ecosystem_map :
      let v = get_ecosystem_map_data H in
      IsFreshArtifact v.view_meta.source_kind v.view_meta.freshness_state
  pub repo_ground :
      let v = get_repo_brief_data H in
      IsFreshArtifact v.view_meta.source_kind v.view_meta.freshness_state

sources-AllFresh : (H : Host) → All IsVerified (dashboard_sources H) → AllFresh H
unfolding dashboard_sources bureau_source checkout_source storage_source map_source repo_source
sources-AllFresh H (b, (c, (s, (m, (r, _))))) = record {
  bureau = (kind_name-artifact _ b.0, b.1);
  checkouts = (kind_name-artifact _ c.0, c.1);
  storage = (kind_name-artifact _ s.0, s.1);
  ecosystem_map = (kind_name-artifact _ m.0, m.1);
  repo_ground = (kind_name-artifact _ r.0, r.1);
}

-- If the start page says that all is well, each of the five pages shows a fresh artifact, and the map
-- of the ecosystem comes from an accepted manifest, with all its artifacts on disk and in Git, at the
-- canonical head.
pub get_dashboard_data-AllFresh :
    (H : Host)
    → (get_dashboard_data H).summary.state ≡ healthy
    → AllFresh H × IsFresh H (get_ecosystem_map_data H)
unfolding get_dashboard_data
get_dashboard_data-AllFresh H h =
    let all = sources-AllFresh H ((state-summarize_dashboard_iff (dashboard_sources H)).0.0 h) in
    (all, get_ecosystem_map_data-IsFresh H all.ecosystem_map.1)
