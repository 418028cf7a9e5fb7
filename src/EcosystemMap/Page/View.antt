-- ===== src/EcosystemMap/Page/View.antt =====
-- The object that `getEcosystemMapData` returns.
use leitstand.Common.{ℕ, String, Option, List}
use leitstand.Snapshot.{SourceKind, FreshnessState}
use leitstand.EcosystemMap.Alignment.{AlignmentState, HeadStatus}
use leitstand.EcosystemMap.Artifacts.{ArtifactView}
use leitstand.EcosystemMap.Links.{Link, LinkMeta}
use leitstand.EcosystemMap.Nodes.{NodeSemantics, LifecycleCounts, ReviewState}

pub record ViewMeta : Type 0 where
  pub source_kind : SourceKind
  pub missing_reason : String
  pub manifest_path : String
  pub source_root : Option String
  pub source_repository : Option String
  pub source_commit : Option String
  pub source_head : Option String
  pub canonical_head_status : HeadStatus
  pub canonical_head_reason : String
  pub canonical_head_generated_at : Option String
  pub commits_ahead : Option ℕ
  pub alignment_state : AlignmentState
  pub alignment_reason : String
  pub verified_artifact_count : ℕ
  pub declared_artifact_count : ℕ
  pub generated_at : Option String
  pub data_age_minutes : Option ℕ
  pub freshness_state : FreshnessState
  pub freshness_reason : String
  pub stale_after_hours : ℕ
  pub semantic_review_state : ReviewState
  pub semantic_review_reason : String
  pub semantic_reviewed_at : Option String
  pub semantic_reviewed_node_count : ℕ
  pub semantic_node_count : ℕ
  pub lifecycle_counts : LifecycleCounts
  pub does_not_establish : List String

pub record MapView : Type 0 where
  pub shown_map : Option ArtifactView
  pub nodes : List NodeSemantics
  pub cross_links : List Link
  pub cross_link_meta : LinkMeta
  pub view_meta : ViewMeta
