-- ===== src/RepoBrief/Page/Laws.antt =====
-- What the page of the bundles keeps to, whatever its source holds.
use leitstand.Common.{
  ℕ, ◌≤◌, ◌≡◌, ◌≢◌, ◌↔◌, String, some, [], filter, map, concat, ◌++◌, err, length, All, ok,
}
use leitstand.Json.{Json}
use leitstand.Host.{Host}
use leitstand.Snapshot.{artifact, fresh}
use leitstand.RepoBrief.Parse.{available, BundleView, Parsed}
use leitstand.RepoBrief.Parse.Bundles.{IsSafe}
use leitstand.RepoBrief.Page.{ViewMeta, ViewData, configured_bundle_index, data_age_seconds, load}

-- The configured index is available and no older than it allows itself.
pub record IsCurrent (m : ViewMeta) : Type 0 where
  pub from_artifact : m.source_kind ≡ artifact
  pub published : m.source_status ≡ available
  pub age : ℕ
  pub limit : ℕ
  pub aged : m.data_age_seconds ≡ some age
  pub limited : m.stale_after_seconds ≡ some limit
  pub recent : age ≤ limit

-- The path of the index that is read.
abbrev index_path : Host → String
index_path H = H.resolve (configured_bundle_index H).0

-- The warnings that are counted are those of the index and of all its bundles, hidden ones included.
pub record IsConsistent (H : Host) (v : ViewData) : Type 0 where
  pub counted : v.view_meta.bundle_count ≡ length v.bundles
  pub ready :
      v.view_meta.public_export_ready_count ≡ length (filter (λ b. b.public_export_ready) v.bundles)
  pub warned :
      (p : Parsed)
      → load H (index_path H) ≡ ok p
      → v.view_meta.warning_count
        ≡ length (p.warnings ++ concat (map (λ (b : BundleView). b.warnings) p.bundles))
  pub unread :
      (m : String)
      → load H (index_path H) ≡ err m
      → (v.bundles ≡ []) × (v.view_meta.warning_count ≡ 0)
  pub safe : All IsSafe v.bundles
  pub silent : v.view_meta.freshness_state ≢ fresh → v.bundles ≡ []
  pub current : v.view_meta.freshness_state ≡ fresh → IsCurrent v.view_meta
  pub reason : (v.view_meta.missing_reason ≡ "ok") ↔ (v.view_meta.freshness_state ≡ fresh)
