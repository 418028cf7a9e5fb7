-- ===== src/EcosystemMap/Page.antt =====
-- `getEcosystemMapData` and what it calls of its own: the configuration, the age, the view.
pub mod Laws
pub mod Consistency
mod View
use leitstand.Common.{
  ℕ, ◌*◌, ◌/◌, ◌&&◌, ◌||◌, Bool, true, false, String, ◌==◌, Option, none, some, List, [], ◌∷◌,
  traverse, find, Result, ok, err, ◌>>=◌, leb, length, nat_eq, if◌then◌else◌,
}
use leitstand.Common.Int.{ℤ, ◌-ℤ◌, max_zero}
use leitstand.Json.{JsonNumber, finite, string}
use leitstand.Host.{to_ns, Host, by_message}
use leitstand.Snapshot.{
  SourceKind, artifact, missing, corrupt, FreshnessState, fresh, stale, unknown, says, text_or,
}
use leitstand.EcosystemMap.Alignment.{
  AlignmentState, unverifiable, AlignmentInspection, HeadStatus, CanonicalHead,
  read_canonical_head_inspection, inspect_alignment, combine_freshness,
}
use leitstand.EcosystemMap.Alignment
use leitstand.EcosystemMap.Artifacts.{ArtifactView, ArtifactInspection, inspect_current_artifact}
use leitstand.EcosystemMap.Links.{Link, LinkMeta, LinkData, load_ecosystem_cross_links}
use leitstand.EcosystemMap.Manifest.{Manifest, map_role, nodes_role, parse_manifest}
use leitstand.EcosystemMap.Nodes.{
  NodeSemantics, LifecycleCounts, ReviewState, SemanticInspection, empty_lifecycle_counts,
  inspect_semantic_nodes,
}
use leitstand.EcosystemMap.Nodes
pub use View.*

-- The result of `ageFreshness`.
pub record Age : Type 0 where
  pub generated_at : Option String
  pub data_age_minutes : Option ℕ
  pub freshness_state : FreshnessState

abbrev pub default_stale_after_hours : ℕ
default_stale_after_hours = 168

unfoldable pub classify_error : String → SourceKind × String
classify_error message =
    if says message "enoent" || says message "no such file"
    then (missing, "manifest_missing")
    else if says message "json" || says message "invalid" || says message "unexpected"
    then (corrupt, "manifest_corrupt")
    else (corrupt, "manifest_load_failed")

-- `Number.isFinite(n) && n > 0 ? Math.floor(n) : DEFAULT_STALE_AFTER_HOURS`
abbrev hours_of : Option JsonNumber → ℕ
hours_of (some (finite false whole fraction)) =
    if nat_eq whole 0 && nat_eq fraction 0 then default_stale_after_hours else whole
hours_of _ = default_stale_after_hours

abbrev is_unset : Option String → Bool
is_unset none = true
is_unset (some s) = s == ""

module _ (H : Host) where
  abbrev pub configured_manifest_path : String
  configured_manifest_path =
      text_or (H.env "LEITSTAND_ECOSYSTEM_MAP_MANIFEST_PATH")
        (H.join (H.cwd ∷ "artifacts" ∷ "ecosystem-map-artifact-manifest.json" ∷ []))

  unfoldable pub configured_stale_after_hours : ℕ
  configured_stale_after_hours =
      let raw = H.env "LEITSTAND_ECOSYSTEM_MAP_STALE_AFTER_HOURS" in
      if is_unset raw then default_stale_after_hours else hours_of (H.to_number (text_or raw ""))

  unfoldable pub source_root_for_manifest : String → String
  source_root_for_manifest manifest_path =
      let root = H.env "LEITSTAND_ECOSYSTEM_MAP_SOURCE_ROOT" in
      let manifest_dir = H.dirname (H.resolve manifest_path) in
      if is_unset root
      then (if H.basename manifest_dir == "rendered" then H.dirname manifest_dir else manifest_dir)
      else H.resolve (text_or root "")

  abbrev age_at : String → ℕ → Option ℤ → Age
  age_at generated_at stale_after_hours none = record {
    generated_at = some generated_at;
    data_age_minutes = none;
    freshness_state = unknown;
  }
  age_at generated_at stale_after_hours (some ts) =
      let age_minutes = max_zero (H.now -ℤ ts) / 60_000 in
      record {
        generated_at = some (H.to_iso_string (to_ns ts));
        data_age_minutes = some age_minutes;
        freshness_state = if leb age_minutes (stale_after_hours * 60) then fresh else stale;
      }

  unfoldable pub age_freshness : String → ℕ → Age
  age_freshness generated_at stale_after_hours =
      if generated_at == ""
      then record { generated_at = none; data_age_minutes = none; freshness_state = unknown }
      else age_at generated_at stale_after_hours (H.date_of (string generated_at))

  unfoldable pub empty_data : SourceKind → String → String → LinkData → MapView
  empty_data kind reason manifest_path cross_links = record {
    shown_map = none;
    nodes = [];
    cross_links = cross_links.links;
    cross_link_meta = cross_links.link_meta;
    view_meta = record {
      source_kind = kind;
      missing_reason = reason;
      manifest_path = manifest_path;
      source_root = none;
      source_repository = none;
      source_commit = none;
      source_head = none;
      canonical_head_status = Alignment.unavailable;
      canonical_head_reason = reason;
      canonical_head_generated_at = none;
      commits_ahead = none;
      alignment_state = unverifiable;
      alignment_reason = reason;
      verified_artifact_count = 0;
      declared_artifact_count = 6;
      generated_at = none;
      data_age_minutes = none;
      freshness_state = unknown;
      freshness_reason = reason;
      stale_after_hours = configured_stale_after_hours;
      semantic_review_state = Nodes.unavailable;
      semantic_review_reason = reason;
      semantic_reviewed_at = none;
      semantic_reviewed_node_count = 0;
      semantic_node_count = 0;
      lifecycle_counts = empty_lifecycle_counts;
      does_not_establish = "claim_truth" ∷ "runtime_correctness" ∷ "merge_readiness" ∷ [];
    };
  }

  abbrev view_of_role : String → List ArtifactInspection → Option ArtifactView
  view_of_role role inspections =
      elim (find (λ (i : ArtifactInspection). i.artifact.role == role) inspections) [
        | none ↦ none
        | some i ↦ some i.view
      ]

  -- `map?.missing_reason || (map ? 'ok' : 'artifact_role_missing')`
  abbrev missing_reason_of : Option ArtifactView → String
  missing_reason_of none = "artifact_role_missing"
  missing_reason_of (some view) = text_or view.missing_reason "ok"

  -- The object that is returned, of what was found out.
  unfoldable pub data_from_manifest :
      Manifest → String → String → ℕ → LinkData → List ArtifactInspection → MapView
  data_from_manifest manifest manifest_path source_root stale_after_hours cross_links current =
      let age = age_freshness manifest.source.generated_at stale_after_hours in
      let shown = view_of_role map_role current in
      let semantics = inspect_semantic_nodes H (view_of_role nodes_role current) in
      let missing_reason = missing_reason_of shown in
      let canonical = read_canonical_head_inspection H in
      let alignment = inspect_alignment H source_root manifest current canonical in
      let combined = combine_freshness age.freshness_state alignment in
      record {
        shown_map = shown;
        nodes = semantics.nodes;
        cross_links = cross_links.links;
        cross_link_meta = cross_links.link_meta;
        view_meta = record {
          source_kind = if missing_reason == "ok" then artifact else missing;
          missing_reason = missing_reason;
          manifest_path = manifest_path;
          source_root = some source_root;
          source_repository = some manifest.source.repository;
          source_commit = some manifest.source.commit;
          source_head = alignment.source_head;
          canonical_head_status = canonical.status;
          canonical_head_reason = canonical.reason;
          canonical_head_generated_at = canonical.generated_at;
          commits_ahead = alignment.commits_ahead;
          alignment_state = alignment.state;
          alignment_reason = alignment.reason;
          verified_artifact_count = alignment.verified_artifact_count;
          declared_artifact_count = manifest.artifact_count;
          generated_at = age.generated_at;
          data_age_minutes = age.data_age_minutes;
          freshness_state = combined.0;
          freshness_reason = combined.1;
          stale_after_hours = stale_after_hours;
          semantic_review_state = semantics.review_state;
          semantic_review_reason = semantics.review_reason;
          semantic_reviewed_at = semantics.reviewed_at;
          semantic_reviewed_node_count = length semantics.nodes;
          semantic_node_count = semantics.declared_node_count;
          lifecycle_counts = semantics.lifecycle_counts;
          does_not_establish = manifest.does_not_establish;
        };
      }

  unfoldable pub read_manifest : String → Result Manifest
  read_manifest manifest_path = do
    text ← by_message (H.read_file manifest_path)
    raw ← H.parse_json text
    parse_manifest H raw

  abbrev load_map : String → ℕ → LinkData → Result MapView
  load_map manifest_path stale_after_hours cross_links = do
    manifest ← read_manifest manifest_path
    let source_root = source_root_for_manifest manifest_path
    current ← traverse (inspect_current_artifact H source_root) manifest.artifacts
    ok (data_from_manifest manifest manifest_path source_root stale_after_hours cross_links current)

  unfoldable pub get_ecosystem_map_data : MapView
  get_ecosystem_map_data =
      let manifest_path = H.resolve configured_manifest_path in
      let stale_after_hours = configured_stale_after_hours in
      let cross_links = load_ecosystem_cross_links H in
      elim (load_map manifest_path stale_after_hours cross_links) [
        | ok view ↦ view
        | err message ↦
            let (kind, reason) = classify_error message in
            empty_data kind reason manifest_path cross_links
      ]
