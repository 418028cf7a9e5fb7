-- ===== src/EcosystemMap/Artifacts.antt =====
-- The artifacts on disk: `resolveArtifactPath`, `digestMatches`, `inspectCurrentArtifact`.
pub mod Laws
use leitstand.Common.{
  ℕ, Bool, true, false, not, ◌&&◌, ◌||◌, String, ◌==◌, Option, none, some, List, Result, ok, err,
  length, nat_eq, if◌then◌else◌,
}
use leitstand.Common.Text.{starts}
use leitstand.Host.{Host, FileStat, done, failed}
use leitstand.EcosystemMap.Manifest.{ManifestArtifact}

pub record ArtifactView : Type 0 where
  pub role : String
  pub path : String
  pub content_type : String
  pub bytes : ℕ
  pub sha256 : String
  pub content : Option String
  pub missing_reason : Option String

pub record ArtifactInspection : Type 0 where
  pub artifact : ManifestArtifact
  pub view : ArtifactView
  pub matches : Bool

abbrev artifact_view : ManifestArtifact → Option String → Option String → ArtifactView
artifact_view a content missing_reason = record {
  role = a.role;
  path = a.path;
  content_type = a.content_type;
  bytes = a.bytes;
  sha256 = a.sha256;
  content = content;
  missing_reason = missing_reason;
}

abbrev unmatched : ManifestArtifact → String → ArtifactInspection
unmatched a reason = record {
  artifact = a;
  view = artifact_view a none (some reason);
  matches = false;
}

module _ (H : Host) where
  unfoldable pub resolve_artifact_path : String → String → Result String
  resolve_artifact_path source_root artifact_path =
      let resolved = H.resolve_from source_root artifact_path in
      let rel = H.relative source_root resolved in
      if starts artifact_path "/" || starts rel ".." || rel == ""
      then err "invalid ecosystem map manifest: artifact path escapes source root"
      else ok resolved

  unfoldable pub digest_matches : List ℕ → ManifestArtifact → Bool
  digest_matches raw artifact =
      nat_eq (length raw) artifact.bytes && H.sha256 raw == artifact.sha256

  abbrev inspect_bytes : ManifestArtifact → List ℕ → ArtifactInspection
  inspect_bytes a raw =
      if digest_matches raw a
      then record {
        artifact = a;
        view = artifact_view a (some (H.decode raw)) none;
        matches = true;
      }
      else unmatched a "artifact_integrity_mismatch"

  -- The `try` block, at the resolved path.
  unfoldable pub inspect_file : ManifestArtifact → String → ArtifactInspection
  inspect_file a path = elim (H.lstat path) [
    | failed fault ↦ unmatched a "artifact_missing"
    | done file_stat ↦
        if not file_stat.is_file || not (nat_eq file_stat.size a.bytes)
        then unmatched a (
            if file_stat.is_symbolic_link
            then "artifact_symlink_rejected"
            else "artifact_integrity_mismatch")
        else elim (H.read_bytes path) [
          | failed fault ↦ unmatched a "artifact_missing"
          | done raw ↦ inspect_bytes a raw
        ]
  ]

  unfoldable pub inspect_current_artifact : String → ManifestArtifact → Result ArtifactInspection
  inspect_current_artifact source_root artifact =
      elim (resolve_artifact_path source_root artifact.path) [
        | err message ↦ err message
        | ok path ↦ ok (inspect_file artifact path)
      ]
