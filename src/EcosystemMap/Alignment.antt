-- ===== src/EcosystemMap/Alignment.antt =====
-- Whether the served files are those of the catalog: `readCanonicalHeadInspection`,
-- `inspectAlignment`, `combineFreshness`.
pub mod Laws
pub mod Counts
mod Head
use leitstand.Common.{
  ℕ, Bool, true, false, not, ◌&&◌, ◌||◌, String, ◌==◌, ◌<>◌, Option, none, some, List, [], ◌∷◌, map,
  count, find, length, nat_eq, Result, ok, err, ◌>>=◌, leb, if◌then◌else◌,
}
use leitstand.Common.Int.{pos, ◌-ℤ◌, leb_ℤ}
use leitstand.Common.Text.{trim}
use leitstand.Json.{JsonNumber, finite, Json, get, is_record, as_string, is_text, is_number}
use leitstand.Host.{Host, by_message}
use leitstand.Snapshot.{
  FreshnessState, fresh, stale, unknown, text_or, operational_snapshot_stale_after_ms,
}
use leitstand.EcosystemMap.Artifacts.{ArtifactInspection, digest_matches}
use leitstand.EcosystemMap.Git.{GitCommandResult, run_git}
use leitstand.EcosystemMap.Manifest.{ManifestArtifact, Manifest, is_commit}
unfoldable pub use Head.*

pub data AlignmentState : Type 0 where
  exact compatible drifted unverifiable : AlignmentState

pub record AlignmentInspection : Type 0 where
  pub state : AlignmentState
  pub reason : String
  pub source_head : Option String
  pub commits_ahead : Option ℕ
  pub verified_artifact_count : ℕ

module _ (H : Host) where
  abbrev pub exits : GitCommandResult → ℕ → Bool
  exits r code = elim r.code [ none ↦ false | some n ↦ nat_eq n code ]

  -- Code 0, in time and within the limit of output.
  abbrev pub succeeds : GitCommandResult → Bool
  succeeds r = exits r 0 && not r.timed_out && not r.output_overflow

  abbrev pub source_head_of : GitCommandResult → Option String
  source_head_of r = if exits r 0 then some (trim (H.decode r.stdout)) else none

  abbrev commit_or_null : Option String → Option String
  commit_or_null none = none
  commit_or_null (some s) = if is_commit s then some s else none

  abbrev aligned : AlignmentState → String → Option String → Option ℕ → ℕ → AlignmentInspection
  aligned state reason source_head commits_ahead verified = record {
    state = state;
    reason = reason;
    source_head = source_head;
    commits_ahead = commits_ahead;
    verified_artifact_count = verified;
  }

  -- `Number.isInteger(n) && n >= 0 ? n : null`
  abbrev whole_or_null : Option JsonNumber → Option ℕ
  whole_or_null (some (finite false whole fraction)) =
      if nat_eq fraction 0 then some whole else none
  whole_or_null (some (finite true whole fraction)) =
      if nat_eq whole 0 && nat_eq fraction 0 then some 0 else none
  whole_or_null _ = none

  abbrev pub show_args : Manifest → ManifestArtifact → List String
  show_args m a =
      "show" ∷ "--no-ext-diff" ∷ "--no-textconv" ∷ (m.source.commit <> ":" <> a.path) ∷ []

  -- The artifact as the commit of the manifest has it.
  unfoldable pub commit_matches : String → Manifest → ManifestArtifact → Bool
  commit_matches root m a =
      let r = run_git H root (show_args m a) in succeeds r && digest_matches H r.stdout a

  abbrev pub ancestor_args : Manifest → String → List String
  ancestor_args m head = "merge-base" ∷ "--is-ancestor" ∷ m.source.commit ∷ head ∷ []

  abbrev pub diff_args : Manifest → String → List String
  diff_args m head =
      "diff"
      ∷ "--quiet"
      ∷ "--no-ext-diff"
      ∷ m.source.commit
      ∷ head
      ∷ "--"
      ∷ map (λ (a : ManifestArtifact). a.path) m.artifacts

  abbrev count_args : Manifest → String → List String
  count_args m head = "rev-list" ∷ "--count" ∷ (m.source.commit <> ".." <> head) ∷ []

  -- From the comparison of the head with the commit on.
  unfoldable pub compare_heads : String → Manifest → String → AlignmentInspection
  compare_heads root m head =
      let all_verified = length m.artifacts in
      let diff = run_git H root (diff_args m head) in
      let counted = run_git H root (count_args m head) in
      if head == m.source.commit
      then aligned exact "source_head_matches_manifest_commit" (some head) (some 0) all_verified
      else if exits diff 1
      then aligned drifted "source_head_artifact_drift" (some head) none all_verified
      else if not (succeeds diff)
      then aligned unverifiable "source_head_artifact_comparison_unavailable" (some head) none
          all_verified
      else aligned compatible "current_head_preserves_declared_artifact_bytes" (some head)
          (if exits counted 0
            then whole_or_null (H.to_number (trim (H.decode counted.stdout)))
            else none)
          all_verified

  unfoldable pub inspect_ancestry : String → Manifest → String → AlignmentInspection
  inspect_ancestry root m head =
      let ancestry = run_git H root (ancestor_args m head) in
      if exits ancestry 1
      then aligned drifted "source_commit_not_ancestor" (some head) none (length m.artifacts)
      else if not (succeeds ancestry)
      then aligned unverifiable "source_commit_ancestry_unavailable" (some head) none
          (length m.artifacts)
      else compare_heads root m head

  unfoldable pub inspect_commit : String → Manifest → String → AlignmentInspection
  inspect_commit root m head =
      elim (find (λ (a : ManifestArtifact). not (commit_matches root m a)) m.artifacts) [
        | some a ↦
            aligned drifted ("source_commit_artifact_mismatch:" <> a.path) (some head) none
              (count (commit_matches root m) m.artifacts)
        | none ↦ inspect_ancestry root m head
      ]

  -- The canonical head that is given must be the head of the release.
  abbrev compare_canonical :
      String → Manifest → ℕ → String → String → HeadStatus → Option String → AlignmentInspection
  compare_canonical root m current head reason available (some c) =
      if c == head
      then inspect_commit root m head
      else aligned drifted "canonical_source_head_differs_from_release" (some c) none current
  compare_canonical root m current head reason _ _ = aligned unverifiable reason none none current

  abbrev verified_head : GitCommandResult → Option String → Option String
  verified_head r none = none
  verified_head r (some head) = if succeeds r && is_commit head then some head else none

  unfoldable pub inspect_head :
      String → Manifest → ℕ → GitCommandResult → CanonicalHead → AlignmentInspection
  inspect_head root m current head_result canonical =
      elim (verified_head head_result (source_head_of head_result)) [
        | none ↦ aligned unverifiable "source_git_head_unavailable" none none current
        | some head ↦
            compare_canonical root m current head canonical.reason canonical.status canonical.head
      ]

  abbrev head_args : List String
  head_args = "rev-parse" ∷ "--verify" ∷ "HEAD^{commit}" ∷ []

  unfoldable pub inspect_alignment :
      String → Manifest → List ArtifactInspection → CanonicalHead → AlignmentInspection
  inspect_alignment root m current canonical =
      let head_result = run_git H root head_args in
      elim (find (λ (i : ArtifactInspection). not i.matches) current) [
        | some i ↦
            aligned drifted ("current_artifact_mismatch:" <> i.artifact.path)
              (commit_or_null (source_head_of head_result)) none
              (count (λ (i : ArtifactInspection). i.matches) current)
        | none ↦ inspect_head root m (length current) head_result canonical
      ]

abbrev combine_age : FreshnessState → FreshnessState × String
combine_age stale = (stale, "manifest_age_exceeds_threshold")
combine_age unknown = (unknown, "manifest_age_unavailable")
combine_age fresh = (fresh, "artifact_alignment_verified")

abbrev pub combine_state : FreshnessState → AlignmentState → String → FreshnessState × String
combine_state age drifted reason = (stale, reason)
combine_state age unverifiable reason = (unknown, reason)
combine_state age exact reason = combine_age age
combine_state age compatible reason = combine_age age

unfoldable pub combine_freshness : FreshnessState → AlignmentInspection → FreshnessState × String
combine_freshness age a = combine_state age a.state a.reason
