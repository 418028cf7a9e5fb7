-- ===== src/EcosystemMap/Artifacts/Laws.antt =====
-- An artifact that matches is a regular file with the declared bytes, and only such a file is shown.
use leitstand.Common.{
  ℕ, Bool, true, false, not, ◌||◌, ◌≡◌, refl, inl, inr, String, ◌==◌, eq_iff, none, some, length,
  nat_eq, nat_eq_iff, List, subst, ok, if◌then◌else◌, arith, Bool-cases, Result-cases,
}
use leitstand.Snapshot.{text_or}
use leitstand.Host.{Host, Attempt-cases, done}
use leitstand.EcosystemMap.Manifest.{ManifestArtifact}
use leitstand.EcosystemMap.Artifacts.{
  ArtifactView, ArtifactInspection, unmatched, resolve_artifact_path, digest_matches, inspect_file,
  inspect_current_artifact,
}

module _ (H : Host) where
  -- The bytes have the size and the digest of the manifest.
  pub record IsExactly (a : ManifestArtifact) (raw : List ℕ) : Type 0 where
    pub size : length raw ≡ a.bytes
    pub digest : H.sha256 raw ≡ a.sha256

  pub digest_matches-IsExactly :
      (raw : List ℕ) (a : ManifestArtifact) → digest_matches H raw a ≡ true → IsExactly a raw
  unfolding digest_matches
  digest_matches-IsExactly raw a h = record {
    size = (nat_eq_iff (length raw) a.bytes).0 (ground arith);
    digest = (eq_iff (H.sha256 raw) a.sha256).0 (ground arith);
  }

  -- What the manifest says of an artifact is so on disk, below the root.
  pub record IsOnDisk (source_root : String) (a : ManifestArtifact) (view : ArtifactView)
      : Type 0 where
    pub path : String
    pub below : resolve_artifact_path H source_root a.path ≡ ok path
    pub raw : List ℕ
    pub there : H.read_bytes path ≡ done raw
    pub exactly : IsExactly a raw
    pub shown : view.content ≡ some (H.decode raw)

  -- The two outcomes of an inspection.
  abbrev pub Outcome : String → ManifestArtifact → ArtifactInspection → Type 0
  Outcome source_root a i =
      (i.artifact ≡ a)
      × ((i.matches ≡ true → IsOnDisk source_root a i.view)
          × (i.matches ≡ false
              → (i.view.content ≡ none) × ((text_or i.view.missing_reason "ok" == "ok") ≡ false)))

  unmatched-Outcome :
      (root : String) (a : ManifestArtifact) (reason : String)
      → (text_or (some reason) "ok" == "ok") ≡ false
      → Outcome root a (unmatched a reason)
  unmatched-Outcome root a reason other = (refl, ((λ h. cc), (λ h. (refl, other))))

  rejected_reason :
      (link : Bool)
      → (text_or
            (some (if link then "artifact_symlink_rejected" else "artifact_integrity_mismatch"))
            "ok"
          == "ok")
        ≡ false
  rejected_reason true = refl
  rejected_reason false = refl

  inspect_file-Outcome :
      (root path : String) (a : ManifestArtifact)
      → resolve_artifact_path H root a.path ≡ ok path
      → Outcome root a (inspect_file H a path)
  unfolding inspect_file
  inspect_file-Outcome root path a below = elim (Attempt-cases (H.lstat path)) [
    | inr (fault, e) ↦ rw (e, inspect_file) (unmatched-Outcome root a _ refl)
    | inl (s, e) ↦ elim (Bool-cases (not s.is_file || not (nat_eq s.size a.bytes))) [
      | inl t ↦
          rw (e, inspect_file, t) (unmatched-Outcome root a _ (rejected_reason s.is_symbolic_link))
      | inr t ↦ elim (Attempt-cases (H.read_bytes path)) [
        | inr (fault, f) ↦ rw (e, inspect_file, t, f) (unmatched-Outcome root a _ refl)
        | inl (raw, f) ↦ elim (Bool-cases (digest_matches H raw a)) [
          | inr m ↦ rw (e, inspect_file, t, f, m) (unmatched-Outcome root a _ refl)
          | inl m ↦
              rw (e, inspect_file, t, f, m)
                (
                  refl,
                  (
                    λ h. record {
                      path = path;
                      below = below;
                      raw = raw;
                      there = f;
                      exactly = digest_matches-IsExactly raw a m;
                      shown = refl;
                    },
                    λ h. cc,
                  ),
                )
        ]
      ]
    ]
  ]

  -- An artifact that matches is the file below the root with the declared size and digest, and its
  -- bytes are what is shown; of one that does not match nothing is shown, and the reason is given.
  pub inspect_current_artifact-Outcome :
      (source_root : String) (a : ManifestArtifact) (i : ArtifactInspection)
      → inspect_current_artifact H source_root a ≡ ok i
      → Outcome source_root a i
  unfolding inspect_current_artifact
  inspect_current_artifact-Outcome root a i h =
      elim (Result-cases (resolve_artifact_path H root a.path)) [
        | inr (m, e) ↦ absurd (ground arith)
        | inl (path, e) ↦
            let same : inspect_file H a path ≡ i = ground arith in
            subst (Outcome root a) same (inspect_file-Outcome root path a e)
      ]
