-- ===== src/EcosystemMap/Alignment/Counts.antt =====
-- How many artifacts count as verified.
use leitstand.Common.{
  ℕ, ◌≤◌, not, ◌≡◌, inl, inr, ◌==◌, String, Option, none, some, List, find, count_le, length, arith,
  Bool-cases, Option-cases,
}
use leitstand.Host.{Host}
use leitstand.EcosystemMap.Artifacts.{ArtifactInspection}
use leitstand.EcosystemMap.Git.{GitCommandResult, run_git}
use leitstand.EcosystemMap.Manifest.{Manifest}
use leitstand.EcosystemMap.Alignment.{
  AlignmentInspection, CanonicalHead, HeadStatus, available, unavailable, inspect_alignment,
  inspect_head, compare_canonical, inspect_commit, inspect_ancestry, compare_heads, commit_matches,
  verified_head, source_head_of, head_args,
}

-- The alignment never counts more artifacts as verified than there are.
module _ (H : Host) (root : String) (m : Manifest) where
  abbrev Within : ℕ → AlignmentInspection → Type 0
  Within n a = a.verified_artifact_count ≤ n

  compare_heads-Within : (head : String) → Within (length m.artifacts) (compare_heads H root m head)
  unfolding compare_heads
  compare_heads-Within head = ground arith

  inspect_ancestry-Within :
      (head : String) → Within (length m.artifacts) (inspect_ancestry H root m head)
  unfolding inspect_ancestry
  inspect_ancestry-Within head = ground (arith, compare_heads-Within head)

  inspect_commit-Within :
      (head : String) → Within (length m.artifacts) (inspect_commit H root m head)
  unfolding inspect_commit
  inspect_commit-Within head =
      elim (Option-cases (find (λ a. not (commit_matches H root m a)) m.artifacts)) [
        | inl e ↦ rw (e, inspect_commit) (inspect_ancestry-Within head)
        | inr (a, e) ↦ rw (e, inspect_commit) (count_le (commit_matches H root m) m.artifacts)
      ]

  compare_canonical-Within :
      (n : ℕ) (head reason : String) (status : HeadStatus) (c : Option String)
      → n ≡ length m.artifacts
      → Within (length m.artifacts) (compare_canonical H root m n head reason status c)
  compare_canonical-Within n head reason unavailable c e = omega (arith, e)
  compare_canonical-Within n head reason available none e = omega (arith, e)
  compare_canonical-Within n head reason available (some c) e = elim (Bool-cases (c == head)) [
    | inl f ↦ rw f (inspect_commit-Within head)
    | inr f ↦ rw f (omega (arith, e))
  ]

  inspect_head-Within :
      (n : ℕ) (r : GitCommandResult) (c : CanonicalHead)
      → n ≡ length m.artifacts
      → Within (length m.artifacts) (inspect_head H root m n r c)
  unfolding inspect_head
  inspect_head-Within n r c e = elim (Option-cases (verified_head H r (source_head_of H r))) [
    | inl f ↦ rw (f, inspect_head) (omega (arith, e))
    | inr (head, f) ↦
        rw (f, inspect_head) (compare_canonical-Within n head c.reason c.status c.head e)
  ]

  pub inspect_alignment-Within :
      (current : List ArtifactInspection) (c : CanonicalHead)
      → length current ≡ length m.artifacts
      → Within (length m.artifacts) (inspect_alignment H root m current c)
  unfolding inspect_alignment
  inspect_alignment-Within current c e = elim (Option-cases (find (λ i. not i.matches) current)) [
    | inl f ↦
        rw (f, inspect_alignment)
          (inspect_head-Within (length current) (run_git H root (head_args H)) c e)
    | inr (i, f) ↦ rw (f, inspect_alignment) (omega (arith, count_le (λ i. i.matches) current, e))
  ]
