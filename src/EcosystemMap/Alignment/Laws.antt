-- ===== src/EcosystemMap/Alignment/Laws.antt =====
-- What it takes for the served files to count as those of the catalog.
use leitstand.Common.{
  ℕ, Bool, true, false, not, ◌≡◌, refl, sym, ap, ◌∙◌, false-ne-true, ◌↔◌, ◌⊎◌, inl, inr, String,
  ◌==◌, eq_iff, Option, none, some, List, [], ◌∷◌, find, length, All, arith, Bool-cases,
  Option-cases, subst,
}
use leitstand.Host.{Host}
use leitstand.Snapshot.{FreshnessState, fresh}
use leitstand.EcosystemMap.Artifacts.{ArtifactInspection}
use leitstand.EcosystemMap.Git.{GitCommandResult, run_git}
use leitstand.EcosystemMap.Manifest.{Manifest, is_commit}
use leitstand.EcosystemMap.Alignment.{
  AlignmentState, exact, compatible, AlignmentInspection, CanonicalHead, HeadStatus, available,
  unavailable, succeeds, exits, commit_matches, ancestor_args, diff_args, compare_heads,
  inspect_ancestry, inspect_commit, compare_canonical, verified_head, inspect_head,
  inspect_alignment, combine_state, combine_freshness, source_head_of, head_args,
}

abbrev pub is_verified : AlignmentState → Bool
is_verified exact = true
is_verified compatible = true
is_verified _ = false

-- A search for a failure that finds none.
module _ {A : Type 0} (test : A → Bool) where
  find-none : (xs : List A) → find (λ x. not (test x)) xs ≡ none → All (λ x. test x ≡ true) xs
  find-none [] h = tt
  find-none (x ∷ xs) h = (ground arith, find-none xs (ground arith))

module _ (H : Host) (root : String) (m : Manifest) where
  -- What Git says of the release `head`.
  pub record IsDescendant (head : String) : Type 0 where
    pub committed : All (λ a. commit_matches H root m a ≡ true) m.artifacts
    pub ancestor : succeeds H (run_git H root (ancestor_args H m head)) ≡ true
    pub preserved :
        (head ≡ m.source.commit) ⊎ (succeeds H (run_git H root (diff_args H m head)) ≡ true)

  pub record IsAligned (current : List ArtifactInspection) (canonical : CanonicalHead)
      (a : AlignmentInspection) : Type 0 where
    pub on_disk : All (λ i. i.matches ≡ true) current
    pub head : String
    pub released : a.source_head ≡ some head
    pub full : is_commit head ≡ true
    pub canonical_status : canonical.status ≡ available
    pub canonical_head : canonical.head ≡ some head
    pub descendant : IsDescendant head
    pub all_verified : a.verified_artifact_count ≡ length m.artifacts
    pub exactly : a.state ≡ exact → (head ≡ m.source.commit) × (a.commits_ahead ≡ some 0)

  -- What is returned once the release is known to descend from the commit.
  record Preserved (head : String) (a : AlignmentInspection) : Type 0 where
    preserved : (head ≡ m.source.commit) ⊎ (succeeds H (run_git H root (diff_args H m head)) ≡ true)
    released : a.source_head ≡ some head
    all_verified : a.verified_artifact_count ≡ length m.artifacts
    exactly : a.state ≡ exact → (head ≡ m.source.commit) × (a.commits_ahead ≡ some 0)

  compare_heads-Preserved :
      (head : String)
      → is_verified (compare_heads H root m head).state ≡ true
      → Preserved head (compare_heads H root m head)
  unfolding compare_heads
  compare_heads-Preserved head h = elim (Bool-cases (head == m.source.commit)) [
    | inl e ↦
        let same = (eq_iff head m.source.commit).0 e in
        rw (e, compare_heads)
          record {
            preserved = inl same;
            released = refl;
            all_verified = refl;
            exactly = λ k. (same, refl);
          }
    | inr e ↦ elim (Bool-cases (exits H (run_git H root (diff_args H m head)) 1)) [
      | inl f ↦ absurd (ground arith)
      | inr f ↦ elim (Bool-cases (succeeds H (run_git H root (diff_args H m head)))) [
        | inl g ↦
            rw (e, f, g, compare_heads)
              record { preserved = inr g; released = refl; all_verified = refl; exactly = λ k. cc }
        | inr g ↦ absurd (ground arith)
      ]
    ]
  ]

  inspect_ancestry_sound :
      (head : String)
      → is_verified (inspect_ancestry H root m head).state ≡ true
      → (succeeds H (run_git H root (ancestor_args H m head)) ≡ true)
        × Preserved head (inspect_ancestry H root m head)
  unfolding inspect_ancestry
  inspect_ancestry_sound head h =
      elim (Bool-cases (exits H (run_git H root (ancestor_args H m head)) 1)) [
        | inl e ↦ absurd (ground arith)
        | inr e ↦ elim (Bool-cases (succeeds H (run_git H root (ancestor_args H m head)))) [
          | inr f ↦ absurd (ground arith)
          | inl f ↦ rw (e, f, inspect_ancestry) (refl, compare_heads-Preserved head (ground arith))
        ]
      ]

  inspect_commit_sound :
      (head : String)
      → is_verified (inspect_commit H root m head).state ≡ true
      → IsDescendant head × Preserved head (inspect_commit H root m head)
  unfolding inspect_commit
  inspect_commit_sound head h =
      elim (Option-cases (find (λ a. not (commit_matches H root m a)) m.artifacts)) [
        | inr (a, e) ↦
            let bad : is_verified (inspect_commit H root m head).state ≡ false =
              rw (e, inspect_commit) refl in
            absurd (false-ne-true (sym bad ∙ h))
        | inl e ↦
            let same : inspect_commit H root m head ≡ inspect_ancestry H root m head =
              rw (e, inspect_commit) refl in
            let (a, p) =
              inspect_ancestry_sound head (subst (λ i. is_verified i.state ≡ true) same h) in
            (
              record {
                committed = find-none (commit_matches H root m) m.artifacts e;
                ancestor = a;
                preserved = p.preserved;
              },
              subst (Preserved head) (sym same) p,
            )
      ]

  verified_head-full :
      (r : GitCommandResult) (o : Option String) (head : String)
      → verified_head H r o ≡ some head
      → is_commit head ≡ true
  verified_head-full r none head h = cc
  verified_head-full r (some s) head h = ground arith

  compare_canonical_sound :
      (current : ℕ) (head reason : String) (status : HeadStatus) (c : Option String)
      → is_verified (compare_canonical H root m current head reason status c).state ≡ true
      → ((status ≡ available) × (c ≡ some head))
        × (IsDescendant head
            × Preserved head (compare_canonical H root m current head reason status c))
  compare_canonical_sound current head reason unavailable c h = absurd (false-ne-true h)
  compare_canonical_sound current head reason available none h = absurd (false-ne-true h)
  compare_canonical_sound current head reason available (some c) h = elim (Bool-cases (c == head)) [
    | inr e ↦ absurd (ground arith)
    | inl e ↦
        let same = (eq_iff c head).0 e in
        let (d, p) = inspect_commit_sound head (ground arith) in rw e ((refl, ap some same), (d, p))
  ]

  inspect_head_sound :
      (current : ℕ) (r : GitCommandResult) (c : CanonicalHead)
      → is_verified (inspect_head H root m current r c).state ≡ true
      → (head : String) × (is_commit head ≡ true)
        × ((c.status ≡ available) × (c.head ≡ some head))
        × (IsDescendant head × Preserved head (inspect_head H root m current r c))
  unfolding inspect_head
  inspect_head_sound current r c h = elim (Option-cases (verified_head H r (source_head_of H r))) [
    | inl e ↦
        let bad : is_verified (inspect_head H root m current r c).state ≡ false =
          rw (e, inspect_head) refl in
        absurd (false-ne-true (sym bad ∙ h))
    | inr (head, e) ↦
        let same : inspect_head H root m current r c
            ≡ compare_canonical H root m current head c.reason c.status c.head =
          rw (e, inspect_head) refl in
        let (canonical, p) =
          compare_canonical_sound current head c.reason c.status c.head
            (subst (λ i. is_verified i.state ≡ true) same h) in
        (
          head,
          verified_head-full r (source_head_of H r) head e,
          canonical,
          (p.0, subst (Preserved head) (sym same) p.1),
        )
  ]

  -- The served files count as aligned only if each of them is on disk as declared, the release is a
  -- full commit id and the canonical head, the commit of the manifest holds all artifacts as declared
  -- and is an ancestor of the release, and either is the release or differs from it in no artifact.
  pub inspect_alignment-IsAligned :
      (current : List ArtifactInspection) (c : CanonicalHead)
      → is_verified (inspect_alignment H root m current c).state ≡ true
      → IsAligned current c (inspect_alignment H root m current c)
  unfolding inspect_alignment
  inspect_alignment-IsAligned current c h =
      elim (Option-cases (find (λ i. not i.matches) current)) [
        | inr (i, e) ↦
            let bad : is_verified (inspect_alignment H root m current c).state ≡ false =
              rw (e, inspect_alignment) refl in
            absurd (false-ne-true (sym bad ∙ h))
        | inl e ↦
            let r = run_git H root (head_args H) in
            let same : inspect_alignment H root m current c
                ≡ inspect_head H root m (length current) r c =
              rw (e, inspect_alignment) refl in
            let (head, full, (status, canonical), (d, p)) =
              inspect_head_sound (length current) r c
                (subst (λ i. is_verified i.state ≡ true) same h) in
            subst (IsAligned current c) (sym same) record {
              on_disk = find-none (λ i. i.matches) current e;
              head = head;
              released = p.released;
              full = full;
              canonical_status = status;
              canonical_head = canonical;
              descendant = d;
              all_verified = p.all_verified;
              exactly = p.exactly;
            }
      ]

combine_state_iff :
    (age : FreshnessState) (s : AlignmentState) (reason : String)
    → ((combine_state age s reason).0 ≡ fresh) ↔ ((age ≡ fresh) × (is_verified s ≡ true))
combine_state_iff age s reason = grind arith

-- The page is fresh exactly if the manifest is young and the files are aligned.
pub combine_freshness-fresh_iff :
    (age : FreshnessState) (a : AlignmentInspection)
    → ((combine_freshness age a).0 ≡ fresh) ↔ ((age ≡ fresh) × (is_verified a.state ≡ true))
unfolding combine_freshness
combine_freshness-fresh_iff age a = combine_state_iff age a.state a.reason
