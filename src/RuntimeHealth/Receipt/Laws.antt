-- ===== src/RuntimeHealth/Receipt/Laws.antt =====
-- The status of the whole against the checks.
use leitstand.Common.{
  ◌≡◌, refl, subst, ◌≢◌, ◌↔◌, List, [], ◌∷◌, map, All, ok, Result-cases, inl, inr, arith,
}
use leitstand.Host.{Host}
use leitstand.RuntimeHealth.Snapshots.{
  CheckStatus, pass, fail, SnapshotKind, bureau_tasks, checkout_inventory, decision_axis,
  repoground, ecosystem_map_head, storage_health, ecosystem_map,
}
use leitstand.RuntimeHealth.Git.{GitHealth, read_git_health}
use leitstand.RuntimeHealth.Receipt.Release.{
  IsCanonical, read_ecosystem_map_head_consistency-pass_iff,
}
use leitstand.RuntimeHealth.Receipt.{
  Receipt, Options, summarize_status, snapshot_of, path_of, source_root_of, cwd_of, checks_of,
  receipt_of, get_runtime_health_data,
}

pass_iff :
    (checks : List CheckStatus) → (summarize_status checks ≡ pass) ↔ All (λ c. c ≡ pass) checks
unfolding summarize_status
pass_iff [] = (λ _. tt, λ _. refl)
pass_iff (c ∷ cs) = ground (arith, pass_iff cs)

fail_iff :
    (checks : List CheckStatus) → (summarize_status checks ≢ fail) ↔ All (λ c. c ≢ fail) checks
unfolding summarize_status
fail_iff [] = (λ _. tt, λ _ e. cc)
fail_iff (c ∷ cs) = ground (arith, fail_iff cs)

-- The status of the whole is ok exactly if every check is, and it is fail exactly if one is.
pub summarize_status_iff :
    (checks : List CheckStatus)
    → ((summarize_status checks ≡ pass) ↔ All (λ c. c ≡ pass) checks)
      × ((summarize_status checks ≢ fail) ↔ All (λ c. c ≢ fail) checks)
summarize_status_iff checks = (pass_iff checks, fail_iff checks)

-- What has to hold for a release to be healthy.
pub record IsHealthy (H : Host) (o : Options) (r : Receipt) : Type 0 where
  pub git : r.git.status ≡ pass
  pub snapshots : (kind : SnapshotKind) → (snapshot_of H o kind).status ≡ pass
  pub canonical : IsCanonical H (path_of H o ecosystem_map_head) (source_root_of H o)

module _ (H : Host) (o : Options) (git : GitHealth) where
  IsHealthy-sound : (receipt_of H o git).status ≡ pass → IsHealthy H o (receipt_of H o git)
  IsHealthy-sound h =
      let (
        _,
        (
          git_passes,
          (bureau, (checkouts, (axis, (bundles, (head, (consistent, (storage, (systems, _)))))))),
        ),
      ) =
        (pass_iff (map (λ entry. entry.1.status) (checks_of H o git))).0 h in
      record {
        git = git_passes;
        snapshots = λ kind. elim kind as (λ k. (snapshot_of H o k).status ≡ pass) [
          | bureau_tasks ↦ bureau
          | checkout_inventory ↦ checkouts
          | decision_axis ↦ axis
          | repoground ↦ bundles
          | ecosystem_map_head ↦ head
          | storage_health ↦ storage
          | ecosystem_map ↦ systems
        ];
        canonical =
            (read_ecosystem_map_head_consistency-pass_iff H (path_of H o ecosystem_map_head)
                (source_root_of H o)).0
              consistent;
      }

  IsHealthy-complete : IsHealthy H o (receipt_of H o git) → (receipt_of H o git).status ≡ pass
  IsHealthy-complete h =
      let consistent =
        (read_ecosystem_map_head_consistency-pass_iff H (path_of H o ecosystem_map_head)
            (source_root_of H o)).1
          h.canonical in
      (pass_iff (map (λ entry. entry.1.status) (checks_of H o git))).1 (
        refl,
        (
          h.git,
          (
            h.snapshots bureau_tasks,
            (
              h.snapshots checkout_inventory,
              (
                h.snapshots decision_axis,
                (
                  h.snapshots repoground,
                  (
                    h.snapshots ecosystem_map_head,
                    (consistent, (h.snapshots storage_health, (h.snapshots ecosystem_map, tt))),
                  ),
                ),
              ),
            ),
          ),
        ),
      )

-- The receipt is ok exactly if the Git head is resolved, every one of the seven snapshots is judged
-- ok, and the file of the canonical head names, under the identity of its contract and as available,
-- the commit id that is the name of the directory from which the release is served.
pub get_runtime_health_data-pass_iff :
    (H : Host) (o : Options) (r : Receipt)
    → get_runtime_health_data H o ≡ ok r
    → (r.status ≡ pass) ↔ IsHealthy H o r
unfolding get_runtime_health_data
get_runtime_health_data-pass_iff H o r h = elim (Result-cases (read_git_health H (cwd_of H o))) [
  | inr (m, e) ↦ absurd (ground arith)
  | inl (git, e) ↦
      let built : receipt_of H o git ≡ r = ground arith in
      subst (λ r. (r.status ≡ pass) ↔ IsHealthy H o r) built
        (IsHealthy-sound H o git, IsHealthy-complete H o git)
]
