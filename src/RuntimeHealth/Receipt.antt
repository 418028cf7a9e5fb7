-- ===== src/RuntimeHealth/Receipt.antt =====
-- The whole receipt: `readEcosystemMapHeadConsistency`, `summarizeStatus`, `getRuntimeHealthData`.
pub mod Laws
pub mod Release
use leitstand.Common.{
  ℕ, Bool, true, false, ◌&&◌, ◌||◌, String, ◌==◌, Option, none, some, List, [], ◌∷◌, map, any,
  Result, ok, err, ◌>>=◌, if◌then◌else◌,
}
use leitstand.Json.{Json, get, is_object, is_text, is_number, string_or}
use leitstand.Host.{to_ns, Host, Attempt, done, failed, by_message}
use leitstand.Snapshot.{text_or}
use leitstand.RuntimeHealth.Snapshots.{
  CheckStatus, pass, warn, fail, unknown, SnapshotKind, bureau_tasks, checkout_inventory,
  decision_axis, repoground, ecosystem_map_head, storage_health, ecosystem_map, SnapshotHealth,
  snapshot_stale_limits_ms, is_git_head, snapshot_path_from_env, read_snapshot_health,
}
use leitstand.RuntimeHealth.Git.{GitHealth, read_git_health}

pub record Check : Type 0 where
  pub status : CheckStatus
  pub reason : String

abbrev pub check : CheckStatus → String → Check
check status reason = record { status = status; reason = reason }

-- The status of the ingress is always `'not_checked'`.
pub record Ingress : Type 0 where
  pub canonical_url : String
  pub reason : String

-- The process identity, its uptime and the version of Node are left out.
pub record Receipt : Type 0 where
  pub generated_at : String
  pub status : CheckStatus
  pub cwd : String
  pub git : GitHealth
  pub snapshots : List (SnapshotKind × SnapshotHealth)
  pub checks : List (String × Check)
  pub ingress : Ingress
  pub does_not_establish : List String

-- The options that are given; `none` if not.
pub record Options : Type 0 where
  pub cwd : Option String
  pub path : SnapshotKind → Option String
  pub source_root : Option String
  pub stale_after_ms : SnapshotKind → Option ℕ

abbrev pub does_not_establish : List String
does_not_establish =
    "external_ingress_reachable" ∷ "dns_correctness" ∷ "caddyfile_persistence" ∷ "bureau_task_truth"
    ∷ "checkout_cleanup_authority" ∷ "operator_action_authority" ∷ []

-- `a === b`
abbrev pub is_status : CheckStatus → CheckStatus → Bool
is_status pass pass = true
is_status warn warn = true
is_status fail fail = true
is_status unknown unknown = true
is_status _ _ = false

unfoldable pub summarize_status : List CheckStatus → CheckStatus
summarize_status checks =
    if any (is_status fail) checks
    then fail
    else if any (is_status warn) checks || any (is_status unknown) checks
    then warn
    else pass

abbrev pub check_from_snapshot : SnapshotHealth → Check
check_from_snapshot snapshot = check snapshot.status snapshot.reason

-- The tests on the canonical head, and on the release that is served.
unfoldable pub judge_head : Host → Json → String → Check
judge_head H raw source_root =
    let head = string_or "" (get "head" raw) in
    let release_head = H.basename (H.resolve source_root) in
    if is_number (get "schemaVersion" raw) 1
      && is_text (get "kind" raw) "leitstand_source_head_snapshot"
      && is_text (get "repository" raw) "heimgewebe/systemkatalog"
      && is_text (get "ref" raw) "refs/heads/main"
      && is_text (get "status" raw) "available"
      && is_git_head head
    then (if is_git_head release_head
        then (if head == release_head
            then check pass "ecosystem_map_release_matches_canonical_head"
            else check fail "ecosystem_map_release_behind_canonical_head")
        else check fail "ecosystem_map_release_head_unbound")
    else check fail "ecosystem_map_current_head_unavailable"

unfoldable pub read_ecosystem_map_head_consistency : Host → String → String → Check
unfolding judge_head
read_ecosystem_map_head_consistency H current_head_path source_root =
    elim (by_message (H.read_file (H.resolve current_head_path)) >>= H.parse_json) [
      | err message ↦ check fail "ecosystem_map_current_head_read_failed"
      | ok raw ↦
          if is_object raw
          then judge_head H raw source_root
          else check fail "ecosystem_map_current_head_contract_mismatch"
    ]

abbrev or_limit : Option ℕ → ℕ → ℕ
or_limit none limit = limit
or_limit (some n) limit = n

module _ (H : Host) (o : Options) where
  abbrev pub cwd_of : String
  cwd_of = H.resolve (text_or o.cwd H.cwd)

  abbrev pub path_of : SnapshotKind → String
  path_of kind = text_or (o.path kind) (snapshot_path_from_env H kind cwd_of)

  abbrev pub source_root_of : String
  source_root_of = text_or o.source_root (
      text_or (H.env "LEITSTAND_ECOSYSTEM_MAP_SOURCE_ROOT")
        (H.join (cwd_of ∷ "artifacts" ∷ "systemkatalog-release-unbound" ∷ [])))

  abbrev pub snapshot_of : SnapshotKind → SnapshotHealth
  snapshot_of kind =
      read_snapshot_health H kind (path_of kind) cwd_of
        (or_limit (o.stale_after_ms kind) (snapshot_stale_limits_ms kind))

  abbrev pub checks_of : GitHealth → List (String × Check)
  checks_of git =
      ("server_process", check pass "health_endpoint_served_by_current_process")
      ∷ ("git_head", check git.status git.reason)
      ∷ ("bureau_snapshot", check_from_snapshot (snapshot_of bureau_tasks))
      ∷ ("checkout_snapshot", check_from_snapshot (snapshot_of checkout_inventory))
      ∷ ("decision_axis_snapshot", check_from_snapshot (snapshot_of decision_axis))
      ∷ ("repoground_snapshot", check_from_snapshot (snapshot_of repoground))
      ∷ ("ecosystem_map_head_snapshot", check_from_snapshot (snapshot_of ecosystem_map_head))
      ∷ (
        "ecosystem_map_head_consistency",
        read_ecosystem_map_head_consistency H (path_of ecosystem_map_head) source_root_of,
      )
      ∷ ("storage_health_snapshot", check_from_snapshot (snapshot_of storage_health))
      ∷ ("ecosystem_map_snapshot", check_from_snapshot (snapshot_of ecosystem_map))
      ∷ []

  abbrev pub receipt_of : GitHealth → Receipt
  receipt_of git = record {
    generated_at = H.to_iso_string (to_ns H.now);
    status = summarize_status (map (λ entry. entry.1.status) (checks_of git));
    cwd = cwd_of;
    git = git;
    snapshots =
        map (λ kind. (kind, snapshot_of kind))
          (bureau_tasks ∷ checkout_inventory ∷ decision_axis ∷ repoground ∷ ecosystem_map_head
            ∷ storage_health ∷ ecosystem_map ∷ []);
    checks = checks_of git;
    ingress = record {
      canonical_url = "https://leitstand.heimgewebe.home.arpa/";
      reason = "in_process_health_receipt_does_not_probe_dns_or_caddy";
    };
    does_not_establish = does_not_establish;
  }

  unfoldable pub get_runtime_health_data : Result Receipt
  get_runtime_health_data = elim (read_git_health H cwd_of) [
    | err message ↦ err message
    | ok git ↦ ok (receipt_of git)
  ]
