-- ===== src/RuntimeHealth/Tests.antt =====
-- A healthy release, one that is behind its canonical head, and the theorems at them.
use leitstand.Common.{
  ◌≡◌, refl, ◌↔◌, true, false, String, ◌==◌, Option, none, some, List, [], ◌∷◌, Result, ok, err,
  if◌then◌else◌,
}
use leitstand.Common.Int.{◌-ℤ◌}
use leitstand.Common.Text.{
  trim, trim_start, trim_end, starts, begins, skip, split, cut_at_space, is_hex,
}
use leitstand.Json.{Json, string, array, object, number, finite, nil, cons, end, member, Members}
use leitstand.Json.Laws.{one}
use leitstand.Host.{Host, done}
use leitstand.Host.Samples.{sample_host, Returns, value, value-ok}
use leitstand.RuntimeHealth.Snapshots.{
  CheckStatus, pass, fail, bureau_tasks, is_git_head, read_snapshot_health, judge, unread,
  display_path, snapshot_path_from_env, snapshot_kind, snapshot_generated_at, snapshot_record_count,
  age_ns,
}
use leitstand.RuntimeHealth.Snapshots.Laws.{
  IsCurrent, IsAbsent, read_snapshot_health-pass_iff, read_snapshot_health-exists_iff,
}
use leitstand.RuntimeHealth.Git.{
  GitHealth, parse_gitdir_file, is_safe_git_ref, find_packed, find_loose, resolve_git_dir,
  resolve_common_git_dir, read_packed_ref, read_git_ref, read_head, read_git_health,
}
use leitstand.RuntimeHealth.Git.Laws.{IsInside, read_git_ref_safe}
use leitstand.RuntimeHealth.Receipt.{
  Receipt, Options, summarize_status, read_ecosystem_map_head_consistency, get_runtime_health_data,
}
use leitstand.RuntimeHealth.Receipt.Laws.{IsHealthy, get_runtime_health_data-pass_iff}

abbrev head_a : String
head_a = "0123456789abcdef0123456789abcdef01234567"

abbrev head_b : String
head_b = "ffff456789abcdef0123456789abcdef01234567"

abbrev of_kind : String → Members → Json
of_kind kind rest =
    object (member "kind" (string kind) (member "generatedAt" (string "19 before") rest))

abbrev empty_list : String → Members
empty_list key = member key (array nil) end

abbrev bundles : Members
bundles = member "sourceStatus" (string "available") (
    member "staleAfterSeconds" (number (finite false 1800 0))
      (member "bundles" (array (cons (string "a bundle") nil)) end))

abbrev canonical : Members
canonical = member "schemaVersion" one (
    member "repository" (string "heimgewebe/systemkatalog") (
      member "ref" (string "refs/heads/main")
        (member "status" (string "available") (member "head" (string head_a) end))))

abbrev files : List (String × Result Json)
files =
    (
      "/srv/artifacts/bureau-tasks.json",
      ok (of_kind "leitstand_bureau_task_snapshot" (empty_list "tasks")),
    )
    ∷ (
      "/srv/artifacts/checkout-inventory.json",
      ok (of_kind "leitstand_checkout_inventory" (empty_list "checkouts")),
    )
    ∷ (
      "/srv/artifacts/operator-decision-axis.json",
      ok (of_kind "leitstand_operator_decision_axis_snapshot" (member "sections" (object end) end)),
    )
    ∷ (
      "/srv/artifacts/repoground-bundles.json",
      ok (of_kind "leitstand_repobrief_bundle_index" bundles),
    )
    ∷ (
      "/srv/artifacts/ecosystem-map-current-head.json",
      ok (of_kind "leitstand_source_head_snapshot" canonical),
    )
    ∷ (
      "/srv/artifacts/storage-health.json",
      ok (of_kind "leitstand_storage_health" (member "current" (object end) end)),
    )
    ∷ (
      "/srv/artifacts/ecosystem-map-artifact-manifest.json",
      ok (of_kind "system_catalog_map_artifact_manifest" (empty_list "artifacts")),
    )
    ∷ []

-- The release at `release`, on a branch whose ref is a loose file.
abbrev host_at : String → Host
host_at release =
    let sample = sample_host files (("LEITSTAND_ECOSYSTEM_MAP_SOURCE_ROOT", release) ∷ []) in
    record sample {
      read_file = λ path.
          if path == "/srv/.git/HEAD"
          then done "ref: refs/heads/main "
          else if path == "/srv/.git/refs/heads/main"
          then done head_b
          else sample.read_file path;
    }

abbrev no_options : Options
no_options = record {
  cwd = none;
  path = λ kind. none;
  source_root = none;
  stale_after_ms = λ kind. none;
}

run : Host → Options → Result Receipt
unfolding get_runtime_health_data read_git_health read_head read_git_ref read_packed_ref
    resolve_common_git_dir resolve_git_dir find_loose find_packed is_safe_git_ref parse_gitdir_file
    read_ecosystem_map_head_consistency summarize_status read_snapshot_health judge unread
    display_path snapshot_path_from_env snapshot_kind snapshot_generated_at snapshot_record_count
    age_ns trim trim_start trim_end starts begins skip split cut_at_space is_hex ◌-ℤ◌
run = get_runtime_health_data

abbrev status_of : Result Receipt → Option CheckStatus
status_of (err m) = none
status_of (ok r) = some r.status

abbrev branch_of : Result Receipt → Option String
branch_of (err m) = none
branch_of (ok r) = r.git.branch

runs :
    (status_of (run (host_at head_a) no_options) ≡ some pass)
    × (status_of (run (host_at head_b) no_options) ≡ some fail)
    × (branch_of (run (host_at head_a) no_options) ≡ some "main")
unfolding run
runs = (refl, refl, refl)

returned : Returns (get_runtime_health_data (host_at head_a) no_options)
unfolding get_runtime_health_data read_git_health resolve_git_dir parse_gitdir_file trim trim_start
    trim_end starts begins
returned = tt

abbrev receipt : Receipt
receipt = value (get_runtime_health_data (host_at head_a) no_options) returned

get_runtime_health_data-pass_iff_example :
    (receipt.status ≡ pass) ↔ IsHealthy (host_at head_a) no_options receipt
get_runtime_health_data-pass_iff_example =
    get_runtime_health_data-pass_iff (host_at head_a) no_options receipt
      (value-ok (get_runtime_health_data (host_at head_a) no_options) returned)

abbrev tasks_file : String
tasks_file = "/srv/artifacts/bureau-tasks.json"

read_snapshot_health-pass_iff_example :
    ((read_snapshot_health (host_at head_a) bureau_tasks tasks_file "/srv" 1_200_000).status ≡ pass)
    ↔ IsCurrent (host_at head_a) bureau_tasks tasks_file "/srv" 1_200_000
read_snapshot_health-pass_iff_example =
    read_snapshot_health-pass_iff (host_at head_a) bureau_tasks tasks_file "/srv" 1_200_000

read_snapshot_health-exists_iff_example :
    ((read_snapshot_health (host_at head_a) bureau_tasks "/srv/none" "/srv" 1).exists ≡ false)
    ↔ IsAbsent (host_at head_a) bureau_tasks "/srv/none" "/srv" 1
read_snapshot_health-exists_iff_example =
    read_snapshot_health-exists_iff (host_at head_a) bureau_tasks "/srv/none" "/srv" 1

resolves : read_git_ref (host_at head_a) "/srv/.git" "refs/heads/main" ≡ some head_b
unfolding read_git_ref read_packed_ref resolve_common_git_dir find_loose find_packed is_safe_git_ref
    trim trim_start trim_end starts begins split cut_at_space is_hex
resolves = refl

read_git_ref_safe_example : IsInside "refs/heads/main" × (is_git_head head_b ≡ true)
read_git_ref_safe_example =
    read_git_ref_safe (host_at head_a) "/srv/.git" "refs/heads/main" head_b resolves

git_returned : Returns (read_git_health (host_at head_a) "/srv")
unfolding read_git_health resolve_git_dir parse_gitdir_file trim trim_start trim_end starts begins
git_returned = tt

abbrev git : GitHealth
git = value (read_git_health (host_at head_a) "/srv") git_returned

git_passes : git.status ≡ pass
unfolding read_git_health resolve_git_dir parse_gitdir_file read_head read_git_ref read_packed_ref
    resolve_common_git_dir find_loose find_packed is_safe_git_ref display_path git_returned trim
    trim_start trim_end starts begins skip split cut_at_space is_hex
git_passes = refl
