-- ===== src/RuntimeHealth/Snapshots/Kinds.antt =====
-- The seven snapshots: their files, their limits, and what is read of each.
use leitstand.Common.{ℕ, suc, ◌*◌, Bool, false, ◌&&◌, String, Option, none, some, if◌then◌else◌}
use leitstand.Common.Text.{is_hex}
use leitstand.Json.{
  Json, get, is_object, as_string, is_text, array_length, key_count, is_positive_integer,
  is_some_object, get_in,
}
use leitstand.Snapshot.{operational_snapshot_stale_after_ms}

pub data SnapshotKind : Type 0 where
  bureau_tasks checkout_inventory decision_axis repoground ecosystem_map_head storage_health
        ecosystem_map :
      SnapshotKind

abbrev pub snapshot_stale_limits_ms : SnapshotKind → ℕ
snapshot_stale_limits_ms storage_health = 90 * 60 * 1000
snapshot_stale_limits_ms ecosystem_map = 168 * 60 * 60 * 1000
snapshot_stale_limits_ms bureau_tasks = operational_snapshot_stale_after_ms
snapshot_stale_limits_ms checkout_inventory = operational_snapshot_stale_after_ms
snapshot_stale_limits_ms decision_axis = operational_snapshot_stale_after_ms
snapshot_stale_limits_ms repoground = operational_snapshot_stale_after_ms
snapshot_stale_limits_ms ecosystem_map_head = operational_snapshot_stale_after_ms

-- `GIT_HEAD_RE.test(s)`
abbrev pub is_git_head : String → Bool
is_git_head s = is_hex 40 s

abbrev pub path_variable : SnapshotKind → String
path_variable bureau_tasks = "LEITSTAND_BUREAU_SNAPSHOT_PATH"
path_variable checkout_inventory = "LEITSTAND_CHECKOUT_SNAPSHOT_PATH"
path_variable decision_axis = "LEITSTAND_DECISION_AXIS_SNAPSHOT_PATH"
path_variable repoground = "LEITSTAND_REPOGROUND_BUNDLES_PATH"
path_variable ecosystem_map_head = "LEITSTAND_ECOSYSTEM_MAP_CURRENT_HEAD_PATH"
path_variable storage_health = "LEITSTAND_STORAGE_HEALTH_PATH"
path_variable ecosystem_map = "LEITSTAND_ECOSYSTEM_MAP_MANIFEST_PATH"

abbrev pub file_name : SnapshotKind → String
file_name bureau_tasks = "bureau-tasks.json"
file_name checkout_inventory = "checkout-inventory.json"
file_name decision_axis = "operator-decision-axis.json"
file_name repoground = "repoground-bundles.json"
file_name ecosystem_map_head = "ecosystem-map-current-head.json"
file_name storage_health = "storage-health.json"
file_name ecosystem_map = "ecosystem-map-artifact-manifest.json"

abbrev pub expected_snapshot_kind : SnapshotKind → String
expected_snapshot_kind bureau_tasks = "leitstand_bureau_task_snapshot"
expected_snapshot_kind checkout_inventory = "leitstand_checkout_inventory"
expected_snapshot_kind decision_axis = "leitstand_operator_decision_axis_snapshot"
expected_snapshot_kind repoground = "leitstand_repobrief_bundle_index"
expected_snapshot_kind ecosystem_map_head = "leitstand_source_head_snapshot"
expected_snapshot_kind storage_health = "leitstand_storage_health"
expected_snapshot_kind ecosystem_map = "system_catalog_map_artifact_manifest"

abbrev when_positive : Option ℕ → Option ℕ
when_positive (some (suc n)) = some (suc n)
when_positive _ = none

abbrev is_some_head : Option String → Bool
is_some_head none = false
is_some_head (some s) = is_git_head s

-- `snapshotRecordCount`, of a value that is an object or an array.
count_records : SnapshotKind → Json → Option ℕ
count_records bureau_tasks snapshot = array_length (get "tasks" snapshot)
count_records checkout_inventory snapshot = array_length (get "checkouts" snapshot)
count_records decision_axis snapshot = key_count (get "sections" snapshot)
count_records repoground snapshot =
    if is_text (get "sourceStatus" snapshot) "available"
      && is_positive_integer (get "staleAfterSeconds" snapshot)
    then when_positive (array_length (get "bundles" snapshot))
    else none
count_records ecosystem_map_head snapshot =
    if is_text (get "status" snapshot) "available" && is_some_head (as_string (get "head" snapshot))
    then some 1
    else none
count_records storage_health snapshot =
    if is_some_object (get "current" snapshot) then some 1 else none
count_records ecosystem_map snapshot = array_length (get "artifacts" snapshot)

unfoldable pub snapshot_record_count : SnapshotKind → Json → Option ℕ
unfolding count_records
snapshot_record_count kind raw = if is_object raw then count_records kind raw else none

abbrev or_string : Option String → Option String → Option String
or_string none other = other
or_string (some s) other = some s

-- A value that is neither object nor array has no properties.
unfoldable pub snapshot_generated_at : Json → Option String
snapshot_generated_at raw = or_string (as_string (get "generatedAt" raw)) (
    or_string (as_string (get "generated_at" raw))
      (as_string (get_in "generatedAt" (get "source" raw))))

unfoldable pub snapshot_kind : Json → Option String
snapshot_kind raw = as_string (get "kind" raw)
