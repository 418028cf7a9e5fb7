-- ===== src/StorageHealth/Current.antt =====
-- The part `current` of a snapshot: its contract's limits, its lists and its records.
use leitstand.Common.{ℕ, String, ◌<>◌, Option, none, some, List, Result, ok, ◌>>=◌, traverse_from}
use leitstand.Common.Text.{print}
use leitstand.Json.{Json, null, get}
use leitstand.StorageHealth.Values.{
  object_value, string_value, number_value, nullable_number, truth_value, parse_producer,
  parse_violation, parse_blocker, parse_unowned, bounded_list,
}
use leitstand.StorageHealth.Truth.{Filesystem, Temporary, Growth, StorageSummary, Current}

-- `CONTRACT_LIMITS`
pub record Limits : Type 0 where
  pub hourly : ℕ
  pub daily : ℕ
  pub notifications : ℕ
  pub producers : ℕ
  pub unowned_artifacts : ℕ
  pub blockers : ℕ
  pub violations : ℕ

abbrev pub contract_limits : Limits
contract_limits = record {
  hourly = 744;
  daily = 366;
  notifications = 512;
  producers = 512;
  unowned_artifacts = 512;
  blockers = 513;
  violations = 514;
}

abbrev pub indexed : String → ℕ → String
indexed name index = name <> "[" <> print index <> "]"

-- `current.name.map((item, index) => parse(item, `name[${index}]`))` of a list that is bounded.
abbrev pub parse_list {ℓ} :
    {A : Type ℓ} → (Json → String → Result A) → Json → String → String → ℕ → Result (List A)
parse_list parse current key name maximum =
    bounded_list (get key current) maximum ("invalid current." <> key <> " payload bound") >>= λ vs.
    traverse_from 0 (λ index v. parse v (indexed name index)) vs

abbrev pub parse_filesystem : Json → Result Filesystem
parse_filesystem filesystem = do
  path ← string_value (get "path" filesystem) "current.filesystem.path"
  total_bytes ← number_value (get "totalBytes" filesystem) "current.filesystem.totalBytes"
  used_bytes ← number_value (get "usedBytes" filesystem) "current.filesystem.usedBytes"
  available_bytes ←
      number_value (get "availableBytes" filesystem) "current.filesystem.availableBytes"
  used_percent ← number_value (get "usedPercent" filesystem) "current.filesystem.usedPercent"
  status ← string_value (get "status" filesystem) "current.filesystem.status"
  truth ← truth_value (get "truth" filesystem) "current.filesystem"
  ok (record {
    path = path;
    total_bytes = total_bytes;
    used_bytes = used_bytes;
    available_bytes = available_bytes;
    used_percent = used_percent;
    status = status;
    truth = truth;
  })

abbrev pub parse_temporary : Json → Result Temporary
parse_temporary temporary = do
  used_bytes ← number_value (get "usedBytes" temporary) "current.temporary.usedBytes"
  status ← string_value (get "status" temporary) "current.temporary.status"
  truth ← truth_value (get "truth" temporary) "current.temporary"
  ok (record { used_bytes = used_bytes; status = status; truth = truth })

abbrev pub baseline : Option Json → Result (Option String)
baseline (some null) = ok none
baseline value = string_value value "current.growth24h.baselineAt" >>= λ s. ok (some s)

abbrev pub parse_growth : Json → Result Growth
parse_growth growth = do
  bytes ← nullable_number (get "bytes" growth) "current.growth24h.bytes"
  percent ← nullable_number (get "percent" growth) "current.growth24h.percent"
  baseline_at ← baseline (get "baselineAt" growth)
  truth ← truth_value (get "truth" growth) "current.growth24h"
  ok (record { bytes = bytes; percent = percent; baseline_at = baseline_at; truth = truth })

abbrev pub parse_summary : Json → Result StorageSummary
parse_summary summary = do
  producer_count ← number_value (get "producerCount" summary) "current.summary.producerCount"
  budget_violation_count ←
      number_value (get "budgetViolationCount" summary) "current.summary.budgetViolationCount"
  cleanup_blocker_count ←
      number_value (get "cleanupBlockerCount" summary) "current.summary.cleanupBlockerCount"
  unowned_artifact_count ←
      number_value (get "unownedArtifactCount" summary) "current.summary.unownedArtifactCount"
  notification_count ←
      number_value (get "notificationCount" summary) "current.summary.notificationCount"
  ok (record {
    producer_count = producer_count;
    budget_violation_count = budget_violation_count;
    cleanup_blocker_count = cleanup_blocker_count;
    unowned_artifact_count = unowned_artifact_count;
    notification_count = notification_count;
  })

-- The part from `const current` to `parsedCurrent`.
unfoldable pub parse_current : Option Json → Result Current
parse_current value = do
  current ← object_value value "storage health current"
  filesystem ← object_value (get "filesystem" current) "current.filesystem"
  temporary ← object_value (get "temporary" current) "current.temporary"
  growth ← object_value (get "growth24h" current) "current.growth24h"
  summary ← object_value (get "summary" current) "current.summary"
  top_producers ← parse_list parse_producer current "topProducers" "topProducers" 10
  budget_violations ←
      parse_list parse_violation current "budgetViolations" "budgetViolations"
        contract_limits.violations
  cleanup_blockers ←
      parse_list parse_blocker current "cleanupBlockers" "cleanupBlockers" contract_limits.blockers
  unowned_artifacts ←
      parse_list parse_unowned current "unownedArtifacts" "unownedArtifacts"
        contract_limits.unowned_artifacts
  observed_at ← string_value (get "observedAt" current) "current.observedAt"
  parsed_filesystem ← parse_filesystem filesystem
  parsed_temporary ← parse_temporary temporary
  parsed_growth ← parse_growth growth
  parsed_summary ← parse_summary summary
  ok (record {
    observed_at = observed_at;
    filesystem = parsed_filesystem;
    temporary = parsed_temporary;
    growth_24h = parsed_growth;
    top_producers = top_producers;
    budget_violations = budget_violations;
    unowned_artifacts = unowned_artifacts;
    cleanup_blockers = cleanup_blockers;
    summary = parsed_summary;
  })
