-- ===== src/StorageHealth/Parse.antt =====
-- The validator: `classifyError`, `parseSnapshot`.
pub mod Bounds
use leitstand.Common.{
  ℕ, Bool, true, false, not, ◌&&◌, ◌||◌, String, ◌==◌, ◌<>◌, Option, none, some, List, [], ◌∷◌,
  Result, ok, err, ◌>>=◌, ◌>>◌, require, traverse_from, leb, length, filter, sort_by, if◌then◌else◌,
  suc,
}
use leitstand.Common.Text.{print}
use leitstand.Json.{
  Json, null, get, as_array, is_text, is_number, string_array, non_empty_or, list_or_throw,
}
use leitstand.Host.{Host}
use leitstand.Snapshot.{SourceKind, missing, corrupt, says, is_set}
use leitstand.StorageHealth.Values.{
  StorageProducer, StorageViolation, StorageBlocker, UnownedArtifact, StorageNotification,
  object_value, string_value, number_value, bounded_integer, nullable_number, truth_value,
  parse_producer, parse_violation, parse_blocker, parse_unowned, parse_notification, bounded_list,
}
use leitstand.StorageHealth.Current.{contract_limits, indexed, parse_current}
use leitstand.StorageHealth.Series.{assert_increasing}
use leitstand.StorageHealth.Truth.{
  Filesystem, Temporary, Growth, StorageSummary, Current, Truths, no_truths, count_truth,
  current_value,
}

pub record Parsed : Type 0 where
  pub current : Current
  pub notifications : List StorageNotification
  pub generated_at : String
  pub hourly_max : ℕ
  pub daily_max : ℕ
  pub notification_max : ℕ
  pub hourly_count : ℕ
  pub daily_count : ℕ
  pub truths : Truths
  pub does_not_establish : List String

abbrev pub contract_kind : String
contract_kind = "leitstand_storage_health"

abbrev pub default_non_claims : List String
default_non_claims =
    "cleanup_authority" ∷ "deletion_permission" ∷ "complete_process_observation"
    ∷ "future_storage_growth" ∷ []

unfoldable pub classify_error : String → SourceKind × String
classify_error message =
    if says message "enoent" || says message "no such file"
    then (missing, "storage_health_missing")
    else if says message "json" || says message "invalid" || says message "mismatch"
    then (corrupt, "storage_health_corrupt")
    else (corrupt, "storage_health_load_failed")

-- The loop over the days: their lists are bounded too.
abbrev pub check_daily : ℕ → List Json → Result (Unit {0})
check_daily index [] = ok tt
check_daily index (raw ∷ raws) = do
  entry ← object_value (some raw) (indexed "daily" index)
  producers ←
      bounded_list (get "producers" entry) contract_limits.producers
        ("invalid " <> indexed "daily" index <> ".producers payload bound")
  unowned ←
      bounded_list (get "unownedArtifacts" entry) contract_limits.unowned_artifacts
        ("invalid " <> indexed "daily" index <> ".unownedArtifacts payload bound")
  check_daily (suc index) raws

-- `!Number.isNaN(Date.parse(generatedAt))`
abbrev is_date : Host → String → Bool
is_date H s = elim (H.parse_date s) [ none ↦ false | some ts ↦ true ]

-- `retention` of the result.
pub record Retention : Type 0 where
  pub hourly_max : ℕ
  pub daily_max : ℕ
  pub notification_max : ℕ

abbrev parse_retention : Json → Result Retention
parse_retention root = do
  retention ← object_value (get "retention" root) "storage health retention"
  hourly_max ←
      bounded_integer (get "hourlyMax" retention) "retention.hourlyMax" contract_limits.hourly
  daily_max ← bounded_integer (get "dailyMax" retention) "retention.dailyMax" contract_limits.daily
  notification_max ←
      bounded_integer (get "notificationMax" retention) "retention.notificationMax"
        contract_limits.notifications
  ok (record {
    hourly_max = hourly_max;
    daily_max = daily_max;
    notification_max = notification_max;
  })

pub record BoundedSeries : Type 0 where
  pub hourly : List Json
  pub daily : List Json
  pub raw_notifications : List Json

abbrev series_error : String
series_error = "invalid storage health bounded series"

abbrev within_retention : BoundedSeries → Retention → Bool
within_retention s r =
    leb (length s.hourly) r.hourly_max
    && leb (length s.daily) r.daily_max
    && leb (length s.raw_notifications) r.notification_max

abbrev series_of : List Json → List Json → List Json → BoundedSeries
series_of hourly daily notifications = record {
  hourly = hourly;
  daily = daily;
  raw_notifications = notifications;
}

-- The three series with their tests.
abbrev parse_series : Json → Retention → Result BoundedSeries
parse_series root retention = do
  hourly ← list_or_throw (as_array (get "hourly" root)) series_error
  daily ← list_or_throw (as_array (get "daily" root)) series_error
  notifications ← list_or_throw (as_array (get "notifications" root)) series_error
  require (within_retention (series_of hourly daily notifications) retention)
      "invalid storage health retention bound"
  assert_increasing hourly "bucket" "hourly series"
  assert_increasing daily "date" "daily series"
  check_daily 0 daily
  ok (series_of hourly daily notifications)

module _ (H : Host) where
  -- `right.observedAt.localeCompare(left.observedAt) <= 0`
  abbrev pub newest_first : StorageNotification → StorageNotification → Bool
  newest_first left right = H.locale_le right.observed_at left.observed_at

  abbrev parse_generated_at : Json → Result String
  parse_generated_at root = do
    require (is_number (get "schemaVersion" root) 1 && is_text (get "kind" root) contract_kind)
        "storage health kind or schemaVersion mismatch"
    generated_at ← string_value (get "generatedAt" root) "storage health generatedAt"
    require (is_date H generated_at) "invalid storage health generatedAt"
    ok generated_at

  abbrev parse_notifications : List Json → Result (List StorageNotification)
  parse_notifications =
      traverse_from 0 (λ index v. parse_notification v (indexed "notifications" index))

  unfoldable pub parsed_snapshot :
      Json → String → Retention → BoundedSeries → Current → List StorageNotification → Parsed
  unfolding sort_by
  parsed_snapshot root generated_at retention series current notifications = record {
    current = current;
    notifications = sort_by newest_first notifications;
    generated_at = generated_at;
    hourly_max = retention.hourly_max;
    daily_max = retention.daily_max;
    notification_max = retention.notification_max;
    hourly_count = length series.hourly;
    daily_count = length series.daily;
    truths = count_truth (current_value current) no_truths;
    does_not_establish =
        non_empty_or (filter (λ s. not (s == "")) (string_array (get "doesNotEstablish" root)))
          default_non_claims;
  }

  unfoldable pub parse_snapshot : Json → Result Parsed
  unfolding parsed_snapshot parse_current
  parse_snapshot raw = do
    root ← object_value (some raw) "storage health root"
    generated_at ← parse_generated_at root
    retention ← parse_retention root
    series ← parse_series root retention
    current ← parse_current (get "current" root)
    notifications ← parse_notifications series.raw_notifications
    ok (parsed_snapshot root generated_at retention series current notifications)
