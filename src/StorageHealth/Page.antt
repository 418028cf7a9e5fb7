-- ===== src/StorageHealth/Page.antt =====
-- `emptyData`, `dataFromParsed`, `getStorageHealthData`: the page that `/storage-health` renders.
pub mod Laws
use leitstand.Common.{ℕ, ◌*◌, Option, none, some, String, List, [], length}
use leitstand.Host.{Host}
use leitstand.Snapshot.{
  SourceKind, FreshnessState, Controller, freshness_within, display_source_path, get_data,
}
use leitstand.StorageHealth.Values.{StorageNotification}
use leitstand.StorageHealth.Truth.{Current, Truths}
use leitstand.StorageHealth.Parse.{Parsed, parse_snapshot, classify_error, default_non_claims}

pub record ViewMeta : Type 0 where
  pub source_kind : SourceKind
  pub source_path : String
  pub source_path_display : String
  pub missing_reason : String
  pub generated_at : Option String
  pub freshness_state : FreshnessState
  pub hourly_count : ℕ
  pub hourly_max : ℕ
  pub daily_count : ℕ
  pub daily_max : ℕ
  pub notification_count : ℕ
  pub notification_max : ℕ
  pub observed_count : ℕ
  pub estimated_count : ℕ
  pub unavailable_count : ℕ
  pub does_not_establish : List String

pub record ViewData : Type 0 where
  pub current : Option Current
  pub notifications : List StorageNotification
  pub view_meta : ViewMeta

abbrev pub stale_after_ms : ℕ
stale_after_ms = 90 * 60 * 1000

module _ (H : Host) where
  unfoldable pub empty_data : SourceKind → String → String → String → ViewData
  empty_data kind reason source_path source_root = record {
    current = none;
    notifications = [];
    view_meta = record {
      source_kind = kind;
      source_path = source_path;
      source_path_display = display_source_path H source_path source_root;
      missing_reason = reason;
      generated_at = none;
      freshness_state = FreshnessState.unknown;
      hourly_count = 0;
      hourly_max = 0;
      daily_count = 0;
      daily_max = 0;
      notification_count = 0;
      notification_max = 0;
      observed_count = 0;
      estimated_count = 0;
      unavailable_count = 1;
      does_not_establish = default_non_claims;
    };
  }

  unfoldable pub data_from_parsed : Parsed → SourceKind → String → String → String → ViewData
  data_from_parsed parsed source_kind source_path missing_reason source_root = record {
    current = some parsed.current;
    notifications = parsed.notifications;
    view_meta = record {
      source_kind = source_kind;
      source_path = source_path;
      source_path_display = display_source_path H source_path source_root;
      missing_reason = missing_reason;
      generated_at = some parsed.generated_at;
      freshness_state = freshness_within H stale_after_ms (some parsed.generated_at);
      hourly_count = parsed.hourly_count;
      hourly_max = parsed.hourly_max;
      daily_count = parsed.daily_count;
      daily_max = parsed.daily_max;
      notification_count = length parsed.notifications;
      notification_max = parsed.notification_max;
      observed_count = parsed.truths.observed_count;
      estimated_count = parsed.truths.estimated_count;
      unavailable_count = parsed.truths.unavailable_count;
      does_not_establish = parsed.does_not_establish;
    };
  }

  abbrev pub storage_health : Controller Parsed ViewData
  storage_health = record {
    path_variable = "LEITSTAND_STORAGE_HEALTH_PATH";
    fallback_variable = "LEITSTAND_STORAGE_HEALTH_FIXTURE_FALLBACK";
    artifact_file = "storage-health.json";
    fixture_file = "storage-health.json";
    fixture_reason = "storage_health_missing_fixture_fallback";
    parse_snapshot = parse_snapshot H;
    classify_error = classify_error;
    empty_data = empty_data;
    data_from_parsed = data_from_parsed;
  }

  unfoldable pub get_storage_health_data : Option String → ViewData
  get_storage_health_data source_root = get_data H storage_health source_root
