-- ===== src/StorageHealth/Tests.antt =====
-- A small snapshot of the storage budget, and the theorems at it.
use leitstand.Common.{◌≡◌, refl, String, Option, none, some, List, [], ◌∷◌, ok, Pointwise, sort_by}
use leitstand.Common.Int.{◌-ℤ◌}
use leitstand.Common.Text.{lower, same, print, text_before, includes, begins}
use leitstand.Json.{string, get}
use leitstand.Host.{Host}
use leitstand.Host.Samples.{sample_host, sorts_before}
use leitstand.Snapshot.{
  artifact, fixture, says, get_data, recover, load_fixture, load_snapshot, fixture_fallback_enabled,
  display_source_path, freshness_within, fresh,
}
use leitstand.StorageHealth.Values.{
  object_value, string_value, number_value, bounded_integer, nullable_number, truth_value,
  parse_producer, parse_violation, parse_blocker, parse_unowned, parse_notification, bounded_list,
}
use leitstand.StorageHealth.Series.{assert_increasing}
use leitstand.StorageHealth.Series.Laws.{Ascending, assert_increasing-Ascending}
use leitstand.StorageHealth.Truth.{count_truth}
use leitstand.StorageHealth.Current.{parse_current}
use leitstand.StorageHealth.Parse.{classify_error, parsed_snapshot, parse_snapshot}
use leitstand.StorageHealth.Page.{ViewData, empty_data, data_from_parsed, get_storage_health_data}
use leitstand.StorageHealth.Samples.{ordered, good, twice}
use leitstand.StorageHealth.Page.Laws.{IsConsistent, get_storage_health_data-IsConsistent}

run : Host → Option String → ViewData
unfolding get_storage_health_data get_data recover load_fixture load_snapshot
    fixture_fallback_enabled display_source_path freshness_within parse_snapshot parsed_snapshot
    parse_current classify_error says lower same includes begins empty_data data_from_parsed sort_by
    assert_increasing object_value string_value number_value bounded_integer nullable_number
    truth_value parse_producer parse_violation parse_blocker parse_unowned parse_notification
    bounded_list count_truth print text_before sorts_before ◌-ℤ◌
run = get_storage_health_data

abbrev strict_off : List (String × String)
strict_off = ("LEITSTAND_STRICT", "0") ∷ []

abbrev here : Host
here = sample_host (("/srv/artifacts/storage-health.json", ok good) ∷ []) []

abbrev broken : Host
broken = sample_host (("/srv/artifacts/storage-health.json", ok twice) ∷ []) strict_off

abbrev there : Host
there = sample_host (("/srv/src/fixtures/storage-health.json", ok good) ∷ []) strict_off

runs :
    ((run here none).view_meta.source_kind ≡ artifact)
    × ((run here none).view_meta.observed_count ≡ 2)
    × ((run here none).view_meta.estimated_count ≡ 1)
    × ((run here none).view_meta.freshness_state ≡ fresh)
    × ((run broken none).view_meta.missing_reason ≡ "storage_health_corrupt")
    × ((run there none).view_meta.source_kind ≡ fixture)
unfolding run
runs = (refl, refl, refl, refl, refl, refl)

ordered_passes : assert_increasing ordered "bucket" "hourly series" ≡ ok tt
unfolding assert_increasing object_value string_value text_before
ordered_passes = refl

assert_increasing-Ascending_example :
    (ss : List String) × Pointwise (λ v s. get "bucket" v ≡ some (string s)) ordered ss
    × Ascending ss
assert_increasing-Ascending_example =
    assert_increasing-Ascending ordered "bucket" "hourly series" ordered_passes

get_storage_health_data-IsConsistent_example : IsConsistent (get_storage_health_data here none)
get_storage_health_data-IsConsistent_example = get_storage_health_data-IsConsistent here none
