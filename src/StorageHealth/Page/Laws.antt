-- ===== src/StorageHealth/Page/Laws.antt =====
-- What the storage page keeps to, whatever its sources hold.
use leitstand.Common.{
  ℕ, ◌+◌, ◌≤◌, ◌≡◌, refl, ◌↔◌, ◌⊎◌, String, Option, none, some, length, arith, ok,
}
use leitstand.Json.{Json}
use leitstand.Host.{Host}
use leitstand.Snapshot.{SourceKind, fixture, missing, corrupt}
use leitstand.Snapshot.Laws.{IsLawful, StandsIn, get_data-fixture_iff, get_data_invariant}
use leitstand.StorageHealth.Truth.{Current}
use leitstand.StorageHealth.Truth.Laws.{claims}
use leitstand.StorageHealth.Parse.{Parsed, parse_snapshot, classify_error}
use leitstand.StorageHealth.Parse.Bounds.{parse_snapshot-IsBounded}
use leitstand.StorageHealth.Page.{
  ViewData, empty_data, data_from_parsed, storage_health, get_storage_health_data,
}

abbrev pub kind_of : ViewData → SourceKind
kind_of v = v.view_meta.source_kind

-- What is claimed: without a snapshot, one thing is counted, as unavailable.
abbrev claimed : Option Current → ℕ
claimed none = 1
claimed (some current) = claims current

abbrev ListsBounded : Option Current → Type 0
ListsBounded none = Unit
ListsBounded (some c) =
    (length c.top_producers ≤ 10)
    × (length c.budget_violations ≤ 514)
    × (length c.cleanup_blockers ≤ 513)
    × (length c.unowned_artifacts ≤ 512)

-- The page is bounded, and its counters agree with what it shows.
pub record IsConsistent (v : ViewData) : Type 0 where
  pub hourly : (v.view_meta.hourly_count ≤ v.view_meta.hourly_max) × (v.view_meta.hourly_max ≤ 744)
  pub daily : (v.view_meta.daily_count ≤ v.view_meta.daily_max) × (v.view_meta.daily_max ≤ 366)
  pub notified : v.view_meta.notification_count ≡ length v.notifications
  pub notifications :
      (v.view_meta.notification_count ≤ v.view_meta.notification_max)
      × (v.view_meta.notification_max ≤ 512)
  pub lists : ListsBounded v.current
  pub truths :
      v.view_meta.observed_count + v.view_meta.estimated_count + v.view_meta.unavailable_count
      ≡ claimed v.current

full-IsConsistent :
    (H : Host) (raw : Json) (p : Parsed)
    → parse_snapshot H raw ≡ ok p
    → (k : SourceKind) (path reason root : String)
    → IsConsistent (data_from_parsed H p k path reason root)
unfolding data_from_parsed
full-IsConsistent H raw p h k path reason root =
    let b = parse_snapshot-IsBounded H raw p h in
    record {
      hourly = b.hourly;
      daily = b.daily;
      notified = refl;
      notifications = b.notifications;
      lists = (b.producers, b.violations, b.blockers, b.unowned);
      truths = b.truths;
    }

empty-IsConsistent :
    (H : Host) (k : SourceKind) (reason path root : String)
    → IsConsistent (empty_data H k reason path root)
unfolding empty_data
empty-IsConsistent H k reason path root = record {
  hourly = (omega arith, omega arith);
  daily = (omega arith, omega arith);
  notified = refl;
  notifications = (omega arith, omega arith);
  lists = tt;
  truths = refl;
}

-- Whatever the sources hold, the page keeps to the bounds of the contract, counts the notifications
-- that it shows, and its three truth counters add up to the number of claims that it shows, or to one
-- where it has no snapshot.
pub get_storage_health_data-IsConsistent :
    (H : Host) (option : Option String) → IsConsistent (get_storage_health_data H option)
unfolding get_storage_health_data
get_storage_health_data-IsConsistent H =
    get_data_invariant H (storage_health H) IsConsistent (full-IsConsistent H)
      (empty-IsConsistent H)

classify_error-cases :
    (m : String) → ((classify_error m).0 ≡ missing) ⊎ ((classify_error m).0 ≡ corrupt)
unfolding classify_error
classify_error-cases m = ground arith

storage_health-IsLawful : (H : Host) → IsLawful (storage_health H) kind_of
unfolding empty_data data_from_parsed
storage_health-IsLawful H = record {
  kind-empty_data = λ k reason path root. refl;
  kind-data_from_parsed = λ p k path reason root. refl;
  classify-cases = classify_error-cases;
}

-- The fixture is shown exactly if the artifact is missing, no path was set for it, the fallback is
-- enabled and the fixture itself loads.
pub get_storage_health_data-fixture_iff :
    (H : Host) (option : Option String)
    → (kind_of (get_storage_health_data H option) ≡ fixture) ↔ StandsIn H (storage_health H) option
unfolding get_storage_health_data
get_storage_health_data-fixture_iff H =
    get_data-fixture_iff H (storage_health H) kind_of (storage_health-IsLawful H)
