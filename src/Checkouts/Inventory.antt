-- ===== src/Checkouts/Inventory.antt =====
-- The list and its counts: `isSprawl`, `emptyData`, `dataFromParsed`.
pub mod Counts
use leitstand.Common.{
  ℕ, Bool, true, false, not, ◌&&◌, ◌||◌, String, Option, none, List, [], count, length, sort,
}
use leitstand.Host.{Host}
use leitstand.Snapshot.{
  SourceKind, FreshnessState, freshness_within, display_source_path,
  operational_snapshot_stale_after_ms,
}
use leitstand.Checkouts.Parse.{
  Retention, orphan, archivable, retained, CheckoutView, Parsed, default_non_claims,
}

pub record ViewMeta : Type 0 where
  pub source_kind : SourceKind
  pub source_path : String
  pub source_path_display : String
  pub missing_reason : String
  pub generated_at : Option String
  pub freshness_state : FreshnessState
  pub checkout_count : ℕ
  pub orphan_count : ℕ
  pub archivable_count : ℕ
  pub retained_count : ℕ
  pub sprawl_count : ℕ
  pub does_not_establish : List String

pub record ViewData : Type 0 where
  pub checkouts : List CheckoutView
  pub view_meta : ViewMeta

-- `a === b`
abbrev pub is_retention : Retention → Retention → Bool
is_retention orphan orphan = true
is_retention archivable archivable = true
is_retention retained retained = true
is_retention Retention.unknown Retention.unknown = true
is_retention _ _ = false

-- Nothing anchors it: no retention, no process, no lease.
abbrev pub is_sprawl : CheckoutView → Bool
is_sprawl c =
    (is_retention c.retention orphan || is_retention c.retention archivable)
    && not c.has_process
    && not c.has_resource_lease

-- Worst first.
abbrev pub order : Retention → ℕ
order orphan = 0
order archivable = 1
order Retention.unknown = 2
order retained = 3

module _ (H : Host) where
  unfoldable pub empty_data : SourceKind → String → String → String → ViewData
  empty_data kind reason source_path source_root = record {
    checkouts = [];
    view_meta = record {
      source_kind = kind;
      source_path = source_path;
      source_path_display = display_source_path H source_path source_root;
      missing_reason = reason;
      generated_at = none;
      freshness_state = FreshnessState.unknown;
      checkout_count = 0;
      orphan_count = 0;
      archivable_count = 0;
      retained_count = 0;
      sprawl_count = 0;
      does_not_establish = default_non_claims;
    };
  }

  unfoldable pub data_from_parsed : Parsed → SourceKind → String → String → String → ViewData
  data_from_parsed parsed source_kind source_path missing_reason source_root =
      let checkouts = sort (λ c. order c.retention) parsed.checkouts in
      record {
        checkouts = checkouts;
        view_meta = record {
          source_kind = source_kind;
          source_path = source_path;
          source_path_display = display_source_path H source_path source_root;
          missing_reason = missing_reason;
          generated_at = parsed.generated_at;
          freshness_state =
              freshness_within H operational_snapshot_stale_after_ms parsed.generated_at;
          checkout_count = length checkouts;
          orphan_count = count (λ c. is_retention c.retention orphan) checkouts;
          archivable_count = count (λ c. is_retention c.retention archivable) checkouts;
          retained_count = count (λ c. is_retention c.retention retained) checkouts;
          sprawl_count = count is_sprawl checkouts;
          does_not_establish = parsed.does_not_establish;
        };
      }
