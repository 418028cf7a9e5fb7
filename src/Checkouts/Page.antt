-- ===== src/Checkouts/Page.antt =====
-- `getCheckoutData`: the page that `/checkouts` renders.
pub mod Laws
use leitstand.Common.{Option, String}
use leitstand.Host.{Host}
use leitstand.Snapshot.{Controller, get_data}
use leitstand.Checkouts.Parse.{Parsed, parse_snapshot, classify_error}
use leitstand.Checkouts.Inventory.{ViewData, empty_data, data_from_parsed}

abbrev pub checkout_inventory : Host → Controller Parsed ViewData
checkout_inventory H = record {
  path_variable = "LEITSTAND_CHECKOUT_SNAPSHOT_PATH";
  fallback_variable = "LEITSTAND_CHECKOUT_FIXTURE_FALLBACK";
  artifact_file = "checkout-inventory.json";
  fixture_file = "checkout-inventory.json";
  fixture_reason = "checkout_inventory_missing_fixture_fallback";
  parse_snapshot = parse_snapshot;
  classify_error = classify_error;
  empty_data = empty_data H;
  data_from_parsed = data_from_parsed H;
}

unfoldable pub get_checkout_data : Host → Option String → ViewData
get_checkout_data H source_root = get_data H (checkout_inventory H) source_root
