-- ===== src/Bureau/Page.antt =====
-- `getBureauData`: the page that `/bureau` renders.
pub mod Laws
use leitstand.Common.{Option, String}
use leitstand.Host.{Host}
use leitstand.Snapshot.{Controller, get_data}
use leitstand.Bureau.Parse.{Parsed, parse_snapshot, classify_error}
use leitstand.Bureau.Board.{ViewData, empty_data, data_from_parsed}

abbrev pub bureau : Host → Controller Parsed ViewData
bureau H = record {
  path_variable = "LEITSTAND_BUREAU_SNAPSHOT_PATH";
  fallback_variable = "LEITSTAND_BUREAU_FIXTURE_FALLBACK";
  artifact_file = "bureau-tasks.json";
  fixture_file = "bureau-tasks.json";
  fixture_reason = "bureau_snapshot_missing_fixture_fallback";
  parse_snapshot = parse_snapshot;
  classify_error = classify_error;
  empty_data = empty_data H;
  data_from_parsed = data_from_parsed H;
}

unfoldable pub get_bureau_data : Host → Option String → ViewData
get_bureau_data H source_root = get_data H (bureau H) source_root
