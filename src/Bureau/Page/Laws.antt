-- ===== src/Bureau/Page/Laws.antt =====
-- What the page of the task board keeps to, whatever its sources hold.
use leitstand.Common.{◌≡◌, refl, ◌↔◌, ◌⊎◌, String, Option, ok, err, arith, Throws-err}
use leitstand.Json.{Json}
use leitstand.Host.{Host, done}
use leitstand.Snapshot.{SourceKind, fixture, missing, corrupt, artifact_path}
use leitstand.Snapshot.Laws.{
  IsLawful, StandsIn, page_root, get_data-fixture_iff, get_data-rejected, get_data_invariant,
}
use leitstand.Bureau.Parse.{classify_error, parse_snapshot}
use leitstand.Bureau.Parse.Contract.{IsCorrupt, parse_snapshot-IsCorrupt}
use leitstand.Bureau.Board.{ViewData, empty_data, data_from_parsed}
use leitstand.Bureau.Board.Counts.{
  IsConsistent, data_from_parsed-IsConsistent, empty_data-IsConsistent,
}
use leitstand.Bureau.Page.{bureau, get_bureau_data}

abbrev pub kind_of : ViewData → SourceKind
kind_of v = v.view_meta.source_kind

classify_error-cases :
    (m : String) → ((classify_error m).0 ≡ missing) ⊎ ((classify_error m).0 ≡ corrupt)
unfolding classify_error
classify_error-cases m = ground arith

bureau-IsLawful : (H : Host) → IsLawful (bureau H) kind_of
unfolding empty_data data_from_parsed
bureau-IsLawful H = record {
  kind-empty_data = λ k reason path root. refl;
  kind-data_from_parsed = λ p k path reason root. refl;
  classify-cases = classify_error-cases;
}

-- The page always agrees with its tasks: columns, counters and cards, for every source and error.
pub get_bureau_data-IsConsistent :
    (H : Host) (option : Option String) → IsConsistent (get_bureau_data H option)
unfolding get_bureau_data
get_bureau_data-IsConsistent H =
    get_data_invariant H (bureau H) IsConsistent (λ raw p e. data_from_parsed-IsConsistent H p)
      (empty_data-IsConsistent H)

-- The fixture is shown exactly if the artifact is missing, no path was set for it, the fallback is
-- enabled and the fixture itself loads.
pub get_bureau_data-fixture_iff :
    (H : Host) (option : Option String)
    → (kind_of (get_bureau_data H option) ≡ fixture) ↔ StandsIn H (bureau H) option
unfolding get_bureau_data
get_bureau_data-fixture_iff H = get_data-fixture_iff H (bureau H) kind_of (bureau-IsLawful H)

-- An artifact that is JSON but breaks the contract gives the empty board marked corrupt, even where
-- the fallback to the fixture is enabled.
pub get_bureau_data-rejected :
    (H : Host) (option : Option String) (text m : String) (raw : Json)
    → H.read_file (H.resolve (artifact_path H (bureau H) (page_root H (bureau H) option)))
      ≡ done text
    → H.parse_json text ≡ ok raw
    → parse_snapshot raw ≡ err m
    → get_bureau_data H option
      ≡ empty_data H corrupt "bureau_snapshot_corrupt"
          (H.resolve (artifact_path H (bureau H) (page_root H (bureau H) option)))
          (page_root H (bureau H) option)
unfolding get_bureau_data
get_bureau_data-rejected H option text m raw read parsed rejected =
    get_data-rejected H (bureau H) kind_of (bureau-IsLawful H) option raw m text
      "bureau_snapshot_corrupt" read parsed rejected
      (Throws-err IsCorrupt (parse_snapshot raw) m (parse_snapshot-IsCorrupt raw) rejected)
