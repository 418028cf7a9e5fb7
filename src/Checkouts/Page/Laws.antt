-- ===== src/Checkouts/Page/Laws.antt =====
-- What the page of the inventory keeps to, whatever its sources hold.
use leitstand.Common.{◌≡◌, refl, ◌↔◌, ◌⊎◌, String, Option, ok, err, arith, Throws-err}
use leitstand.Json.{Json}
use leitstand.Host.{Host, done}
use leitstand.Snapshot.{SourceKind, fixture, missing, corrupt, artifact_path}
use leitstand.Snapshot.Laws.{
  IsLawful, StandsIn, page_root, get_data-fixture_iff, get_data-rejected, get_data_invariant,
}
use leitstand.Checkouts.Parse.{classify_error, parse_snapshot}
use leitstand.Checkouts.Parse.Contract.{IsCorrupt, parse_snapshot-IsCorrupt}
use leitstand.Checkouts.Inventory.{ViewData, empty_data, data_from_parsed}
use leitstand.Checkouts.Inventory.Counts.{
  IsConsistent, data_from_parsed-IsConsistent, empty_data-IsConsistent,
}
use leitstand.Checkouts.Page.{checkout_inventory, get_checkout_data}

abbrev pub kind_of : ViewData → SourceKind
kind_of v = v.view_meta.source_kind

classify_error-cases :
    (m : String) → ((classify_error m).0 ≡ missing) ⊎ ((classify_error m).0 ≡ corrupt)
unfolding classify_error
classify_error-cases m = ground arith

inventory-IsLawful : (H : Host) → IsLawful (checkout_inventory H) kind_of
unfolding empty_data data_from_parsed
inventory-IsLawful H = record {
  kind-empty_data = λ k reason path root. refl;
  kind-data_from_parsed = λ p k path reason root. refl;
  classify-cases = classify_error-cases;
}

-- The page always agrees with its checkouts: order and counters, for every source and error.
pub get_checkout_data-IsConsistent :
    (H : Host) (option : Option String) → IsConsistent (get_checkout_data H option)
unfolding get_checkout_data
get_checkout_data-IsConsistent H =
    get_data_invariant H (checkout_inventory H) IsConsistent
      (λ raw p e. data_from_parsed-IsConsistent H p) (empty_data-IsConsistent H)

-- The fixture is shown exactly if the artifact is missing, no path was set for it, the fallback is
-- enabled and the fixture itself loads.
pub get_checkout_data-fixture_iff :
    (H : Host) (option : Option String)
    → (kind_of (get_checkout_data H option) ≡ fixture) ↔ StandsIn H (checkout_inventory H) option
unfolding get_checkout_data
get_checkout_data-fixture_iff H =
    get_data-fixture_iff H (checkout_inventory H) kind_of (inventory-IsLawful H)

-- An artifact that is JSON but breaks the contract gives the empty list marked corrupt, even where
-- the fallback to the fixture is enabled.
pub get_checkout_data-rejected :
    (H : Host) (option : Option String) (text m : String) (raw : Json)
    → H.read_file (
        H.resolve
          (artifact_path H (checkout_inventory H) (page_root H (checkout_inventory H) option)))
      ≡ done text
    → H.parse_json text ≡ ok raw
    → parse_snapshot raw ≡ err m
    → get_checkout_data H option
      ≡ empty_data H corrupt "checkout_inventory_corrupt"
          (H.resolve
            (artifact_path H (checkout_inventory H) (page_root H (checkout_inventory H) option)))
          (page_root H (checkout_inventory H) option)
unfolding get_checkout_data
get_checkout_data-rejected H option text m raw read parsed rejected =
    get_data-rejected H (checkout_inventory H) kind_of (inventory-IsLawful H) option raw m text
      "checkout_inventory_corrupt" read parsed rejected
      (Throws-err IsCorrupt (parse_snapshot raw) m (parse_snapshot-IsCorrupt raw) rejected)
