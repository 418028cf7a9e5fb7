-- ===== src/Checkouts/Tests.antt =====
-- Runs of the inventory, and its theorems at concrete data.
use leitstand.Common.{
  ◌++◌, ◌≡◌, refl, true, String, Option, none, some, List, [], ◌∷◌, ok, err, Pointwise, sort, map,
}
use leitstand.Common.Int.{◌-ℤ◌}
use leitstand.Common.Text.{lower, same}
use leitstand.Json.{Json, boolean, string, array, object, nil, cons, end, member, Items, items, get}
use leitstand.Json.Laws.{one}
use leitstand.Host.{Host}
use leitstand.Host.Samples.{sample_host}
use leitstand.Snapshot.{
  artifact, fixture, corrupt, stale, says, get_data, recover, load_fixture, load_snapshot,
  fixture_fallback_enabled, display_source_path, freshness_within,
}
use leitstand.Checkouts.Parse.{
  orphan, archivable, unknown, retained, Parsed, contract_kind, classify_error, parse_snapshot,
  normalize_retention,
}
use leitstand.Checkouts.Parse.Contract.{IsEntry, parse_snapshot-checkouts}
use leitstand.Checkouts.Inventory.{ViewData, empty_data, data_from_parsed}
use leitstand.Checkouts.Inventory.Counts.{of_retention, IsConsistent, data_from_parsed-checkouts}
use leitstand.Checkouts.Page.{get_checkout_data}
use leitstand.Checkouts.Page.Laws.{get_checkout_data-IsConsistent}

run : Host → Option String → ViewData
unfolding get_checkout_data get_data recover load_fixture load_snapshot fixture_fallback_enabled
    display_source_path freshness_within parse_snapshot normalize_retention classify_error says
    lower same empty_data data_from_parsed sort ◌-ℤ◌
run = get_checkout_data

abbrev snapshot : Items → Json
snapshot entries = object (
    member "schemaVersion" one (
      member "kind" (string contract_kind)
        (member "generatedAt" (string "21 before") (member "checkouts" (array entries) end))))

abbrev entry : String → String → Json
entry path retention = object (
    member "path" (string path)
      (member "retention" (string retention) (member "hasProcess" (boolean true) end)))

abbrev three : Json
three =
    snapshot (cons (entry "/a" "kept") (cons (entry "/b" "Orphaned") (cons (entry "/c" "?") nil)))

abbrev pathless : Json
pathless = snapshot (cons (entry "" "kept") nil)

abbrev artifact_file : String
artifact_file = "/srv/artifacts/checkout-inventory.json"

abbrev fixture_file : String
fixture_file = "/srv/src/fixtures/checkout-inventory.json"

abbrev strict_off : List (String × String)
strict_off = ("LEITSTAND_STRICT", "false") ∷ []

abbrev here : Host
here = sample_host ((artifact_file, ok three) ∷ []) []

abbrev there : Host
there = sample_host ((fixture_file, ok three) ∷ []) strict_off

abbrev broken : Host
broken = sample_host ((artifact_file, ok pathless) ∷ (fixture_file, ok three) ∷ []) strict_off

runs :
    (map (λ c. c.path) (run here none).checkouts ≡ "/b" ∷ "/c" ∷ "/a" ∷ [])
    × ((run here none).view_meta.freshness_state ≡ stale)
    × ((run here none).view_meta.sprawl_count ≡ 0)
    × ((run there none).view_meta.source_kind ≡ fixture)
    × ((run broken none).view_meta.source_kind ≡ corrupt)
unfolding run
runs = (refl, refl, refl, refl, refl)

parsed : Parsed
unfolding parse_snapshot normalize_retention lower same
parsed = elim (parse_snapshot three) [
  | ok p ↦ p
  | err m ↦ record { checkouts = []; generated_at = none; does_not_establish = [] }
]

parsed_three : parse_snapshot three ≡ ok parsed
unfolding parsed
parsed_three = refl

rejects : parse_snapshot pathless ≡ err "invalid checkout entry: missing path"
unfolding parse_snapshot
rejects = refl

parse_snapshot-checkouts_example :
    (us : Items) × (get "checkouts" three ≡ some (array us))
    × Pointwise IsEntry (items us) parsed.checkouts
parse_snapshot-checkouts_example = parse_snapshot-checkouts three parsed parsed_three

data_from_parsed-checkouts_example :
    (data_from_parsed here parsed artifact "" "" "").checkouts
    ≡ of_retention orphan parsed.checkouts
      ++ (of_retention archivable parsed.checkouts
          ++ (of_retention unknown parsed.checkouts ++ of_retention retained parsed.checkouts))
data_from_parsed-checkouts_example = data_from_parsed-checkouts here parsed artifact "" "" ""

get_checkout_data-IsConsistent_example : IsConsistent (get_checkout_data here none)
get_checkout_data-IsConsistent_example = get_checkout_data-IsConsistent here none
