-- ===== src/Bureau/Tests.antt =====
-- Runs of the task board, and its theorems at concrete data.
use leitstand.Common.{◌≡◌, refl, ◌↔◌, String, Option, none, some, [], ◌∷◌, ok, err}
use leitstand.Common.Text.{lower, same, includes}
use leitstand.Common.Int.{◌-ℤ◌}
use leitstand.Json.{Json, string, array, object, nil, cons, end, member, Items}
use leitstand.Json.Laws.{one}
use leitstand.Host.{Host}
use leitstand.Host.Samples.{sample_host}
use leitstand.Snapshot.{
  artifact, fixture, corrupt, fresh, says, get_data, recover, load_fixture, load_snapshot,
  fixture_fallback_enabled, display_source_path, freshness_within,
}
use leitstand.Snapshot.Laws.{StandsIn}
use leitstand.Bureau.Parse.{
  blocked, Parsed, contract_kind, classify_error, parse_snapshot, normalize_state,
}
use leitstand.Bureau.Parse.Contract.{IsSnapshot, parse_snapshot_iff}
use leitstand.Bureau.Parse.States.{Names, normalize_state_iff}
use leitstand.Bureau.Board.{ViewData, build_columns, empty_data, data_from_parsed}
use leitstand.Bureau.Board.Counts.{IsConsistent}
use leitstand.Bureau.Page.{bureau, get_bureau_data}
use leitstand.Bureau.Page.Laws.{
  kind_of, get_bureau_data-IsConsistent, get_bureau_data-fixture_iff, get_bureau_data-rejected,
}

run : Host → Option String → ViewData
unfolding get_bureau_data get_data recover load_fixture load_snapshot fixture_fallback_enabled
    display_source_path freshness_within parse_snapshot normalize_state classify_error says lower
    same build_columns empty_data data_from_parsed ◌-ℤ◌
run = get_bureau_data

abbrev snapshot : Items → Json
snapshot tasks = object (
    member "schemaVersion" one (
      member "kind" (string contract_kind)
        (member "generatedAt" (string "19 before") (member "tasks" (array tasks) end))))

abbrev entry : String → String → Json
entry id state = object (member "id" (string id) (member "state" (string state) end))

abbrev two_tasks : Json
two_tasks = snapshot (cons (entry "t1" "OPEN") (cons (entry "t2" "stalled") nil))

abbrev nameless : Json
nameless = snapshot (cons (entry "" "open") nil)

abbrev artifact_file : String
artifact_file = "/srv/artifacts/bureau-tasks.json"

abbrev fixture_file : String
fixture_file = "/srv/src/fixtures/bureau-tasks.json"

-- The artifact is there; it is not, and the fixture is; it is there and has a task with no id.
abbrev here : Host
here = sample_host ((artifact_file, ok two_tasks) ∷ []) []

abbrev there : Host
there = sample_host ((fixture_file, ok two_tasks) ∷ []) (("LEITSTAND_STRICT", "0") ∷ [])

abbrev broken : Host
broken =
    sample_host ((artifact_file, ok nameless) ∷ (fixture_file, ok two_tasks) ∷ [])
      (("LEITSTAND_STRICT", "0") ∷ [])

sources :
    ((run here none).view_meta.source_kind ≡ artifact)
    × ((run here none).view_meta.freshness_state ≡ fresh)
    × ((run here none).view_meta.open_count ≡ 2)
    × ((run there none).view_meta.source_kind ≡ fixture)
    × ((run broken none).view_meta.source_kind ≡ corrupt)
    × ((run broken none).view_meta.missing_reason ≡ "bureau_snapshot_corrupt")
unfolding run
sources = (refl, refl, refl, refl, refl, refl)

-- An unreadable file is classed by the `json` in its path.
unreadable :
    classify_error "EACCES: permission denied, open '/srv/artifacts/bureau-tasks.json'"
    ≡ (corrupt, "bureau_snapshot_corrupt")
unfolding classify_error says lower includes
unreadable = refl

parsed : Parsed
unfolding parse_snapshot normalize_state lower same
parsed = elim (parse_snapshot two_tasks) [
  | ok p ↦ p
  | err m ↦ record { tasks = []; generated_at = none; does_not_establish = [] }
]

parsed_two : parse_snapshot two_tasks ≡ ok parsed
unfolding parsed
parsed_two = refl

parse_snapshot_iff_example :
    ((p : Parsed) × (parse_snapshot two_tasks ≡ ok p)) ↔ IsSnapshot two_tasks
parse_snapshot_iff_example = parse_snapshot_iff two_tasks

normalize_state_iff_example :
    (normalize_state (some (string "Stalled")) ≡ blocked) ↔ Names (some (string "Stalled")) blocked
normalize_state_iff_example = normalize_state_iff (some (string "Stalled")) blocked (λ e. cc)

get_bureau_data-IsConsistent_example : IsConsistent (get_bureau_data here none)
get_bureau_data-IsConsistent_example = get_bureau_data-IsConsistent here none

get_bureau_data-fixture_iff_example :
    (kind_of (get_bureau_data there none) ≡ fixture) ↔ StandsIn there (bureau there) none
get_bureau_data-fixture_iff_example = get_bureau_data-fixture_iff there none

rejects : parse_snapshot nameless ≡ err "invalid Bureau task: missing id"
unfolding parse_snapshot
rejects = refl

get_bureau_data-rejected_example :
    get_bureau_data broken none
    ≡ empty_data broken corrupt "bureau_snapshot_corrupt" artifact_file "/srv"
get_bureau_data-rejected_example =
    get_bureau_data-rejected broken none artifact_file "invalid Bureau task: missing id" nameless
      refl refl rejects
