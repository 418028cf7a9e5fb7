-- ===== src/EcosystemMap/Tests.antt =====
-- A fresh map, a Git command that writes too much, and the theorems at them.
use leitstand.Common.{
  ◌≡◌, refl, ◌↔◌, ◌||◌, true, false, none, some, [], ◌∷◌, Result, ok, length, ltb,
}
use leitstand.Common.Text.{codes, starts, begins}
use leitstand.Json.{Json, string, array, object, nil, cons, end, member}
use leitstand.Json.Laws.{one}
use leitstand.Host.{Host, Child, stdout_data, timer, ended, close, error}
use leitstand.Host.Samples.{sample_host}
use leitstand.EcosystemMap.Git.{
  initial, result_of, act_all, run_child, run_git, max_git_output_bytes,
}
use leitstand.EcosystemMap.Git.Laws.{Reports, run_child-settles, run_git-Reports, output_of}
use leitstand.EcosystemMap.Calendar.{
  Fields, is_exact_calendar_date, match_date, days_in_month, is_leap,
}
use leitstand.EcosystemMap.Calendar.Laws.{IsDate, written, is_exact_calendar_date_iff}
use leitstand.EcosystemMap.Manifest.{Manifest, parse_manifest}
use leitstand.EcosystemMap.Samples.{manifest_json, map_host}
use leitstand.EcosystemMap.Links
use leitstand.EcosystemMap.Links.Laws
use leitstand.EcosystemMap.Page.{MapView, get_ecosystem_map_data}
use leitstand.EcosystemMap.Page.Consistency

leap_day : is_exact_calendar_date "2024-02-29" ≡ true
unfolding is_exact_calendar_date match_date days_in_month is_leap
leap_day = refl

no_leap_day : is_exact_calendar_date "2100-02-29" ≡ false
unfolding is_exact_calendar_date match_date days_in_month is_leap
no_leap_day = refl

is_exact_calendar_date_iff_example :
    (is_exact_calendar_date "2024-02-29" ≡ true)
    ↔ ((f : Fields) × IsDate f × (codes "2024-02-29" ≡ written f))
is_exact_calendar_date_iff_example = is_exact_calendar_date_iff "2024-02-29"

run_git-Reports_example :
    Reports map_host
      (map_host.spawn "git" ("-C" ∷ "/srv" ∷ "status" ∷ []))
      (run_git map_host "/srv" ("status" ∷ []))
run_git-Reports_example = run_git-Reports map_host "/srv" ("status" ∷ [])

-- It is killed when its time is up, and an error is reported after its end.
abbrev late_child : Child
late_child = record {
  earlier = stdout_data (1 ∷ []) ∷ timer ∷ [];
  ending = close none;
  later = ended error ∷ [];
}

run_child-settles_example :
    ((run_child map_host late_child).resolved
      ≡ some (result_of map_host (act_all map_host initial late_child.earlier) none))
    × ((act_all map_host initial late_child.earlier).killed
        ≡ true || ltb max_git_output_bytes (length (output_of late_child.earlier)))
run_child-settles_example = run_child-settles map_host late_child

abbrev parsed_manifest : Result Manifest
parsed_manifest = parse_manifest map_host manifest_json

abbrev fresh_map : MapView
fresh_map = get_ecosystem_map_data map_host

get_ecosystem_map_data-IsConsistent_example : Consistency.IsConsistent fresh_map
get_ecosystem_map_data-IsConsistent_example =
    Consistency.get_ecosystem_map_data-IsConsistent map_host

-- A contract with one link.
abbrev links_json : Json
links_json = object (
    member "schemaVersion" one (
      member "kind" (string Links.contract_kind) (
        member "mappings"
          (array (
            cons
              (object (
                member "nodeId" (string "bureau") (
                  member "label" (string "Bureau") (
                    member "status" (string "linked") (
                      member "links"
                        (array (
                          cons
                            (object (
                              member "view" (string "bureau") (
                                member "href" (string "/bureau")
                                  (member "title" (string "Tasks") end))))
                            nil))
                        end)))))
              nil))
          end)))

abbrev links_host : Host
links_host = sample_host (("/srv/src/fixtures/ecosystem-map-links.json", ok links_json) ∷ []) []

links_are_read : (Links.load_ecosystem_cross_links links_host).link_meta.missing_reason ≡ "ok"
unfolding Links.load_ecosystem_cross_links Links.parse_contract Links.parse_link Links.parse_target
    Links.check_unique starts begins
links_are_read = refl

load_ecosystem_cross_links-IsConsistent_example :
    Laws.IsConsistent (Links.load_ecosystem_cross_links links_host)
load_ecosystem_cross_links-IsConsistent_example =
    Laws.load_ecosystem_cross_links-IsConsistent links_host
