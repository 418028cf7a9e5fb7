-- ===== src/RepoBrief/Tests.antt =====
-- A configured index, one that leaves its directory, and the theorem at them.
use leitstand.Common.{◌≡◌, refl, false, true, String, [], ◌∷◌, map, ok}
use leitstand.Common.Int.{◌-ℤ◌}
use leitstand.Common.Text.{lower, includes, begins, starts, split}
use leitstand.Json.{Json, number, boolean, finite, string, array, object, nil, cons, end, member}
use leitstand.Json.Laws.{one}
use leitstand.Host.{Host}
use leitstand.Host.Samples.{sample_host}
use leitstand.Snapshot.{says, stale, corrupt}
use leitstand.RepoBrief.Parse.{
  contract_kind, normalize_status, is_safe_browser_pointer, parse_bundle, parse_index,
  classify_error,
}
use leitstand.RepoBrief.Page.{
  ViewData, empty_data, freshness_of, missing_reason_of, configured_bundle_index, data_age_seconds,
  data_from_parsed, load, get_repo_brief_data,
}

run : Host → ViewData
unfolding get_repo_brief_data configured_bundle_index load parse_index parse_bundle
    is_safe_browser_pointer normalize_status classify_error empty_data data_from_parsed freshness_of
    missing_reason_of data_age_seconds says lower includes begins starts split ◌-ℤ◌
run = get_repo_brief_data

abbrev bundle : String → Json
bundle manifest = object (
    member "repo" (string "r") (
      member "bundleStem" (string "s") (
        member "bundleDirectory" (string "d/e") (
          member "bundleManifest" (string manifest) (
            member "agentReadingPack" (string "p") (
              member "canonicalDump" (string "c")
                (member "publicExportReady" (boolean true) end)))))))

abbrev index : String → String → Json
index date manifest = object (
    member "schemaVersion" one (
      member "kind" (string contract_kind) (
        member "generatedAt" (string date) (
          member "staleAfterSeconds" (number (finite false 1200 0)) (
            member "sourceStatus" (string "available")
              (member "bundles" (array (cons (bundle manifest) nil)) end))))))

abbrev host : Json → Host
host content =
    sample_host (("/srv/i.json", ok content) ∷ [])
      (("LEITSTAND_REPOBRIEF_BUNDLES_PATH", "/srv/i.json") ∷ [])

runs :
    (map (λ b. b.bundle_manifest) (run (host (index "20 before" "d/m.json"))).bundles
      ≡ "d/m.json" ∷ [])
    × ((run (host (index "20 before" "m"))).view_meta.public_export_ready_count ≡ 1)
    × ((run (host (index "21 before" "m"))).view_meta.freshness_state ≡ stale)
    × ((run (host (index "noon" "d/../../m"))).view_meta.source_kind ≡ corrupt)
unfolding run
runs = (refl, refl, refl, refl)
