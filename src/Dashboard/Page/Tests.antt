-- ===== src/Dashboard/Page/Tests.antt =====
-- A host on which all five sources are fresh artifacts.
use leitstand.Common.{◌≡◌, refl, false, String, List, [], ◌∷◌, ok, Result, sort_by, sort}
use leitstand.Common.Int.{◌-ℤ◌}
use leitstand.Common.Text.{
  trim, trim_start, trim_end, starts, begins, begin, lower, same, includes, split, is_hex,
  text_before,
}
use leitstand.Json.{Json, string, array, object, number, finite, nil, end, member}
use leitstand.Json.Laws.{one}
use leitstand.Host.{Host}
use leitstand.Host.Samples.{sample_host, sorts_before}
use leitstand.Snapshot.{get_data, load_snapshot, freshness_within, display_source_path}
use leitstand.Bureau.Page.{get_bureau_data}
use leitstand.Bureau.Parse
use leitstand.Bureau.Board
use leitstand.Checkouts.Page.{get_checkout_data}
use leitstand.Checkouts.Parse as CheckoutParse
use leitstand.Checkouts.Inventory
use leitstand.StorageHealth.Samples.{good}
use leitstand.StorageHealth.Values.{
  object_value, string_value, number_value, bounded_integer, nullable_number, truth_value,
  parse_producer, parse_violation, parse_blocker, parse_unowned, parse_notification, bounded_list,
}
use leitstand.StorageHealth.Series.{assert_increasing}
use leitstand.StorageHealth.Truth.{count_truth}
use leitstand.StorageHealth.Current.{parse_current}
use leitstand.StorageHealth.Parse as StorageParse
use leitstand.StorageHealth.Page as Storage
use leitstand.RepoBrief.Page as Repo
use leitstand.RepoBrief.Parse as RepoParse
use leitstand.EcosystemMap.Git.{run_git, run_child, act, act_all, end_with, handle_all}
use leitstand.EcosystemMap.Manifest.{
  parse_manifest, check_identity, parse_source, parse_artifacts, parse_artifact, has_exact_keys,
}
use leitstand.EcosystemMap.Alignment.{
  read_canonical_head_inspection, judge_head, inspect_alignment, inspect_head, inspect_commit,
  inspect_ancestry, compare_heads, commit_matches, combine_freshness,
}
use leitstand.EcosystemMap.Artifacts.{
  inspect_current_artifact, inspect_file, resolve_artifact_path, digest_matches,
}
use leitstand.EcosystemMap.Page.{
  get_ecosystem_map_data, data_from_manifest, read_manifest, source_root_for_manifest,
  configured_stale_after_hours, age_freshness,
}
use leitstand.EcosystemMap.Page.Laws.{IsFresh}
use leitstand.EcosystemMap.Samples.{with_map, map_files}
use leitstand.Dashboard.Sources.{safe_load, summarize_source}
use leitstand.Dashboard.Summary.{healthy, summarize_dashboard}
use leitstand.Dashboard.Page.{
  bureau_source, checkout_source, storage_source, map_source, repo_source, dashboard_sources,
  get_dashboard_data,
}
use leitstand.Dashboard.Page.Laws.{AllFresh, get_dashboard_data-AllFresh}

abbrev snapshot : String → String → Json
snapshot kind list = object (
    member "schemaVersion" one (
      member "kind" (string kind)
        (member "generatedAt" (string "noon") (member list (array nil) end))))

abbrev index : Json
index = object (
    member "schemaVersion" one (
      member "kind" (string RepoParse.contract_kind) (
        member "generatedAt" (string "noon") (
          member "staleAfterSeconds" (number (finite false 1200 0))
            (member "sourceStatus" (string "available") (member "bundles" (array nil) end))))))

abbrev files : List (String × Result Json)
files =
    ("/srv/artifacts/bureau-tasks.json", ok (snapshot Parse.contract_kind "tasks"))
    ∷ (
      "/srv/artifacts/checkout-inventory.json",
      ok (snapshot CheckoutParse.contract_kind "checkouts"),
    )
    ∷ ("/srv/artifacts/storage-health.json", ok good)
    ∷ ("/srv/artifacts/repoground-bundles.json", ok index)
    ∷ map_files

abbrev well : Host
well = with_map (
    sample_host files
      (("LEITSTAND_REPOGROUND_BUNDLES_PATH", "/srv/artifacts/repoground-bundles.json") ∷ []))

all_is_well : (get_dashboard_data well).summary.state ≡ healthy
unfolding get_dashboard_data dashboard_sources bureau_source checkout_source storage_source
    map_source repo_source safe_load summarize_dashboard summarize_source get_bureau_data
    get_checkout_data get_data load_snapshot freshness_within display_source_path
    Parse.parse_snapshot Board.build_columns Board.data_from_parsed CheckoutParse.parse_snapshot
    Inventory.data_from_parsed sort Storage.get_storage_health_data Storage.data_from_parsed
    StorageParse.parse_snapshot StorageParse.parsed_snapshot parse_current assert_increasing
    object_value string_value number_value bounded_integer nullable_number truth_value
    parse_producer parse_violation parse_blocker parse_unowned parse_notification bounded_list
    count_truth text_before sorts_before Repo.get_repo_brief_data Repo.configured_bundle_index
    Repo.load RepoParse.parse_index Repo.data_from_parsed Repo.freshness_of Repo.data_age_seconds
    get_ecosystem_map_data data_from_manifest read_manifest source_root_for_manifest
    configured_stale_after_hours age_freshness parse_manifest check_identity parse_source
    parse_artifacts parse_artifact has_exact_keys is_hex sort_by read_canonical_head_inspection
    judge_head inspect_alignment inspect_head inspect_commit inspect_ancestry compare_heads
    commit_matches combine_freshness inspect_current_artifact inspect_file resolve_artifact_path
    digest_matches run_git run_child act act_all end_with handle_all trim trim_start trim_end starts
    begins begin lower same includes split ◌-ℤ◌
all_is_well = refl

get_dashboard_data-AllFresh_example : AllFresh well × IsFresh well (get_ecosystem_map_data well)
get_dashboard_data-AllFresh_example = get_dashboard_data-AllFresh well all_is_well
