-- ===== src/RepoBrief/Parse.antt =====
-- `normalizeStatus`, `classifyError`, `isSafeBrowserPointer`, `parseBundle`, `parseIndex`.
pub mod Bundles
use leitstand.Common.{
  ℕ, Bool, true, false, not, ◌&&◌, ◌||◌, String, ◌==◌, Option, none, some, List, [], ◌∷◌, Result,
  ok, err, ◌>>=◌, ◌>>◌, require, traverse, any, all, nat_eq, leb, if◌then◌else◌,
}
use leitstand.Common.Text.{codes, starts, split}
use leitstand.Json.{
  Json, number, finite, get, is_object, as_string, string_or, as_array, is_text, is_true, is_number,
  string_array, non_empty_or, list_or_throw,
}
use leitstand.Snapshot.{SourceKind, missing, corrupt, says}

pub data BriefStatus : Type 0 where
  good warn fail unknown : BriefStatus

pub data SourceStatus : Type 0 where
  available unavailable unspecified : SourceStatus

pub record BundleView : Type 0 where
  pub repo : String
  pub bundle_stem : String
  pub bundle_directory : String
  pub bundle_manifest : String
  pub agent_reading_pack : String
  pub canonical_dump : String
  pub source_commit : Option String
  pub snapshot_status : BriefStatus
  pub preflight_status : BriefStatus
  pub export_safety : BriefStatus
  pub public_export_ready : Bool
  pub summary : String
  pub required_artifacts : List String
  pub warnings : List String

pub record Parsed : Type 0 where
  pub bundles : List BundleView
  pub generated_at : Option String
  pub stale_after_seconds : Option ℕ
  pub source_status : SourceStatus
  pub warnings : List String
  pub does_not_establish : List String

abbrev pub contract_kind : String
contract_kind = "leitstand_repobrief_bundle_index"

abbrev pub default_non_claims : List String
default_non_claims =
    "repo_understanding" ∷ "public_export_safety" ∷ "review_completeness" ∷ "runtime_correctness"
    ∷ "test_sufficiency" ∷ []

unfoldable pub normalize_status : Option Json → BriefStatus
normalize_status v =
    if is_text v "ok" || is_text v "pass"
    then good
    else if is_text v "warn" || is_text v "warning"
    then warn
    else if is_text v "fail" || is_text v "failed" || is_text v "error"
    then fail
    else unknown

unfoldable pub classify_error : String → SourceKind × String
classify_error message =
    if says message "enoent" || says message "no such file"
    then (missing, "repobrief_bundle_index_missing")
    else if says message "json" || says message "invalid" || says message "unexpected"
    then (corrupt, "repobrief_bundle_index_corrupt")
    else (corrupt, "repobrief_bundle_index_load_failed")

-- `isAbsolute` of a POSIX path: it starts with a slash.
unfoldable pub is_safe_browser_pointer : String → Bool
is_safe_browser_pointer value =
    not (value == "")
    && not (starts value "/")
    && not (any (nat_eq 0x5c) (codes value))
    && not (any (λ piece. piece == "..") (split b'/' value))

abbrev bundle_view : String → String → String → String → String → String → Json → BundleView
bundle_view repo stem directory manifest pack dump bundle = record {
  repo = repo;
  bundle_stem = stem;
  bundle_directory = directory;
  bundle_manifest = manifest;
  agent_reading_pack = pack;
  canonical_dump = dump;
  source_commit = as_string (get "sourceCommit" bundle);
  snapshot_status = normalize_status (get "snapshotStatus" bundle);
  preflight_status = normalize_status (get "preflightStatus" bundle);
  export_safety = normalize_status (get "exportSafety" bundle);
  public_export_ready = is_true (get "publicExportReady" bundle);
  summary = string_or "" (get "summary" bundle);
  required_artifacts = string_array (get "requiredArtifacts" bundle);
  warnings = string_array (get "warnings" bundle);
}

abbrev is_named : String → Bool
is_named s = not (s == "")

unfoldable pub parse_bundle : Json → Result BundleView
parse_bundle raw = do
  require (is_object raw) "invalid RepoBrief bundle: must be object"
  let repo = string_or "" (get "repo" raw)
  let stem = string_or "" (get "bundleStem" raw)
  let directory = string_or "" (get "bundleDirectory" raw)
  let manifest = string_or "" (get "bundleManifest" raw)
  let pack = string_or "" (get "agentReadingPack" raw)
  let dump = string_or "" (get "canonicalDump" raw)
  require (all is_named (repo ∷ stem ∷ directory ∷ manifest ∷ pack ∷ dump ∷ []))
      "invalid RepoBrief bundle: missing required path fields"
  require (all is_safe_browser_pointer (directory ∷ manifest ∷ pack ∷ dump ∷ []))
      "invalid RepoBrief bundle: browser pointers must be relative and traversal-free"
  ok (bundle_view repo stem directory manifest pack dump raw)

-- A number that is an integer and positive.
abbrev positive_integer : Option Json → Option ℕ
positive_integer (some (number (finite false whole fraction))) =
    if nat_eq fraction 0 && leb 1 whole then some whole else none
positive_integer _ = none

abbrev source_status_of : Option Json → SourceStatus
source_status_of v =
    if is_text v "available"
    then available
    else if is_text v "unavailable"
    then unavailable
    else unspecified

abbrev parsed_index : List BundleView → Json → Parsed
parsed_index bundles index = record {
  bundles = bundles;
  generated_at = as_string (get "generatedAt" index);
  stale_after_seconds = positive_integer (get "staleAfterSeconds" index);
  source_status = source_status_of (get "sourceStatus" index);
  warnings = string_array (get "warnings" index);
  does_not_establish =
      non_empty_or (string_array (get "doesNotEstablish" index)) default_non_claims;
}

unfoldable pub parse_index : Json → Result Parsed
unfolding parse_bundle
parse_index raw = do
  require (is_object raw) "invalid RepoBrief bundle index: root must be object"
  require (is_number (get "schemaVersion" raw) 1 && is_text (get "kind" raw) contract_kind)
      "invalid RepoBrief bundle index: kind or schemaVersion mismatch"
  entries ←
      list_or_throw (as_array (get "bundles" raw))
        "invalid RepoBrief bundle index: bundles must be a list"
  bundles ← traverse parse_bundle entries
  ok (parsed_index bundles raw)
