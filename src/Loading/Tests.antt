-- ===== src/Loading/Tests.antt =====
-- Runs of the loaders, and their theorems at concrete files.
use leitstand.Common.{
  ◌≡◌, refl, ◌↔◌, true, false, String, ◌==◌, none, some, [], ◌∷◌, filter_map, ok, err, sort_by,
  length, if◌then◌else◌,
}
use leitstand.Common.Text.{trim, trim_start, trim_end, ends, ends_codes, same, text_before}
use leitstand.Json.{Json, string, object, end, member}
use leitstand.Host.{Host, done}
use leitstand.Host.Samples.{sample_host}
use leitstand.Loading.Files.{
  unread, read_json_file, not_found, invalid_json, artifact, fixture, missing, load_result,
}
use leitstand.Loading.Fallback.{LoadOptions, load_with_fallback}
use leitstand.Loading.Fallback.Laws.{
  FallsBack, SourceIsFixture, IsFailure, load_with_fallback-fixture_iff, load_with_fallback-corrupt,
}
use leitstand.Loading.Optional.{OptionalOptions, candidates, try_candidates, load_optional}
use leitstand.Loading.Optional.Laws.{first_readable, load_optional-first_readable}
use leitstand.Loading.Integrity.{
  IntegrityOptions, IntegrityResult, load_integrity_file, json_files, load_directory, add_legacy,
  load_from, load_integrity_summaries,
}
use leitstand.Loading.Integrity.Laws.{
  IsConsistent, load_directory-filter_map, load_integrity_summaries-IsConsistent,
}

abbrev summary : String → Json
summary repo = object (member "repo" (string repo) end)

abbrev bad : String
bad = "Unexpected token in JSON"

abbrev host : Host
host =
    let sample =
      sample_host
        (("a/x.json", ok (summary "x"))
          ∷ ("a/y.json", err bad)
          ∷ ("a/legacy.json", ok (summary "x"))
          ∷ ("f.json", ok (summary "f"))
          ∷ [])
        [] in
    record sample {
      read_dir = λ dir.
          if dir == "a" then done ("y.json" ∷ "x.json" ∷ "notes.txt" ∷ []) else sample.read_dir dir;
    }

abbrev options : IntegrityOptions
options = record {
  artifact_dir = "a";
  legacy_artifact_path = "a/legacy.json";
  fixture_dir = "b";
  legacy_fixture_path = "f.json";
  strict = false;
}

run : Host → IntegrityOptions → IntegrityResult
unfolding load_integrity_summaries load_from add_legacy load_directory json_files
    load_integrity_file read_json_file sort_by trim trim_start trim_end ends ends_codes same
    text_before
run = load_integrity_summaries

runs :
    (length (run host options).summaries ≡ 1)
    × ((run host options).source ≡ artifact)
    × ((run host (record options { artifact_dir = "b"; legacy_artifact_path = "c" })).source
        ≡ fixture)
unfolding run
runs = (refl, refl, refl)

load_integrity_summaries-IsConsistent_example :
    IsConsistent options (load_integrity_summaries host options)
load_integrity_summaries-IsConsistent_example = load_integrity_summaries-IsConsistent host options

load_directory-filter_map_example :
    load_directory host artifact "a"
    ≡ filter_map
        (λ file. load_integrity_file host artifact (host.join ("a" ∷ file ∷ [])))
        (json_files host ("y.json" ∷ "x.json" ∷ "notes.txt" ∷ []))
load_directory-filter_map_example =
    load_directory-filter_map host artifact "a" ("y.json" ∷ "x.json" ∷ "notes.txt" ∷ []) refl

abbrev lax : LoadOptions
lax = record { strict = false; strict_fail = false; name = "Insights" }

load_with_fallback-fixture_iff_example :
    SourceIsFixture (load_with_fallback host "none.json" "f.json" lax)
    ↔ FallsBack host "none.json" "f.json" lax
load_with_fallback-fixture_iff_example =
    load_with_fallback-fixture_iff host "none.json" "f.json" lax

corrupt_read : read_json_file host "a/y.json" ≡ unread (invalid_json "a/y.json" bad)
unfolding read_json_file trim trim_start trim_end
corrupt_read = refl

load_with_fallback-corrupt_example : IsFailure (load_with_fallback host "a/y.json" "f.json" lax)
load_with_fallback-corrupt_example =
    load_with_fallback-corrupt host "a/y.json" "f.json" "a/y.json" bad lax corrupt_read

abbrev optional : OptionalOptions
optional = record { allow_fixture_fallback = true; primary_source = artifact }

worst_reason :
    load_optional host "none.json" (some "a/y.json") optional
    ≡ load_result none missing "invalid-json"
unfolding load_optional try_candidates read_json_file trim trim_start trim_end
worst_reason = refl

load_optional-first_readable_example :
    load_optional host "none.json" (some "a/y.json") optional
    ≡ first_readable host not_found (candidates "none.json" (some "a/y.json") optional)
load_optional-first_readable_example =
    load_optional-first_readable host "none.json" (some "a/y.json") optional
