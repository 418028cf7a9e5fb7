-- ===== src/EcosystemMap/Samples.antt =====
-- A manifest, a canonical head and a host on which the map is fresh.
use leitstand.Common.{ℕ, String, List, [], ◌∷◌, Result, ok, true, false, some}
use leitstand.Common.Int.{pos}
use leitstand.Json.{Json, number, finite, string, array, object, nil, cons, Items, end, member}
use leitstand.Json.Laws.{one}
use leitstand.Host.{Host, done, stdout_data, close}
use leitstand.Host.Samples.{sample_host}
use leitstand.EcosystemMap.Manifest.{
  Expected, artifact_contract, manifest_kind, manifest_schema_path, manifest_mode,
  does_not_establish_contract,
}

abbrev pub head : String
head = "0123456789abcdef0123456789abcdef01234567"

abbrev pub digest : String
digest = "0123456789abcdef0123456789abcdef0123456789abcdef0123456789abcdef"

abbrev pub number_json : ℕ → Json
number_json n = number (finite false n 0)

abbrev pub artifact_json : Expected → Json
artifact_json e = object (
    member "role" (string e.role) (
      member "path" (string e.path) (
        member "contentType" (string e.content_type)
          (member "bytes" one (member "sha256" (string digest) end)))))

abbrev pub all_json : List Expected → Items
all_json [] = nil
all_json (e ∷ es) = cons (artifact_json e) (all_json es)

abbrev pub texts_json : List String → Items
texts_json [] = nil
texts_json (s ∷ ss) = cons (string s) (texts_json ss)

abbrev pub manifest_json : Json
manifest_json = object (
    member "schemaVersion" one (
      member "kind" (string manifest_kind) (
        member "contractVersion" (string "1") (
          member "schemaPath" (string manifest_schema_path) (
            member "mode" (string manifest_mode) (
              member "source"
                (object (
                  member "repository" (string "heimgewebe/systemkatalog")
                    (member "commit" (string head) (member "generatedAt" (string "noon") end))))
                (member "artifactCount" (number_json 6) (
                  member "artifacts" (array (all_json artifact_contract)) (
                    member "doesNotEstablish" (array (texts_json does_not_establish_contract))
                      end)))))))))

abbrev pub head_json : Json
head_json = object (
    member "schemaVersion" one (
      member "kind" (string "leitstand_source_head_snapshot") (
        member "repository" (string "heimgewebe/systemkatalog") (
          member "ref" (string "refs/heads/main") (
            member "status" (string "available")
              (member "generatedAt" (string "noon") (member "head" (string head) end)))))))

-- Each file holds one byte, and each Git command succeeds and writes one byte.
abbrev pub with_map : Host → Host
with_map host = record host {
  lstat = λ path. done (record {
    is_directory = false;
    is_file = true;
    is_symbolic_link = false;
    size = 1;
    mtime = pos 0;
  });
  read_bytes = λ path. done (1 ∷ []);
  decode = λ bytes. head;
  sha256 = λ bytes. digest;
  spawn = λ command args. record {
    earlier = stdout_data (1 ∷ []) ∷ [];
    ending = close (some 0);
    later = [];
  };
}

abbrev pub map_files : List (String × Result Json)
map_files =
    ("/srv/artifacts/ecosystem-map-artifact-manifest.json", ok manifest_json)
    ∷ ("/srv/artifacts/ecosystem-map-current-head.json", ok head_json)
    ∷ []

abbrev pub map_host : Host
map_host = with_map (sample_host map_files [])
