-- ===== src/EcosystemMap/Manifest.antt =====
-- The manifest of the map's artifacts: `hasExactKeys` and `parseManifest`.
pub mod Contract
use leitstand.Common.{
  ℕ, suc, Bool, true, false, not, ◌&&◌, ◌||◌, String, ◌==◌, ◌<>◌, Option, none, some, List, [], ◌∷◌,
  sort_by, Result, ok, err, ◌>>=◌, ◌>>◌, require, nat_eq, leb, length, if◌then◌else◌,
}
use leitstand.Common.Text.{text_before, is_hex, print}
use leitstand.Json.{
  Json, number, string, object, finite, Members, end, member, get, is_record, as_string, as_array,
  is_text, is_number, list_or_throw,
}
use leitstand.Common.Int.{ℤ}
use leitstand.Host.{Host}

pub record Expected : Type 0 where
  pub role : String
  pub path : String
  pub content_type : String

pub record ManifestArtifact : Type 0 where
  pub role : String
  pub path : String
  pub content_type : String
  pub bytes : ℕ
  pub sha256 : String

pub record ManifestSource : Type 0 where
  pub repository : String
  pub commit : String
  pub generated_at : String

pub record Manifest : Type 0 where
  pub schema_version : ℕ
  pub kind : String
  pub contract_version : String
  pub schema_path : String
  pub mode : String
  pub source : ManifestSource
  pub artifact_count : ℕ
  pub artifacts : List ManifestArtifact
  pub does_not_establish : List String

abbrev pub manifest_kind : String
manifest_kind = "system_catalog_map_artifact_manifest"

abbrev pub manifest_schema_path : String
manifest_schema_path = "catalog/ecosystem-map-artifact-manifest.schema.v1.json"

abbrev pub manifest_mode : String
manifest_mode = "read_only_projection_source"

abbrev expect : String → String → String → Expected
expect role path content_type = record { role = role; path = path; content_type = content_type }

abbrev pub map_role : String
map_role = "canonical_ecosystem_map_mermaid"

abbrev pub nodes_role : String
nodes_role = "registry_nodes"

abbrev pub artifact_contract : List Expected
artifact_contract =
    expect "canonical_ecosystem_map_mermaid" "rendered/ecosystem-registry-map.mmd" "text/mermaid"
    ∷ expect "rendered_catalog_markdown" "rendered/system-catalog.md" "text/markdown"
    ∷ expect "registry_nodes" "registry/ecosystem/nodes.json" "application/json"
    ∷ expect "registry_edges" "registry/ecosystem/edges.json" "application/json"
    ∷ expect "authority_matrix" "registry/ecosystem/authority-matrix.v1.json" "application/json"
    ∷ expect "resilience_semantics" "registry/ecosystem/resilience.v1.json" "application/json"
    ∷ []

abbrev pub does_not_establish_contract : List String
does_not_establish_contract =
    "claim_truth" ∷ "runtime_correctness" ∷ "merge_readiness"
    ∷ "system_catalog_registry_correctness" ∷ "consumer_view_correctness"
    ∷ "render_success_validates_map" ∷ []

abbrev keys : Members → List String
keys end = []
keys (member k v rest) = k ∷ keys rest

abbrev sorts_before : String → String → Bool
sorts_before a b = not (text_before b a)

-- The comparison place by place, of lists of one length.
abbrev pub same_texts : List String → List String → Bool
same_texts [] [] = true
same_texts (s ∷ ss) (t ∷ ts) = s == t && same_texts ss ts
same_texts _ _ = false

-- Only an object is asked for its keys.
unfoldable pub has_exact_keys : Json → List String → Bool
unfolding sort_by
has_exact_keys (object ms) expected =
    same_texts (sort_by sorts_before (keys ms)) (sort_by sorts_before expected)
has_exact_keys _ expected = false

-- `item.bytes as number`, where it is an integer of 1 or more.
abbrev positive_integer : Option Json → Option ℕ
positive_integer (some (number (finite false whole fraction))) =
    if leb 1 whole && nat_eq fraction 0 then some whole else none
positive_integer _ = none

abbrev some_or_throw {ℓ} : {A : Type ℓ} → Option A → String → Result A
some_or_throw none message = err message
some_or_throw (some a) message = ok a

abbrev pub is_commit : String → Bool
is_commit s = is_hex 40 s

abbrev message_at : String → ℕ → String
message_at what index = "invalid ecosystem map manifest: " <> what <> " at " <> print index

abbrev pub artifact_keys : List String
artifact_keys = "role" ∷ "path" ∷ "contentType" ∷ "bytes" ∷ "sha256" ∷ []

abbrev pub source_keys : List String
source_keys = "repository" ∷ "commit" ∷ "generatedAt" ∷ []

abbrev pub manifest_keys : List String
manifest_keys =
    "schemaVersion" ∷ "kind" ∷ "contractVersion" ∷ "schemaPath" ∷ "mode" ∷ "source"
    ∷ "artifactCount" ∷ "artifacts" ∷ "doesNotEstablish" ∷ []

abbrev is_expected : Expected → Json → Bool
is_expected expected item =
    is_text (get "role" item) expected.role
    && is_text (get "path" item) expected.path
    && is_text (get "contentType" item) expected.content_type

unfoldable pub parse_artifact : ℕ → Expected → Json → Result ManifestArtifact
parse_artifact index expected item = do
  require (is_record item && has_exact_keys item artifact_keys)
      (message_at "artifact fields mismatch" index)
  require (is_expected expected item) (message_at "artifact contract mismatch" index)
  bytes ←
      some_or_throw (positive_integer (get "bytes" item))
        (message_at "artifact bytes mismatch" index)
  sha256 ←
      some_or_throw (as_string (get "sha256" item)) (message_at "artifact sha256 mismatch" index)
  require (is_hex 64 sha256) (message_at "artifact sha256 mismatch" index)
  ok (record {
    role = expected.role;
    path = expected.path;
    content_type = expected.content_type;
    bytes = bytes;
    sha256 = sha256;
  })

-- `raw.artifacts.map((item, index) => …)`, with `ARTIFACT_CONTRACT[index]`; the lengths are the same.
unfoldable pub parse_artifacts : ℕ → List Expected → List Json → Result (List ManifestArtifact)
parse_artifacts index (e ∷ es) (item ∷ rest) = do
  artifact ← parse_artifact index e item
  artifacts ← parse_artifacts (suc index) es rest
  ok (artifact ∷ artifacts)
parse_artifacts index _ _ = ok []

abbrev is_each_text : List Json → List String → Bool
is_each_text [] [] = true
is_each_text (v ∷ vs) (t ∷ ts) = is_text (some v) t && is_each_text vs ts
is_each_text _ _ = false

abbrev is_list_of : Option (List Json) → List String → Bool
is_list_of none ts = false
is_list_of (some vs) ts = is_each_text vs ts

module _ (H : Host) where
  abbrev has_time : Option ℤ → Bool
  has_time none = false
  has_time (some ts) = true

  unfoldable pub check_identity : Json → Result (Unit {0})
  check_identity raw = do
    require (is_record raw) "invalid ecosystem map manifest: root must be object"
    require (has_exact_keys raw manifest_keys) "invalid ecosystem map manifest: fields mismatch"
    require (is_number (get "schemaVersion" raw) 1 && is_text (get "kind" raw) manifest_kind)
        "invalid ecosystem map manifest: identity mismatch"
    require
        (is_text (get "contractVersion" raw) "1"
          && is_text (get "schemaPath" raw) manifest_schema_path)
        "invalid ecosystem map manifest: contract binding mismatch"
    require (is_text (get "mode" raw) manifest_mode) "invalid ecosystem map manifest: mode mismatch"

  -- The source, of a value that may be `undefined`.
  unfoldable pub parse_source : Option Json → Result ManifestSource
  parse_source value = do
    raw ← some_or_throw value "invalid ecosystem map manifest: source fields mismatch"
    require (is_record raw && has_exact_keys raw source_keys)
        "invalid ecosystem map manifest: source fields mismatch"
    require (is_text (get "repository" raw) "heimgewebe/systemkatalog")
        "invalid ecosystem map manifest: source repository mismatch"
    commit ←
        some_or_throw (as_string (get "commit" raw))
          "invalid ecosystem map manifest: source commit mismatch"
    require (is_commit commit) "invalid ecosystem map manifest: source commit mismatch"
    generated_at ←
        some_or_throw (as_string (get "generatedAt" raw))
          "invalid ecosystem map manifest: generatedAt mismatch"
    require (has_time (H.date_of (string generated_at)))
        "invalid ecosystem map manifest: generatedAt mismatch"
    ok (record {
      repository = "heimgewebe/systemkatalog";
      commit = commit;
      generated_at = generated_at;
    })

  unfoldable pub parse_manifest : Json → Result Manifest
  parse_manifest raw = do
    check_identity raw
    source ← parse_source (get "source" raw)
    items ←
        list_or_throw (as_array (get "artifacts" raw))
          "invalid ecosystem map manifest: artifacts missing or count mismatch"
    require (is_number (get "artifactCount" raw) 6 && nat_eq (length items) 6)
        "invalid ecosystem map manifest: artifacts missing or count mismatch"
    artifacts ← parse_artifacts 0 artifact_contract items
    require (is_list_of (as_array (get "doesNotEstablish" raw)) does_not_establish_contract)
        "invalid ecosystem map manifest: non-claims mismatch"
    ok (record {
      schema_version = 1;
      kind = manifest_kind;
      contract_version = "1";
      schema_path = manifest_schema_path;
      mode = manifest_mode;
      source = source;
      artifact_count = 6;
      artifacts = artifacts;
      does_not_establish = does_not_establish_contract;
    })
