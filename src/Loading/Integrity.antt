-- ===== src/Loading/Integrity.antt =====
-- src/utils/integrity.ts: `loadIntegritySummaries`.
pub mod Batches
pub mod Laws
use leitstand.Common.{
  ℕ, zero, suc, ◌+◌, ◌-◌, Bool, true, false, not, String, ◌==◌, Option, none, some, List, [], ◌∷◌,
  ◌++◌, take, filter, filter_map, find, sort_by, ltb, length, if◌then◌else◌, ◌&&◌, nat_eq,
}
use leitstand.Common.Text.{ends, text_before}
use leitstand.Json.{
  Json, JsonNumber, finite, infinite, null, boolean, number, string, array, object, Members, end,
  member, get,
}
use leitstand.Host.{Host, Attempt, done, failed}
use leitstand.Loading.Files.{
  ReadOutcome, read, unread, read_json_file, LoadSource, artifact, fixture, missing,
}

pub record IntegrityOptions : Type 0 where
  pub artifact_dir : String
  pub legacy_artifact_path : String
  pub fixture_dir : String
  pub legacy_fixture_path : String
  pub strict : Bool

pub record IntegrityResult : Type 0 where
  pub summaries : List Json
  pub source : LoadSource
  pub reason : String

abbrev pub source_name : LoadSource → String
source_name artifact = "artifact"
source_name fixture = "fixture"
source_name missing = "missing"

abbrev pub max_concurrent_file_loads : ℕ
max_concurrent_file_loads = 10

-- `json._source = label`: the member is replaced where it is, or added at the end.
abbrev pub set_member : String → Json → Members → Members
set_member key v end = member key v end
set_member key v (member k u rest) =
    let later = set_member key v rest in if k == key then member k v rest else member k u later

-- An array takes the property too, but nothing reads it from there; a value that is no object is not
-- taken.
abbrev pub tagged : LoadSource → Json → Option Json
tagged label (object ms) = some (object (set_member "_source" (string (source_name label)) ms))
tagged label (array vs) = some (array vs)
tagged label _ = none

-- `a === b` on numbers and on values that may be `undefined`; two parsed objects are never the same.
abbrev same_bool : Bool → Bool → Bool
same_bool true b = b
same_bool false b = not b

abbrev same_number : JsonNumber → JsonNumber → Bool
same_number (finite a w f) (finite b v g) =
    nat_eq w v && nat_eq f g && (if nat_eq w 0 && nat_eq f 0 then true else same_bool a b)
same_number (infinite a) (infinite b) = same_bool a b
same_number _ _ = false

abbrev pub same_value : Option Json → Option Json → Bool
same_value none none = true
same_value (some null) (some null) = true
same_value (some (boolean a)) (some (boolean b)) = same_bool a b
same_value (some (number a)) (some (number b)) = same_number a b
same_value (some (string a)) (some (string b)) = a == b
same_value _ _ = false

abbrev pub drop {ℓ} : {A : Type ℓ} → ℕ → List A → List A
drop zero xs = xs
drop (suc n) [] = []
drop (suc n) (x ∷ xs) = drop n xs

-- `xs.slice(i, j)`
abbrev pub slice {ℓ} : {A : Type ℓ} → ℕ → ℕ → List A → List A
slice i j xs = take (j - i) (drop i xs)

-- The loop over the batches, from the index `i` on; each turn pushes what its batch gave. As many
-- turns as there are files are more than enough.
abbrev pub load_batches {ℓ} :
    {A : Type ℓ} → ℕ → (String → Option A) → List String → ℕ → List A → List A
load_batches zero load files i loaded = loaded
load_batches (suc fuel) load files i loaded =
    let batch = slice i (i + max_concurrent_file_loads) files in
    let rest =
      load_batches fuel load files (i + max_concurrent_file_loads)
        (loaded ++ filter_map load batch) in
    if ltb i (length files) then rest else loaded

module _ (H : Host) where
  unfoldable pub load_integrity_file : LoadSource → String → Option Json
  load_integrity_file label path = elim (read_json_file H path) [
    | unread e ↦ none
    | read value ↦ tagged label value
  ]

  abbrev sorts_before : String → String → Bool
  sorts_before a b = not (text_before b a)

  unfoldable pub json_files : List String → List String
  unfolding sort_by
  json_files files = sort_by sorts_before (filter (λ f. ends f ".json") files)

  -- A directory that cannot be listed gives nothing.
  unfoldable pub load_directory : LoadSource → String → List Json
  load_directory label dir = elim (H.read_dir dir) [
    | failed fault ↦ []
    | done files ↦
        let found = json_files files in
        load_batches (length found) (λ file. load_integrity_file label (H.join (dir ∷ file ∷ [])))
          found 0 []
  ]

  -- The legacy summary joins the others unless one of them is of the same repository.
  unfoldable pub add_legacy : Option Json → List Json → List Json
  add_legacy none summaries = summaries
  add_legacy (some legacy) summaries =
      elim (find (λ s. same_value (get "repo" s) (get "repo" legacy)) summaries) [
        | some s ↦ summaries
        | none ↦ summaries ++ (legacy ∷ [])
      ]

  unfoldable pub load_from : LoadSource → String → String → List Json
  load_from label dir legacy_path =
      add_legacy (load_integrity_file label legacy_path) (load_directory label dir)

  abbrev result_of : List Json → LoadSource → String → IntegrityResult
  result_of summaries source reason = record {
    summaries = summaries;
    source = source;
    reason = reason;
  }

  abbrev or_missing : List Json → LoadSource → String → IntegrityResult → IntegrityResult
  or_missing [] source reason other = other
  or_missing (s ∷ ss) source reason other = result_of (s ∷ ss) source reason

  unfoldable pub load_integrity_summaries : IntegrityOptions → IntegrityResult
  load_integrity_summaries o =
      let absent = result_of [] missing "enoent" in
      or_missing (load_from artifact o.artifact_dir o.legacy_artifact_path) artifact "ok" (
        if o.strict
        then absent
        else or_missing (load_from fixture o.fixture_dir o.legacy_fixture_path) fixture "fallback"
            absent)
