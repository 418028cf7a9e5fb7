-- ===== src/Loading/Optional.antt =====
-- src/utils/loader.ts: `loadOptional`.
pub mod Laws
use leitstand.Common.{
  Bool, true, false, ◌&&◌, String, Option, none, some, List, [], ◌∷◌, if◌then◌else◌,
}
use leitstand.Json.{Json}
use leitstand.Host.{Host}
use leitstand.Loading.Files.{
  ReadError, ReadOutcome, read, unread, read_json_file, ErrorClass, not_found, empty, corrupt,
  other, class_of, LoadSource, fixture, missing, LoadResult, load_result,
}

-- The four flags of the loop, and whether an error was seen at all (`lastErr`).
pub record Seen : Type 0 where
  pub had_corruption : Bool
  pub had_empty : Bool
  pub had_enoent : Bool
  pub had_other_error : Bool
  pub had_error : Bool

abbrev pub nothing_seen : Seen
nothing_seen = record {
  had_corruption = false;
  had_empty = false;
  had_enoent = false;
  had_other_error = false;
  had_error = false;
}

-- The `catch` block.
abbrev pub note_class : ErrorClass → Seen → Seen
note_class corrupt s = record s { had_corruption = true; had_error = true }
note_class empty s = record s { had_empty = true; had_error = true }
note_class not_found s = record s { had_enoent = true; had_error = true }
note_class other s = record s { had_other_error = true; had_error = true }

abbrev pub reason_of : Seen → String
reason_of s =
    if s.had_other_error
    then "error"
    else if s.had_corruption
    then "invalid-json"
    else if s.had_empty
    then "empty"
    else if s.had_enoent
    then "enoent"
    else if s.had_error
    then "error"
    else "enoent"

pub record OptionalOptions : Type 0 where
  pub allow_fixture_fallback : Bool
  pub primary_source : LoadSource

abbrev pub candidates : String → Option String → OptionalOptions → List (String × LoadSource)
candidates artifact_path none o = (artifact_path, o.primary_source) ∷ []
candidates artifact_path (some fixture_path) o =
    if o.allow_fixture_fallback
    then (artifact_path, o.primary_source) ∷ (fixture_path, fixture) ∷ []
    else (artifact_path, o.primary_source) ∷ []

-- The loop over the candidates, and what follows it.
unfoldable pub try_candidates : Host → List (String × LoadSource) → Seen → LoadResult
try_candidates H [] seen = load_result none missing (reason_of seen)
try_candidates H ((path, source) ∷ rest) seen = elim (read_json_file H path) [
  | read value ↦ load_result (some value) source "ok"
  | unread e ↦ try_candidates H rest (note_class (class_of e) seen)
]

unfoldable pub load_optional : Host → String → Option String → OptionalOptions → LoadResult
unfolding try_candidates
load_optional H artifact_path fixture_path o =
    try_candidates H (candidates artifact_path fixture_path o) nothing_seen
