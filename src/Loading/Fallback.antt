-- ===== src/Loading/Fallback.antt =====
-- src/utils/loader.ts: `loadWithFallback`.
pub mod Laws
use leitstand.Common.{Bool, true, false, String, ◌<>◌, Option, none, some, if◌then◌else◌}
use leitstand.Json.{Json}
use leitstand.Host.{Host}
use leitstand.Loading.Files.{
  ReadError, ReadOutcome, read, unread, read_json_file, ErrorClass, not_found, empty, corrupt,
  other, class_of, artifact, fixture, missing, LoadResult, load_result,
}

pub record LoadOptions : Type 0 where
  pub strict : Bool
  pub strict_fail : Bool
  pub name : String

-- What is thrown: a new error with a message, or the error of the artifact as it is.
pub data Thrown : Type 0 where
  failure : (message : String) → Thrown
  original : ReadError → Thrown

pub data Outcome : Type 0 where
  gives : LoadResult → Outcome
  throws : Thrown → Outcome

abbrev strict_outcome : String → ErrorClass → Outcome
strict_outcome name corrupt =
    throws (failure ("Strict: " <> name <> " artifact contains invalid JSON"))
strict_outcome name empty = gives (load_result none missing "empty")
strict_outcome name not_found = gives (load_result none missing "enoent")
strict_outcome name other = gives (load_result none missing "unknown")

abbrev try_fixture : ReadOutcome → String → Outcome
try_fixture (read value) reason = gives (load_result (some value) fixture reason)
try_fixture (unread e) reason = gives (load_result none missing "enoent")

abbrev fallback_outcome : String → ReadError → ReadOutcome → ErrorClass → Outcome
fallback_outcome name e fixture_read not_found = try_fixture fixture_read "enoent"
fallback_outcome name e fixture_read empty = try_fixture fixture_read "empty"
fallback_outcome name e fixture_read corrupt =
    throws (failure (name <> " artifact contains invalid JSON"))
fallback_outcome name e fixture_read other = throws (original e)

unfoldable pub load_with_fallback : Host → String → String → LoadOptions → Outcome
load_with_fallback H artifact_path fixture_path o = elim (read_json_file H artifact_path) [
  | read value ↦ gives (load_result (some value) artifact "ok")
  | unread e ↦
      if o.strict_fail
      then throws (failure ("Strict Fail: " <> o.name <> " artifact missing or invalid."))
      else if o.strict
      then strict_outcome o.name (class_of e)
      else fallback_outcome o.name e (read_json_file H fixture_path) (class_of e)
]
