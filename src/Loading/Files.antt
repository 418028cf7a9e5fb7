-- ===== src/Loading/Files.antt =====
-- src/utils/fs.ts: `readJsonFile`, its two errors, and `getTransportTimestamp`.
use leitstand.Common.{String, ◌==◌, Option, none, some, ok, err, if◌then◌else◌}
use leitstand.Common.Text.{trim}
use leitstand.Json.{Json}
use leitstand.Host.{Host, Fault, done, failed}

-- `EmptyFileError`, `InvalidJsonError`, and an error of the file system.
pub data ReadError : Type 0 where
  empty_file : (path : String) → ReadError
  invalid_json : (path message : String) → ReadError
  system : Fault → ReadError

pub data ReadOutcome : Type 0 where
  read : Json → ReadOutcome
  unread : ReadError → ReadOutcome

unfoldable pub read_json_file : Host → String → ReadOutcome
read_json_file H path = elim (H.read_file path) [
  | failed fault ↦ unread (system fault)
  | done content ↦
      if trim content == "" then unread (empty_file path) else elim (H.parse_json content) [
        | ok value ↦ read value
        | err message ↦ unread (invalid_json path message)
      ]
]

unfoldable pub get_transport_timestamp : Host → Option String → Option String
get_transport_timestamp H none = none
get_transport_timestamp H (some path) = if path == "" then none else elim (H.stat path) [
  | failed fault ↦ none
  | done file_stat ↦ some (H.to_iso_string file_stat.mtime)
]

-- The path that the error is about is left out; what is left is its class.
pub data ErrorClass : Type 0 where
  not_found empty corrupt other : ErrorClass

-- `code === 'ENOENT'`, which the two classes of its own do not have.
abbrev pub class_of : ReadError → ErrorClass
class_of (empty_file path) = empty
class_of (invalid_json path message) = corrupt
class_of (system fault) = if fault.code == "ENOENT" then not_found else other

pub data LoadSource : Type 0 where
  artifact fixture missing : LoadSource

pub record LoadResult : Type 0 where
  pub data_read : Option Json
  pub source : LoadSource
  pub reason : String

abbrev pub load_result : Option Json → LoadSource → String → LoadResult
load_result data_read source reason = record {
  data_read = data_read;
  source = source;
  reason = reason;
}
