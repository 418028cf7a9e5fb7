-- ===== src/RuntimeHealth/Snapshots.antt =====
-- The judgement of one snapshot: `readSnapshotHealth` and what it calls.
pub mod Laws
mod Kinds
use leitstand.Common.{
  ℕ, suc, ◌+◌, ◌*◌, ◌-◌, ◌/◌, Bool, true, false, not, ◌&&◌, String, ◌==◌, Option, none, some, List,
  [], ◌∷◌, Result, ok, err, nat_eq, leb, if◌then◌else◌,
}
use leitstand.Common.Int.{ℤ, pos, negsuc, ◌-ℤ◌, max_zero}
use leitstand.Common.Text.{starts, is_hex}
use leitstand.Json.{
  Json, get, is_object, as_string, is_text, array_length, key_count, is_positive_integer,
  is_some_object, get_in, array, items,
}
use leitstand.Host.{to_ns, Host, FileStat, Fault, Attempt, done, failed}
use leitstand.Snapshot.{text_or, operational_snapshot_stale_after_ms}
unfoldable pub use Kinds.*

pub data CheckStatus : Type 0 where
  pass warn fail unknown : CheckStatus

pub record SnapshotHealth : Type 0 where
  pub status : CheckStatus
  pub reason : String
  pub path : String
  pub path_display : String
  pub exists : Bool
  pub generated_at : Option String
  pub mtime : Option String
  pub age_seconds : Option ℕ
  pub stale_after_seconds : ℕ
  pub kind : Option String
  pub record_count : Option ℕ

abbrev age_since : Host → Option ℤ → Option ℕ
age_since H none = none
age_since H (some source) = some (max_zero (to_ns H.now -ℤ source))

abbrev map_to_ns : Option ℤ → Option ℤ
map_to_ns none = none
map_to_ns (some ms) = some (to_ns ms)

-- `msAge`, in nanoseconds.
unfoldable pub age_ns : Host → Option String → ℤ → Option ℕ
age_ns H none mtime = age_since H (some mtime)
age_ns H (some generated_at) mtime =
    if generated_at == ""
    then age_since H (some mtime)
    else age_since H (map_to_ns (H.parse_date generated_at))

-- `Math.round(ms / 1000)`, of an age in nanoseconds and of a limit in milliseconds.
abbrev pub seconds_of_ns : ℕ → ℕ
seconds_of_ns ns = (ns + 500_000_000) / 1_000_000_000

abbrev pub seconds_of_ms : ℕ → ℕ
seconds_of_ms ms = (ms + 500) / 1000

abbrev age_seconds : Option ℕ → Option ℕ
age_seconds none = none
age_seconds (some ns) = some (seconds_of_ns ns)

abbrev pub is_kind : Option String → String → Bool
is_kind none expected = false
is_kind (some kind) expected = kind == expected

module _ (H : Host) where
  unfoldable pub display_path : String → String → String
  display_path cwd path =
      let rel = H.relative (H.resolve cwd) (H.resolve path) in
      if not (rel == "") && not (starts rel "..") && not (starts rel "/")
      then rel
      else "<external path>"

  unfoldable pub snapshot_path_from_env : SnapshotKind → String → String
  snapshot_path_from_env kind cwd =
      text_or (H.env (path_variable kind)) (H.join (cwd ∷ "artifacts" ∷ file_name kind ∷ []))

  -- `…base`: the path and the limit, with a judgement that is still to be made.
  abbrev base : String → String → ℕ → SnapshotHealth
  base cwd path stale_after_ms = record {
    status = fail;
    reason = "";
    path = path;
    path_display = display_path cwd path;
    exists = false;
    generated_at = none;
    mtime = none;
    age_seconds = none;
    stale_after_seconds = seconds_of_ms stale_after_ms;
    kind = none;
    record_count = none;
  }

  -- The `catch` block: `mtime` is read again unless the file is missing.
  abbrev mtime_again : String → Option String
  mtime_again path = elim (H.stat path) [
    | done file_stat ↦ some (H.to_iso_string file_stat.mtime)
    | failed fault ↦ none
  ]

  unfoldable pub unread : String → String → ℕ → Bool → Bool → SnapshotHealth
  unread cwd path stale_after_ms missing invalid_json =
      let b = base cwd path stale_after_ms in
      record b {
        status = fail;
        reason =
            if missing
            then "snapshot_missing"
            else if invalid_json
            then "snapshot_json_invalid"
            else "snapshot_unreadable";
        exists = not missing;
        mtime = if missing then none else mtime_again path;
      }

  abbrev verdict_status : Bool → Bool → Option ℕ → ℕ → CheckStatus
  verdict_status kind_fits counted none limit = if kind_fits && counted then warn else fail
  verdict_status kind_fits counted (some age) limit =
      if kind_fits && counted then (if leb age limit then pass else warn) else fail

  abbrev verdict_reason : Bool → Bool → Option ℕ → ℕ → String
  verdict_reason kind_fits counted none limit =
      if kind_fits && counted
      then "snapshot_timestamp_unparseable"
      else "snapshot_contract_mismatch"
  verdict_reason kind_fits counted (some age) limit =
      if kind_fits && counted
      then (if leb age limit then "snapshot_fresh" else "snapshot_stale")
      else "snapshot_contract_mismatch"

  abbrev is_counted : Option ℕ → Bool
  is_counted none = false
  is_counted (some n) = true

  -- The three `return`s of the `try` block.
  unfoldable pub judge : SnapshotKind → String → String → ℕ → FileStat → Json → SnapshotHealth
  judge kind cwd path stale_after_ms file_stat parsed =
      let generated_at = snapshot_generated_at parsed in
      let age = age_ns H generated_at file_stat.mtime in
      let record_count = snapshot_record_count kind parsed in
      let kind_value = snapshot_kind parsed in
      let kind_fits = is_kind kind_value (expected_snapshot_kind kind) in
      let limit = stale_after_ms * 1_000_000 in
      let b = base cwd path stale_after_ms in
      record b {
        status = verdict_status kind_fits (is_counted record_count) age limit;
        reason = verdict_reason kind_fits (is_counted record_count) age limit;
        exists = true;
        generated_at = generated_at;
        mtime = some (H.to_iso_string file_stat.mtime);
        age_seconds = age_seconds age;
        kind = kind_value;
        record_count = record_count;
      }

  unfoldable pub read_snapshot_health : SnapshotKind → String → String → ℕ → SnapshotHealth
  read_snapshot_health kind path cwd stale_after_ms =
      let resolved = H.resolve path in
      elim (H.stat resolved) [
        | failed fault ↦ unread cwd resolved stale_after_ms (fault.code == "ENOENT") false
        | done file_stat ↦ elim (H.read_file resolved) [
          | failed fault ↦ unread cwd resolved stale_after_ms (fault.code == "ENOENT") false
          | done text ↦ elim (H.parse_json text) [
            | err message ↦ unread cwd resolved stale_after_ms false true
            | ok parsed ↦ judge kind cwd resolved stale_after_ms file_stat parsed
          ]
        ]
      ]
