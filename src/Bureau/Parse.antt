-- ===== src/Bureau/Parse.antt =====
-- The validator of the snapshot: `normalizeState`, `classifyError`, `parseTask`, `parseSnapshot`.
pub mod Contract
pub mod States
use leitstand.Common.{
  ℕ, Bool, true, false, not, ◌&&◌, ◌||◌, String, ◌==◌, Option, none, some, List, [], ◌∷◌, Result,
  ok, err, ◌>>=◌, ◌>>◌, require, traverse, if◌then◌else◌,
}
use leitstand.Common.Text.{codes, lower, same}
use leitstand.Json.{
  Json, get, is_object, as_string, string_or, as_array, is_text, is_number, nullable_string,
  string_array, non_empty_or, list_or_throw,
}
use leitstand.Snapshot.{SourceKind, missing, corrupt, says}

pub data TaskState : Type 0 where
  queued claimed running blocked done failed unknown : TaskState

pub record TaskView : Type 0 where
  pub id : String
  pub title : String
  pub state : TaskState
  pub claimant : Option String
  pub repo : Option String
  pub created_at : Option String
  pub updated_at : Option String
  pub receipt_ref : Option String
  pub note : String

pub record Parsed : Type 0 where
  pub tasks : List TaskView
  pub generated_at : Option String
  pub does_not_establish : List String

abbrev pub contract_kind : String
contract_kind = "leitstand_bureau_task_snapshot"

abbrev pub default_non_claims : List String
default_non_claims =
    "task_ownership" ∷ "claim_authority" ∷ "execution_truth" ∷ "dispatch_control"
    ∷ "completion_guarantee" ∷ []

-- `v === word`, for the `v` in lower case.
unfoldable pub is_word : List ℕ → String → Bool
unfolding same
is_word v word = same v (codes word)

unfoldable pub state_of_word : List ℕ → TaskState
unfolding is_word
state_of_word v =
    if is_word v "queued" || is_word v "pending" || is_word v "open"
    then queued
    else if is_word v "claimed" || is_word v "assigned"
    then claimed
    else if is_word v "running" || is_word v "in_progress" || is_word v "active"
    then running
    else if is_word v "blocked" || is_word v "waiting" || is_word v "stalled"
    then blocked
    else if is_word v "done" || is_word v "completed" || is_word v "complete"
    then done
    else if is_word v "failed" || is_word v "error" || is_word v "cancelled" || is_word v "canceled"
    then failed
    else unknown

unfoldable pub normalize_state : Option Json → TaskState
unfolding state_of_word lower
normalize_state value = state_of_word (lower (codes (string_or "" value)))

unfoldable pub classify_error : String → SourceKind × String
classify_error message =
    if says message "enoent" || says message "no such file"
    then (missing, "bureau_snapshot_missing")
    else if says message "json" || says message "invalid" || says message "unexpected"
    then (corrupt, "bureau_snapshot_corrupt")
    else (corrupt, "bureau_snapshot_load_failed")

abbrev task_view : String → Json → TaskView
task_view id task = record {
  id = id;
  title = string_or id (get "title" task);
  state = normalize_state (get "state" task);
  claimant = nullable_string (get "claimant" task);
  repo = nullable_string (get "repo" task);
  created_at = nullable_string (get "createdAt" task);
  updated_at = nullable_string (get "updatedAt" task);
  receipt_ref = nullable_string (get "receiptRef" task);
  note = string_or "" (get "note" task);
}

unfoldable pub parse_task : Json → Result TaskView
parse_task raw = do
  require (is_object raw) "invalid Bureau task: must be object"
  let id = string_or "" (get "id" raw)
  require (not (id == "")) "invalid Bureau task: missing id"
  ok (task_view id raw)

abbrev parsed_snapshot : List TaskView → Json → Parsed
parsed_snapshot tasks snapshot = record {
  tasks = tasks;
  generated_at = as_string (get "generatedAt" snapshot);
  does_not_establish =
      non_empty_or (string_array (get "doesNotEstablish" snapshot)) default_non_claims;
}

unfoldable pub parse_snapshot : Json → Result Parsed
unfolding parse_task
parse_snapshot raw = do
  require (is_object raw) "invalid Bureau snapshot: root must be object"
  require (is_number (get "schemaVersion" raw) 1 && is_text (get "kind" raw) contract_kind)
      "invalid Bureau snapshot: kind or schemaVersion mismatch"
  entries ←
      list_or_throw (as_array (get "tasks" raw)) "invalid Bureau snapshot: tasks must be a list"
  tasks ← traverse parse_task entries
  ok (parsed_snapshot tasks raw)
