-- ===== src/Bureau/Board.antt =====
-- The board: `buildColumns` and the counts of `emptyData` and `dataFromParsed`.
pub mod Counts
use leitstand.Common.{
  ℕ, Bool, true, false, ◌||◌, String, Option, none, some, List, [], ◌∷◌, map, filter, count, length,
}
use leitstand.Host.{Host}
use leitstand.Snapshot.{
  SourceKind, FreshnessState, freshness_within, display_source_path,
  operational_snapshot_stale_after_ms,
}
use leitstand.Bureau.Parse.{
  TaskState, queued, claimed, running, blocked, done, failed, TaskView, Parsed, default_non_claims,
}

pub record Column : Type 0 where
  pub state : TaskState
  pub label : String
  pub tasks : List TaskView

pub record ViewMeta : Type 0 where
  pub source_kind : SourceKind
  pub source_path : String
  pub source_path_display : String
  pub missing_reason : String
  pub generated_at : Option String
  pub freshness_state : FreshnessState
  pub task_count : ℕ
  pub open_count : ℕ
  pub blocked_count : ℕ
  pub failed_count : ℕ
  pub does_not_establish : List String

pub record ViewData : Type 0 where
  pub tasks : List TaskView
  pub columns : List Column
  pub view_meta : ViewMeta

-- `a === b`
abbrev pub is_state : TaskState → TaskState → Bool
is_state queued queued = true
is_state claimed claimed = true
is_state running running = true
is_state blocked blocked = true
is_state done done = true
is_state failed failed = true
is_state TaskState.unknown TaskState.unknown = true
is_state _ _ = false

abbrev pub column_order : List (TaskState × String)
column_order =
    (queued, "Queued")
    ∷ (claimed, "Claimed")
    ∷ (running, "Running")
    ∷ (blocked, "Blocked")
    ∷ (done, "Done")
    ∷ (failed, "Failed")
    ∷ []

-- `OPEN_STATES.has(state)`
abbrev pub is_open : TaskState → Bool
is_open s = is_state s queued || is_state s claimed || is_state s running || is_state s blocked

unfoldable pub build_columns : List TaskView → List Column
build_columns tasks =
    map
      (λ entry. record {
        state = entry.0;
        label = entry.1;
        tasks = filter (λ task. is_state task.state entry.0) tasks;
      })
      column_order

module _ (H : Host) where
  unfoldable pub empty_data : SourceKind → String → String → String → ViewData
  unfolding build_columns display_source_path
  empty_data kind reason source_path source_root = record {
    tasks = [];
    columns = build_columns [];
    view_meta = record {
      source_kind = kind;
      source_path = source_path;
      source_path_display = display_source_path H source_path source_root;
      missing_reason = reason;
      generated_at = none;
      freshness_state = FreshnessState.unknown;
      task_count = 0;
      open_count = 0;
      blocked_count = 0;
      failed_count = 0;
      does_not_establish = default_non_claims;
    };
  }

  unfoldable pub data_from_parsed : Parsed → SourceKind → String → String → String → ViewData
  unfolding build_columns display_source_path freshness_within
  data_from_parsed parsed source_kind source_path missing_reason source_root = record {
    tasks = parsed.tasks;
    columns = build_columns parsed.tasks;
    view_meta = record {
      source_kind = source_kind;
      source_path = source_path;
      source_path_display = display_source_path H source_path source_root;
      missing_reason = missing_reason;
      generated_at = parsed.generated_at;
      freshness_state = freshness_within H operational_snapshot_stale_after_ms parsed.generated_at;
      task_count = length parsed.tasks;
      open_count = count (λ task. is_open task.state) parsed.tasks;
      blocked_count = count (λ task. is_state task.state blocked) parsed.tasks;
      failed_count = count (λ task. is_state task.state failed) parsed.tasks;
      does_not_establish = parsed.does_not_establish;
    };
  }
