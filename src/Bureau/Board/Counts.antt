-- ===== src/Bureau/Board/Counts.antt =====
-- The board against the task list.
use leitstand.Common.{
  ℕ, ◌+◌, ◌≡◌, refl, true, String, List, [], ◌∷◌, map, filter, count, length, All, filter-All,
  arith, if◌then◌else◌,
}
use leitstand.Host.{Host}
use leitstand.Snapshot.{SourceKind}
use leitstand.Bureau.Parse.{
  TaskState, queued, claimed, running, blocked, done, failed, unknown, TaskView, Parsed,
}
use leitstand.Bureau.Board.{Column, ViewData, is_state, is_open, empty_data, data_from_parsed}

-- How many cards the board shows in columns of a state.
abbrev pub cards : TaskState → List Column → ℕ
cards s [] = 0
cards s (c ∷ cs) = if is_state c.state s then length c.tasks + cards s cs else cards s cs

abbrev pub all_cards : List Column → ℕ
all_cards [] = 0
all_cards (c ∷ cs) = length c.tasks + all_cards cs

-- The page agrees with its tasks: the columns stand in the order of the life cycle, a column holds
-- tasks of its state only, the four counters are the sizes of the columns that they name, and every
-- task has a card but those of unknown state.
pub record IsConsistent (v : ViewData) : Type 0 where
  pub order :
      map (λ c. c.state) v.columns ≡ queued ∷ claimed ∷ running ∷ blocked ∷ done ∷ failed ∷ []
  pub sorted : All (λ c. All (λ t. is_state t.state c.state ≡ true) c.tasks) v.columns
  pub tasks_counted : v.view_meta.task_count ≡ length v.tasks
  pub open_counted :
      v.view_meta.open_count
      ≡ cards queued v.columns
        + cards claimed v.columns
        + cards running v.columns
        + cards blocked v.columns
  pub blocked_counted : v.view_meta.blocked_count ≡ cards blocked v.columns
  pub failed_counted : v.view_meta.failed_count ≡ cards failed v.columns
  pub complete :
      all_cards v.columns + count (λ t. is_state t.state unknown) v.tasks ≡ v.view_meta.task_count

-- The counts of the tasks of each state add up, task by task.
abbrev with_state : TaskState → List TaskView → ℕ
with_state s = count (λ t. is_state t.state s)

-- A task adds one to the count of its state, and to `open` if its state is an open one.
open_eq_sum :
    (ts : List TaskView)
    → count (λ t. is_open t.state) ts
      ≡ with_state queued ts + with_state claimed ts + with_state running ts + with_state blocked ts
open_eq_sum [] = refl
open_eq_sum (t ∷ ts) = ground (arith, open_eq_sum ts)

all_eq_sum :
    (ts : List TaskView)
    → with_state queued ts
        + (with_state claimed ts
            + (with_state running ts
                + (with_state blocked ts + (with_state done ts + (with_state failed ts + 0)))))
        + with_state unknown ts
      ≡ length ts
all_eq_sum [] = refl
all_eq_sum (t ∷ ts) = ground (arith, all_eq_sum ts)

kept :
    (s : TaskState) (ts : List TaskView)
    → All (λ t. is_state t.state s ≡ true) (filter (λ t. is_state t.state s) ts)
kept s ts = filter-All (λ t. is_state t.state s) ts

pub data_from_parsed-IsConsistent :
    (H : Host) (p : Parsed) (kind : SourceKind) (path reason root : String)
    → IsConsistent (data_from_parsed H p kind path reason root)
unfolding data_from_parsed
data_from_parsed-IsConsistent H p kind path reason root =
    let ts = p.tasks in
    record {
      order = refl;
      sorted = (
        kept queued ts,
        (
          kept claimed ts,
          (kept running ts, (kept blocked ts, (kept done ts, (kept failed ts, tt)))),
        ),
      );
      tasks_counted = refl;
      open_counted = omega (arith, open_eq_sum ts);
      blocked_counted = omega arith;
      failed_counted = omega arith;
      complete = omega (arith, all_eq_sum ts);
    }

pub empty_data-IsConsistent :
    (H : Host) (kind : SourceKind) (reason path root : String)
    → IsConsistent (empty_data H kind reason path root)
unfolding empty_data
empty_data-IsConsistent H kind reason path root = record {
  order = refl;
  sorted = (tt, (tt, (tt, (tt, (tt, (tt, tt))))));
  tasks_counted = refl;
  open_counted = refl;
  blocked_counted = refl;
  failed_counted = refl;
  complete = refl;
}
