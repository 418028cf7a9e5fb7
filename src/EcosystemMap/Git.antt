-- ===== src/EcosystemMap/Git.antt =====
-- `runGit` of src/controllers/ecosystemMap.ts: the listeners on one child process, as a machine whose
-- steps are the events that Node reports, and whose promise is resolved once.
pub mod Laws
use leitstand.Common.{
  ℕ, ◌+◌, Bool, true, false, String, Option, none, some, List, [], ◌∷◌, ◌++◌, length, ltb,
  if◌then◌else◌,
}
use leitstand.Common.Text.{begin}
use leitstand.Host.{
  Host, Activity, stdout_data, stderr_data, timer, Ending, error, close, ChildEvent, active, ended,
  Child,
}

pub record GitCommandResult : Type 0 where
  pub code : Option ℕ
  pub stdout : List ℕ
  pub stderr : String
  pub timed_out : Bool
  pub output_overflow : Bool

abbrev pub max_git_output_bytes : ℕ
max_git_output_bytes = 1_000_000

-- The variables of the closure: `killed` says that `child.kill` was called, `resolved` is what the
-- promise holds; `settled` is `resolved` not being `none`. `stdout` and `stderr` are the
-- concatenations of the chunks.
pub record RunState : Type 0 where
  pub stdout : List ℕ
  pub stderr : List ℕ
  pub stdout_bytes : ℕ
  pub timed_out : Bool
  pub output_overflow : Bool
  pub killed : Bool
  pub resolved : Option GitCommandResult

abbrev pub initial : RunState
initial = record {
  stdout = [];
  stderr = [];
  stdout_bytes = 0;
  timed_out = false;
  output_overflow = false;
  killed = false;
  resolved = none;
}

module _ (H : Host) where
  -- `slice(0, 2_000)` counts the units of UTF-16, `begin` code points: they differ only for errors that
  -- hold characters beyond U+FFFF.
  abbrev pub result_of : RunState → Option ℕ → GitCommandResult
  result_of s code = record {
    code = code;
    stdout = s.stdout;
    stderr = begin 2000 (H.decode s.stderr);
    timed_out = s.timed_out;
    output_overflow = s.output_overflow;
  }

  abbrev keep_first : Option GitCommandResult → GitCommandResult → Option GitCommandResult
  keep_first (some earlier) result = some earlier
  keep_first none result = some result

  abbrev pub finish : RunState → Option ℕ → RunState
  finish s code = record s { resolved = keep_first s.resolved (result_of s code) }

  -- The listener on the `data` of `stdout`.
  abbrev take_chunk : RunState → List ℕ → RunState
  take_chunk s chunk =
      let total = s.stdout_bytes + length chunk in
      if ltb max_git_output_bytes total
      then record s { stdout_bytes = total; output_overflow = true; killed = true }
      else record s { stdout_bytes = total; stdout = s.stdout ++ chunk }

  abbrev is_settled : Option GitCommandResult → Bool
  is_settled none = false
  is_settled (some r) = true

  -- `finish` clears the timer, so that it does nothing once the promise is settled.
  unfoldable pub act : RunState → Activity → RunState
  act s (stdout_data chunk) = take_chunk s chunk
  act s (stderr_data chunk) = record s { stderr = s.stderr ++ chunk }
  act s timer = if is_settled s.resolved then s else record s { timed_out = true; killed = true }

  unfoldable pub act_all : RunState → List Activity → RunState
  act_all s [] = s
  act_all s (a ∷ rest) = act_all (act s a) rest

  unfoldable pub end_with : RunState → Ending → RunState
  end_with s error = finish s none
  end_with s (close code) = finish s code

  abbrev pub handle : RunState → ChildEvent → RunState
  handle s (active a) = act s a
  handle s (ended e) = end_with s e

  unfoldable pub handle_all : RunState → List ChildEvent → RunState
  handle_all s [] = s
  handle_all s (e ∷ es) = handle_all (handle s e) es

  unfoldable pub run_child : Child → RunState
  run_child child = handle_all (end_with (act_all initial child.earlier) child.ending) child.later

  -- What the promise resolves to. `none` is a promise that is still open, which every child of
  -- `Child` has left behind; the case is there to make the function total.
  abbrev pub settled_result : Option GitCommandResult → GitCommandResult
  settled_result (some r) = r
  settled_result none = result_of initial none

  unfoldable pub run_git : String → List String → GitCommandResult
  run_git source_root args =
      settled_result (run_child (H.spawn "git" ("-C" ∷ source_root ∷ args))).resolved
