-- ===== src/EcosystemMap/Git/Laws.antt =====
-- The promise of `runGit` settles once, with bounded output.
use leitstand.Common.{
  ℕ, zero, suc, ◌+◌, ◌≤◌, Bool, true, false, ◌||◌, ◌≡◌, refl, ◌∙◌, String, Option, none, some, List,
  [], ◌∷◌, ◌++◌, length, length-append, ltb, arith, inl, inr, Bool-cases,
}
use leitstand.Common.Text.{begin, codes}
use leitstand.Loading.Integrity.Batches.{++-[], ++-assoc}
use leitstand.Host.{
  Host, Activity, stdout_data, stderr_data, timer, Ending, error, close, ChildEvent, active, ended,
  Child,
}
use leitstand.EcosystemMap.Git.{
  GitCommandResult, max_git_output_bytes, RunState, initial, result_of, handle, handle_all, act,
  act_all, end_with, run_child, run_git,
}

-- All that the child has written to `stdout`, and whether the timer has run out.
abbrev pub output_of : List Activity → List ℕ
output_of [] = []
output_of (stdout_data chunk ∷ later) = chunk ++ output_of later
output_of (stderr_data chunk ∷ later) = output_of later
output_of (timer ∷ later) = output_of later

abbrev pub ran_out : List Activity → Bool
ran_out [] = false
ran_out (stdout_data chunk ∷ later) = ran_out later
ran_out (stderr_data chunk ∷ later) = ran_out later
ran_out (timer ∷ later) = true

abbrev pub code_of : Ending → Option ℕ
code_of error = none
code_of (close code) = code

length-begin_le : (n : ℕ) (s : String) → length (codes (begin n s)) ≤ n
unfolding begin
length-begin_le zero s = omega arith
length-begin_le (suc n) String.[] = omega arith
length-begin_le (suc n) (String.◌∷◌ c s) = omega (arith, length-begin_le n s)

-- What holds of the variables while the child runs, after the output `sent`, and `late` says whether
-- the timer has run out.
record IsRunning (sent : List ℕ) (late : Bool) (s : RunState) : Type 0 where
  counted : s.stdout_bytes ≡ length sent
  overflowed : s.output_overflow ≡ ltb max_git_output_bytes (length sent)
  kept : s.output_overflow ≡ false → s.stdout ≡ sent
  bounded : length s.stdout ≤ max_git_output_bytes
  late_is : s.timed_out ≡ late
  killed_is : s.killed ≡ s.timed_out || s.output_overflow
  open_still : s.resolved ≡ none

or-false : (b : Bool) → b || false ≡ b
or-false true = refl
or-false false = refl

or-true : (b c : Bool) → b || true ≡ true || c
or-true true c = refl
or-true false c = refl

module _ (H : Host) where
  chunk-IsRunning :
      (sent chunk : List ℕ) (late : Bool) (s : RunState)
      → IsRunning sent late s
      → IsRunning (sent ++ chunk) late (act H s (stdout_data chunk))
  unfolding act
  chunk-IsRunning sent chunk late s r =
      let total = length-append sent chunk in
      let counted = r.counted in
      elim (Bool-cases (ltb max_git_output_bytes (s.stdout_bytes + length chunk))) [
        | inl e ↦ rw e record {
          counted = omega (arith, total, counted);
          overflowed = ground (arith, total, counted);
          kept = λ h. cc;
          bounded = r.bounded;
          late_is = r.late_is;
          killed_is = ground arith;
          open_still = r.open_still;
        }
        | inr e ↦
            let before : s.output_overflow ≡ false = r.overflowed ∙ ground arith in
            let same = r.kept before in
            rw e record {
              counted = omega (arith, total, counted);
              overflowed = before ∙ ground (arith, total, counted);
              kept = λ h. rw same refl;
              bounded = ground (arith, total, counted, same, length-append s.stdout chunk);
              late_is = r.late_is;
              killed_is = r.killed_is;
              open_still = r.open_still;
            }
      ]

  stderr-IsRunning :
      (sent chunk : List ℕ) (late : Bool) (s : RunState)
      → IsRunning sent late s
      → IsRunning sent late (act H s (stderr_data chunk))
  unfolding act
  stderr-IsRunning sent chunk late s r = record {
    counted = r.counted;
    overflowed = r.overflowed;
    kept = r.kept;
    bounded = r.bounded;
    late_is = r.late_is;
    killed_is = r.killed_is;
    open_still = r.open_still;
  }

  timer-IsRunning :
      (sent : List ℕ) (late : Bool) (s : RunState)
      → IsRunning sent late s
      → IsRunning sent true (act H s timer)
  unfolding act
  timer-IsRunning sent late s r = rw r.open_still record {
    counted = r.counted;
    overflowed = r.overflowed;
    kept = r.kept;
    bounded = r.bounded;
    late_is = refl;
    killed_is = refl;
    open_still = refl;
  }

  act_all-IsRunning :
      (sent : List ℕ) (late : Bool) (s : RunState) (acts : List Activity)
      → IsRunning sent late s
      → IsRunning (sent ++ output_of acts) (late || ran_out acts) (act_all H s acts)
  unfolding act_all
  act_all-IsRunning sent late s [] r = rw (++-[] sent, or-false late) r
  act_all-IsRunning sent late s (stdout_data chunk ∷ acts) r =
      rw (← ++-assoc sent chunk (output_of acts)) (
        act_all-IsRunning (sent ++ chunk) late (act H s (stdout_data chunk)) acts
          (chunk-IsRunning sent chunk late s r))
  act_all-IsRunning sent late s (stderr_data chunk ∷ acts) r =
      act_all-IsRunning sent late (act H s (stderr_data chunk)) acts
        (stderr-IsRunning sent chunk late s r)
  act_all-IsRunning sent late s (timer ∷ acts) r =
      rw (or-true late (ran_out acts))
        (act_all-IsRunning sent true (act H s timer) acts (timer-IsRunning sent late s r))

  -- Once settled, nothing changes the result.
  Keeps : RunState → GitCommandResult → ChildEvent → Type 0
  Keeps s r e = s.resolved ≡ some r → (handle H s e).resolved ≡ some r

  act-Keeps : (s : RunState) (r : GitCommandResult) (a : Activity) → Keeps s r (active a)
  unfolding act Keeps
  act-Keeps s r (stdout_data chunk) h = ground arith
  act-Keeps s r (stderr_data chunk) h = h
  act-Keeps s r timer h = ground arith

  end_with-Keeps : (s : RunState) (r : GitCommandResult) (e : Ending) → Keeps s r (ended e)
  unfolding end_with Keeps
  end_with-Keeps s r error h = rw h refl
  end_with-Keeps s r (close code) h = rw h refl

  handle_all-keeps :
      (s : RunState) (es : List ChildEvent) (r : GitCommandResult)
      → s.resolved ≡ some r
      → (handle_all H s es).resolved ≡ some r
  unfolding handle_all Keeps
  handle_all-keeps s [] r h = h
  handle_all-keeps s (active a ∷ es) r h = handle_all-keeps (act H s a) es r (act-Keeps s r a h)
  handle_all-keeps s (ended e ∷ es) r h =
      handle_all-keeps (end_with H s e) es r (end_with-Keeps s r e h)

  initial-IsRunning : IsRunning [] false initial
  initial-IsRunning = record {
    counted = refl;
    overflowed = refl;
    kept = λ h. refl;
    bounded = omega arith;
    late_is = refl;
    killed_is = refl;
    open_still = refl;
  }

  at_end :
      (child : Child)
      → IsRunning
          (output_of child.earlier)
          (ran_out child.earlier)
          (act_all H initial child.earlier)
  at_end child = act_all-IsRunning [] false initial child.earlier initial-IsRunning

  end_with-settles :
      (s : RunState) (e : Ending)
      → s.resolved ≡ none
      → (end_with H s e).resolved ≡ some (result_of H s (code_of e))
  unfolding end_with
  end_with-settles s error h = rw h refl
  end_with-settles s (close code) h = rw h refl

  -- The promise settles, on the first end of the child, with what had been seen by then; what is
  -- reported later changes nothing. A child whose time has run out or whose output is too long has
  -- been killed before that, and no other.
  pub run_child-settles :
      (child : Child)
      → ((run_child H child).resolved
          ≡ some (result_of H (act_all H initial child.earlier) (code_of child.ending)))
        × ((act_all H initial child.earlier).killed
            ≡ ran_out child.earlier || ltb max_git_output_bytes (length (output_of child.earlier)))
  unfolding run_child
  run_child-settles child =
      let r = at_end child in
      let s = act_all H initial child.earlier in
      (
        handle_all-keeps (end_with H s child.ending) child.later _
            (end_with-settles s child.ending r.open_still),
        r.killed_is ∙ rw (r.late_is, r.overflowed) refl,
      )

  -- The result of a command.
  pub record Reports (child : Child) (r : GitCommandResult) : Type 0 where
    pub code : r.code ≡ code_of child.ending
    pub timed_out : r.timed_out ≡ ran_out child.earlier
    pub output_overflow :
        r.output_overflow ≡ ltb max_git_output_bytes (length (output_of child.earlier))
    pub whole : r.output_overflow ≡ false → r.stdout ≡ output_of child.earlier
    pub stdout_bounded : length r.stdout ≤ max_git_output_bytes
    pub stderr_bounded : length (codes r.stderr) ≤ 2000

  -- The result tells the code of the first end, whether the timer ran out before it, and whether the
  -- output was longer than the limit. Its output is all that the child wrote, unless it tells of an
  -- overflow, and never more than 1,000,000 bytes; the errors are cut at 2,000 characters.
  pub run_git-Reports :
      (source_root : String) (args : List String)
      → Reports (H.spawn "git" ("-C" ∷ source_root ∷ args)) (run_git H source_root args)
  unfolding run_git
  run_git-Reports source_root args =
      let child = H.spawn "git" ("-C" ∷ source_root ∷ args) in
      let r = at_end child in
      let (e, _) = run_child-settles child in
      rw e record {
        code = refl;
        timed_out = r.late_is;
        output_overflow = r.overflowed;
        whole = r.kept;
        stdout_bounded = r.bounded;
        stderr_bounded = length-begin_le 2000 _;
      }
