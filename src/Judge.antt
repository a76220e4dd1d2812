-- ===== src/Judge.antt =====
-- `JudgeCore` of Judger/JudgeCore.h and Judger/JudgeCore.cpp: one judgement, from the compilation to
-- the removal of its files.
pub mod Removal
pub mod Submission
pub mod Codes
pub mod Loop
pub mod Round
pub mod Score
pub mod Passed
pub mod Outcome
pub mod LastTest
pub mod CleanUp
use online_judger.Common.{
  ℕ, zero, suc, ◌+◌, Bool, true, false, Option, none, some, if◌then◌else◌, Bytes,
}
use online_judger.Common.Int.{ℤ, pos, max_ℤ}
use online_judger.Config.{Config}
use online_judger.Excuter.{Exc, command_overflows, compile, debug_runner, matcher}
use online_judger.Os.{Os, Deletion, deleted, not_found, refused}
use online_judger.Task.{Task, Rate, set_test_data_index, get_test_data_count}

module _ (os : Os) where
  open os use {World, delete_file, sleep}

  -- the loop of `safeRemoveFile`, with the attempts that are left
  unfoldable pub safe_remove_loop : ℕ → Bytes → World → Bool × World
  safe_remove_loop zero name w = (false, w)
  safe_remove_loop (suc n) name w =
      let r = delete_file name w in
      elim r.0 [
        | deleted ↦ (true, r.1)
        | not_found ↦ (true, r.1)
        | refused ↦ safe_remove_loop n name (sleep 1000 r.1)
      ]

  unfoldable pub safe_remove_file : Bytes → World → Bool × World
  unfolding safe_remove_loop
  safe_remove_file name w = safe_remove_loop 10 name w

-- `m_compiler`, `m_runner`, `m_mather` and `m_finishCB`
pub record JudgeCore (os : Os) (config : Config) : Type 0 where
  pub compiler : Exc os config
  pub runner : Exc os config
  pub mather : Exc os config
  pub finish_cb : Option (Task → os.World → os.World)

-- `createJudgeCore`
abbrev pub create_judge_core :
    (os : Os) (config : Config) → Option (Task → os.World → os.World) → JudgeCore os config
create_judge_core os config cb = record {
  compiler = compile os config;
  runner = debug_runner os config;
  mather = matcher os config;
  finish_cb = cb;
}

-- the variables of the loop over the test data
pub record Run (os : Os) : Type 0 where
  pub task : Task
  pub world : os.World
  pub max_time : ℤ
  pub max_memory : ℤ
  pub accepted : ℕ

module _ (os : Os) where
  open os use {World}

  -- the variables as they are declared
  abbrev pub start_run : Task → World → Run os
  start_run t w = record { task = t; world = w; max_time = pos 0; max_memory = pos 0; accepted = 0 }

  -- the assignments behind the loop
  abbrev pub sum_up : Run os → Task
  sum_up r = record (r.task) {
    pass_rate = record { accepted = r.accepted; count = get_test_data_count r.task };
    run_time = r.max_time;
    run_memory = r.max_memory;
  }

  -- the end of `doJudge`, by what came of the loop
  abbrev pub conclude : Option (Bool × Run os) → Option (Bool × Task × World)
  conclude none = none
  conclude (some (true, r)) = some (true, sum_up r, r.world)
  conclude (some (false, r)) = some (false, r.task, r.world)

-- how a round of the loop ends: with the next round, by `break`, or by `return false`
pub data Next : Type 0 where
  go_on stop give_up : Next

module _ (os : Os) (config : Config) (core : JudgeCore os config) where
  open os use {World}
  open core use {compiler, runner, mather, finish_cb}

  -- the matcher, called only behind a run that succeeds; the flag says whether it accepted
  unfoldable pub match_run : Bool × Task × World → Bool × Task × World
  match_run (false, t, w) = (false, t, w)
  match_run (true, t, w) = mather t w

  -- The end of a round, by whether the program ran, what the matcher left, and what came of the
  -- removal of the output file.
  unfoldable pub end_round : Run os → Bool → Bool × Task × World → Bool × World → Next × Run os
  end_round r ran (passed, t, w) (true, w') = (
    if ran then go_on else stop,
    record {
      task = t;
      world = w';
      max_time = max_ℤ r.max_time t.run_time;
      max_memory = max_ℤ r.max_memory t.run_memory;
      accepted = if passed then suc r.accepted else r.accepted;
    },
  )
  end_round r ran (passed, t, w) (false, w') = (
    give_up,
    record r {
      task = record t { result = config.je_system };
      world = w';
      accepted = if passed then suc r.accepted else r.accepted;
    },
  )

  -- a round on a task that is set to its test data
  unfoldable pub judge_round : Run os → Task → Next × Run os
  unfolding match_run end_round
  judge_round r t =
      let ran = runner t r.world in
      let matched = match_run ran in
      end_round r ran.0 matched (safe_remove_file os matched.1.exe_output matched.2)

  -- The loop from round `i`, with the rounds left. The flag is false where it returns; none stands
  -- for the failed assertion of `setTestDataIndex`.
  unfoldable pub judge_loop : ℕ → ℕ → Run os → Option (Bool × Run os)
  judge_loop zero i r = some (true, r)
  judge_loop (suc n) i r = elim (set_test_data_index r.task i) [
    | none ↦ none
    | some t ↦
        let round = judge_round r t in
        elim round.0 [
          | go_on ↦ judge_loop n (suc i) round.1
          | stop ↦ some (true, round.1)
          | give_up ↦ some (false, round.1)
        ]
  ]

  -- `doJudge`
  unfoldable pub do_judge : Task → World → Option (Bool × Task × World)
  unfolding judge_loop
  do_judge t w =
      let compiled = compiler t w in
      if compiled.0
      then elim (get_test_data_count compiled.1) [
        | zero ↦ some (false, record (compiled.1) { result = config.je_system }, compiled.2)
        | suc n ↦ conclude os (judge_loop (suc n) 0 (start_run os compiled.1 compiled.2))
      ]
      else some (false, compiled.1, compiled.2)

  -- `onTaskFinish`
  abbrev pub on_task_finish : Task → World → World
  on_task_finish t w = elim finish_cb [ none ↦ w | some cb ↦ cb t w ]

  -- `doCleanUp`
  unfoldable pub do_clean_up : Task → World → Bool × World
  do_clean_up t w =
      let code = safe_remove_file os t.code_file w in
      if code.0
      then (let output = safe_remove_file os t.compiler_output code.1 in
          if output.0
          then (let exe_output = safe_remove_file os t.exe_output output.1 in
              if exe_output.0
              then safe_remove_file os t.exe_name exe_output.1
              else (false, exe_output.1))
          else (false, output.1))
      else (false, code.1)

  -- the end of `judge`, by what came of `doJudge`, whose flag is not read
  unfoldable pub finish : Option (Bool × Task × World) → Option (Bool × Task × World)
  finish none = none
  finish (some (b, t, w)) =
      let cleaned = do_clean_up t (on_task_finish t w) in some (cleaned.0, t, cleaned.1)

  -- `judge`
  unfoldable pub judge : Task → World → Option (Bool × Task × World)
  judge t w = finish (do_judge t w)

-- `judge` with the core of `createJudgeCore`. The first thing that it calls is `CppCompiler::exc`, which
-- can end the program.
pub judge_program :
    (os : Os) (config : Config)
    → Option (Task → os.World → os.World)
    → Task
    → os.World
    → Option (Bool × Task × os.World)
unfolding command_overflows
judge_program os config cb t w =
    if command_overflows os config t w
    then none
    else judge os config (create_judge_core os config cb) t w
