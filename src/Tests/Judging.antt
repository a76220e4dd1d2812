-- ===== src/Tests/Judging.antt =====
-- The judge on a concrete machine.
use online_judger.Common.{
  ◌≡◌, ◌<◌, ◌⊎◌, ℕ, arith, refl, Bool, true, false, [], ◌∷◌, none, some, codes,
}
use online_judger.Common.Int.{pos}
use online_judger.Excuter.{compile, debug_runner, judge_debug_run, matcher, compare_files, int_of}
use online_judger.Matcher.{compare, compare_loop, compare_rest}
use online_judger.Watcher.{do_watch}
use online_judger.FileTool.{get_file_name}
use online_judger.Text.{find_last_of}
use online_judger.Config.{new_config}
use online_judger.Process.{debug_start}
use online_judger.Task.{Task, set_test_data_index}
use online_judger.Judge.{
  Run, judge_round, start_run, do_judge, judge, judge_program, judge_loop, match_run, end_round,
  finish, do_clean_up, safe_remove_file, safe_remove_loop,
}
use online_judger.Judge.Codes.{IsVerdict, judge_program-IsVerdict}
use online_judger.Judge.Loop.{Rounds}
use online_judger.Judge.Outcome.{do_judge_returns}
use online_judger.Judge.LastTest.{IsOfLast, last_test_decides}
use online_judger.Judge.Passed.{FailsAt}
use online_judger.Cell.{work}
use online_judger.Cell.Worker.{IsWorked, work-IsWorked}
use online_judger.Judge.CleanUp.{CleanedUp, judge-CleanedUp}
use online_judger.Tests.Machine.{
  test_os, test_task, test_task-IsCoherent, test_core, test_laws, no_files, test_judged,
}

do_judge_returns_example :
    (x : Bool × Task × Bool) × (do_judge test_os new_config test_core test_task true ≡ some x)
do_judge_returns_example =
    do_judge_returns test_os new_config test_core test_laws test_task true test_task-IsCoherent

judge_program-IsVerdict_example :
    (b : Bool) × (u : Task) × (w' : Bool) × (judge_program test_os new_config none test_task true
      ≡ some (b, u, w'))
    × IsVerdict new_config u.result
judge_program-IsVerdict_example =
    judge_program-IsVerdict test_os new_config none test_task true test_task-IsCoherent
      (omega arith)

do_judge-test :
    do_judge test_os new_config test_core test_task true ≡ some (true, test_judged, false)
unfolding do_judge judge_loop judge_round match_run end_round safe_remove_file safe_remove_loop
    compile debug_runner judge_debug_run matcher compare_files compare compare_loop compare_rest
    set_test_data_index do_watch debug_start get_file_name int_of find_last_of
do_judge-test = refl

-- a task without test data
abbrev empty_task : Task
empty_task = record test_task { test_data = [] }

do_judge_empty :
    do_judge test_os new_config test_core empty_task true
    ≡ some (false, record empty_task { result = pos 10 }, true)
unfolding do_judge compile
do_judge_empty = refl

judge-test : judge test_os new_config test_core test_task true ≡ some (true, test_judged, false)
unfolding judge finish do_clean_up safe_remove_file safe_remove_loop
judge-test = rw (do_judge-test) refl

judge-CleanedUp_example : CleanedUp test_os no_files test_judged false
judge-CleanedUp_example =
    judge-CleanedUp test_os no_files new_config test_core test_task test_judged true false
      judge-test

-- the first round: the task set to its data, and the state behind it, with the result "wrong answer"
abbrev first_task : Task
first_task = record test_task {
  cur_test_data_index = pos 0;
  cur_input_test_data = codes "1000\\a.in";
  cur_output_test_data = codes "1000\\a.out";
}

abbrev first_run : Run test_os
first_run = record {
  task = record first_task { result = pos 6 };
  world = false;
  max_time = pos 0;
  max_memory = pos 0;
  accepted = 0;
}

abbrev last_task : Task
last_task = record first_task {
  result = pos 6;
  cur_test_data_index = pos 1;
  cur_input_test_data = codes "1000\\b.in";
  cur_output_test_data = codes "1000\\b.out";
}

abbrev last_run : Run test_os
last_run = record first_run { task = record last_task { result = pos 4 }; accepted = 1 }

last_test_decides_example :
    ((j : ℕ) × (s : Run test_os) × (j < 2)
      × Rounds test_os new_config test_core 0 (start_run test_os test_task true) j s
      × FailsAt test_os new_config test_core j s)
    ⊎ IsOfLast test_os new_config test_core (start_run test_os test_task true) 1 test_judged.result
unfolding compile
last_test_decides_example =
    last_test_decides test_os new_config test_core test_laws test_task test_judged true false 1
      test_task-IsCoherent refl do_judge-test

-- one wrong and one right answer give the result "accepted", 4
both_rounds :
    judge_loop test_os new_config test_core 2 0 (start_run test_os test_task true)
    ≡ some (true, last_run)
unfolding judge_loop judge_round match_run end_round safe_remove_file safe_remove_loop debug_runner
    judge_debug_run matcher compare_files compare compare_loop compare_rest set_test_data_index
    do_watch debug_start get_file_name int_of find_last_of
both_rounds = refl

work-IsWorked_example :
    IsWorked test_os new_config test_core
      (some test_task ∷ none ∷ [])
      true
      (work test_os new_config test_core (some test_task ∷ none ∷ []) true)
work-IsWorked_example =
    work-IsWorked test_os new_config test_core test_laws (some test_task ∷ none ∷ []) true
      (test_task-IsCoherent, tt)
