-- ===== src/Tests/Machine.antt =====
-- A machine, a task and a core for the tests.
use online_judger.Common.{
  refl, Bool, true, false, List, [], ◌∷◌, none, some, if◌then◌else◌, Bytes, codes, bytes_eq,
}
use online_judger.Common.Int.{pos, negsuc}
use online_judger.Config.{new_config}
use online_judger.Os.{Os, deleted}
use online_judger.Process.{create_process, exit_process}
use online_judger.Task.{Task, blank_task}
use online_judger.Task.Data.{IsCoherent}
use online_judger.Judge.{JudgeCore, create_judge_core}
use online_judger.Judge.Loop.{CoreLaws, create_judge_core-CoreLaws}
use online_judger.Judge.CleanUp.{FileLaws}

-- A machine with two test data for each problem and programs that all print "1 2". The world says
-- whether the files of a judgement are there.
abbrev pub test_os : Os
test_os = record {
  World = Bool;
  has_file = λ _ w. w;
  delete_file = λ _ w. (deleted, false);
  create_directory = λ _ w. (true, w);
  find = λ _ _.
      record { file_name = codes "a.out"; is_dot = false; is_dir = false }
      ∷ record { file_name = codes "b.out"; is_dot = false; is_dir = false }
      ∷ [];
  read_text =
      λ name _. some (if bytes_eq name (codes "1000\\a.out") then codes "3" else codes "1 2");
  read_binary = λ _ _. some (codes "<cores>2</cores>\r\n");
  write_text = λ _ s w. none;
  sleep = λ _ w. w;
  create_process = λ _ _ _ w. (true, w);
  wait_exit = λ _ w. (0, w);
  debug_run = λ w. (
    record {
      events = create_process ∷ exit_process 0 ∷ [];
      samples = [];
      last = record { time = 100; memory = 100 };
      exit_code = 0;
    },
    w,
  );
  job_run = λ w.
      (record { assigned = true; messages = []; total_user_time = 0; peak_process_memory = 0 }, w);
}

abbrev pub test_data : List Bytes
test_data = codes "1000\\a.out" ∷ codes "1000\\b.out" ∷ []

abbrev pub test_task : Task
test_task = record (blank_task (pos 1) (pos 1000) (codes "u") (pos 0) (pos 1000) (pos 1) (pos 32)) {
  test_data = test_data;
  cur_test_data_index = negsuc 0;
  code_file = codes "work\\1.cpp";
  exe_output = codes "work\\1.out";
}

pub test_task-IsCoherent : IsCoherent test_task
test_task-IsCoherent i e h = absurd cc

abbrev pub test_core : JudgeCore test_os new_config
test_core = create_judge_core test_os new_config none

abbrev pub test_laws : CoreLaws test_os new_config test_core
test_laws = create_judge_core-CoreLaws test_os new_config none

abbrev pub no_files : FileLaws test_os
no_files = record {
  removes = λ _ _ _. refl;
  deletion_makes_none = λ _ _ _ _. refl;
  sleep_makes_none = λ _ _ _ h. h;
}

-- the task as the judgement leaves it: the first test data are judged wrong, the second right
abbrev pub test_judged : Task
test_judged = record test_task {
  cur_test_data_index = pos 1;
  cur_input_test_data = codes "1000\\b.in";
  cur_output_test_data = codes "1000\\b.out";
  result = pos 4;
  pass_rate = record { accepted = 1; count = 2 };
}
