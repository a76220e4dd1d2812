-- ===== src/Tests/Delivery.antt =====
-- A submission on its way through the program.
use online_judger.Common.{Bool, true, false, List, [], ◌∷◌, none, some, codes}
use online_judger.Database.{Services}
use online_judger.Task.{Task, blank_task}
use online_judger.Judge.{JudgeCore, create_judge_core}
use online_judger.Os.{Os}
use online_judger.Tests.Machine.{test_os, test_data}
use online_judger.Tests.Verdicts.{one_row}
use online_judger.Common.Int.{pos}
use online_judger.Config.{new_config}
use online_judger.Cell.{Entry}
use online_judger.Cell.Threads.{Cell, waiting, takes as cell_takes, judges as cell_judges}
use online_judger.Database.Threads.{Manager, Reader, writer_tests}
use online_judger.Pipeline.{takes, judges}

-- a machine on which the source file of a submission is gone
abbrev no_source : Os
no_source = record test_os { has_file = λ _ _. false }

abbrev one_submission : Services no_source
one_submission = record {
  query = λ _ w. (true, w);
  store_result = λ w. (some one_row, w);
  real_escape_string = λ s. s;
  write_file = λ _ _ w. w;
  show_rate = λ _. codes "0.0";
  reciv_cb = λ _ w. w;
}

abbrev no_source_core : JudgeCore no_source new_config
no_source_core = create_judge_core no_source new_config none

abbrev handed_task : Task
handed_task =
    record (blank_task (pos 7) (pos 1000) (codes "u") (pos 0) (pos 10000) (pos 1) (pos 32)) {
      test_data = test_data;
      cur_test_data_index = pos 0;
      cur_input_test_data = codes "1000\\a.in";
      cur_output_test_data = codes "1000\\a.out";
      code_file = codes "work\\7.cpp";
      compiler_output = codes "work\\7.txt";
      exe_name = codes "work\\7.exe";
      exe_output = codes "work\\7.out";
    }

abbrev judged_task : Task
judged_task = record handed_task { result = pos 10 }

abbrev manager : Reader → List Task → List Entry → Manager no_source
manager reader handed q = record {
  running = true;
  finish_task = q;
  reader = reader;
  writer = writer_tests;
  handed = handed;
  written = [];
  world = true;
}

abbrev cell : List Entry → List Task → Bool → Cell no_source
cell q judged w = record { queue = q; threads = waiting ∷ []; judged = judged; world = w }
