-- ===== src/Task.antt =====
-- `TaskBase` of Judger/JudgeTask.h and Judger/JudgeTask.cpp: one submission, with the files and
-- limits of its judgement and the results so far.
pub mod Data
use online_judger.Common.{
  ℕ, zero, Bool, true, false, List, [], ◌∷◌, ◌++◌, Option, none, some, if◌then◌else◌, Bytes, codes,
  length, get_elem?,
}
use online_judger.Common.Int.{ℤ, pos, negsuc, eq_ℤ}
use online_judger.Config.{Config}
use online_judger.FileTool.{format_dir_name, find_files, get_file_name}
use online_judger.Number.{show_int}
use online_judger.Os.{Os}

-- `m_passRate`: the two numbers of the quotient, whose rounding to a float is not modelled
pub record Rate : Type 0 where
  pub accepted : ℕ
  pub count : ℕ

pub record Task : Type 0 where
  pub user_name : Bytes
  pub solution_id : ℤ
  pub problem_id : ℤ
  pub limit_compile_time : ℤ
  pub limit_time : ℤ
  pub limit_memory : ℤ
  pub language : ℤ
  pub run_time : ℤ
  pub run_memory : ℤ
  pub result : ℤ
  pub pass_rate : Rate
  pub test_data : List Bytes
  pub cur_test_data_index : ℤ
  pub cur_input_test_data : Bytes
  pub cur_output_test_data : Bytes
  pub code_file : Bytes
  pub compiler_output : Bytes
  pub exe_name : Bytes
  pub exe_output : Bytes
  pub compile_error_str : Bytes

abbrev pub work_dir : Bytes
work_dir = codes "work\\"

abbrev pub get_test_data_count : Task → ℕ
get_test_data_count t = length t.test_data

unfoldable pub get_language_ext : Config → ℤ → Bytes
get_language_ext config t =
    if eq_ℤ t config.cl_gcc
    then codes ".c"
    else if eq_ℤ t config.cl_gplus
    then codes ".cpp"
    else if eq_ℤ t config.cl_java
    then codes ".java"
    else codes ".unknown"

-- `none` stands for the failed assertion "out of the range of the test data"
unfoldable pub set_test_data_index : Task → ℕ → Option Task
set_test_data_index t i =
    if eq_ℤ (pos i) t.cur_test_data_index then some t else elim (get_elem? t.test_data i) [
      | none ↦ none
      | some out ↦ some (record t {
        cur_test_data_index = pos i;
        cur_output_test_data = out;
        cur_input_test_data = get_file_name out ++ codes ".in";
      })
    ]

-- the end of `initializeData`, by the test data found
pub point_at_first : Task → List Bytes → Option Task
point_at_first t [] = some t
point_at_first t (d ∷ ds) = set_test_data_index (record t { cur_test_data_index = negsuc 0 }) 0

-- the members that the constructor's list sets; the others are empty
abbrev pub blank_task : ℤ → ℤ → Bytes → ℤ → ℤ → ℤ → ℤ → Task
blank_task solution_id problem_id user_name language limit_compile_time limit_time limit_memory =
    record {
      user_name = user_name;
      solution_id = solution_id;
      problem_id = problem_id;
      limit_compile_time = limit_compile_time;
      limit_time = limit_time;
      limit_memory = limit_memory;
      language = language;
      run_time = pos 0;
      run_memory = pos 0;
      result = pos 0;
      pass_rate = record { accepted = 0; count = 1 };
      test_data = [];
      cur_test_data_index = pos 0;
      cur_input_test_data = [];
      cur_output_test_data = [];
      code_file = [];
      compiler_output = [];
      exe_name = [];
      exe_output = [];
      compile_error_str = [];
    }

module _ (os : Os) (config : Config) where
  open os use {World}

  abbrev test_data_dir : Task → Bytes
  test_data_dir t = format_dir_name config.test_data_path true ++ show_int t.problem_id

  name_files : Task → Task
  name_files t =
      let temp_name = show_int t.solution_id in
      record t {
        code_file = work_dir ++ (temp_name ++ get_language_ext config t.language);
        compiler_output = work_dir ++ (temp_name ++ codes ".txt");
        exe_name = work_dir ++ (temp_name ++ codes ".exe");
        exe_output = work_dir ++ (temp_name ++ codes ".out");
      }

  -- the task with its test data searched and its files named
  pub find_test_data : Task → World → Task
  unfolding name_files
  find_test_data t w =
      name_files
        (record t { test_data = (find_files os (test_data_dir t) (codes "*.out") true w).0 })

  -- `initializeData`
  pub initialize_data : Task → World → Option Task
  initialize_data t w =
      if eq_ℤ t.solution_id (pos 0)
      then some t
      else point_at_first (find_test_data t w) (find_test_data t w).test_data

  unfoldable pub new_task : ℤ → ℤ → Bytes → ℤ → ℤ → ℤ → ℤ → World → Option Task
  unfolding initialize_data find_test_data point_at_first
  new_task solution_id problem_id user_name language limit_compile_time limit_time limit_memory w =
      initialize_data
        (blank_task solution_id problem_id user_name language limit_compile_time limit_time
          limit_memory)
        w
