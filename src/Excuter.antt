-- ===== src/Excuter.antt =====
-- Judger/Excuter.cpp: the compiler, the two runners and the matcher, each a step on a task.
pub mod Interface
pub mod Verdicts
pub mod Messages
use online_judger.Common.{
  ℕ, zero, suc, ◌+◌, ◌-◌, ◌*◌, ◌/◌, ◌%◌, ◌^◌, Bool, true, false, not, ◌&&◌, ◌||◌, List, [], ◌∷◌,
  ◌++◌, Option, none, some, ◌==◌, ltb, if◌then◌else◌, Bytes, codes, length, take, drop,
}
use online_judger.Common.Int.{ℤ, pos, negsuc, eq_ℤ}
use online_judger.Config.{Config}
use online_judger.FileTool.{read_file_buffer}
use online_judger.Matcher.{
  matcher_accept, matcher_not_exist_src, matcher_not_exist_dest, matcher_wrong_anwser,
  matcher_present_error, compare,
}
use online_judger.Os.{Os, DebugRun, JobRun}
use online_judger.Process.{debug_start, job_start}
use online_judger.Text.{until_nul}
use online_judger.Task.{Task}
use online_judger.Watcher.{new_watcher, do_watch, is_time_out, is_memory_out}

abbrev kb_bytes : ℕ
kb_bytes = 1024

abbrev pub mb_bytes : ℕ
mb_bytes = 1048576

abbrev pub s_100ns : ℕ
s_100ns = 10000000

abbrev ms_100ns : ℕ
ms_100ns = 10000

-- `uint64(i)` and `int(n)`
abbrev pub uint64_of : ℤ → ℕ
uint64_of (pos n) = n % 2 ^ 64
uint64_of (negsuc n) = (2 ^ 64 - suc n) % 2 ^ 64

unfoldable pub int_of : ℕ → ℤ
int_of n = let low = n % 2 ^ 32 in if ltb low (2 ^ 31) then pos low else negsuc (2 ^ 32 - suc low)

-- the text read a thousand characters at a time
unfoldable pub read_chunks : ℕ → Bytes → Bytes
unfolding until_nul
read_chunks zero s = []
read_chunks (suc fuel) [] = []
read_chunks (suc fuel) (c ∷ cs) =
    until_nul (take 1000 (c ∷ cs)) ++ read_chunks fuel (drop 1000 (c ∷ cs))

module _ (os : Os) (config : Config) where
  open os use {World, has_file, read_text, create_process, wait_exit, debug_run, job_run}

  -- `ExcuterBase::exc`
  abbrev pub Exc : Type 0
  Exc = Task → World → Bool × Task × World

  abbrev fails : Task → World → ℤ → Bool × Task × World
  fails t w code = (false, record t { result = code }, w)

  abbrev pub compile_command : Task → Bytes
  compile_command t =
      (if eq_ℤ t.language config.cl_gcc then codes "gcc.exe " else codes "g++.exe ")
      ++ (t.code_file
          ++ (codes " -o "
              ++ (t.exe_name
                  ++ (if eq_ℤ t.language config.cl_gcc
                      then codes " -O2 -Wall -lm --static -std=c99 -DONLINE_JUDGE"
                      else codes " -O2 -Wall -lm --static -DONLINE_JUDGE"))))

  -- the text of the compiler's output, as far as it can be read
  abbrev pub compile_errors : Task → World → Bytes
  compile_errors t w = elim (read_text t.compiler_output w) [
    | none ↦ []
    | some s ↦ read_chunks (suc (length s)) s
  ]

  -- Where `CppCompiler::exc` prints the command, it does not fit the 1024 characters of the buffer, and
  -- the program ends.
  unfoldable pub command_overflows : Task → World → Bool
  command_overflows t w =
      has_file t.code_file w
      && (eq_ℤ t.language config.cl_gcc || eq_ℤ t.language config.cl_gplus)
      && not (ltb (length (compile_command t)) 1024)

  -- `CppCompiler::exc`, where the command fits its buffer
  unfoldable pub compile : Exc
  compile t w =
      if not (has_file t.code_file w)
      then fails t w config.je_system
      else if not (eq_ℤ t.language config.cl_gcc) && not (eq_ℤ t.language config.cl_gplus)
      then fails t w config.je_complie
      else (let created = create_process (compile_command t) [] t.compiler_output w in
          if not created.0
          then fails t created.1 config.je_system
          else (let exited = wait_exit t.limit_compile_time created.1 in
              if not (exited.0 == 0)
              then (
                false,
                record t {
                  result = config.je_complie;
                  compile_error_str = compile_errors t exited.1;
                },
                exited.1,
              )
              else (true, t, exited.1)))

  -- the verdict on a run that the watcher and the debugger have followed
  unfoldable pub judge_debug_run : Task → DebugRun → Bool × Task
  judge_debug_run t r =
      let max_time = uint64_of t.limit_time * s_100ns % 2 ^ 64 in
      let max_memory = uint64_of t.limit_memory * mb_bytes % 2 ^ 64 in
      let watcher = do_watch (new_watcher max_time max_memory) r.samples r.last in
      let no_error = (debug_start r.events).0 in
      let t' = record t {
        run_time = int_of (watcher.run_time / ms_100ns);
        run_memory = int_of (watcher.run_memory / kb_bytes);
      } in
      if is_memory_out watcher
      then (false, record t' { result = config.je_memory_limited })
      else if is_time_out watcher
      then (false, record t' { result = config.je_time_limited })
      else if not no_error || not (r.exit_code == 0)
      then (false, record t' { result = config.je_runtime })
      else (true, t')

  -- `ExeDebugRunner::exc`
  unfoldable pub debug_runner : Exc
  unfolding judge_debug_run
  debug_runner t w =
      let created = create_process t.exe_name t.cur_input_test_data t.exe_output w in
      if not created.0
      then fails t created.1 config.je_system
      else (let run = debug_run created.1 in
          let judged = judge_debug_run t run.0 in (judged.0, judged.1, run.1))

  -- the switch of `ExeRunner::exc`
  judge_exit_code : Task → ℕ → Bool × Task
  judge_exit_code t zero = (true, t)
  judge_exit_code t (suc zero) = (false, record t { result = config.je_time_limited })
  judge_exit_code t (suc (suc zero)) = (false, record t { result = config.je_memory_limited })
  judge_exit_code t (suc (suc (suc n))) = (false, record t { result = config.je_runtime })

  -- `ExeRunner::exc`; none where it waits for a message of the job for ever. A process that is not
  -- assigned to the job leaves the code and the accounts at 0.
  pub exe_runner : Task → World → Option (Bool × Task × World)
  unfolding judge_exit_code
  exe_runner t w =
      let created = create_process t.exe_name t.cur_input_test_data t.exe_output w in
      if not created.0
      then some (fails t created.1 config.je_system)
      else (let run = job_run created.1 in
          if not run.0.assigned
          then some (true, record t { run_time = pos 0; run_memory = pos 0 }, run.1)
          else elim (job_start run.0.messages) [
            | none ↦ none
            | some code ↦
                let judged =
                  judge_exit_code
                    (record t {
                      run_time = int_of (run.0.total_user_time % 2 ^ 32 / 10000);
                      run_memory = int_of (run.0.peak_process_memory / 1024);
                    })
                    code in
                some (judged.0, judged.1, run.1)
          ])

  -- `Matcher::compare` on files
  unfoldable pub compare_files : Bytes → Bytes → World → ℕ
  compare_files src_file dest_file w = elim (read_file_buffer os src_file w) [
    | none ↦ matcher_not_exist_src
    | some src ↦ elim (read_file_buffer os dest_file w) [
      | none ↦ matcher_not_exist_dest
      | some dst ↦ compare src dst
    ]
  ]

  -- the switch of `Matcher::exc`
  abbrev pub match_code : ℕ → ℤ
  match_code result =
      if result == matcher_accept
      then config.je_accept
      else if result == matcher_wrong_anwser
      then config.je_wrong_anwser
      else if result == matcher_present_error
      then config.je_present
      else config.je_system

  -- `Matcher::exc`
  unfoldable pub matcher : Exc
  unfolding compare_files
  matcher t w =
      let result = compare_files t.cur_output_test_data t.exe_output w in
      (result == matcher_accept, record t { result = match_code result }, w)
