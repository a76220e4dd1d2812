-- ===== src/Excuter/Verdicts.antt =====
-- When each step succeeds, and the result that it sets where it does not.
use online_judger.Common.{
  ℕ, ◌*◌, ◌%◌, ◌^◌, ◌≡◌, ◌↔◌, ◌⊎◌, inl, inr, true, false, some, arith, ◌==◌, ==_iff, Bytes, [],
  Option-cases, Bool-cases,
}
use online_judger.Common.Int.{eq_ℤ_iff}
use online_judger.Config.{Config}
use online_judger.Matcher.{compare, matcher_accept}
use online_judger.Matcher.Verdict.{unix_lines, compare-eq-accept_iff}
use online_judger.Os.{Os, DebugRun}
use online_judger.Process.{debug_start}
use online_judger.Process.Outcome.{exit_code, debug_start-false_iff}
use online_judger.Task.{Task}
use online_judger.Watcher.{Watcher, new_watcher, do_watch}
use online_judger.Watcher.Limits.{
  Verdict, Within, do_watch-Verdict, within, out_of_time, out_of_memory,
}
use online_judger.Excuter.{
  compile, compile_command, debug_runner, matcher, compare_files, judge_debug_run, uint64_of,
  s_100ns, mb_bytes,
}

module _ (os : Os) (config : Config) where
  open os use {World, has_file, read_text, create_process, wait_exit, debug_run}

  -- The compiler step succeeds exactly if the source file is there, the language is C or C++, and
  -- the compiler process starts and exits with code 0 in its time.
  pub compile_succeeds_iff :
      (t : Task) (w : World)
      → ((compile os config t w).0 ≡ true) ↔ (
          (has_file t.code_file w ≡ true)
          × ((t.language ≡ config.cl_gcc) ⊎ (t.language ≡ config.cl_gplus))
          × ((create_process (compile_command os config t) [] t.compiler_output w).0 ≡ true)
          × ((wait_exit t.limit_compile_time
                (create_process (compile_command os config t) [] t.compiler_output w).1).0
              ≡ 0))
  unfolding compile
  compile_succeeds_iff t w =
      let gcc = eq_ℤ_iff t.language config.cl_gcc in
      let gplus = eq_ℤ_iff t.language config.cl_gplus in
      (
        (λ h. (ground arith, ground (arith, gcc, gplus), ground arith, ground arith)),
        λ (file, language, created, exited). ground (arith, gcc, gplus),
      )

  compare_files-accept :
      (a b : Bytes) (w : World)
      → compare_files os config a b w ≡ matcher_accept
      → (src : Bytes) × (dst : Bytes) × (read_text a w ≡ some src)
        × (read_text b w ≡ some dst)
        × (unix_lines src ≡ unix_lines dst)
  unfolding compare_files
  compare_files-accept a b w h = elim (Option-cases (read_text a w)) [
    | inl e ↦ absurd (ground arith)
    | inr (src, e) ↦ elim (Option-cases (read_text b w)) [
      | inl f ↦ absurd (ground arith)
      | inr (dst, f) ↦
          let same : compare src dst ≡ matcher_accept = ground arith in
          (src, dst, e, f, (compare-eq-accept_iff src dst).0 same)
    ]
  ]

  accept-compare_files :
      (a b : Bytes) (w : World) (src dst : Bytes)
      → read_text a w ≡ some src
      → read_text b w ≡ some dst
      → unix_lines src ≡ unix_lines dst
      → compare_files os config a b w ≡ matcher_accept
  unfolding compare_files
  accept-compare_files a b w src dst e f h =
      rw (e, compare_files) (rw (f) ((compare-eq-accept_iff src dst).1 h))

  -- The matcher accepts exactly if it can read both files and they agree up to carriage returns that
  -- lead to a line feed.
  pub matcher_accepts_iff :
      (t : Task) (w : World)
      → ((matcher os config t w).0 ≡ true) ↔ (
          (src : Bytes) × (dst : Bytes) × (read_text t.cur_output_test_data w ≡ some src)
          × (read_text t.exe_output w ≡ some dst)
          × (unix_lines src ≡ unix_lines dst))
  unfolding matcher
  matcher_accepts_iff t w = (
    (λ h. compare_files-accept t.cur_output_test_data t.exe_output w (ground arith)),
    λ (src, dst, e, f, h).
        ground (arith, accept-compare_files t.cur_output_test_data t.exe_output w src dst e f h),
  )

  abbrev max_time : Task → ℕ
  max_time t = uint64_of t.limit_time * s_100ns % 2 ^ 64

  abbrev max_memory : Task → ℕ
  max_memory t = uint64_of t.limit_memory * mb_bytes % 2 ^ 64

  abbrev watched : Task → DebugRun → Watcher
  watched t r = do_watch (new_watcher (max_time t) (max_memory t)) r.samples r.last

  judge_debug_run_succeeds :
      (t : Task) (r : DebugRun)
      → (judge_debug_run os config t r).0 ≡ true
      → ((watched t r).time_limited ≡ false)
        × ((watched t r).memory_limited ≡ false)
        × ((debug_start r.events).0 ≡ true)
        × (r.exit_code ≡ 0)
  unfolding judge_debug_run
  judge_debug_run_succeeds t r h = ground arith

  watched-Within :
      (t : Task) (r : DebugRun)
      → (watched t r).time_limited ≡ false
      → (watched t r).memory_limited ≡ false
      → Within (max_time t) (max_memory t) r.samples
  watched-Within t r a b = go (do_watch-Verdict (max_time t) (max_memory t) r.samples r.last)
    where
      go :
          Verdict (max_time t) (max_memory t) (watched t r) r.samples
          → Within (max_time t) (max_memory t) r.samples
      go (within _ _ h) = h
      go (out_of_time _ e _ _ _) = absurd cc
      go (out_of_memory _ _ e _ _ _) = absurd cc

  clean_exit :
      (r : DebugRun) (code : ℕ)
      → (debug_start r.events).0 ≡ true
      → exit_code r.events ≡ some code
      → code ≡ 0
  clean_exit r code h e = elim (Bool-cases (code == 0)) [
    | inl z ↦ (==_iff code 0).0 z
    | inr ne ↦
        let failed = (debug_start-false_iff r.events).1 (code, e, λ z. ground arith) in absurd cc
  ]

  debug_runner_judges :
      (t : Task) (w : World)
      → (debug_runner os config t w).0 ≡ true
      → let created = create_process t.exe_name t.cur_input_test_data t.exe_output w in
        (created.0 ≡ true) × ((judge_debug_run os config t (debug_run created.1).0).0 ≡ true)
  unfolding debug_runner
  debug_runner_judges t w h = ground arith

  -- If the run step succeeds, the process started, kept its limits in every sample of the watcher,
  -- ended for the debugger with code 0, or not at all, and has the exit code 0.
  pub debug_runner_succeeds :
      (t : Task) (w : World)
      → (debug_runner os config t w).0 ≡ true
      → let created = create_process t.exe_name t.cur_input_test_data t.exe_output w in
        let run = (debug_run created.1).0 in
        (created.0 ≡ true)
        × Within
            (uint64_of t.limit_time * s_100ns % 2 ^ 64)
            (uint64_of t.limit_memory * mb_bytes % 2 ^ 64)
            run.samples
        × ((code : ℕ) → exit_code run.events ≡ some code → code ≡ 0)
        × (run.exit_code ≡ 0)
  debug_runner_succeeds t w h =
      let (started, judged) = debug_runner_judges t w h in
      let run = (debug_run (create_process t.exe_name t.cur_input_test_data t.exe_output w).1).0 in
      let (a, b, c, d) = judge_debug_run_succeeds t run judged in
      (started, watched-Within t run a b, (λ code e. clean_exit run code c e), d)
