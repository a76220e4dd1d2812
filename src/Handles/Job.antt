-- ===== src/Handles/Job.antt =====
-- `ZProcessJob` of acm/ZProcess.cpp over `ZJobObject` of acm/ZJobObject.cpp: a child process in a job
-- object, whose messages come through a completion port.
pub mod Created
pub mod Closed
pub mod Limits
use online_judger.Common.{
  ℕ, zero, suc, ◌*◌, ◌/◌, Bool, true, false, List, [], ◌∷◌, Option, none, some, if◌then◌else◌, not,
  Bytes,
}
use online_judger.Common.Int.{ℤ, pos, negsuc}
use online_judger.Excuter.{int_of}
use online_judger.Handles.{
  Handle, null, invalid, handle, Kernel, extended_limit, end_of_job_message, ui_restrictions,
  completion_port, ProcessInOut, new_in_out, is_null, suspended, breakaway_from_job,
  open_and_create, safe_close_handle, close_files_and_thread, destroy,
}
use online_judger.Process.{JobMessage, on_message}

-- The two limits are `int`, kept as 32 bits.
pub record ProcessJob : Type 0 where
  pub files : ProcessInOut
  pub job : Handle
  pub io_port : Handle
  pub exit_code : ℕ
  pub run_time : ℕ
  pub run_memory : ℕ
  pub limit_time : ℕ
  pub limit_memory : ℕ

-- the constructor
abbrev pub new_job_process : Bytes → Bytes → ℕ → ℕ → ProcessJob
new_job_process in_file out_file time_ms memory_kb = record {
  files = new_in_out in_file out_file;
  job = null;
  io_port = null;
  exit_code = 0;
  run_time = 0;
  run_memory = 0;
  limit_time = time_ms;
  limit_memory = memory_kb;
}

-- `limitTime`, in units of 100 ns: the product is one of `int`
unfoldable pub job_time : ℕ → ℤ
unfolding int_of
job_time ms = int_of (ms * 10000)

-- `limitMemory`, in bytes: a negative product gives 128 MB
unfoldable pub job_memory : ℕ → ℤ
unfolding int_of
job_memory kb = elim (int_of (kb * 1024)) [ pos n ↦ pos n | negsuc n ↦ pos 134217728 ]

module _ (kernel : Kernel) where
  open kernel use {
    World, resume_thread, create_job, set_information, create_completion_port, assign_process,
    next_message, query_accounts, terminate_job, sleep,
  }

  -- the handle that `ZJobObject::create` keeps
  abbrev pub job_handle : Handle → Handle
  job_handle null = null
  job_handle invalid = null
  job_handle (handle n) = handle n

  -- `ZProcessJob::create` where it has a job, up to the creation of the process
  unfoldable pub set_up_job : ProcessJob → World → ProcessJob × World
  set_up_job p w =
      let limits = extended_limit (job_time p.limit_time) (job_memory p.limit_memory) in
      let w1 =
        set_information p.job ui_restrictions
          (set_information p.job end_of_job_message (set_information p.job limits w)) in
      let (port, w2) = create_completion_port w1 in
      (record p { io_port = port }, set_information p.job (completion_port port) w2)

  -- the object after the creation of the process
  abbrev pub with_files :
      ProcessJob → Option (Bool × ProcessInOut × World) → Option (Bool × ProcessJob × World)
  with_files p none = none
  with_files p (some (ok, f, w)) = some (ok, record p { files = f }, w)

  -- `ZProcessJob::create` without a start; none where `lstrcpy` overruns the buffer
  unfoldable pub create_job_process :
      ProcessJob → Bytes → World → Option (Bool × ProcessJob × World)
  unfolding set_up_job
  create_job_process p cmd w =
      let (h, w1) = create_job w in
      let made = record p { job = job_handle h } in
      let (q, w2) = set_up_job made w1 in
      if not (is_null p.files.h_process)
      then some (false, p, w)
      else if not (is_null p.job)
      then some (false, p, w)
      else if is_null made.job
      then some (false, made, w1)
      else with_files q
          (open_and_create kernel (suspended ∷ breakaway_from_job ∷ []) q.files cmd w2)

  -- the loop of `start` over the messages; none where it waits for one more
  unfoldable pub job_rounds : Handle → ℕ → List JobMessage → World → Option (ℕ × World)
  job_rounds port code [] w = none
  job_rounds port code (m ∷ ms) w =
      let w' = next_message port m w in
      let (code', done) = on_message m code in
      elim done [ true ↦ some (code', w') | false ↦ job_rounds port code' ms w' ]

  -- the loop that ends the job; the fuel bounds its rounds
  unfoldable pub terminate_loop : ℕ → Handle → World → Option World
  terminate_loop zero job w = none
  terminate_loop (suc tries) job w =
      let (ok, w') = terminate_job job w in
      elim ok [ true ↦ some w' | false ↦ terminate_loop tries job (sleep w') ]

  -- `start` after the loop over the messages
  unfoldable pub after_messages :
      ℕ → ProcessJob → Option (ℕ × World) → Option (Bool × ProcessJob × World)
  unfolding safe_close_handle terminate_loop
  after_messages tries p none = none
  after_messages tries p (some (code, w)) =
      let (time, memory) = query_accounts p.job w in
      let w1 = safe_close_handle kernel p.io_port (safe_close_handle kernel p.files.h_process w) in
      elim (terminate_loop tries p.job w1) [
        | none ↦ none
        | some w2 ↦ some (
          true,
          record {
            files = record p.files { h_process = null };
            job = null;
            io_port = null;
            exit_code = code;
            run_time = time / 10000;
            run_memory = memory / 1024;
            limit_time = p.limit_time;
            limit_memory = p.limit_memory;
          },
          safe_close_handle kernel p.job w2,
        )
      ]

  -- `ZProcessJob::start`, for the messages of the job; none where it does not return
  unfoldable pub start_job :
      ℕ → List JobMessage → ProcessJob → World → Option (Bool × ProcessJob × World)
  unfolding close_files_and_thread job_rounds after_messages
  start_job tries ms p w =
      let (ok, w1) = assign_process p.job p.files.h_process w in
      let (files, w2) = close_files_and_thread kernel p.files (resume_thread p.files.h_thread w1) in
      let q = record p { files = files } in
      elim ok [
        | false ↦ some (false, p, w1)
        | true ↦ after_messages tries q (job_rounds p.io_port p.exit_code ms w2)
      ]

  -- `~ZProcessJob`, then the destructors of `m_job` and of the base
  unfoldable pub destroy_job : ProcessJob → World → World
  unfolding safe_close_handle destroy
  destroy_job p w =
      destroy kernel p.files (safe_close_handle kernel p.job (safe_close_handle kernel p.io_port w))

  -- The process of `ExeRunner::exc`: created without a start, started, its code read, destroyed. The
  -- result says that it was created, and gives the code.
  unfoldable pub end_started : Option (Bool × ProcessJob × World) → Option (Bool × ℕ × World)
  unfolding destroy_job
  end_started none = none
  end_started (some (ok, p, w)) = some (true, p.exit_code, destroy_job p w)

  unfoldable pub end_created :
      ℕ → List JobMessage → Option (Bool × ProcessJob × World) → Option (Bool × ℕ × World)
  unfolding destroy_job start_job end_started
  end_created tries ms none = none
  end_created tries ms (some (false, p, w)) = some (false, p.exit_code, destroy_job p w)
  end_created tries ms (some (true, p, w)) = end_started (start_job tries ms p w)

  unfoldable pub run_in_job :
      Bytes → Bytes → ℕ → ℕ → Bytes → ℕ → List JobMessage → World → Option (Bool × ℕ × World)
  unfolding create_job_process end_created
  run_in_job in_file out_file time_ms memory_kb cmd tries ms w =
      end_created tries ms
        (create_job_process (new_job_process in_file out_file time_ms memory_kb) cmd w)
