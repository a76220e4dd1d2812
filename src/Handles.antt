-- ===== src/Handles.antt =====
-- acm/ZProcess.cpp and acm/ZJobObject.cpp: the handles that the judge opens for a child process, from
-- its creation to the destructor. The calls of Windows are the fields of the record `Kernel`. A
-- command line is counted in characters and has no NUL.
pub mod Accounts
pub mod Lives
pub mod Debug
pub mod Job
use online_judger.Common.{
  ℕ, Bool, true, false, List, [], ◌∷◌, Option, none, some, leb, ◌==◌, if◌then◌else◌, Bytes, length,
}
use online_judger.Common.Int.{ℤ}
use online_judger.Process.{
  JobMessage, DebugEvent, create_process, breakpoint, exception, other, exit_process,
  ContinueStatus, dbg_continue, next_status,
}

-- a `HANDLE`: NULL, INVALID_HANDLE_VALUE, or one that the kernel gave out
pub data Handle : Type 0 where
  null invalid : Handle
  handle : ℕ → Handle

-- the flags of `CreateProcess`
pub data CreationFlag : Type 0 where
  suspended debug_only_this_process breakaway_from_job : CreationFlag

-- what `SetInformationJobObject` is given: the limits, the message at the end of the time, the
-- restrictions of the desktop, and the completion port
pub data JobInformation : Type 0 where
  extended_limit : ℤ → ℤ → JobInformation
  end_of_job_message ui_restrictions : JobInformation
  completion_port : Handle → JobInformation

pub record Kernel : Type 1 where
  pub World : Type 0
  pub close_handle : Handle → World → World
  -- `CreateFile` on a name, for reading or for writing
  pub open_to_read : Bytes → World → Handle × World
  pub open_to_write : Bytes → World → Handle × World
  -- `CreateProcess` with a command line, flags, and the handles of its input and output: the handles
  -- of the process and of its thread
  pub start_process :
      Bytes → List CreationFlag → Handle → Handle → World → Option (Handle × Handle) × World
  pub resume_thread : Handle → World → World
  -- what `WaitForDebugEvent` does where it returns an event, with the file handle that it carries
  pub wait_for_debug_event : DebugEvent → World → Handle × World
  pub continue_debug_event : ContinueStatus → World → World
  -- `DebugSetProcessKillOnExit` and `DebugActiveProcessStop`
  pub stop_debugging : World → World
  -- `CreateJobObject` with a new name
  pub create_job : World → Handle × World
  pub set_information : Handle → JobInformation → World → World
  pub create_completion_port : World → Handle × World
  pub assign_process : Handle → Handle → World → Bool × World
  -- what `GetQueuedCompletionStatus` on a port does where it delivers a message
  pub next_message : Handle → JobMessage → World → World
  -- the low half of the user time of a job, and its peak memory of a process
  pub query_accounts : Handle → World → ℕ × ℕ
  pub terminate_job : Handle → World → Bool × World
  pub sleep : World → World

-- `ZProcessInOut`; `ZProcessDebug` adds no field
pub record ProcessInOut : Type 0 where
  pub h_process : Handle
  pub h_thread : Handle
  pub h_input : Handle
  pub h_output : Handle
  pub input_file : Bytes
  pub output_file : Bytes

-- the constructors
abbrev pub new_in_out : Bytes → Bytes → ProcessInOut
new_in_out in_file out_file = record {
  h_process = null;
  h_thread = null;
  h_input = null;
  h_output = null;
  input_file = in_file;
  output_file = out_file;
}

abbrev pub is_null : Handle → Bool
is_null null = true
is_null invalid = false
is_null (handle n) = false

module _ (kernel : Kernel) where
  open kernel use {
    World, close_handle, open_to_read, open_to_write, start_process, resume_thread,
    wait_for_debug_event, continue_debug_event, stop_debugging,
  }

  -- the macro SAFE_CLOSE_HANDLE, but for the assignment
  unfoldable pub safe_close_handle : Handle → World → World
  safe_close_handle null w = w
  safe_close_handle invalid w = close_handle invalid w
  safe_close_handle (handle n) w = close_handle (handle n) w

  -- `createInputFile` and `createOutputFile`, of the name in the object
  unfoldable pub create_input_file : Bytes → World → Handle × World
  create_input_file [] w = (null, w)
  create_input_file (c ∷ cs) w = open_to_read (c ∷ cs) w

  unfoldable pub create_output_file : Bytes → World → Handle × World
  create_output_file [] w = (null, w)
  create_output_file (c ∷ cs) w = open_to_write (c ∷ cs) w

  -- the object after `createProcess`
  abbrev pub adopt : ProcessInOut → Option (Handle × Handle) × World → Bool × ProcessInOut × World
  adopt p (none, w) = (false, p, w)
  adopt p (some (process, thread), w) =
      (true, record p { h_process = process; h_thread = thread }, w)

  -- what `create` does between its guard and `start`; none where `lstrcpy` overruns the buffer
  unfoldable pub open_and_create :
      List CreationFlag → ProcessInOut → Bytes → World → Option (Bool × ProcessInOut × World)
  unfolding create_input_file create_output_file
  open_and_create flags p cmd w =
      let input = create_input_file p.input_file w in
      let output = create_output_file p.output_file input.1 in
      let opened = record p { h_input = input.0; h_output = output.0 } in
      let created = start_process cmd flags input.0 output.0 output.1 in
      if leb 1024 (length cmd) then none else some (adopt opened created)

  abbrev guarded :
      ProcessInOut
      → World
      → Option (Bool × ProcessInOut × World)
      → Option (Bool × ProcessInOut × World)
  guarded p w next = if is_null p.h_process then next else some (false, p, w)

  -- `ZProcessInOut::start`
  abbrev pub start_in_out : ProcessInOut → World → World
  start_in_out p w = resume_thread p.h_thread w

  -- `start` where `create` succeeded and is to start the process
  abbrev pub then_start :
      Bool
      → (ProcessInOut → World → ProcessInOut × World)
      → Option (Bool × ProcessInOut × World)
      → Option (Bool × ProcessInOut × World)
  then_start start_ start none = none
  then_start start_ start (some (false, p, w)) = some (false, p, w)
  then_start false start (some (true, p, w)) = some (true, p, w)
  then_start true start (some (true, p, w)) = let (q, w') = start p w in some (true, q, w')

  -- `ZProcessInOut::create`
  unfoldable pub create_in_out :
      ProcessInOut → Bytes → Bool → World → Option (Bool × ProcessInOut × World)
  create_in_out p cmd start_ w =
      guarded p w (
        then_start start_ (λ q v. (q, start_in_out q v)) (open_and_create (suspended ∷ []) p cmd w))

  -- `~ZProcessInOut`, then `~ZProcessBase`
  unfoldable pub destroy : ProcessInOut → World → World
  unfolding safe_close_handle
  destroy p w =
      safe_close_handle p.h_thread (
        safe_close_handle p.h_process
          (safe_close_handle p.h_output (safe_close_handle p.h_input w)))

  -- the file of the executable, which the debugger closes
  unfoldable pub close_event_file : DebugEvent → Handle → World → World
  unfolding safe_close_handle
  close_event_file create_process h w = safe_close_handle h w
  close_event_file breakpoint h w = w
  close_event_file exception h w = w
  close_event_file other h w = w
  close_event_file (exit_process code) h w = w

  -- The loop of `ZProcessDebug::start`. It ends by itself where the events end, since
  -- `WaitForDebugEvent` fails then.
  unfoldable pub debug_rounds : ContinueStatus → List DebugEvent → World → Bool × World
  unfolding close_event_file
  debug_rounds status [] w = (true, w)
  debug_rounds status (exit_process code ∷ es) w =
      (code == 0, stop_debugging (wait_for_debug_event (exit_process code) w).1)
  debug_rounds status (e ∷ es) w =
      let (file, w1) = wait_for_debug_event e w in
      let status' = next_status status e in
      debug_rounds status' es (continue_debug_event status' (close_event_file e file w1))

  -- `SAFE_CLOSE_HANDLE` on the files and the thread, which both kinds of `start` do
  unfoldable pub close_files_and_thread : ProcessInOut → World → ProcessInOut × World
  unfolding safe_close_handle
  close_files_and_thread p w = (
    record p { h_input = null; h_output = null; h_thread = null },
    safe_close_handle p.h_thread (safe_close_handle p.h_output (safe_close_handle p.h_input w)),
  )

  -- `ZProcessDebug::start`, for the events that it meets
  unfoldable pub start_debug : List DebugEvent → ProcessInOut → World → Bool × ProcessInOut × World
  unfolding close_files_and_thread debug_rounds
  start_debug es p w =
      let (q, w1) = close_files_and_thread p (resume_thread p.h_thread w) in
      let (ok, w2) = debug_rounds dbg_continue es w1 in (ok, q, w2)

  -- `ZProcessDebug::create`; the result of `start` is not looked at
  unfoldable pub create_debug :
      List DebugEvent → ProcessInOut → Bytes → Bool → World → Option (Bool × ProcessInOut × World)
  create_debug es p cmd start_ w = guarded p w (
      then_start start_ (λ q v. let (ok, q', v') = start_debug es q v in (q', v'))
        (open_and_create (suspended ∷ debug_only_this_process ∷ []) p cmd w))
