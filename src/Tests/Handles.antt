-- ===== src/Tests/Handles.antt =====
-- A table of open handles, and the processes of Handles on it.
use online_judger.Common.{
  ℕ, suc, ◌+◌, ◌≤◌, ◌<◌, ◌*◌, ◌≡◌, ◌↔◌, refl, true, List, [], ◌∷◌, Option, some, ◌==◌,
  if◌then◌else◌, codes, arith,
}
use online_judger.Common.Int.{pos}
use online_judger.Handles.{
  Handle, null, invalid, handle, Kernel, create_debug, open_and_create, create_input_file,
  create_output_file, start_debug, close_files_and_thread, safe_close_handle, debug_rounds,
  close_event_file, destroy,
}
use online_judger.Handles.Lives.{debugged_process, end_debugged}
use online_judger.Handles.Accounts.{one, pair, CarriesFile, Ledger, Grows, IsLawful}
use online_judger.Handles.Debug.{Closed, debugged_process-Closed}
use online_judger.Handles.Job.Closed.{Dies, JobClosed, run_in_job-Closed}
use online_judger.Handles.Job.{job_time, job_memory, terminate_loop, run_in_job}
use online_judger.Handles.Job.Limits.{run_limits-exact_iff}
use online_judger.Process.{
  DebugEvent, create_process, breakpoint, exception, other, exit_process, new_process,
  exit_of_process, job_loop, job_start,
}

record Table : Type 0 where
  next : ℕ
  opened : List ℕ
  failed : ℕ

abbrev times : List ℕ → ℕ → ℕ
times [] j = 0
times (n ∷ ns) j = (if n == j then 1 else 0) + times ns j

abbrev give : Table → Handle × Table
give t =
    (handle t.next, record { next = suc t.next; opened = t.next ∷ t.opened; failed = t.failed })

abbrev take_out : ℕ → List ℕ → List ℕ
take_out n [] = []
take_out n (m ∷ ms) = let rest = take_out n ms in if m == n then ms else m ∷ rest

abbrev close : Handle → Table → Table
close null t = record t { failed = suc t.failed }
close invalid t = t
close (handle n) t = record {
  next = t.next;
  opened = take_out n t.opened;
  failed = if times t.opened n == 0 then suc t.failed else t.failed;
}

abbrev arrive : DebugEvent → Table → Handle × Table
arrive create_process t = give t
arrive other t = give t
arrive breakpoint t = (null, t)
arrive exception t = (null, t)
arrive (exit_process code) t = (null, t)

abbrev start : Table → Option (Handle × Handle) × Table
start t = let (p, t1) = give t in let (h, t2) = give t1 in (some (p, h), t2)

abbrev kernel : Kernel
kernel = record {
  World = Table;
  close_handle = close;
  open_to_read = λ name t. (invalid, t);
  open_to_write = λ name t. give t;
  start_process = λ cmd flags i o t. start t;
  resume_thread = λ h t. t;
  wait_for_debug_event = arrive;
  continue_debug_event = λ s t. t;
  stop_debugging = λ t. t;
  create_job = give;
  set_information = λ h i t. t;
  create_completion_port = give;
  assign_process = λ h p t. (true, t);
  next_message = λ h m t. t;
  query_accounts = λ h t. (120000, 2048);
  terminate_job = λ h t. (true, t);
  sleep = λ t. t;
}

abbrev ledger : Ledger kernel
ledger = record { count = λ t j. times t.opened j; faults = λ t. t.failed }

times-take_out :
    (n j : ℕ) (ns : List ℕ)
    → 1 ≤ times ns n
    → times ns j ≡ times (take_out n ns) j + one (handle n) j
times-take_out n j [] h = absurd (omega arith)
times-take_out n j (m ∷ ns) h = ground (arith, times-take_out n j ns)

close-Grows :
    (n : ℕ) (t : Table)
    → 1 ≤ times t.opened n
    → Grows kernel ledger (close (handle n) t) t (one (handle n))
close-Grows n t h = (ground arith, λ j. times-take_out n j t.opened h)

give-Grows : (t : Table) → Grows kernel ledger t (give t).1 (one (give t).0)
give-Grows t = (refl, λ j. omega arith)

start-Grows : (t : Table) → Grows kernel ledger t (start t).1 (pair (start t).0)
start-Grows t = (refl, λ j. omega arith)

same : (t : Table) → Grows kernel ledger t t (λ j. 0)
same t = (refl, λ j. omega arith)

arrive-Grows :
    (e : DebugEvent) (t : Table) → Grows kernel ledger t (arrive e t).1 (one (arrive e t).0)
arrive-Grows create_process t = give-Grows t
arrive-Grows other t = give-Grows t
arrive-Grows breakpoint t = same t
arrive-Grows exception t = same t
arrive-Grows (exit_process code) t = same t

arrive-CarriesFile : (e : DebugEvent) (t : Table) → CarriesFile e (arrive e t).0
arrive-CarriesFile create_process t = tt
arrive-CarriesFile other t = tt
arrive-CarriesFile breakpoint t = refl
arrive-CarriesFile exception t = refl
arrive-CarriesFile (exit_process code) t = refl

kernel-IsLawful : IsLawful kernel ledger
kernel-IsLawful = record {
  close = close-Grows;
  close_invalid = same;
  read = λ name t. same t;
  write = λ name t. give-Grows t;
  start = λ cmd flags i o t. start-Grows t;
  resume = λ h t. same t;
  wait = arrive-Grows;
  carries = arrive-CarriesFile;
  continue = λ s t. same t;
  stop = same;
  job = give-Grows;
  set = λ h i t. same t;
  port = give-Grows;
  assign = λ h p t. same t;
  message = λ h m t. same t;
  terminate = λ h t. same t;
  sleeps = same;
}

abbrev empty_table : Table
empty_table = record { next = 0; opened = []; failed = 0 }

-- two DLLs
abbrev some_events : List DebugEvent
some_events = create_process ∷ other ∷ breakpoint ∷ other ∷ exit_process 0 ∷ []

debugged_process-Closed_example :
    Closed kernel ledger kernel-IsLawful empty_table
      (debugged_process kernel
        (codes "1.in")
        (codes "1.out")
        (codes "a.exe")
        some_events
        (λ t. t)
        empty_table)
      some_events
debugged_process-Closed_example =
    debugged_process-Closed kernel ledger kernel-IsLawful (codes "1.in") (codes "1.out")
      (codes "a.exe") some_events (λ t. t) empty_table (omega arith) same

-- the files of the two DLLs stay open
debugged_process_leaks :
    debugged_process kernel
      (codes "1.in")
      (codes "1.out")
      (codes "a.exe")
      some_events
      (λ t. t)
      empty_table
    ≡ some (true, record { next = 6; opened = 5 ∷ 4 ∷ []; failed = 0 })
unfolding debugged_process create_debug open_and_create create_input_file create_output_file
    end_debugged start_debug close_files_and_thread safe_close_handle debug_rounds close_event_file
    destroy
debugged_process_leaks = refl

terminates : Dies kernel ledger kernel-IsLawful 1
unfolding terminate_loop
terminates h t = (t, refl)

run_in_job-Closed_example : JobClosed kernel ledger kernel-IsLawful empty_table 0 (
    run_in_job kernel
      (codes "1.in")
      (codes "1.out")
      1000
      65536
      (codes "a.exe")
      1
      (new_process ∷ exit_of_process ∷ [])
      empty_table)
unfolding job_start job_loop
run_in_job-Closed_example =
    run_in_job-Closed kernel ledger kernel-IsLawful (codes "1.in") (codes "1.out") 1000 65536
      (codes "a.exe") 1 (new_process ∷ exit_of_process ∷ []) empty_table 0 (omega arith) (refl)
      terminates

run_limits-exact_iff_example :
    ((job_time (214 * 1000) ≡ pos (214 * 10000000)) ↔ (214 ≤ 214))
    × ((job_memory (2048 * 1024) ≡ pos (2048 * 1048576)) ↔ (2048 < 2048))
run_limits-exact_iff_example = run_limits-exact_iff 214 2048 (omega arith) (omega arith)
