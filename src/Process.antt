-- ===== src/Process.antt =====
-- acm/ZProcess.cpp: the loops in which the judge follows a child process, as a debugger
-- (`ZProcessDebug`) or through the messages of a job object (`ZProcessJob`).
pub mod Outcome
use online_judger.Common.{
  ℕ, Bool, true, false, List, [], ◌∷◌, Option, none, some, ◌==◌, not, if◌then◌else◌,
}

-- the debug events that `start` tells apart
pub data DebugEvent : Type 0 where
  create_process breakpoint exception other : DebugEvent
  exit_process : ℕ → DebugEvent

-- the argument of `ContinueDebugEvent`
pub data ContinueStatus : Type 0 where
  dbg_continue dbg_exception_not_handled : ContinueStatus

-- `dwContinueStatus` after an event; it is never set back
pub next_status : ContinueStatus → DebugEvent → ContinueStatus
next_status status exception = dbg_exception_not_handled
next_status status _ = status

-- The loop of `ZProcessDebug::start`: its result, and the statuses that it hands on. It ends by
-- itself where the events end, since `WaitForDebugEvent` fails then.
pub debug_loop : ContinueStatus → List DebugEvent → Bool × List ContinueStatus
debug_loop status [] = (true, [])
debug_loop status (exit_process code ∷ es) = (code == 0, [])
debug_loop status (e ∷ es) =
    let status' = next_status status e in
    let rest = debug_loop status' es in (rest.0, status' ∷ rest.1)

unfoldable pub debug_start : List DebugEvent → Bool × List ContinueStatus
unfolding debug_loop next_status
debug_start es = debug_loop dbg_continue es

-- the notifications of a job object
pub data JobMessage : Type 0 where
  new_process end_of_job_time end_of_process_time process_memory_limit job_memory_limit : JobMessage
  active_process_limit active_process_zero exit_of_process abnormal_exit_process unknown :
      JobMessage

-- what a message does to `m_exitCode`, and whether it ends the loop
pub on_message : JobMessage → ℕ → ℕ × Bool
on_message new_process code = (code, false)
on_message end_of_job_time code = (1, true)
on_message end_of_process_time code = (1, true)
on_message process_memory_limit code = (2, true)
on_message job_memory_limit code = (2, true)
on_message active_process_limit code = (code, false)
on_message active_process_zero code = (code, true)
on_message exit_of_process code = (code, true)
on_message abnormal_exit_process code = (3, true)
on_message unknown code = (99, false)

-- The loop of `ZProcessJob::start`: the exit code, or none where it waits for one more message.
unfoldable pub job_loop : ℕ → List JobMessage → Option ℕ
job_loop code [] = none
job_loop code (m ∷ ms) =
    let r = on_message m code in elim r.1 [ true ↦ some r.0 | false ↦ job_loop r.0 ms ]

unfoldable pub job_start : List JobMessage → Option ℕ
unfolding job_loop on_message
job_start ms = job_loop 0 ms
