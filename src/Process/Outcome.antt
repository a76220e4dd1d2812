-- ===== src/Process/Outcome.antt =====
-- What the two loops report.
use online_judger.Common.{
  ℕ, ◌≡◌, ◌≢◌, ◌↔◌, refl, false, List, [], ◌∷◌, ◌⊎◌, inl, inr, Option, none, some, arith,
}
use online_judger.Process.{
  DebugEvent, create_process, breakpoint, exception, other, exit_process, ContinueStatus,
  dbg_continue, next_status, debug_loop, debug_start, JobMessage, new_process, active_process_limit,
  active_process_zero, exit_of_process, unknown, on_message, job_loop, job_start,
}

-- the code of the first exit among the events
abbrev pub exit_code : List DebugEvent → Option ℕ
exit_code [] = none
exit_code (exit_process code ∷ es) = some code
exit_code (e ∷ es) = exit_code es

debug_loop-false_iff :
    (es : List DebugEvent) (s : ContinueStatus)
    → ((debug_loop s es).0 ≡ false) ↔ ((code : ℕ) × (exit_code es ≡ some code) × (code ≢ 0))
unfolding debug_loop
debug_loop-false_iff [] s = ((λ h. cc), λ h. cc h.1)
debug_loop-false_iff (exit_process code ∷ es) s =
    ((λ h. (code, refl, λ e. ground arith)), λ (c, e, ne). ground arith)
debug_loop-false_iff (create_process ∷ es) s =
    debug_loop-false_iff es (next_status s create_process)
debug_loop-false_iff (breakpoint ∷ es) s = debug_loop-false_iff es (next_status s breakpoint)
debug_loop-false_iff (exception ∷ es) s = debug_loop-false_iff es (next_status s exception)
debug_loop-false_iff (other ∷ es) s = debug_loop-false_iff es (next_status s other)

-- The run counts as failed exactly if the first exit of the process has a code other than 0.
pub debug_start-false_iff :
    (es : List DebugEvent)
    → ((debug_start es).0 ≡ false) ↔ ((code : ℕ) × (exit_code es ≡ some code) × (code ≢ 0))
unfolding debug_start
debug_start-false_iff es = debug_loop-false_iff es dbg_continue

-- Messages of a run with no complaint: processes come, and then the process or the job ends.
pub data IsClean : List JobMessage → Type 0 where
  ends :
      {m : JobMessage} {ms : List JobMessage}
      → (m ≡ exit_of_process) ⊎ (m ≡ active_process_zero)
      → IsClean (m ∷ ms)
  goes_on :
      {m : JobMessage} {ms : List JobMessage}
      → (m ≡ new_process) ⊎ (m ≡ active_process_limit)
      → IsClean ms
      → IsClean (m ∷ ms)

job_loop_odd : (ms : List JobMessage) → job_loop 99 ms ≢ some 0
unfolding job_loop on_message
job_loop_odd [] e = cc
job_loop_odd (new_process ∷ ms) e = job_loop_odd ms e
job_loop_odd (active_process_limit ∷ ms) e = job_loop_odd ms e
job_loop_odd (unknown ∷ ms) e = job_loop_odd ms e
job_loop_odd (_ ∷ ms) e = ground arith

job_loop-IsClean : (ms : List JobMessage) → job_loop 0 ms ≡ some 0 → IsClean ms
unfolding job_loop on_message
job_loop-IsClean [] e = absurd cc
job_loop-IsClean (new_process ∷ ms) e = goes_on (inl refl) (job_loop-IsClean ms e)
job_loop-IsClean (active_process_limit ∷ ms) e = goes_on (inr refl) (job_loop-IsClean ms e)
job_loop-IsClean (active_process_zero ∷ ms) e = ends (inr refl)
job_loop-IsClean (exit_of_process ∷ ms) e = ends (inl refl)
job_loop-IsClean (unknown ∷ ms) e = absurd (job_loop_odd ms e)
job_loop-IsClean (_ ∷ ms) e = absurd (ground arith)

IsClean-job_loop : {ms : List JobMessage} → IsClean ms → job_loop 0 ms ≡ some 0
unfolding job_loop on_message
IsClean-job_loop (ends (inl e)) = ground arith
IsClean-job_loop (ends (inr e)) = ground arith
IsClean-job_loop (goes_on (inl e) c) = ground (arith, IsClean-job_loop c)
IsClean-job_loop (goes_on (inr e) c) = ground (arith, IsClean-job_loop c)

-- A job run ends with the code 0 exactly if, before the process or the job ended, there were only
-- messages of new processes and of too many processes; so a message that the loop does not know
-- keeps the code from being 0, also where the process ends well after it.
pub job_start-zero_iff : (ms : List JobMessage) → (job_start ms ≡ some 0) ↔ IsClean ms
unfolding job_start
job_start-zero_iff ms = (job_loop-IsClean ms, λ c. IsClean-job_loop c)
