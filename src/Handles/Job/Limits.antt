-- ===== src/Handles/Job/Limits.antt =====
-- The limits that `ExeRunner` of Judger/Excuter.cpp and `ZProcessJob` of acm/ZProcess.cpp set.
use online_judger.Common.{ℕ, ◌*◌, ◌^◌, ◌≤◌, ◌<◌, ◌≡◌, ◌↔◌, arith}
use online_judger.Common.Int.{pos}
use online_judger.Excuter.{int_of}
use online_judger.Handles.Job.{job_time, job_memory}

-- For a task with a limit of `s` seconds and `m` megabytes, both below 2 ^ 31, the job gets `s` seconds
-- exactly when `s` is at most 214, and `m` megabytes exactly when `m` is below 2048. The units of the
-- job are 100 ns and bytes.
pub run_limits-exact_iff :
    (s m : ℕ)
    → s < 2 ^ 31
    → m < 2 ^ 31
    → ((job_time (s * 1000) ≡ pos (s * 10000000)) ↔ (s ≤ 214))
      × ((job_memory (m * 1024) ≡ pos (m * 1048576)) ↔ (m < 2048))
unfolding job_time job_memory int_of
run_limits-exact_iff s m hs hm = (ground arith, ground arith)
