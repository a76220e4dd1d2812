-- ===== src/Tests/Steps.antt =====
-- The steps of the judge, its watcher and its processes at concrete inputs.
use Prim.Native.Nat.{max}
use online_judger.Common.{ℕ, ◌≡◌, ◌*◌, refl, true, false, List, [], ◌∷◌, some, arith}
use online_judger.Config.{new_config}
use online_judger.Excuter.{debug_runner, judge_debug_run, int_of, mb_bytes, s_100ns}
use online_judger.Excuter.Verdicts.{debug_runner_succeeds}
use online_judger.Process.{create_process, exit_process, debug_start}
use online_judger.Process.Outcome.{exit_code}
use online_judger.Watcher.{Sample, do_watch, new_watcher}
use online_judger.Watcher.Limits.{Verdict, do_watch-Verdict, Within, peak, do_watch-Within}
use online_judger.Tests.Machine.{test_os, test_task}

abbrev two_samples : List Sample
two_samples = record { time = 3; memory = 5 } ∷ record { time = 11; memory = 5 } ∷ []

abbrev last_sample : Sample
last_sample = record { time = 12; memory = 4 }

do_watch-Verdict_example :
    Verdict 10 20 (do_watch (new_watcher 10 20) two_samples last_sample) two_samples
do_watch-Verdict_example = do_watch-Verdict 10 20 two_samples last_sample

-- the limit of the time is 11, and the last update is beyond it
do_watch-Within_example :
    ((do_watch (new_watcher 11 20) two_samples last_sample).time_limited ≡ false)
    × ((do_watch (new_watcher 11 20) two_samples last_sample).memory_limited ≡ false)
    × ((do_watch (new_watcher 11 20) two_samples last_sample).run_time ≡ 12)
    × ((do_watch (new_watcher 11 20) two_samples last_sample).run_memory ≡ max (peak two_samples) 4)
do_watch-Within_example =
    do_watch-Within 11 20 two_samples last_sample
      (omega arith, omega arith, (omega arith, omega arith, tt))

runs : (debug_runner test_os new_config test_task true).0 ≡ true
unfolding debug_runner judge_debug_run do_watch debug_start int_of
runs = refl

debug_runner_succeeds_example :
    (true ≡ true)
    × Within (1 * s_100ns) (32 * mb_bytes) []
    × ((code : ℕ) → exit_code (create_process ∷ exit_process 0 ∷ []) ≡ some code → code ≡ 0)
    × (◌≡◌ {A = ℕ} 0 0)
debug_runner_succeeds_example = debug_runner_succeeds test_os new_config test_task true runs
