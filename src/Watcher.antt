-- ===== src/Watcher.antt =====
-- `Watcher` of Commen/Watcher.h and acm/Watcher.cpp: the thread that samples a process and stops it
-- beyond its limits. Times are in units of 100 ns, memory in bytes.
pub mod Limits
use online_judger.Common.{
  ℕ, Bool, true, false, List, [], ◌∷◌, Option, none, some, ltb, if◌then◌else◌,
}

pub record Watcher : Type 0 where
  pub limit_time : ℕ
  pub run_time : ℕ
  pub limit_memory : ℕ
  pub run_memory : ℕ
  pub time_limited : Bool
  pub memory_limited : Bool

abbrev pub new_watcher : ℕ → ℕ → Watcher
new_watcher time memory = record {
  limit_time = time;
  run_time = 0;
  limit_memory = memory;
  run_memory = 0;
  time_limited = false;
  memory_limited = false;
}

-- what the system says in one round: `GetProcessTimes` and `PeakPagefileUsage`
pub record Sample : Type 0 where
  pub time : ℕ
  pub memory : ℕ

-- `updateTime` and `updateMemory`: the new state and the result
abbrev pub update_time : Watcher → ℕ → Watcher × Bool
update_time w t = (record w { run_time = t }, ltb w.limit_time t)

abbrev pub update_memory : Watcher → ℕ → Watcher × Bool
update_memory w m =
    let peak = if ltb w.run_memory m then m else w.run_memory in
    (record w { run_memory = peak }, ltb w.limit_memory peak)

-- one round of the loop of `_doWatch`: the new state, and whether the loop goes on
pub watch_round : Watcher → Sample → Watcher × Bool
watch_round w s =
    let timed = update_time w s.time in
    if timed.1
    then (record w { run_time = s.time; time_limited = true }, false)
    else (let seen = update_memory timed.0 s.memory in
        if seen.1
        then (
          record w { run_time = s.time; run_memory = seen.0.run_memory; memory_limited = true },
          false,
        )
        else (seen.0, true))

-- The samples are those of the rounds in which the process is found running; where they end, it is
-- not running.
pub watch_loop : Watcher → List Sample → Watcher
watch_loop w [] = w
watch_loop w (s ∷ ss) =
    let r = watch_round w s in elim r.1 [ true ↦ watch_loop r.0 ss | false ↦ r.0 ]

-- `_doWatch`, with the sample of the last update
unfoldable pub do_watch : Watcher → List Sample → Sample → Watcher
unfolding watch_loop watch_round
do_watch w ss last = (update_memory (update_time (watch_loop w ss) last.time).0 last.memory).0

abbrev pub is_time_out : Watcher → Bool
is_time_out w = w.time_limited

abbrev pub is_memory_out : Watcher → Bool
is_memory_out w = w.memory_limited
