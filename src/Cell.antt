-- ===== src/Cell.antt =====
-- `JudgeCell` and `CoreThreadObj` of Judger/JudgeCell.h and Judger/JudgeCell.cpp: the threads that
-- judge the tasks of a queue, and how they are stopped.
pub mod Worker
pub mod Threads
pub mod Ledger
pub mod Alive
pub mod Stopping
use online_judger.Common.{ℕ, zero, suc, Bool, true, false, List, [], ◌∷◌, Option, none, some, map}
use online_judger.Config.{Config}
use online_judger.FileTool.{make_dir}
use online_judger.Judge.{JudgeCore, judge}
use online_judger.Os.{Os}
use online_judger.Task.{Task, work_dir}
use online_judger.TaskMgr.{push}

-- a task of the queue; `none` is the task NULL
abbrev pub Entry : Type 0
Entry = Option Task

-- how the loop of a thread stands: it waits for a task, or it ended at a task NULL, at a judgement
-- that failed, or at a failed assertion
pub data Ending : Type 0 where
  waits exit_task fatal asserted : Ending

-- what a thread has done with the entries that `getTask` gave it
pub record Work (os : Os) : Type 0 where
  pub ending : Ending
  pub judged : List Task
  pub rest : List Entry
  pub world : os.World

module _ (os : Os) (config : Config) (core : JudgeCore os config) where
  open os use {World, sleep}

  -- the rest of a round, by what `judge` returned and what the next rounds do
  after_judge : List Entry → World → Option (Bool × Task × World) → (World → Work os) → Work os
  after_judge ts w none next = record { ending = asserted; judged = []; rest = ts; world = w }
  after_judge ts w (some (false, u, w')) next = record {
    ending = fatal;
    judged = u ∷ [];
    rest = ts;
    world = w';
  }
  after_judge ts w (some (true, u, w')) next =
      let later = next (sleep 100 w') in record later { judged = u ∷ later.judged }

  -- the loop of `work`, for the entries that `getTask` gives one after another
  unfoldable pub work : List Entry → World → Work os
  unfolding after_judge
  work [] w = record { ending = waits; judged = []; rest = []; world = w }
  work (none ∷ ts) w = record { ending = exit_task; judged = []; rest = ts; world = w }
  work (some t ∷ ts) w = after_judge ts w (judge os config core t w) (work ts)

-- `JudgeCell::JudgeCell`, but for the threads
abbrev pub make_work_dir : (os : Os) → os.World → Bool × os.World
make_work_dir os w = make_dir os work_dir w

-- the loop of `stop`: `addFront(NULL)` for each core
pub stop : ℕ → List Entry → List Entry
stop zero ts = ts
stop (suc cores) ts = stop cores (push true none ts)

-- the threads of `create`, each running to its end before the next takes an entry
pub work_all :
    (os : Os) (config : Config)
    → List (JudgeCore os config)
    → List Entry
    → os.World
    → List (Work os)
unfolding work
work_all os config [] ts w = []
work_all os config (core ∷ cores) ts w =
    let done = work os config core ts w in done ∷ work_all os config cores done.rest done.world
