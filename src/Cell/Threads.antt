-- ===== src/Cell/Threads.antt =====
-- The threads of `JudgeCell` in any order: an access of a thread to the queue, or a judgement, is a
-- step. Behind the queue stands TaskMgr, whose items come out in this order however its own steps fall.
use online_judger.Common.{ℕ, zero, suc, ◌≡◌, Bool, true, false, List, [], ◌∷◌, ◌++◌, none, some}
use online_judger.Config.{Config}
use online_judger.Judge.{JudgeCore, judge}
use online_judger.Os.{Os}
use online_judger.Task.{Task}
use online_judger.Task.Data.{IsCoherent}
use online_judger.TaskMgr.{push}
use online_judger.Cell.{Entry}

-- where a thread of `CoreThreadObj::work` stands: in `getTask`, in `judge`, or behind the loop
pub data Thread : Type 0 where
  waiting : Thread
  judging : Task → Thread
  ended : Thread

-- the queue, the threads, the tasks that were judged, and what of the world they changed
pub record Cell (os : Os) : Type 0 where
  pub queue : List Entry
  pub threads : List Thread
  pub judged : List Task
  pub world : os.World

-- behind `getTask`
abbrev pub with_entry : Entry → Thread
with_entry none = ended
with_entry (some t) = judging t

-- behind `judge`
abbrev pub with_result : Bool → Thread
with_result true = waiting
with_result false = ended

abbrev pub waiting_threads : ℕ → List Thread
waiting_threads zero = []
waiting_threads (suc n) = waiting ∷ waiting_threads n

-- `JudgeCell::create`, whose threads begin at once
abbrev pub create_cell : (os : Os) → ℕ → os.World → Cell os
create_cell os cores w = record {
  queue = [];
  threads = waiting_threads cores;
  judged = [];
  world = w;
}

module _ (os : Os) (config : Config) (core : JudgeCore os config) where
  open os use {World, sleep}

  -- `Sleep(100)`, in front of the next round only
  abbrev pub rest_after : Bool → World → World
  rest_after true w = sleep 100 w
  rest_after false w = w

  -- a step of one thread among the others
  pub data ThreadStep : Cell os → Cell os → Type 0 where
    takes :
        (e : Entry) (q : List Entry) (before after : List Thread) (us : List Task) (w : World)
        → ThreadStep
            (record { queue = e ∷ q; threads = before ++ waiting ∷ after; judged = us; world = w })
            (record { queue = q; threads = before ++ with_entry e ∷ after; judged = us; world = w })
    judges :
        (t u : Task) (b : Bool) (q : List Entry) (before after : List Thread) (us : List Task)
        (w w' : World)
        → judge os config core t w ≡ some (b, u, w')
        → ThreadStep
            (record { queue = q; threads = before ++ judging t ∷ after; judged = us; world = w })
            (record {
              queue = q;
              threads = before ++ with_result b ∷ after;
              judged = us ++ u ∷ [];
              world = rest_after b w';
            })

  -- `addTask` with a task
  abbrev pub add_task : Task → Cell os → Cell os
  add_task t s = record s { queue = push false (some t) s.queue }

  -- a round of the loop of `stop`
  abbrev pub add_null : Cell os → Cell os
  add_null s = record s { queue = push true none s.queue }

  -- The cells that come of a new one with so many cores, with the tasks that were added and the number
  -- of tasks NULL that `stop` put in front. Between its steps others may change the world.
  pub data Reachable (cores : ℕ) : List Task → ℕ → Cell os → Type 0 where
    fresh : (w : World) → Reachable cores [] 0 (create_cell os cores w)
    adds :
        {ts : List Task} {puts : ℕ} {s : Cell os} (t : Task)
        → IsCoherent t
        → Reachable cores ts puts s
        → Reachable cores (ts ++ t ∷ []) puts (add_task t s)
    puts_null :
        {ts : List Task} {puts : ℕ} {s : Cell os}
        → Reachable cores ts puts s
        → Reachable cores ts (suc puts) (add_null s)
    steps :
        {ts : List Task} {puts : ℕ} {s s' : Cell os}
        → Reachable cores ts puts s
        → ThreadStep s s'
        → Reachable cores ts puts s'
    elsewhere :
        {ts : List Task} {puts : ℕ} {s : Cell os} (w : World)
        → Reachable cores ts puts s
        → Reachable cores ts puts (record s { world = w })

  -- the threads alone, for a number of steps
  pub data ThreadSteps : ℕ → Cell os → Cell os → Type 0 where
    stays : {s : Cell os} → ThreadSteps 0 s s
    goes : {n : ℕ} {s t u : Cell os} → ThreadStep s t → ThreadSteps n t u → ThreadSteps (suc n) s u
