-- ===== src/Pipeline.antt =====
-- How Judger/main.cpp joins the database manager and the cell: `onRecivTask` and `onFinishTask`, and the
-- states that both come to as their threads go on in any order.
pub mod Delivery
use online_judger.Common.{ℕ, ◌≡◌, List, [], ◌∷◌, ◌++◌}
use online_judger.Cell.Threads.{Cell, create_cell, add_task, add_null, ThreadStep as CellStep}
use online_judger.Config.{Config}
use online_judger.Database.{Services}
use online_judger.Database.Read.{read_round}
use online_judger.Database.Threads.{
  reader_reads, Manager, new_manager, add_finish_task, clear_running, put_null, has_read,
  ThreadStep as ManagerStep,
}
use online_judger.Judge.{JudgeCore}
use online_judger.Os.{Os}
use online_judger.Task.{Task}

module _ (os : Os) (config : Config) (db : Services os) (core : JudgeCore os config) where
  abbrev pub on_reciv_task : Task → Cell os → Cell os
  on_reciv_task t c = add_task os config core t c

  abbrev pub on_finish_task : Task → Manager os → Manager os
  on_finish_task t m = add_finish_task t m

  -- `onRecivTask` for each task that a round of `doRead` hands on
  abbrev pub on_reciv_tasks : List Task → Cell os → Cell os
  on_reciv_tasks [] c = c
  on_reciv_tasks (t ∷ ts) c = on_reciv_tasks ts (on_reciv_task t c)

  -- The manager and the cell of a run of the program with so many cores, from where `main` has made both
  -- on. A round of the reading thread
  -- with its calls of `onRecivTask`, and a judgement with its call of `onFinishTask`, are one step.
  pub data Joined (cores : ℕ) : Manager os → Cell os → Type 0 where
    starts : (w v : os.World) → Joined cores (new_manager os w) (create_cell os cores v)
    reads :
        {m : Manager os} {c : Cell os}
        → Joined cores m c
        → m.reader ≡ reader_reads
        → Joined cores
            (has_read os config db m (read_round os config db m.world))
            (on_reciv_tasks (read_round os config db m.world).handed c)
    -- another step of a thread of the manager, which hands nothing on
    manages :
        {m m' : Manager os} {c : Cell os}
        → Joined cores m c
        → ManagerStep os config db m m'
        → m'.handed ≡ m.handed
        → Joined cores m' c
    judges :
        {m : Manager os} {c c' : Cell os} (u : Task)
        → Joined cores m c
        → CellStep os config core c c'
        → c'.judged ≡ c.judged ++ u ∷ []
        → Joined cores (on_finish_task u m) c'
    -- another step of a thread of the cell, which finishes nothing
    takes :
        {m : Manager os} {c c' : Cell os}
        → Joined cores m c
        → CellStep os config core c c'
        → c'.judged ≡ c.judged
        → Joined cores m c'
    -- the parts of `JudgeCell::stop` and of `DBManager::stop`
    stops_cell :
        {m : Manager os} {c : Cell os}
        → Joined cores m c
        → Joined cores m (add_null os config core c)
    clears : {m : Manager os} {c : Cell os} → Joined cores m c → Joined cores (clear_running m) c
    puts : {m : Manager os} {c : Cell os} → Joined cores m c → Joined cores (put_null m) c
    -- the world that both share has changed
    elsewhere :
        {m : Manager os} {c : Cell os} (w v : os.World)
        → Joined cores m c
        → Joined cores (record m { world = w }) (record c { world = v })
