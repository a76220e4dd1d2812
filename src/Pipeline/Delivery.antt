-- ===== src/Pipeline/Delivery.antt =====
-- Where a submission is between its reading and the writing of its verdict.
use online_judger.Common.{ℕ, ◌+◌, total}
use online_judger.Common.Int.{ℤ}
use online_judger.Cell.Ledger.{of_task, of_entry, of_thread}
use online_judger.Cell.Threads.{
  Cell, Reachable as CellRun, fresh as cell_fresh, adds as cell_adds, steps as cell_steps,
  elsewhere as cell_elsewhere,
}
use online_judger.Config.{Config}
use online_judger.Database.{Services}
use online_judger.Database.Order.{in_order}
use online_judger.Database.Threads.{
  Manager, Reachable as ManagerRun, fresh, adds, steps, clears as manager_clears,
  puts as manager_puts, elsewhere as manager_elsewhere,
}
use online_judger.Judge.{JudgeCore}
use online_judger.Os.{Os}
use online_judger.Pipeline.{clears, puts, elsewhere}
use online_judger.Task.{Task}

module _ (os : Os) (config : Config) (db : Services os) (core : JudgeCore os config) where
  -- The runs of the two parts behind a run of the program: the cell is given what the manager hands
  -- on, and the manager what the cell has judged.
  record Parts (cores : ℕ) (m : Manager os) (c : Cell os) : Type 0 where
    nulls : ℕ
    cell : CellRun os config core cores m.handed nulls c
    manager : ManagerRun os config db c.judged m

  -- how often a submission waits for a core, is with one, waits to be written, is being written or is
  -- written
  abbrev pub in_program : ℤ → Manager os → Cell os → ℕ
  in_program id m c =
      total (of_entry id) c.queue
      + (total (of_thread id) c.threads + total (of_task id) (in_order os config db m))
