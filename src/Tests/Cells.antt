-- ===== src/Tests/Cells.antt =====
-- A cell with one thread.
use online_judger.Common.{◌+◌, ◌*◌, ◌≤◌, ◌≡◌, ◌⊎◌, true, List, [], ◌∷◌, none, some, arith, total}
use online_judger.Common.Int.{pos}
use online_judger.Config.{new_config}
use online_judger.Cell.{Entry}
use online_judger.Cell.Threads.{
  Thread, waiting, judging, ended, Cell, ThreadStep, takes, Reachable, fresh, adds, puts_null,
  steps, stays, goes,
}
use online_judger.Cell.Alive.{is_alive}
use online_judger.Cell.Ledger.{in_cell, of_task, Reachable-in_cell}
use online_judger.Cell.Stopping.{threads_end}
use online_judger.Tests.Machine.{test_os, test_task, test_task-IsCoherent, test_core, test_laws}

abbrev cell : List Entry → Thread → Cell test_os
cell q p = record { queue = q; threads = p ∷ []; judged = []; world = true }

added :
    Reachable test_os new_config test_core 1 (test_task ∷ []) 0 (cell (some test_task ∷ []) waiting)
added = adds test_task test_task-IsCoherent (fresh true)

taken : Reachable test_os new_config test_core 1 (test_task ∷ []) 0 (cell [] (judging test_task))
taken = steps added (takes (some test_task) [] [] [] [] true)

stopped :
    Reachable test_os new_config test_core 1
      (test_task ∷ [])
      1
      (cell (none ∷ some test_task ∷ []) waiting)
stopped = puts_null added

Reachable-in_cell_example :
    in_cell (pos 1) (cell [] (judging test_task)) ≡ total (of_task (pos 1)) (test_task ∷ [])
Reachable-in_cell_example =
    Reachable-in_cell test_os new_config test_core test_laws 1 (test_task ∷ []) 0
      (cell [] (judging test_task)) taken (pos 1)

-- the task that waits behind the task NULL is left in the queue
threads_end_example :
    (1 ≤ 2 * 2 + 1)
    × ((total is_alive (ended ∷ []) ≡ 0)
        ⊎ ((u : Cell test_os) × ThreadStep test_os new_config test_core
              (cell (some test_task ∷ []) ended)
              u))
threads_end_example =
    threads_end test_os new_config test_core test_laws 1 1 1 (test_task ∷ [])
      (cell (none ∷ some test_task ∷ []) waiting) (cell (some test_task ∷ []) ended) stopped
      (omega arith) (goes (takes none (some test_task ∷ []) [] [] [] true) stays)
