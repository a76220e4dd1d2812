-- ===== src/Tests/Managers.antt =====
-- A database manager whose writing thread has taken a task.
use online_judger.Common.{◌≤◌, ◌≡◌, ◌⊎◌, refl, Bool, true, false, List, [], ◌∷◌, none, some}
use online_judger.Config.{new_config}
use online_judger.Database.Threads.{
  reader_tests, Writer, writer_gets, writer_ended, writer_writes, Manager, ThreadStep, writer_test,
  writer_get, Reachable, fresh, adds, steps, stays, goes,
}
use online_judger.Database.Order.{in_order, Reachable-in_order}
use online_judger.Database.Stopping.{HasEnded, IsAborted, stop_returns}
use online_judger.Cell.{Entry}
use online_judger.Tests.Machine.{test_os, test_task}
use online_judger.Tests.Verdicts.{test_db}

abbrev manager : Bool → List Entry → Writer → Manager test_os
manager running q p = record {
  running = running;
  finish_task = q;
  reader = reader_tests;
  writer = p;
  handed = [];
  written = [];
  world = true;
}

waits : Reachable test_os new_config (test_db 3) [] (manager true [] writer_gets)
waits = steps (fresh true) (writer_test refl)

takes :
    Reachable test_os new_config
      (test_db 3)
      (test_task ∷ [])
      (manager true [] (writer_writes test_task))
takes = steps (adds test_task waits) (writer_get (some test_task) [] refl refl)

Reachable-in_order_example :
    in_order test_os new_config (test_db 3) (manager true [] (writer_writes test_task))
    ≡ test_task ∷ []
Reachable-in_order_example =
    Reachable-in_order test_os new_config (test_db 3) (test_task ∷ [])
      (manager true [] (writer_writes test_task)) takes

-- the thread waits for a task, and finds the task NULL that `stop` puts in
stop_returns_example :
    (1 ≤ 5)
    × (HasEnded (manager false [] writer_ended)
        ⊎ IsAborted (manager false [] writer_ended)
        ⊎ ((u : Manager test_os) × ThreadStep test_os new_config
              (test_db 3)
              (manager false [] writer_ended)
              u))
stop_returns_example =
    stop_returns test_os new_config (test_db 3) 1 (manager true [] writer_gets)
      (manager false [] writer_ended) (goes (writer_get none [] refl refl) stays)
