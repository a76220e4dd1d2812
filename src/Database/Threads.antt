-- ===== src/Database/Threads.antt =====
-- The two threads of `DBManager` of Judger/DBManager.cpp in any order, with `addFinishTask` and `stop`.
-- A test of `isRunning`, an access to the queue, and the work on a result or a task are steps.
use online_judger.Common.{ℕ, suc, ◌≡◌, Bool, true, false, List, [], ◌∷◌, ◌++◌, Option, none, some}
use online_judger.Cell.{Entry}
use online_judger.Config.{Config}
use online_judger.Os.{Os}
use online_judger.Task.{Task}
use online_judger.TaskMgr.{push}
use online_judger.Database.{Services, Halt, query_failed, too_long, asserted, Reads, write_task}
use online_judger.Database.Read.{read_round}

-- Where `doRead` stands: at the test of its loop, in a round, behind the loop, or where it ended the
-- program
pub data Reader : Type 0 where
  reader_tests reader_reads reader_ended reader_aborted : Reader

-- where `doWrite` stands: also in `getFinishTask`, and with a task
pub data Writer : Type 0 where
  writer_tests writer_gets writer_ended : Writer
  writer_writes writer_aborted : Task → Writer

-- the members, the threads, and what these have done
pub record Manager (os : Os) : Type 0 where
  pub running : Bool
  pub finish_task : List Entry
  pub reader : Reader
  pub writer : Writer
  pub handed : List Task
  pub written : List Task
  pub world : os.World

-- the constructor, whose threads begin at once
abbrev pub new_manager : (os : Os) → os.World → Manager os
new_manager os w = record {
  running = true;
  finish_task = [];
  reader = reader_tests;
  writer = writer_tests;
  handed = [];
  written = [];
  world = w;
}

-- behind the test of `isRunning`
abbrev pub reader_at : Bool → Reader
reader_at true = reader_reads
reader_at false = reader_ended

abbrev pub writer_at : Bool → Writer
writer_at true = writer_gets
writer_at false = writer_ended

-- behind `getFinishTask`
abbrev pub writer_with : Entry → Writer
writer_with none = writer_ended
writer_with (some t) = writer_writes t

-- behind a round of `doRead`: a refused query leaves the loop
abbrev pub reader_after : Option Halt → Reader
reader_after none = reader_tests
reader_after (some query_failed) = reader_ended
reader_after (some too_long) = reader_aborted
reader_after (some asserted) = reader_aborted

module _ {os : Os} where
  -- `addFinishTask` with a task
  abbrev pub add_finish_task : Task → Manager os → Manager os
  add_finish_task t s = record s { finish_task = push false (some t) s.finish_task }

  -- the two assignments of `DBManager::stop` in front of its waits
  abbrev pub clear_running : Manager os → Manager os
  clear_running s = record s { running = false }

  abbrev pub put_null : Manager os → Manager os
  put_null s = record s { finish_task = push true none s.finish_task }

  abbrev pub stop : Manager os → Manager os
  stop s = put_null (clear_running s)

module _ (os : Os) (config : Config) (db : Services os) where
  -- the end of a round of `doWrite`
  abbrev pub wrote : Task → Manager os → Option os.World → Manager os
  wrote t s none = record s { writer = writer_aborted t }
  wrote t s (some w) = record s { writer = writer_tests; written = s.written ++ t ∷ []; world = w }

  -- the end of a round of `doRead`
  abbrev pub has_read : Manager os → Reads os → Manager os
  has_read s r = record s {
    reader = reader_after r.halted;
    handed = s.handed ++ r.handed;
    world = r.world;
  }

  -- a step of one of the threads
  pub data ThreadStep (s : Manager os) : Manager os → Type 0 where
    reader_test : s.reader ≡ reader_tests → ThreadStep s (record s { reader = reader_at s.running })
    reader_round :
        s.reader ≡ reader_reads → ThreadStep s (has_read s (read_round os config db s.world))
    writer_test : s.writer ≡ writer_tests → ThreadStep s (record s { writer = writer_at s.running })
    writer_get :
        (e : Entry) (q : List Entry)
        → s.writer ≡ writer_gets
        → s.finish_task ≡ e ∷ q
        → ThreadStep s (record s { finish_task = q; writer = writer_with e })
    writer_write :
        (t : Task)
        → s.writer ≡ writer_writes t
        → ThreadStep s (wrote t s (write_task os config db t s.world))

  -- The managers that come of a new one, with the tasks that were added. Between its steps others may
  -- change the world.
  pub data Reachable : List Task → Manager os → Type 0 where
    fresh : (w : os.World) → Reachable [] (new_manager os w)
    adds :
        {ts : List Task} {s : Manager os} (t : Task)
        → Reachable ts s
        → Reachable (ts ++ t ∷ []) (add_finish_task t s)
    clears : {ts : List Task} {s : Manager os} → Reachable ts s → Reachable ts (clear_running s)
    puts : {ts : List Task} {s : Manager os} → Reachable ts s → Reachable ts (put_null s)
    steps :
        {ts : List Task} {s s' : Manager os} → Reachable ts s → ThreadStep s s' → Reachable ts s'
    elsewhere :
        {ts : List Task} {s : Manager os} (w : os.World)
        → Reachable ts s
        → Reachable ts (record s { world = w })

  -- the threads alone, for a number of steps
  pub data ThreadSteps : ℕ → Manager os → Manager os → Type 0 where
    stays : {s : Manager os} → ThreadSteps 0 s s
    goes :
        {n : ℕ} {s t u : Manager os} → ThreadStep s t → ThreadSteps n t u → ThreadSteps (suc n) s u
