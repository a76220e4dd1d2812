-- ===== src/Database.antt =====
-- `DBManager` of Judger/DBManager.h and Judger/DBManager.cpp: the thread that reads submissions from
-- the database and the one that writes their verdicts.
pub mod Statements
pub mod Sizes
pub mod Read
pub mod Reading
pub mod Writing
pub mod Threads
pub mod Order
pub mod Stopping
use online_judger.Common.{
  ℕ, zero, suc, Bool, true, false, not, List, [], ◌∷◌, ◌++◌, Option, none, some, ltb, ◌>>=◌,
  if◌then◌else◌, Bytes, codes, length, get_elem?, take,
}
use online_judger.Common.Int.{ℤ, pos, eq_ℤ}
use online_judger.Cell.{Entry}
use online_judger.Config.{Config}
use online_judger.FileTool.{get_file_path, make_dir}
use online_judger.Number.{atoi, show_int}
use online_judger.Os.{Os}
use online_judger.Task.{Task, Rate, new_task}
use online_judger.Text.{find_first_of}

-- a row of a result, by its columns
abbrev pub Row : Type 0
Row = List Bytes

-- What the manager calls: the MySQL client, a file stream, the printing of a quotient with "%f", and
-- the callback for a task.
pub record Services (os : Os) : Type 0 where
  pub query : Bytes → os.World → Bool × os.World
  -- the rows of the last query; none where it has no result
  pub store_result : os.World → Option (List Row) × os.World
  pub real_escape_string : Bytes → Bytes
  pub write_file : Bytes → Bytes → os.World → os.World
  pub show_rate : Rate → Bytes
  pub reciv_cb : Task → os.World → os.World

-- `row->col(i)`, which is used on columns that the statement asks for
abbrev pub col : Row → ℕ → Bytes
col row i = elim (get_elem? row i) [ none ↦ [] | some c ↦ c ]

-- `sprintf_s` into 1024 characters; none where the text does not fit, which ends the program
unfoldable pub print_1024 : Bytes → Option Bytes
print_1024 s = if ltb (length s) 1024 then some s else none

-- how a thread of the manager ends: at a statement that the server refuses, at one that does not fit
-- its buffer, or at a failed assertion
pub data Halt : Type 0 where
  query_failed too_long asserted : Halt

-- what `doRead` has handed to the callback, and how it ended, if it did
pub record Reads (os : Os) : Type 0 where
  pub handed : List Task
  pub halted : Option Halt
  pub world : os.World

-- what `doWrite` has written
pub record Writes (os : Os) : Type 0 where
  pub written : List Task
  pub halted : Option Halt
  pub world : os.World

-- `trimPartStringA`
unfoldable pub trim_part_string : Bytes → Bytes
trim_part_string str = elim (find_first_of 0 str) [ none ↦ str | some p ↦ take p str ]

module _ (os : Os) (config : Config) (db : Services os) where
  open os use {World, sleep}
  open db use {query, store_result, real_escape_string, write_file, show_rate, reciv_cb}

  -- `escapeString`
  unfoldable pub escape_string : Bytes → Bytes
  unfolding trim_part_string
  escape_string str = trim_part_string (real_escape_string str)

  -- a statement that is printed and sent, whatever comes of it
  unfoldable pub send : Bytes → World → Option World
  unfolding print_1024
  send sql w = elim (print_1024 sql) [ none ↦ none | some s ↦ some (query s w).1 ]

  unfoldable pub sql_update_solution : Task → Bytes
  sql_update_solution t =
      codes "UPDATE `solution` SET `result`="
      ++ (show_int t.result
          ++ (codes ", `time`="
              ++ (show_int t.run_time
                  ++ (codes ", `memory`="
                      ++ (show_int t.run_memory
                          ++ (codes ", `judgetime`=NOW(), `pass_rate`="
                              ++ (show_rate t.pass_rate
                                  ++ (codes " WHERE `solution_id` = "
                                      ++ show_int t.solution_id))))))))

  unfoldable pub sql_update_user_solved : Task → Bytes
  sql_update_user_solved t =
      codes
        "UPDATE `users` SET `solved`=(SELECT count(DISTINCT `problem_id`) FROM `solution` WHERE `user_id`='"
      ++ (t.user_name
          ++ (codes "' AND `result`="
              ++ (show_int config.je_accept
                  ++ (codes ") WHERE `user_id`='" ++ (t.user_name ++ codes "'")))))

  unfoldable pub sql_update_user_submit : Task → Bytes
  sql_update_user_submit t =
      codes "UPDATE `users` SET `submit`=(SELECT count(*) FROM `solution` WHERE `user_id`='"
      ++ (t.user_name ++ (codes "') WHERE `user_id`='" ++ (t.user_name ++ codes "'")))

  unfoldable pub sql_update_problem_accept : Task → Bytes
  sql_update_problem_accept t =
      codes "UPDATE `problem` SET `accepted`=(SELECT count(*) FROM `solution` WHERE `problem_id`='"
      ++ (show_int t.problem_id
          ++ (codes "' AND `result`='"
              ++ (show_int config.je_accept
                  ++ (codes "') WHERE `problem_id`='" ++ (show_int t.problem_id ++ codes "'")))))

  unfoldable pub sql_update_problem_submit : Task → Bytes
  sql_update_problem_submit t =
      codes "UPDATE `problem` SET `submit`=(SELECT count(*) FROM `solution` WHERE `problem_id`='"
      ++ (show_int t.problem_id
          ++ (codes "')WHERE `problem_id`='" ++ (show_int t.problem_id ++ codes "'")))

  unfoldable pub sql_delete_compile : Task → Bytes
  sql_delete_compile t =
      codes "DELETE FROM `compileinfo` WHERE `solution_id`=" ++ show_int t.solution_id

  unfoldable pub sql_insert_compile : Task → Bytes
  sql_insert_compile t =
      codes "INSERT INTO `compileinfo`(solution_id, error)VALUES("
      ++ (show_int t.solution_id
          ++ (codes ", \"" ++ (escape_string t.compile_error_str ++ codes "\")")))

  unfoldable pub sql_select_problem : Bytes
  sql_select_problem =
      codes
        "SELECT solution.solution_id, solution.problem_id, solution.user_id, solution.language, problem.time_limit, problem.memory_limit, solution.result FROM solution, problem WHERE solution.problem_id = problem.problem_id and (solution.result="
      ++ (show_int config.je_pending
          ++ (codes " or solution.result=" ++ (show_int config.je_rejudge ++ codes ") limit 20")))

  unfoldable pub sql_select_code : Task → Bytes
  sql_select_code t =
      codes "SELECT source FROM source_code WHERE solution_id=" ++ show_int t.solution_id

  unfoldable pub sql_update_solution_compiling : Task → Bytes
  sql_update_solution_compiling t =
      codes "UPDATE `solution` SET `result`="
      ++ (show_int config.je_compiling
          ++ (codes " WHERE `solution_id` = " ++ show_int t.solution_id))

  pub update_solution : Task → World → Option World
  update_solution t w = send (sql_update_solution t) w

  pub update_user : Task → World → Option World
  update_user t w = do w1 ← send (sql_update_user_solved t) w; send (sql_update_user_submit t) w1

  pub update_problem : Task → World → Option World
  update_problem t w = do
    w1 ← send (sql_update_problem_accept t) w
    send (sql_update_problem_submit t) w1

  pub update_info : Task → World → Option World
  update_info t w = do
    w1 ← send (sql_delete_compile t) w
    if eq_ℤ t.result config.je_complie then send (sql_insert_compile t) w1 else some w1

  -- a round of `doWrite` for a task
  pub write_task : Task → World → Option World
  write_task t w = do
    w1 ← update_solution t w
    w2 ← update_user t w1
    w3 ← update_problem t w2
    update_info t w3

  -- `doWrite`, by what `isRunning` says in each round and the entry that `getFinishTask` gives; it
  -- waits where they end
  pub do_write : List (Bool × Entry) → World → Writes os
  do_write [] w = record { written = []; halted = none; world = w }
  do_write ((false, e) ∷ es) w = record { written = []; halted = none; world = w }
  do_write ((true, none) ∷ es) w = record { written = []; halted = none; world = w }
  do_write ((true, some t) ∷ es) w = elim (write_task t w) [
    | none ↦ record { written = []; halted = some too_long; world = w }
    | some w' ↦ let later = do_write es w' in record later { written = t ∷ later.written }
  ]
