-- ===== src/Database/Read.antt =====
-- `doRead` of Judger/DBManager.cpp: the thread that reads submissions.
use online_judger.Common.{
  ℕ, zero, suc, Bool, true, false, List, [], ◌∷◌, ◌++◌, Option, none, some, ◌>>=◌, if◌then◌else◌,
}
use online_judger.Common.Int.{pos}
use online_judger.Config.{Config}
use online_judger.FileTool.{get_file_path, make_dir}
use online_judger.Number.{atoi}
use online_judger.Os.{Os}
use online_judger.Task.{Task, new_task}
use online_judger.Database.{
  print_1024, Services, Reads, Row, col, Halt, query_failed, too_long, asserted, sql_select_problem,
  sql_select_code, sql_update_solution_compiling,
}

module _ (os : Os) (config : Config) (db : Services os) where
  open os use {World, sleep}
  open db use {query, store_result, real_escape_string, write_file, show_rate, reciv_cb}

  abbrev pub goes_on : World → Reads os
  goes_on w = record { handed = []; halted = none; world = w }

  abbrev pub halts : Halt → World → Reads os
  halts h w = record { handed = []; halted = some h; world = w }

  -- the code of a task written to its file, by the result of the query
  unfoldable pub load_code : Task → Option (List Row) × World → World
  load_code t (none, w) = w
  load_code t (some [], w) = w
  load_code t (some (row ∷ rows), w) =
      write_file t.code_file (col row 0) (make_dir os (get_file_path t.code_file) w).1

  -- `tryLoadCode`
  unfoldable pub try_load_code : Task → World → Option World
  unfolding load_code print_1024
  try_load_code t w = do
    s ← print_1024 (sql_select_code os config db t)
    let q = query s w in if q.0 then some (load_code t (store_result q.1)) else some q.1

  -- the end of a row, by what came of the update; a refused one is `break` from the loop over the rows
  unfoldable pub hand_on : Task → (World → Reads os) → Bool × World → Reads os
  hand_on t next (false, w) = goes_on w
  hand_on t next (true, w) =
      let later = next (reciv_cb t w) in record later { handed = t ∷ later.handed }

  unfoldable pub mark_compiling : Task → (World → Reads os) → World → Reads os
  unfolding hand_on print_1024
  mark_compiling t next w = elim (print_1024 (sql_update_solution_compiling os config db t)) [
    | none ↦ halts too_long w
    | some s ↦ hand_on t next (query s w)
  ]

  unfoldable pub receive : (World → Reads os) → World → Option Task → Reads os
  unfolding mark_compiling try_load_code
  receive next w none = halts asserted w
  receive next w (some t) = elim (try_load_code t w) [
    | none ↦ halts too_long w
    | some w' ↦ mark_compiling t next w'
  ]

  abbrev pub task_of : Row → World → Option Task
  task_of row w =
      new_task os config (atoi (col row 0)) (atoi (col row 1)) (col row 2) (atoi (col row 3))
        (pos 10000) (atoi (col row 4)) (atoi (col row 5)) w

  -- the loop over the rows
  unfoldable pub read_rows : List Row → World → Reads os
  unfolding receive
  read_rows [] w = goes_on w
  read_rows (row ∷ rows) w = receive (read_rows rows) w (task_of row w)

  unfoldable pub read_result : Option (List Row) × World → Reads os
  unfolding read_rows
  read_result (none, w) = goes_on w
  read_result (some rows, w) = read_rows rows w

  -- a round of `doRead`
  unfoldable pub read_round : World → Reads os
  unfolding read_result print_1024
  read_round w = elim (print_1024 (sql_select_problem os config db)) [
    | none ↦ halts too_long (sleep 1000 w)
    | some s ↦
        let q = query s (sleep 1000 w) in
        if q.0 then read_result (store_result q.1) else halts query_failed q.1
  ]

  -- `doRead`, for as many rounds as `isRunning` says true
  unfoldable pub do_read : ℕ → World → Reads os
  unfolding read_round
  do_read zero w = goes_on w
  do_read (suc n) w =
      let r = read_round w in
      let later = do_read n r.world in
      elim r.halted [ some h ↦ r | none ↦ record later { handed = r.handed ++ later.handed } ]
