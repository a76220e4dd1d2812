-- ===== src/Database/Reading.antt =====
-- The tasks that the reading thread hands on.
use online_judger.Common.{
  ℕ, zero, suc, ◌≢◌, Bool, true, false, List, [], ◌∷◌, ◌++◌, Option, none, some, inl, inr,
  Option-cases, Bool-cases, map,
}
use online_judger.Cell.Worker.{AllCoherent}
use online_judger.Common.Int.{pos}
use online_judger.Number.{atoi}
use online_judger.Config.{Config}
use online_judger.Os.{Os}
use online_judger.Task.{Task}
use online_judger.Task.Data.{IsCoherent, new_task-IsCoherent}
use online_judger.Database.{
  Row, Services, Halt, query_failed, too_long, asserted, Reads, print_1024,
  sql_update_solution_compiling, sql_select_problem, col,
}
use online_judger.Database.Read.{
  hand_on, mark_compiling, receive, try_load_code, read_rows, read_result, read_round, do_read,
  goes_on, halts,
}

module _ (os : Os) (config : Config) (db : Services os) where
  open os use {World}

  -- Every task handed on is as its constructor leaves it, and no assertion has failed.
  pub record IsSound (r : Reads os) : Type 0 where
    pub coherent : AllCoherent (map some r.handed)
    pub runs : r.halted ≢ some asserted

  goes_on-IsSound : (w : World) → IsSound (goes_on os config db w)
  goes_on-IsSound w = record { coherent = tt; runs = λ e. absurd cc }

  halts-IsSound : (h : Halt) (w : World) → h ≢ asserted → IsSound (halts os config db h w)
  halts-IsSound h w ne = record { coherent = tt; runs = λ e. ne cc }

  hand_on-IsSound :
      (t : Task) (next : World → Reads os) (q : Bool × World)
      → IsCoherent t
      → ((w : World) → IsSound (next w))
      → IsSound (hand_on os config db t next q)
  unfolding hand_on
  hand_on-IsSound t next (false, w) h n = goes_on-IsSound w
  hand_on-IsSound t next (true, w) h n =
      let later = n (db.reciv_cb t w) in
      record { coherent = (h, later.coherent); runs = later.runs }

  mark_compiling-IsSound :
      (t : Task) (next : World → Reads os) (w : World)
      → IsCoherent t
      → ((w : World) → IsSound (next w))
      → IsSound (mark_compiling os config db t next w)
  unfolding mark_compiling
  mark_compiling-IsSound t next w h n =
      elim (Option-cases (print_1024 (sql_update_solution_compiling os config db t))) [
        | inl e ↦ rw (e, mark_compiling) (halts-IsSound too_long w (λ bad. absurd cc))
        | inr (s, e) ↦ rw (e, mark_compiling) (hand_on-IsSound t next (db.query s w) h n)
      ]

  receive-IsSound :
      (next : World → Reads os) (w : World) (t : Task)
      → IsCoherent t
      → ((w : World) → IsSound (next w))
      → IsSound (receive os config db next w (some t))
  unfolding receive
  receive-IsSound next w t h n = elim (Option-cases (try_load_code os config db t w)) [
    | inl e ↦ rw (e, receive) (halts-IsSound too_long w (λ bad. absurd cc))
    | inr (w', e) ↦ rw (e, receive) (mark_compiling-IsSound t next w' h n)
  ]

  read_rows-IsSound : (rows : List Row) (w : World) → IsSound (read_rows os config db rows w)
  unfolding read_rows
  read_rows-IsSound [] w = goes_on-IsSound w
  read_rows-IsSound (row ∷ rows) w =
      let (t, e, h) =
        new_task-IsCoherent os config (atoi (col row 0)) (atoi (col row 1)) (col row 2)
          (atoi (col row 3)) (pos 10000) (atoi (col row 4)) (atoi (col row 5)) w in
      rw (e) (receive-IsSound (read_rows os config db rows) w t h (read_rows-IsSound rows))

  read_result-IsSound : (r : Option (List Row) × World) → IsSound (read_result os config db r)
  unfolding read_result
  read_result-IsSound (none, w) = goes_on-IsSound w
  read_result-IsSound (some rows, w) = read_rows-IsSound rows w

  pub read_round-IsSound : (w : World) → IsSound (read_round os config db w)
  unfolding read_round
  read_round-IsSound w = elim (Option-cases (print_1024 (sql_select_problem os config db))) [
    | inl e ↦ rw (e, read_round) (halts-IsSound too_long (os.sleep 1000 w) (λ bad. absurd cc))
    | inr (s, e) ↦
        let q = db.query s (os.sleep 1000 w) in
        rw (e, read_round)
          (elim (Bool-cases q.0) [
            | inl ok ↦ rw (ok) (read_result-IsSound (db.store_result q.1))
            | inr bad ↦ rw (bad) (halts-IsSound query_failed q.1 (λ no. absurd cc))
          ])
  ]

  AllCoherent-append :
      (ts us : List Task)
      → AllCoherent (map some ts)
      → AllCoherent (map some us)
      → AllCoherent (map some (ts ++ us))
  AllCoherent-append [] us a b = b
  AllCoherent-append (t ∷ ts) us (h, a) b = (h, AllCoherent-append ts us a b)

  -- However many rounds `doRead` runs, and whatever the database answers, no assertion fails, and every
  -- task that it hands to the callback is as the judge wants it: if it points into its test data, the
  -- current files are those of its index.
  pub do_read-IsSound : (n : ℕ) (w : World) → IsSound (do_read os config db n w)
  unfolding do_read
  do_read-IsSound zero w = goes_on-IsSound w
  do_read-IsSound (suc n) w =
      let r = read_round os config db w in
      let first = read_round-IsSound w in
      let later = do_read-IsSound n r.world in
      elim (Option-cases r.halted) [
        | inl e ↦
            rw (e, do_read)
              (record {
                coherent =
                    AllCoherent-append r.handed (do_read os config db n r.world).handed
                      first.coherent later.coherent;
                runs = later.runs;
              })
        | inr (h, e) ↦ rw (e, do_read) first
      ]
