-- ===== src/Database/Writing.antt =====
-- The tasks that the writing thread takes.
use online_judger.Common.{
  ◌≡◌, refl, ap, Bool, true, false, List, [], ◌∷◌, ◌++◌, Option, none, some, inl, inr, map,
}
use online_judger.Cell.{Entry}
use online_judger.Config.{Config}
use online_judger.Os.{Os}
use online_judger.Task.{Task}
use online_judger.Database.Statements.{
  AllFit, statements, query_all, write_task-query_all, write_task-cases,
}
use online_judger.Database.{Services, Halt, too_long, Writes, write_task, do_write}

module _ (os : Os) (config : Config) (db : Services os) where
  open os use {World}

  -- a round in which the manager is running and gets a task
  abbrev pub running : Task → Bool × Entry
  running t = (true, some t)

  -- the statements for the verdicts of all tasks fit their buffers
  abbrev pub AllWritable : List Task → Type 0
  AllWritable [] = Unit {0}
  AllWritable (t ∷ ts) = AllFit (statements os config db t) × AllWritable ts

  -- the database behind the statements for the verdicts of tasks, one task after another
  abbrev pub query_tasks : List Task → World → World
  query_tasks [] w = w
  query_tasks (t ∷ ts) w = query_tasks ts (query_all os config db (statements os config db t) w)

  -- what `doWrite` does not take: it waits, the manager was stopped, the entry is the task NULL, or
  -- the statements for a task do not all fit their buffer
  pub data EndsAt : Option Halt → List (Bool × Entry) → Type 0 where
    waits : EndsAt none []
    stopped : (e : Entry) (es : List (Bool × Entry)) → EndsAt none ((false, e) ∷ es)
    exits : (es : List (Bool × Entry)) → EndsAt none ((true, none) ∷ es)
    overflows :
        (t : Task) (es : List (Bool × Entry))
        → (AllFit (statements os config db t) → ⊥)
        → EndsAt (some too_long) ((true, some t) ∷ es)

  -- the tasks whose verdicts were written, what the thread did not take, and the database
  pub record IsWritten (es : List (Bool × Entry)) (w : World) (r : Writes os) : Type 0 where
    pub rest : List (Bool × Entry)
    pub entries : es ≡ map running r.written ++ rest
    pub fit : AllWritable r.written
    pub ends : EndsAt r.halted rest
    pub sent : r.halted ≡ none → r.world ≡ query_tasks r.written w

  overflows-IsWritten :
      (t : Task) (es : List (Bool × Entry)) (w : World)
      → write_task os config db t w ≡ none
      → IsWritten
          ((true, some t) ∷ es)
          w
          (record { written = []; halted = some too_long; world = w })
  overflows-IsWritten t es w e = record {
    rest = (true, some t) ∷ es;
    entries = refl;
    fit = tt;
    ends = overflows t es (λ h. let sends = write_task-query_all os config db t w h in absurd cc);
    sent = λ e. absurd cc;
  }

  -- `doWrite` takes the tasks that it gets, in order and each once, up to the first round in which the
  -- manager was stopped or the task is NULL, or up to a task with a statement that does not fit its
  -- buffer, at which the program ends. If it has not ended, the database is as after all of the statements
  -- for the verdicts of these tasks, sent in order, and nothing else.
  pub do_write-IsWritten :
      (es : List (Bool × Entry)) (w : World) → IsWritten es w (do_write os config db es w)
  unfolding do_write
  do_write-IsWritten [] w = record {
    rest = [];
    entries = refl;
    fit = tt;
    ends = waits;
    sent = λ _. refl;
  }
  do_write-IsWritten ((false, e) ∷ es) w = record {
    rest = (false, e) ∷ es;
    entries = refl;
    fit = tt;
    ends = stopped e es;
    sent = λ _. refl;
  }
  do_write-IsWritten ((true, none) ∷ es) w = record {
    rest = (true, none) ∷ es;
    entries = refl;
    fit = tt;
    ends = exits es;
    sent = λ _. refl;
  }
  do_write-IsWritten ((true, some t) ∷ es) w = elim (write_task-cases os config db t w) [
    | inr e ↦ rw (e, do_write) (overflows-IsWritten t es w e)
    | inl h ↦
        let later = do_write-IsWritten es (query_all os config db (statements os config db t) w) in
        rw (write_task-query_all os config db t w h, do_write)
          (record {
            rest = later.rest;
            entries = ap (◌∷◌ (running t)) later.entries;
            fit = (h, later.fit);
            ends = later.ends;
            sent = later.sent;
          })
  ]
