-- ===== src/Database/Order.antt =====
-- In which order `DBManager` writes verdicts.
use online_judger.Common.{
  ◌≡◌, refl, ap, ◌∙◌, Bool, true, false, List, [], ◌∷◌, ◌++◌, append_assoc, Option, none, some,
}
use online_judger.Cell.{Entry}
use online_judger.Config.{Config}
use online_judger.Os.{Os}
use online_judger.Task.{Task}
use online_judger.Database.{Services}
use online_judger.Database.Threads.{
  Writer, writer_tests, writer_gets, writer_ended, writer_writes, writer_aborted, Manager,
  writer_at, writer_with, wrote, ThreadStep, reader_test, reader_round, writer_test, writer_get,
  writer_write, Reachable, fresh, adds, clears, puts, steps, elsewhere,
}

-- the tasks of the queue
abbrev pub tasks : List Entry → List Task
tasks [] = []
tasks (none ∷ q) = tasks q
tasks (some t ∷ q) = t ∷ tasks q

-- the task that the writing thread has taken
abbrev pub held : Writer → List Task
held writer_tests = []
held writer_gets = []
held writer_ended = []
held (writer_writes t) = t ∷ []
held (writer_aborted t) = t ∷ []

tasks-concat : (q : List Entry) (t : Task) → tasks (q ++ some t ∷ []) ≡ tasks q ++ t ∷ []
tasks-concat [] t = refl
tasks-concat (none ∷ q) t = tasks-concat q t
tasks-concat (some u ∷ q) t = ap (◌∷◌ u) (tasks-concat q t)

held-writer_at : (b : Bool) → held (writer_at b) ≡ []
held-writer_at true = refl
held-writer_at false = refl

held-writer_with : (e : Entry) (q : List Entry) → held (writer_with e) ++ tasks q ≡ tasks (e ∷ q)
held-writer_with none q = refl
held-writer_with (some t) q = refl

module _ (os : Os) (config : Config) (db : Services os) where
  -- the verdicts that are written, that are being written, and that wait, in this order
  abbrev pub in_order : Manager os → List Task
  in_order s = s.written ++ (held s.writer ++ tasks s.finish_task)

  in_order-wrote :
      (t : Task) (s : Manager os) (o : Option os.World)
      → s.writer ≡ writer_writes t
      → in_order (wrote os config db t s o) ≡ in_order s
  in_order-wrote t s none e = rw (e) refl
  in_order-wrote t s (some w) e = rw (e) (append_assoc s.written (t ∷ []) (tasks s.finish_task))

  ThreadStep-in_order : {s t : Manager os} → ThreadStep os config db s t → in_order t ≡ in_order s
  ThreadStep-in_order {s} (reader_test e) = refl
  ThreadStep-in_order {s} (reader_round e) = refl
  ThreadStep-in_order {s} (writer_test e) = rw (e, held-writer_at s.running) refl
  ThreadStep-in_order {s} (writer_get x q e f) = rw (e, f, held-writer_with x q) refl
  ThreadStep-in_order {s} (writer_write t e) = in_order-wrote t s _ e

  -- In every state that the threads of the manager can come to, whatever the order of their steps and
  -- of the calls of `addFinishTask` and `stop`, the tasks that were written, the one that is being
  -- written, and those that wait are, one behind the other, the tasks that were added: verdicts are
  -- written in the order in which they are finished, none twice, and none is dropped from the queue.
  pub Reachable-in_order :
      (ts : List Task) (s : Manager os) → Reachable os config db ts s → in_order s ≡ ts
  Reachable-in_order _ _ (fresh w) = refl
  Reachable-in_order _ _ (adds {ts} {s} t r) =
      rw
        (
          tasks-concat s.finish_task t,
          ← append_assoc (held s.writer) (tasks s.finish_task) (t ∷ []),
          ← append_assoc s.written (held s.writer ++ tasks s.finish_task) (t ∷ []),
        )
        (ap (λ (l : List Task). l ++ t ∷ []) (Reachable-in_order ts s r))
  Reachable-in_order ts _ (clears {s} r) = Reachable-in_order ts s r
  Reachable-in_order ts _ (puts {s} r) = Reachable-in_order ts s r
  Reachable-in_order ts _ (steps {s} r one) = ThreadStep-in_order one ∙ Reachable-in_order ts s r
  Reachable-in_order ts _ (elsewhere {s} w r) = Reachable-in_order ts s r
