-- ===== src/Cell/Ledger.antt =====
-- Where the submissions of a cell are, in whatever order its threads go on.
use online_judger.Common.{
  ℕ, zero, suc, ◌+◌, ◌≡◌, refl, ap, Bool, true, false, List, [], ◌∷◌, none, some, if◌then◌else◌,
  arith, total, total-append,
}
use online_judger.Common.Int.{ℤ, eq_ℤ}
use online_judger.Config.{Config}
use online_judger.Judge.{JudgeCore}
use online_judger.Judge.Loop.{CoreLaws}
use online_judger.Judge.Submission.{judge-SameSubmission}
use online_judger.Os.{Os}
use online_judger.Task.{Task}
use online_judger.Cell.{Entry}
use online_judger.Cell.Threads.{
  Thread, waiting, judging, ended, Cell, with_entry, with_result, waiting_threads, ThreadStep,
  takes, judges, Reachable, fresh, adds, puts_null, steps, elsewhere,
}

-- how often a task, an entry or a thread is about the submission `id`
abbrev pub of_task : ℤ → Task → ℕ
of_task id t = if eq_ℤ t.solution_id id then 1 else 0

abbrev pub of_entry : ℤ → Entry → ℕ
of_entry id none = 0
of_entry id (some t) = of_task id t

abbrev pub of_thread : ℤ → Thread → ℕ
of_thread id waiting = 0
of_thread id (judging t) = of_task id t
of_thread id ended = 0

abbrev pub in_cell : {os : Os} → ℤ → Cell os → ℕ
in_cell id s =
    total (of_entry id) s.queue + (total (of_thread id) s.threads + total (of_task id) s.judged)

of_thread-with_entry : (id : ℤ) (e : Entry) → of_thread id (with_entry e) ≡ of_entry id e
of_thread-with_entry id none = refl
of_thread-with_entry id (some t) = refl

of_thread-with_result : (id : ℤ) (b : Bool) → of_thread id (with_result b) ≡ 0
of_thread-with_result id true = refl
of_thread-with_result id false = refl

total-waiting_threads : (id : ℤ) (n : ℕ) → total (of_thread id) (waiting_threads n) ≡ 0
total-waiting_threads id zero = refl
total-waiting_threads id (suc n) = omega (arith, total-waiting_threads id n)

module _ (os : Os) (config : Config) (core : JudgeCore os config)
    (laws : CoreLaws os config core) where
  -- a step moves a submission, and leaves as many of each
  ThreadStep-in_cell :
      (id : ℤ) {s t : Cell os} → ThreadStep os config core s t → in_cell id t ≡ in_cell id s
  ThreadStep-in_cell id (takes e q before after us w) = omega (
    arith,
    total-append (of_thread id) before (waiting ∷ after),
    total-append (of_thread id) before (with_entry e ∷ after),
    of_thread-with_entry id e,
  )
  ThreadStep-in_cell id (judges t u b q before after us w w' e) =
      let same = (judge-SameSubmission os config core laws t u w w' b e).same_solution in
      omega (
        arith,
        total-append (of_thread id) before (judging t ∷ after),
        total-append (of_thread id) before (with_result b ∷ after),
        total-append (of_task id) us (u ∷ []),
        of_thread-with_result id b,
        ap {B = ℕ} (λ (i : ℤ). if eq_ℤ i id then 1 else 0) same,
      )

  -- In every state that the threads of a cell can come to, whatever the order of their steps and of
  -- the calls of `addTask` and `stop`, each submission is found in the queue, with a thread, or among
  -- the judged ones exactly as often as it was added: none is lost, judged twice, or made up.
  pub Reachable-in_cell :
      (cores : ℕ) (ts : List Task) (puts : ℕ) (s : Cell os)
      → Reachable os config core cores ts puts s
      → (id : ℤ) → in_cell id s ≡ total (of_task id) ts
  Reachable-in_cell cores _ _ _ (fresh w) id = omega (arith, total-waiting_threads id cores)
  Reachable-in_cell cores _ puts _ (adds {ts} {s} t h r) id = omega (
    arith,
    Reachable-in_cell cores ts puts s r id,
    total-append (of_entry id) s.queue (some t ∷ []),
    total-append (of_task id) ts (t ∷ []),
  )
  Reachable-in_cell cores ts _ _ (puts_null {puts} {s} r) id =
      omega (arith, Reachable-in_cell cores ts puts s r id)
  Reachable-in_cell cores ts puts _ (steps {s} r one) id =
      omega (arith, Reachable-in_cell cores ts puts s r id, ThreadStep-in_cell id one)
  Reachable-in_cell cores ts puts _ (elsewhere {s} w r) id = Reachable-in_cell cores ts puts s r id
