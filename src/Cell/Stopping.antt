-- ===== src/Cell/Stopping.antt =====
-- That `JudgeCell::stop`, whose destructors wait for every thread, returns.
use online_judger.Common.{
  ℕ, suc, ◌+◌, ◌*◌, ◌≤◌, ◌≡◌, ◌⊎◌, inl, inr, ap, true, false, List, [], ◌∷◌, ◌++◌, none, some,
  arith, total, total-append, length,
}
use online_judger.Config.{Config}
use online_judger.Judge.{JudgeCore}
use online_judger.Judge.Loop.{CoreLaws}
use online_judger.Os.{Os}
use online_judger.Task.{Task}
use online_judger.Task.Data.{IsCoherent}
use online_judger.Cell.{Entry}
use online_judger.Cell.Worker.{AllCoherent, judge_returns}
use online_judger.Cell.Threads.{
  Thread, waiting, judging, ended, Cell, ThreadStep, takes, judges, Reachable, fresh, adds,
  puts_null, steps, elsewhere, ThreadSteps, stays, goes,
}
use online_judger.Cell.Alive.{
  is_exit_entry, is_alive, is_busy, AllReady, Search, all_ended, one_waits, one_judges, find_alive,
  AllReady-replace, AllReady-waiting_threads, AllCoherent-concat, alive-waiting_threads, busy_le,
}

abbrev measure : {os : Os} → Cell os → ℕ
measure s = 2 * length s.queue + total is_busy s.threads

-- what holds on the way to the end of the threads
record IsStoppable (os : Os) (cores puts : ℕ) (s : Cell os) : Type 0 where
  ready : AllReady s.threads
  coherent : AllCoherent s.queue
  within : total is_alive s.threads ≤ cores
  covered : total is_alive s.threads + puts ≤ total is_exit_entry s.queue + cores

module _ (os : Os) (config : Config) (core : JudgeCore os config)
    (laws : CoreLaws os config core) where
  -- what a step does to the counts
  abbrev Shrinks : Cell os → Cell os → Type 0
  Shrinks s t =
      (suc (measure t) ≤ measure s)
      × (total is_alive t.threads ≤ total is_alive s.threads)
      × (total is_alive t.threads + total is_exit_entry s.queue
          ≤ total is_exit_entry t.queue + total is_alive s.threads)

  ThreadStep-Shrinks : {s t : Cell os} → ThreadStep os config core s t → Shrinks s t
  ThreadStep-Shrinks (takes none q before after us w) =
      let alive = total-append is_alive before (waiting ∷ after) in
      let alive' = total-append is_alive before (ended ∷ after) in
      let busy = total-append is_busy before (waiting ∷ after) in
      let busy' = total-append is_busy before (ended ∷ after) in
      (omega arith, omega arith, omega arith)
  ThreadStep-Shrinks (takes (some t) q before after us w) =
      let alive = total-append is_alive before (waiting ∷ after) in
      let alive' = total-append is_alive before (judging t ∷ after) in
      let busy = total-append is_busy before (waiting ∷ after) in
      let busy' = total-append is_busy before (judging t ∷ after) in
      (omega arith, omega arith, omega arith)
  ThreadStep-Shrinks (judges t u true q before after us w w' e) =
      let alive = total-append is_alive before (judging t ∷ after) in
      let alive' = total-append is_alive before (waiting ∷ after) in
      let busy = total-append is_busy before (judging t ∷ after) in
      let busy' = total-append is_busy before (waiting ∷ after) in
      (omega arith, omega arith, omega arith)
  ThreadStep-Shrinks (judges t u false q before after us w w' e) =
      let alive = total-append is_alive before (judging t ∷ after) in
      let alive' = total-append is_alive before (ended ∷ after) in
      let busy = total-append is_busy before (judging t ∷ after) in
      let busy' = total-append is_busy before (ended ∷ after) in
      (omega arith, omega arith, omega arith)

  ThreadStep-AllReady :
      {s t : Cell os}
      → ThreadStep os config core s t
      → AllReady s.threads
      → AllCoherent s.queue
      → AllReady t.threads × AllCoherent t.queue
  ThreadStep-AllReady (takes none q before after us w) h c =
      (AllReady-replace before waiting ended after (λ k. k) h, c)
  ThreadStep-AllReady (takes (some t) q before after us w) h (k, c) =
      (AllReady-replace before waiting (judging t) after (λ l. (k, l)) h, c)
  ThreadStep-AllReady (judges t u true q before after us w w' e) h c =
      (AllReady-replace before (judging t) waiting after (λ k. k.1) h, c)
  ThreadStep-AllReady (judges t u false q before after us w w' e) h c =
      (AllReady-replace before (judging t) ended after (λ k. k.1) h, c)

  ThreadStep-IsStoppable :
      (cores puts : ℕ) {s t : Cell os}
      → ThreadStep os config core s t
      → IsStoppable os cores puts s
      → IsStoppable os cores puts t
  ThreadStep-IsStoppable cores puts one i =
      let (less, alive, nulls) = ThreadStep-Shrinks one in
      let (ready, coherent) = ThreadStep-AllReady one i.ready i.coherent in
      record {
        ready = ready;
        coherent = coherent;
        within = omega (arith, i.within);
        covered = omega (arith, i.covered);
      }

  Reachable-IsStoppable :
      (cores : ℕ) (ts : List Task) (puts : ℕ) (s : Cell os)
      → Reachable os config core cores ts puts s
      → IsStoppable os cores puts s
  Reachable-IsStoppable cores _ _ _ (fresh w) = record {
    ready = AllReady-waiting_threads cores;
    coherent = tt;
    within = omega (arith, alive-waiting_threads cores);
    covered = omega (arith, alive-waiting_threads cores);
  }
  Reachable-IsStoppable cores _ puts _ (adds {ts} {s} t h r) =
      let i = Reachable-IsStoppable cores ts puts s r in
      record {
        ready = i.ready;
        coherent = AllCoherent-concat s.queue t i.coherent h;
        within = i.within;
        covered = omega (arith, i.covered, total-append is_exit_entry s.queue (some t ∷ []));
      }
  Reachable-IsStoppable cores ts _ _ (puts_null {puts} {s} r) =
      let i = Reachable-IsStoppable cores ts puts s r in
      record {
        ready = i.ready;
        coherent = i.coherent;
        within = i.within;
        covered = omega (arith, i.covered);
      }
  Reachable-IsStoppable cores ts puts _ (steps {s} r one) =
      ThreadStep-IsStoppable cores puts one (Reachable-IsStoppable cores ts puts s r)
  Reachable-IsStoppable cores ts puts _ (elsewhere {s} w r) =
      let i = Reachable-IsStoppable cores ts puts s r in
      record { ready = i.ready; coherent = i.coherent; within = i.within; covered = i.covered }

  abbrev GoesOn : Cell os → Type 0
  GoesOn s = (t : Cell os) × ThreadStep os config core s t

  one_takes :
      (q : List Entry) (ps before after : List Thread) (us : List Task) (w : os.World)
      → ps ≡ before ++ waiting ∷ after
      → 1 ≤ total is_exit_entry q
      → GoesOn (record { queue = q; threads = ps; judged = us; world = w })
  one_takes [] ps before after us w e h = absurd (omega arith)
  one_takes (x ∷ q) ps before after us w e h = rw e (_, takes x q before after us w)

  one_judged :
      (q : List Entry) (ps before after : List Thread) (us : List Task) (w : os.World) (t : Task)
      → ps ≡ before ++ judging t ∷ after
      → IsCoherent t
      → GoesOn (record { queue = q; threads = ps; judged = us; world = w })
  one_judged q ps before after us w t e c =
      let (b, u, w', returns) = judge_returns os config core laws t w c in
      rw e (_, judges t u b q before after us w w' returns)

  -- where the tasks NULL cover the threads, one that is alive can go on
  goes_on :
      (cores puts : ℕ) (s : Cell os)
      → cores ≤ puts
      → IsStoppable os cores puts s
      → (total is_alive s.threads ≡ 0) ⊎ GoesOn s
  goes_on cores puts s enough i = by_thread (find_alive s.threads i.ready)
    where
      by_thread : Search s.threads → (total is_alive s.threads ≡ 0) ⊎ GoesOn s
      by_thread (all_ended e) = inl e
      by_thread (one_waits before after e) =
          let count = ap (total is_alive) e in
          let split = total-append is_alive before (waiting ∷ after) in
          inr
            (one_takes s.queue s.threads before after s.judged s.world e (omega (arith, i.covered)))
      by_thread (one_judges t before after c e) =
          inr (one_judged s.queue s.threads before after s.judged s.world t e c)

  ThreadSteps-measure :
      (n : ℕ) {s t : Cell os} → ThreadSteps os config core n s t → n + measure t ≤ measure s
  ThreadSteps-measure _ stays = omega arith
  ThreadSteps-measure _ (goes {n} one more) =
      let (less, alive, nulls) = ThreadStep-Shrinks one in omega (arith, ThreadSteps-measure n more)

  ThreadSteps-IsStoppable :
      (cores puts n : ℕ) {s t : Cell os}
      → ThreadSteps os config core n s t
      → IsStoppable os cores puts s
      → IsStoppable os cores puts t
  ThreadSteps-IsStoppable cores puts _ stays i = i
  ThreadSteps-IsStoppable cores puts _ (goes {n} one more) i =
      ThreadSteps-IsStoppable cores puts n more (ThreadStep-IsStoppable cores puts one i)

  -- Once `stop` has put in a task NULL for each core, the threads come to their ends, in whatever order
  -- they go on, so that the destructors return: with no further task they take no more steps than
  -- twice the entries of the queue and one for each core, and whenever one of them has not ended, one
  -- of them can go on.
  pub threads_end :
      (cores puts n : ℕ) (ts : List Task) (s t : Cell os)
      → Reachable os config core cores ts puts s
      → cores ≤ puts
      → ThreadSteps os config core n s t
      → (n ≤ 2 * length s.queue + cores)
        × ((total is_alive t.threads ≡ 0) ⊎ ((u : Cell os) × ThreadStep os config core t u))
  threads_end cores puts n ts s t r enough more =
      let i = Reachable-IsStoppable cores ts puts s r in
      let short = ThreadSteps-measure n more in
      (
        omega (arith, i.within, busy_le s.threads),
        goes_on cores puts t enough (ThreadSteps-IsStoppable cores puts n more i),
      )
