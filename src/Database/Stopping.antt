-- ===== src/Database/Stopping.antt =====
-- That `DBManager::stop`, which waits for both threads, returns.
use online_judger.Common.{
  ℕ, suc, ◌+◌, ◌≤◌, ◌≡◌, ◌≢◌, ◌⊎◌, inl, inr, refl, ap, false, List, [], ◌∷◌, Option, none, some,
  arith,
}
use online_judger.Cell.{Entry}
use online_judger.Config.{Config}
use online_judger.Os.{Os}
use online_judger.Task.{Task}
use online_judger.Database.{Services, Halt, query_failed, too_long, asserted}
use online_judger.Database.Read.{read_round}
use online_judger.Database.Threads.{
  Reader, reader_tests, reader_reads, reader_ended, reader_aborted, Writer, writer_tests,
  writer_gets, writer_ended, writer_writes, writer_aborted, Manager, writer_with, reader_after,
  stop, wrote, ThreadStep, reader_test, reader_round, writer_test, writer_get, writer_write,
  ThreadSteps, stays, goes,
}

-- how many steps a thread can still take when `isRunning` is false
abbrev reader_left : Reader → ℕ
reader_left reader_tests = 1
reader_left reader_reads = 2
reader_left reader_ended = 0
reader_left reader_aborted = 0

abbrev writer_left : Writer → ℕ
writer_left writer_tests = 1
writer_left writer_gets = 3
writer_left writer_ended = 0
writer_left (writer_writes t) = 2
writer_left (writer_aborted t) = 0

reader_left-reader_after : (h : Option Halt) → reader_left (reader_after h) ≤ 1
reader_left-reader_after none = omega arith
reader_left-reader_after (some query_failed) = omega arith
reader_left-reader_after (some too_long) = omega arith
reader_left-reader_after (some asserted) = omega arith

writer_left-writer_with : (e : Entry) → writer_left (writer_with e) ≤ 2
writer_left-writer_with none = omega arith
writer_left-writer_with (some t) = omega arith

writer_with-ne-gets : (e : Entry) → writer_with e ≢ writer_gets
writer_with-ne-gets none h = absurd cc
writer_with-ne-gets (some t) h = absurd cc

List-cases : (q : List Entry) → (q ≡ []) ⊎ ((e : Entry) × (r : List Entry) × (q ≡ e ∷ r))
List-cases [] = inl refl
List-cases (e ∷ r) = inr (e, r, refl)

-- the program ended in one of the threads
abbrev pub IsAborted : {os : Os} → Manager os → Type 0
IsAborted s = (s.reader ≡ reader_aborted) ⊎ ((t : Task) × (s.writer ≡ writer_aborted t))

abbrev pub HasEnded : {os : Os} → Manager os → Type 0
HasEnded s = (s.reader ≡ reader_ended) × (s.writer ≡ writer_ended)

-- behind `stop`: the flag is off, and a thread in `getFinishTask` finds an entry
abbrev IsStopping : {os : Os} → Manager os → Type 0
IsStopping s = (s.running ≡ false) × (s.writer ≡ writer_gets → s.finish_task ≢ [])

module _ (os : Os) (config : Config) (db : Services os) where
  abbrev left : Manager os → ℕ
  left s = reader_left s.reader + writer_left s.writer

  abbrev Goes : Manager os → Manager os → Type 0
  Goes s t = (suc (left t) ≤ left s) × IsStopping t

  wrote-Goes :
      (t : Task) (s : Manager os) (o : Option os.World)
      → s.writer ≡ writer_writes t
      → IsStopping s
      → Goes s (wrote os config db t s o)
  wrote-Goes t s none e (off, found) = (omega (arith, ap writer_left e), (off, λ g f. absurd cc))
  wrote-Goes t s (some w) e (off, found) =
      (omega (arith, ap writer_left e), (off, λ g f. absurd cc))

  ThreadStep-Goes : {s t : Manager os} → ThreadStep os config db s t → IsStopping s → Goes s t
  ThreadStep-Goes {s} (reader_test e) (off, found) =
      (rw (off) (omega (arith, ap reader_left e)), (off, found))
  ThreadStep-Goes {s} (reader_round e) (off, found) = (
    omega (
      arith,
      ap reader_left e,
      reader_left-reader_after (read_round os config db s.world).halted,
    ),
    (off, found),
  )
  ThreadStep-Goes {s} (writer_test e) (off, found) =
      rw (off) (omega (arith, ap writer_left e), (refl, λ g f. absurd cc))
  ThreadStep-Goes {s} (writer_get x q e f) (off, found) = (
    omega (arith, ap writer_left e, writer_left-writer_with x),
    (off, λ g h. absurd (writer_with-ne-gets x g)),
  )
  ThreadStep-Goes {s} (writer_write t e) i = wrote-Goes t s _ e i

  abbrev GoesOn : Manager os → Type 0
  GoesOn s = (t : Manager os) × ThreadStep os config db s t

  -- a thread that has not ended can go on
  goes_on : (s : Manager os) → IsStopping s → HasEnded s ⊎ IsAborted s ⊎ GoesOn s
  goes_on s (off, found) = by_threads s.reader s.writer refl refl
    where
      by_threads :
          (r : Reader) (p : Writer)
          → s.reader ≡ r
          → s.writer ≡ p
          → HasEnded s ⊎ IsAborted s ⊎ GoesOn s
      by_threads reader_tests p e f = inr (inr (_, reader_test e))
      by_threads reader_reads p e f = inr (inr (_, reader_round e))
      by_threads reader_aborted p e f = inr (inl (inl e))
      by_threads reader_ended writer_tests e f = inr (inr (_, writer_test f))
      by_threads reader_ended writer_ended e f = inl (e, f)
      by_threads reader_ended (writer_writes t) e f = inr (inr (_, writer_write t f))
      by_threads reader_ended (writer_aborted t) e f = inr (inl (inr (t, f)))
      by_threads reader_ended writer_gets e f = elim (List-cases s.finish_task) [
        | inl none_left ↦ absurd (found f none_left)
        | inr (x, q, g) ↦ inr (inr (_, writer_get x q f g))
      ]

  ThreadSteps-Goes :
      (n : ℕ) {s t : Manager os}
      → ThreadSteps os config db n s t
      → IsStopping s
      → (n + left t ≤ left s) × IsStopping t
  ThreadSteps-Goes _ stays i = (omega arith, i)
  ThreadSteps-Goes _ (goes {n} one more) i =
      let (less, j) = ThreadStep-Goes one i in
      let (rest, k) = ThreadSteps-Goes n more j in (omega arith, k)

  left_le : (r : Reader) (p : Writer) → reader_left r + writer_left p ≤ 5
  left_le r p = ground arith

  -- Whatever state `stop` meets, the two threads then come to their ends, in whatever order they go on,
  -- so that its waits return: they take at most five more steps, and unless both have ended, or one
  -- has ended the program by a text that does not fit its buffer or by an assertion, one of them can
  -- go on.
  pub stop_returns :
      (n : ℕ) (s t : Manager os)
      → ThreadSteps os config db n (stop s) t
      → (n ≤ 5) × (HasEnded t ⊎ IsAborted t ⊎ ((u : Manager os) × ThreadStep os config db t u))
  stop_returns n s t more =
      let (rest, j) = ThreadSteps-Goes n more (refl, λ g f. absurd cc) in
      (omega (arith, left_le s.reader s.writer), goes_on t j)
