-- ===== src/Judge/Loop.antt =====
-- The loop over the test data as a sequence of rounds, and what each round keeps.
use online_judger.Common.{
  ℕ, zero, suc, ◌+◌, ◌<◌, ◌≡◌, refl, Bool, true, false, Option, none, some, inl, inr, arith,
  Option-cases,
}
use online_judger.Config.{Config}
use online_judger.Excuter.Interface.{
  IsStep, IsMatcher, compile-IsStep, debug_runner-IsStep, matcher-IsMatcher,
}
use online_judger.Os.{Os}
use online_judger.Task.{Task, set_test_data_index}
use online_judger.Judge.{
  JudgeCore, create_judge_core, Run, Next, go_on, stop, give_up, judge_round, judge_loop,
}

-- The steps of a core are as the judge relies on.
pub record CoreLaws (os : Os) (config : Config) (core : JudgeCore os config) : Type 0 where
  pub compiler-IsStep : IsStep os config core.compiler
  pub runner-IsStep : IsStep os config core.runner
  pub mather-IsMatcher : IsMatcher os config core.mather

-- The steps of the core that the program makes are as the judge relies on: compiler and runner keep
-- the submission, the test data, the files and the current test, and the result where they succeed; the
-- matcher keeps all of these but the result, which is "accepted" exactly where it succeeds.
pub create_judge_core-CoreLaws :
    (os : Os) (config : Config) (cb : Option (Task → os.World → os.World))
    → CoreLaws os config (create_judge_core os config cb)
create_judge_core-CoreLaws os config cb = record {
  compiler-IsStep = compile-IsStep os config;
  runner-IsStep = debug_runner-IsStep os config;
  mather-IsMatcher = matcher-IsMatcher os config;
}

module _ (os : Os) (config : Config) (core : JudgeCore os config) where
  open os use {World}

  -- The rounds from index `i` and state `r` to index `j` and state `s` that lead to a next one.
  pub data Rounds (i : ℕ) (r : Run os) : ℕ → Run os → Type 0 where
    start : Rounds i r i r
    round :
        {j : ℕ} {s u : Run os} (t : Task)
        → Rounds i r j s
        → set_test_data_index s.task j ≡ some t
        → judge_round os config core s t ≡ (go_on, u)
        → Rounds i r (suc j) u

  -- A round that ends the loop.
  pub record LastRound (j : ℕ) (s : Run os) (how : Next) (u : Run os) : Type 0 where
    pub task_of : Task
    pub set_to : set_test_data_index s.task j ≡ some task_of
    pub judged : judge_round os config core s task_of ≡ (how, u)

  -- The rounds behind a result of the loop with `n` rounds to go from index `i`.
  pub data LoopTrace (n i : ℕ) (r : Run os) (u : Run os) : Bool → Type 0 where
    all_rounds : (j : ℕ) → j ≡ i + n → Rounds i r j u → LoopTrace n i r u true
    stopped :
        (j : ℕ) (s : Run os)
        → j < i + n
        → Rounds i r j s
        → LastRound j s stop u
        → LoopTrace n i r u true
    gave_up :
        (j : ℕ) (s : Run os)
        → j < i + n
        → Rounds i r j s
        → LastRound j s give_up u
        → LoopTrace n i r u false

  Rounds-trans :
      {i j : ℕ} {r s : Run os} {k : ℕ} {u : Run os}
      → Rounds i r j s
      → Rounds j s k u
      → Rounds i r k u
  Rounds-trans a start = a
  Rounds-trans a (round t b e f) = round t (Rounds-trans a b) e f

  LoopTrace-cons :
      (n i : ℕ) {r s u : Run os} {b : Bool}
      → Rounds i r (suc i) s
      → LoopTrace n (suc i) s u b
      → LoopTrace (suc n) i r u b
  LoopTrace-cons n i a (all_rounds j e c) = all_rounds j (omega arith) (Rounds-trans a c)
  LoopTrace-cons n i a (stopped j s h c l) = stopped j s (omega arith) (Rounds-trans a c) l
  LoopTrace-cons n i a (gave_up j s h c l) = gave_up j s (omega arith) (Rounds-trans a c) l

  abbrev Traced : ℕ → ℕ → Run os → Option (Bool × Run os) → Type 0
  Traced n i r none = Unit {0}
  Traced n i r (some (b, u)) = LoopTrace n i r u b

  Traced-cons :
      (n i : ℕ) (r s : Run os) (o : Option (Bool × Run os))
      → Rounds i r (suc i) s
      → Traced n (suc i) s o
      → Traced (suc n) i r o
  Traced-cons n i r s none a t = tt
  Traced-cons n i r s (some (b, u)) a t = LoopTrace-cons n i a t

  judge_loop-Traced : (n i : ℕ) (r : Run os) → Traced n i r (judge_loop os config core n i r)
  unfolding judge_loop
  judge_loop-Traced zero i r = all_rounds i (omega arith) start
  judge_loop-Traced (suc n) i r = elim (Option-cases (set_test_data_index r.task i)) [
    | inl e ↦ rw (e, judge_loop) tt
    | inr (t, e) ↦
        rw (e, judge_loop)
          (on_next t e (judge_round os config core r t).0 refl
            (judge_loop-Traced n (suc i) (judge_round os config core r t).1))
  ]
    where
      on_next :
          (t : Task)
          → set_test_data_index r.task i ≡ some t
          → (x : Next) → (judge_round os config core r t).0 ≡ x
          → Traced n
              (suc i)
              (judge_round os config core r t).1
              (judge_loop os config core n (suc i) (judge_round os config core r t).1)
          → Traced (suc n) i r (elim (judge_round os config core r t).0 [
            | go_on ↦ judge_loop os config core n (suc i) (judge_round os config core r t).1
            | stop ↦ some (true, (judge_round os config core r t).1)
            | give_up ↦ some (false, (judge_round os config core r t).1)
          ])
      on_next t e go_on f ih =
          let u = (judge_round os config core r t).1 in
          rw f (
            Traced-cons n i r u (judge_loop os config core n (suc i) u)
              (round t start e (λ k. (f k, u))) ih)
      on_next t e stop f ih =
          let u = (judge_round os config core r t).1 in
          rw f (
            stopped i r (omega arith) start
              (record { task_of = t; set_to = e; judged = λ k. (f k, u) }))
      on_next t e give_up f ih =
          let u = (judge_round os config core r t).1 in
          rw f (
            gave_up i r (omega arith) start
              (record { task_of = t; set_to = e; judged = λ k. (f k, u) }))

  -- Where the loop over `n` test data from index `i` returns, its run is a sequence of rounds that
  -- lead on, one for each index in order; behind them all data are done, or one more round stops
  -- the loop. It says false exactly where that round could not remove the output file.
  pub judge_loop-LoopTrace :
      (n i : ℕ) (r u : Run os) (b : Bool)
      → judge_loop os config core n i r ≡ some (b, u)
      → LoopTrace n i r u b
  judge_loop-LoopTrace n i r u b e = rw e at (judge_loop-Traced n i r)
