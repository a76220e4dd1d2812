-- ===== src/Judge/Passed.antt =====
-- The tests that the loop of Judger/JudgeCore.cpp runs, and how many of them the program passes, told
-- from the runner and the matcher alone.
use online_judger.Common.{
  ℕ, suc, ◌+◌, ◌<◌, ◌≡◌, refl, Bool, true, false, some, ◌⊎◌, inl, inr, if◌then◌else◌, arith, ap,
}
use online_judger.Common.Int.{ℤ}
use online_judger.Config.{Config}
use online_judger.Os.{Os}
use online_judger.Task.{Task, set_test_data_index}
use online_judger.Judge.{
  JudgeCore, Run, Next, go_on, stop, match_run, end_round, judge_round, safe_remove_file,
}
use online_judger.Judge.Loop.{Rounds, start, round, LoopTrace, all_rounds, stopped}

module _ (os : Os) (config : Config) (core : JudgeCore os config) where
  open os use {World}

  -- whether the matcher takes what a run left, if the program ran
  abbrev passed : Bool × Task × World → Bool
  passed (false, t, w) = false
  passed (true, t, w) = (core.mather t w).0

  -- The program runs on the test of a task, and its output is right.
  abbrev pub passes : Task → World → Bool
  passes t w = passed (core.runner t w)

  abbrev pub count_passed :
      {i : ℕ} {r : Run os} {j : ℕ} {s : Run os} → Rounds os config core i r j s → ℕ
  count_passed start = 0
  count_passed (round {j} {s} {u} t rounds e judged) =
      let before = count_passed rounds in if passes t s.world then suc before else before

  -- what a round says of the run, and how it counts
  record Counts (s : Run os) (ran : Bool × Task × World) (how : Next) (u : Run os) : Type 0 where
    counted : how ≡ go_on → u.accepted ≡ (if passed ran then suc s.accepted else s.accepted)
    failed : how ≡ stop → (ran.0 ≡ false) × (u.accepted ≡ s.accepted)

  end_round-Counts :
      (s : Run os) (ran : Bool × Task × World) (removed : Bool × World)
      → let r = end_round os config core s ran.0 (match_run os config core ran) removed in
        Counts s ran r.0 r.1
  unfolding end_round match_run
  end_round-Counts s (false, t, w) (true, w') = record {
    counted = λ e. absurd cc;
    failed = λ e. (refl, refl);
  }
  end_round-Counts s (false, t, w) (false, w') = record {
    counted = λ e. absurd cc;
    failed = λ e. absurd cc;
  }
  end_round-Counts s (true, t, w) (true, w') = record {
    counted = λ e. refl;
    failed = λ e. absurd cc;
  }
  end_round-Counts s (true, t, w) (false, w') = record {
    counted = λ e. absurd cc;
    failed = λ e. absurd cc;
  }

  round-Counts :
      (s : Run os) (t : Task) (how : Next) (u : Run os)
      → judge_round os config core s t ≡ (how, u)
      → Counts s (core.runner t s.world) how u
  unfolding judge_round
  round-Counts s t how u judged =
      let ran = core.runner t s.world in
      let m = match_run os config core ran in
      rw (ap {B = Next} (λ x. x.0) judged, ap {B = Run os} (λ x. x.1) judged) at
        (end_round-Counts s ran (safe_remove_file os m.1.exe_output m.2))

  pub judge_round-passes :
      (s : Run os) (t : Task) (u : Run os)
      → judge_round os config core s t ≡ (go_on, u)
      → u.accepted ≡ (if passes t s.world then suc s.accepted else s.accepted)
  judge_round-passes s t u judged = (round-Counts s t go_on u judged).counted refl

  -- the rounds count each test that the program passes, and no other
  accepted-Rounds :
      {i : ℕ} {r : Run os} {j : ℕ} {s : Run os} (rounds : Rounds os config core i r j s)
      → s.accepted ≡ r.accepted + count_passed rounds
  accepted-Rounds start = omega arith
  accepted-Rounds (round {j} {s} {u} t rounds e judged) =
      let before = accepted-Rounds rounds in
      let here = judge_round-passes s t u judged in ground (arith, before, here)

  -- the program fails on the test at an index
  abbrev pub FailsAt : ℕ → Run os → Type 0
  FailsAt j s =
      (t : Task) × (set_test_data_index s.task j ≡ some t) × ((core.runner t s.world).0 ≡ false)

  -- The tests behind a count and a result: the tests in order from the first on, of which the count is
  -- that of those which the program passes; they are all of the tests, and the result is the one that
  -- the last of them left, or the program does not run on the next test.
  pub record Tested (r : Run os) (n accepted : ℕ) (result : ℤ) : Type 0 where
    pub tests : ℕ
    pub last : Run os
    pub rounds : Rounds os config core 0 r tests last
    pub counted : accepted ≡ count_passed rounds
    pub ending : (tests ≡ n) × (result ≡ last.task.result) ⊎ (tests < n) × FailsAt tests last

  pub Tested-length :
      {r : Run os} {n m accepted : ℕ} {result : ℤ}
      → n ≡ m
      → Tested r n accepted result
      → Tested r m accepted result
  Tested-length e tested = rw (e) at tested

  pub LoopTrace-Tested :
      (n : ℕ) (r u : Run os)
      → r.accepted ≡ 0
      → LoopTrace os config core n 0 r u true
      → Tested r n u.accepted u.task.result
  LoopTrace-Tested n r u fresh (all_rounds j e rounds) =
      let count = accepted-Rounds rounds in
      record {
        tests = j;
        last = u;
        rounds = rounds;
        counted = omega (arith, count, fresh);
        ending = inl (omega (arith, e), refl);
      }
  LoopTrace-Tested n r u fresh (stopped j s less rounds final) =
      let count = accepted-Rounds rounds in
      let (fails, same) = (round-Counts s final.task_of stop u final.judged).failed refl in
      record {
        tests = j;
        last = s;
        rounds = rounds;
        counted = omega (arith, count, fresh, same);
        ending = inr (omega (arith, less), (final.task_of, final.set_to, fails));
      }
