-- ===== src/Judge/LastTest.antt =====
-- The result that the last round leaves.
use online_judger.Common.{
  ℕ, suc, ◌<◌, ◌≡◌, ◌⊎◌, ◌∙◌, ap, true, false, some, inl, inr, arith, length,
}
use online_judger.Common.Int.{ℤ}
use online_judger.Config.{Config}
use online_judger.Os.{Os}
use online_judger.Task.{Task, set_test_data_index}
use online_judger.Task.Data.{IsCoherent}
use online_judger.Judge.{JudgeCore, Run, Next, go_on, start_run, do_judge}
use online_judger.Judge.Loop.{CoreLaws, Rounds, round}
use online_judger.Judge.Outcome.{do_judge-IsSummary}
use online_judger.Judge.Passed.{FailsAt, passes, judge_round-passes}
use online_judger.Judge.Round.{RoundFacts, IsRejection, judge_round-RoundFacts}

module _ (os : Os) (config : Config) (core : JudgeCore os config) where
  open os use {World}

  -- The tests before the last were all run, and the result is that of the last.
  pub record IsOfLast (r : Run os) (n : ℕ) (result : ℤ) : Type 0 where
    pub before : Run os
    pub earlier : Rounds os config core 0 r n before
    pub last : Task
    pub set_to : set_test_data_index before.task n ≡ some last
    pub accepted : passes os config core last before.world ≡ true → result ≡ config.je_accept
    pub rejected : passes os config core last before.world ≡ false → IsRejection config result

module _ (os : Os) (config : Config) (core : JudgeCore os config)
    (laws : CoreLaws os config core) where
  open os use {World}

  Rounds-IsOfLast :
      (n : ℕ) (r v : Run os)
      → Rounds os config core 0 r (suc n) v
      → IsOfLast os config core r n v.task.result
  Rounds-IsOfLast n r v (round {j} {s} {u} t rounds e judged) =
      let facts : RoundFacts os config core s t go_on u =
        rw (ap {B = Next} (λ x. x.0) judged, ap {B = Run os} (λ x. x.1) judged) at
          (judge_round-RoundFacts os config core laws s t) in
      let counts = judge_round-passes os config core s t u judged in
      record {
        before = s;
        earlier = rounds;
        last = t;
        set_to = e;
        accepted = λ yes. ground (arith, facts.counted, counts);
        rejected = λ no. ground (arith, facts.counted, counts);
      }

  -- Take steps as the judge relies on, and a coherent task with test data, for which `doJudge` returns
  -- true. Then it came to a test on which the program failed, behind tests that led on; or it has run the
  -- tests in order to the last one, also behind a wrong answer, and the result is that of the last
  -- test, whatever came of those before: "accepted" if the program passes it, and else a rejection.
  pub last_test_decides :
      (t u : Task) (w w' : World) (n : ℕ)
      → IsCoherent t
      → length t.test_data ≡ suc n
      → do_judge os config core t w ≡ some (true, u, w')
      → let r = start_run os (core.compiler t w).1 (core.compiler t w).2 in
        ((j : ℕ) × (s : Run os) × (j < suc n)
          × Rounds os config core 0 r j s
          × FailsAt os config core j s)
        ⊎ IsOfLast os config core r n u.result
  last_test_decides t u w w' n coherent count e =
      let tested = (do_judge-IsSummary os config core laws t u w w' coherent e).tested in
      elim tested.ending [
        | inl (all, result_is) ↦
            let full : tested.tests ≡ suc n = all ∙ count in
            inr (rw (result_is) (Rounds-IsOfLast n _ tested.last (rw full at tested.rounds)))
        | inr (less, fails) ↦
            inl (tested.tests, tested.last, rw (← count) less, tested.rounds, fails)
      ]
