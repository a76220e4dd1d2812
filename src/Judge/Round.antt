-- ===== src/Judge/Round.antt =====
-- One round of the loop, for steps that keep the laws.
use online_judger.Common.{suc, ◌≡◌, ◌≢◌, refl, Bool, true, false, inl, inr, ◌⊎◌, arith}
use online_judger.Common.Int.{ℤ}
use online_judger.Config.{Config}
use online_judger.Os.{Os}
use online_judger.Task.{Task}
use online_judger.Task.Data.{KeepsPlace, KeepsPlace-trans}
use online_judger.Judge.{
  JudgeCore, Run, Next, go_on, stop, give_up, match_run, end_round, judge_round,
}
use online_judger.Judge.Loop.{CoreLaws}

-- A task is rejected with one of these results.
abbrev pub IsRejection : Config → ℤ → Type 0
IsRejection config c =
    (c ≡ config.je_wrong_anwser) ⊎ (c ≡ config.je_present) ⊎ (c ≡ config.je_system)

module _ (os : Os) (config : Config) (core : JudgeCore os config) where
  open os use {World}

  -- what the run and the match of a round do
  record MatchFacts (t : Task) (ran : Bool) (m : Bool × Task × World) : Type 0 where
    place : KeepsPlace t m.1
    passed : m.0 ≡ true → (ran ≡ true) × (m.1.result ≡ config.je_accept)
    rejected : m.0 ≡ false → ran ≡ true → IsRejection config m.1.result

  -- what a round does to the state, by the way in which it ends
  pub record RoundFacts (s : Run os) (t : Task) (how : Next) (u : Run os) : Type 0 where
    pub place : KeepsPlace t u.task
    pub counted :
        ((u.accepted ≡ suc s.accepted)
          × (how ≢ stop)
          × (how ≢ give_up → u.task.result ≡ config.je_accept))
        ⊎ ((u.accepted ≡ s.accepted) × (how ≡ go_on → IsRejection config u.task.result))
    pub system : how ≡ give_up → u.task.result ≡ config.je_system

  end_round-place :
      (s : Run os) (t : Task) (ran : Bool) (m : Bool × Task × World) (removed : Bool × World)
      → KeepsPlace t m.1
      → KeepsPlace t (end_round os config core s ran m removed).1.task
  unfolding end_round
  end_round-place s t ran (b, u, w) (true, w') k = k
  end_round-place s t ran (b, u, w) (false, w') k = record {
    keeps_files = record {
      same_submission = record {
        same_solution = k.same_submission.same_solution;
        same_problem = k.same_submission.same_problem;
        same_user = k.same_submission.same_user;
        same_language = k.same_submission.same_language;
      };
      same_test_data = k.same_test_data;
      same_code_file = k.same_code_file;
      same_compiler_output = k.same_compiler_output;
      same_exe_name = k.same_exe_name;
      same_exe_output = k.same_exe_output;
    };
    same_index = k.same_index;
    same_output = k.same_output;
    same_input = k.same_input;
  }

  end_round-RoundFacts :
      (s : Run os) (t : Task) (ran : Bool) (m : Bool × Task × World) (removed : Bool × World)
      → MatchFacts t ran m
      → let r = end_round os config core s ran m removed in RoundFacts s t r.0 r.1
  unfolding end_round
  end_round-RoundFacts s t ran (true, u, w) (true, w') f =
      let (r, accepted) = f.passed refl in
      record {
        place = end_round-place s t ran (true, u, w) (true, w') f.place;
        counted = inl (refl, (λ e. ground arith), λ _. accepted);
        system = λ e. ground arith;
      }
  end_round-RoundFacts s t ran (true, u, w) (false, w') f = record {
    place = end_round-place s t ran (true, u, w) (false, w') f.place;
    counted = inl (refl, (λ e. absurd cc), λ ne. absurd (ne refl));
    system = λ _. refl;
  }
  end_round-RoundFacts s t ran (false, u, w) (true, w') f = record {
    place = end_round-place s t ran (false, u, w) (true, w') f.place;
    counted = inr (refl, λ e. f.rejected refl (ground arith));
    system = λ e. ground arith;
  }
  end_round-RoundFacts s t ran (false, u, w) (false, w') f = record {
    place = end_round-place s t ran (false, u, w) (false, w') f.place;
    counted = inr (refl, λ e. absurd cc);
    system = λ _. refl;
  }

module _ (os : Os) (config : Config) (core : JudgeCore os config)
    (laws : CoreLaws os config core) where
  open os use {World}

  match_run-facts :
      (t : Task) (x : Bool × Task × World)
      → KeepsPlace t x.1
      → MatchFacts os config core t x.0 (match_run os config core x)
  unfolding match_run
  match_run-facts t (false, u, w) k = record {
    place = k;
    passed = λ e. absurd cc;
    rejected = λ _ e. absurd cc;
  }
  match_run-facts t (true, u, w) k = record {
    place = KeepsPlace-trans k (laws.mather-IsMatcher.keeps u w);
    passed = λ e. (refl, laws.mather-IsMatcher.accepts u w e);
    rejected = λ e _. laws.mather-IsMatcher.rejects u w e;
  }

  pub judge_round-RoundFacts :
      (s : Run os) (t : Task)
      → RoundFacts os config core s t
          (judge_round os config core s t).0
          (judge_round os config core s t).1
  unfolding judge_round
  judge_round-RoundFacts s t =
      let ran = core.runner t s.world in
      end_round-RoundFacts os config core s t ran.0 (match_run os config core ran) _
        (match_run-facts t ran (laws.runner-IsStep.keeps t s.world))
