-- ===== src/Judge/Submission.antt =====
-- That a judgement is about the submission that it was given.
use online_judger.Common.{
  ℕ, zero, suc, ◌≡◌, Bool, true, false, Option, none, some, inl, inr, arith, Bool-cases,
  Option-cases,
}
use online_judger.Config.{Config}
use online_judger.Os.{Os}
use online_judger.Task.{Task, set_test_data_index, get_test_data_count}
use online_judger.Task.Data.{SameSubmission, SameSubmission-refl, SameSubmission-trans}
use online_judger.Judge.{
  JudgeCore, Run, Next, go_on, stop, give_up, match_run, end_round, judge_round, judge_loop,
  start_run, conclude, do_judge, finish, judge,
}
use online_judger.Judge.Loop.{CoreLaws}

-- of a task that may not be there
abbrev Kept : Task → Option Task → Type 0
Kept t none = Unit {0}
Kept t (some u) = SameSubmission t u

set_test_data_index-Kept : (t : Task) (i : ℕ) → Kept t (set_test_data_index t i)
unfolding set_test_data_index
set_test_data_index-Kept t i = ground arith

module _ (os : Os) (config : Config) (core : JudgeCore os config)
    (laws : CoreLaws os config core) where
  open os use {World}

  match_run-SameSubmission :
      (r : Bool × Task × World) → SameSubmission r.1 (match_run os config core r).1
  unfolding match_run
  match_run-SameSubmission (false, t, w) = SameSubmission-refl t
  match_run-SameSubmission (true, t, w) = (laws.mather-IsMatcher.keeps t w).same_submission

  end_round-SameSubmission :
      (r : Run os) (t : Task) (ran : Bool) (m : Bool × Task × World) (removed : Bool × World)
      → SameSubmission t m.1
      → SameSubmission t (end_round os config core r ran m removed).1.task
  unfolding end_round
  end_round-SameSubmission r t ran (b, u, w) (true, w') k = k
  end_round-SameSubmission r t ran (b, u, w) (false, w') k = record {
    same_solution = k.same_solution;
    same_problem = k.same_problem;
    same_user = k.same_user;
    same_language = k.same_language;
  }

  judge_round-SameSubmission :
      (r : Run os) (t : Task) → SameSubmission t (judge_round os config core r t).1.task
  unfolding judge_round
  judge_round-SameSubmission r t =
      let ran = core.runner t r.world in
      let m = match_run os config core ran in
      end_round-SameSubmission r t ran.0 m _ (
        SameSubmission-trans (laws.runner-IsStep.keeps t r.world).same_submission
          (match_run-SameSubmission ran))

  abbrev RunKept : Task → Option (Bool × Run os) → Type 0
  RunKept t none = Unit {0}
  RunKept t (some (b, u)) = SameSubmission t u.task

  judge_loop-RunKept :
      (n i : ℕ) (r : Run os) (t : Task)
      → SameSubmission t r.task
      → RunKept t (judge_loop os config core n i r)
  unfolding judge_loop
  judge_loop-RunKept zero i r t h = h
  judge_loop-RunKept (suc n) i r t h = elim (Option-cases (set_test_data_index r.task i)) [
    | inl e ↦ rw (e, judge_loop) tt
    | inr (u, e) ↦
        let set : Kept r.task (some u) = rw e at (set_test_data_index-Kept r.task i) in
        let round = judge_round os config core r u in
        let kept =
          SameSubmission-trans (SameSubmission-trans h set) (judge_round-SameSubmission r u) in
        rw (e, judge_loop) (go round.0 round.1 kept (judge_loop-RunKept n (suc i) round.1 t kept))
  ]
    where
      go :
          (x : Next) (s : Run os)
          → SameSubmission t s.task
          → RunKept t (judge_loop os config core n (suc i) s)
          → RunKept t (elim x as (λ _. Option (Bool × Run os)) [
            | go_on ↦ judge_loop os config core n (suc i) s
            | stop ↦ some (true, s)
            | give_up ↦ some (false, s)
          ])
      go go_on s k later = later
      go stop s k later = k
      go give_up s k later = k

  abbrev TaskKept : Task → Option (Bool × Task × World) → Type 0
  TaskKept t none = Unit {0}
  TaskKept t (some (b, u, w)) = SameSubmission t u

  conclude-TaskKept :
      (t : Task) (o : Option (Bool × Run os)) → RunKept t o → TaskKept t (conclude os o)
  conclude-TaskKept t none h = tt
  conclude-TaskKept t (some (false, r)) h = h
  conclude-TaskKept t (some (true, r)) h = record {
    same_solution = h.same_solution;
    same_problem = h.same_problem;
    same_user = h.same_user;
    same_language = h.same_language;
  }

  do_judge-TaskKept : (t : Task) (w : World) → TaskKept t (do_judge os config core t w)
  unfolding do_judge
  do_judge-TaskKept t w =
      let c = core.compiler t w in
      let kept = (laws.compiler-IsStep.keeps t w).same_submission in
      elim (Bool-cases c.0) [
        | inr bad ↦ rw (bad, do_judge) kept
        | inl good ↦ rw (good, do_judge) (by_count (get_test_data_count c.1) c kept)
      ]
    where
      by_count :
          (n : ℕ) (c : Bool × Task × World)
          → SameSubmission t c.1
          → TaskKept t (elim n as (λ _. Option (Bool × Task × World)) [
            | zero ↦ some (false, record (c.1) { result = config.je_system }, c.2)
            | suc m ↦ conclude os (judge_loop os config core (suc m) 0 (start_run os c.1 c.2))
          ])
      by_count zero c k = record {
        same_solution = k.same_solution;
        same_problem = k.same_problem;
        same_user = k.same_user;
        same_language = k.same_language;
      }
      by_count (suc m) c k =
          conclude-TaskKept t (judge_loop os config core (suc m) 0 (start_run os c.1 c.2))
            (judge_loop-RunKept (suc m) 0 (start_run os c.1 c.2) t k)

  judge-TaskKept : (t : Task) (w : World) → TaskKept t (judge os config core t w)
  unfolding judge finish
  judge-TaskKept t w = go (do_judge os config core t w) (do_judge-TaskKept t w)
    where
      go : (o : Option (Bool × Task × World)) → TaskKept t o → TaskKept t (finish os config core o)
      go none h = tt
      go (some (b, u, v)) h = h

  -- Whatever comes of it, a judgement that returns is about the submission that it was given.
  pub judge-SameSubmission :
      (t u : Task) (w w' : World) (b : Bool)
      → judge os config core t w ≡ some (b, u, w')
      → SameSubmission t u
  judge-SameSubmission t u w w' b e = rw e at (judge-TaskKept t w)
