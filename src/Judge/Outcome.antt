-- ===== src/Judge/Outcome.antt =====
-- What a whole judgement comes to.
use online_judger.Common.{
  ℕ, zero, suc, ◌+◌, ◌≤◌, ◌≡◌, refl, sym, ap, Bool, true, false, Option, some, none, inl, inr, ◌⊎◌,
  arith, length, Bool-cases, Option-cases,
}
use online_judger.Config.{Config}
use online_judger.Os.{Os}
use online_judger.Task.{Task, get_test_data_count}
use online_judger.Task.Data.{
  IsCoherent, KeepsFiles, KeepsFiles-trans, KeepsPlace-IsCoherent, PointsAt-IsCoherent,
  set_test_data_index-PointsAt,
}
use online_judger.Judge.{
  JudgeCore, Run, Next, go_on, stop, give_up, judge_round, judge_loop, start_run, sum_up, conclude,
  do_judge,
}
use online_judger.Judge.Loop.{
  CoreLaws, LoopTrace, all_rounds, stopped, gave_up, judge_loop-LoopTrace,
}
use online_judger.Judge.Passed.{Tested, Tested-length, LoopTrace-Tested}
use online_judger.Judge.Score.{Rounds-Scored, round-Kept, in_range}

ℕ-cases : (n : ℕ) → (n ≡ 0) ⊎ ((m : ℕ) × (n ≡ suc m))
ℕ-cases zero = inl refl
ℕ-cases (suc n) = inr (n, refl)

concluded :
    {os : Os} (b : Bool) (u : Run os)
    → (x : Bool × Task × os.World) × (conclude os (some (b, u)) ≡ some x)
concluded true u = ((true, sum_up _ u, u.world), refl)
concluded false u = ((false, u.task, u.world), refl)

module _ (os : Os) (config : Config) (core : JudgeCore os config)
    (laws : CoreLaws os config core) where
  open os use {World}

  -- In range, the loop never fails the assertion.
  judge_loop_returns :
      (n i : ℕ) (r : Run os)
      → IsCoherent r.task
      → i + n ≤ length r.task.test_data
      → (x : Bool × Run os) × (judge_loop os config core n i r ≡ some x)
  unfolding judge_loop
  judge_loop_returns zero i r coherent h = ((true, r), refl)
  judge_loop_returns (suc n) i r coherent h =
      let (t, e, _, _, _) = set_test_data_index-PointsAt r.task i coherent (omega arith) in
      let (how, u) = judge_round os config core r t in
      let kept = round-Kept os config core laws i r t how u coherent (omega arith) e refl in
      let (x, f) =
        judge_loop_returns n (suc i) u (PointsAt-IsCoherent u.task i kept.points)
          (in_range_le kept.files (omega arith)) in
      rw (e, judge_loop)
        (elim (Next-cases how) [
          | inl go ↦ (x, rw (go) f)
          | inr (inl halt) ↦ ((true, u), rw (halt))
          | inr (inr give) ↦ ((false, u), rw (give))
        ])
    where
      in_range_le :
          {t v : Task}
          → KeepsFiles t v
          → suc i + n ≤ length t.test_data
          → suc i + n ≤ length v.test_data
      in_range_le k h = rw k.same_test_data h

      Next-cases : (x : Next) → (x ≡ go_on) ⊎ (x ≡ stop) ⊎ (x ≡ give_up)
      Next-cases go_on = inl refl
      Next-cases stop = inr (inl refl)
      Next-cases give_up = inr (inr refl)

  -- What the loop leaves, from a fresh start over all the data.
  record Summed (r u : Run os) (b : Bool) : Type 0 where
    files : KeepsFiles r.task u.task
    counted : u.accepted ≤ length r.task.test_data
    full : u.accepted ≡ length r.task.test_data → b ≡ true → u.task.result ≡ config.je_accept
    system : b ≡ false → u.task.result ≡ config.je_system
    tested : b ≡ true → Tested os config core r (length r.task.test_data) u.accepted u.task.result

  LoopTrace-Summed :
      (n : ℕ) (r u : Run os) (b : Bool)
      → IsCoherent r.task
      → r.accepted ≡ 0
      → suc n ≡ length r.task.test_data
      → LoopTrace os config core (suc n) 0 r u b
      → Summed r u b
  LoopTrace-Summed n r u b coherent fresh h (all_rounds j e rounds) =
      let s = Rounds-Scored os config core laws 0 r coherent (omega arith) rounds in
      let counted = s.counted in
      record {
        files = s.files;
        counted = omega arith;
        full = λ all _. s.full (omega arith) (omega arith);
        system = λ bad. absurd cc;
        tested = λ _.
            rw (← h) (LoopTrace-Tested os config core (suc n) r u fresh (all_rounds j e rounds));
      }
  LoopTrace-Summed n r u b coherent fresh h (stopped j s less rounds final) =
      let before = Rounds-Scored os config core laws 0 r coherent (omega arith) rounds in
      let kept =
        round-Kept os config core laws j s final.task_of stop u before.coherent
          (in_range before.files (omega arith)) final.set_to final.judged in
      let counted = before.counted in
      record {
        files = KeepsFiles-trans before.files kept.files;
        counted = ground (arith, kept.facts.counted);
        full = λ all _. ground (arith, kept.facts.counted);
        system = λ bad. absurd cc;
        tested = λ _.
            rw (← h)
              (LoopTrace-Tested os config core (suc n) r u fresh (stopped j s less rounds final));
      }
  LoopTrace-Summed n r u b coherent fresh h (gave_up j s less rounds final) =
      let before = Rounds-Scored os config core laws 0 r coherent (omega arith) rounds in
      let kept =
        round-Kept os config core laws j s final.task_of give_up u before.coherent
          (in_range before.files (omega arith)) final.set_to final.judged in
      let counted = before.counted in
      record {
        files = KeepsFiles-trans before.files kept.files;
        counted = ground (arith, kept.facts.counted);
        full = λ all bad. absurd cc;
        system = λ _. kept.facts.system refl;
        tested = λ bad. absurd cc;
      }

  -- With steps as the judge relies on, `doJudge` on a coherent task always returns: no index that
  -- it sets is out of the range of the test data, however the compiler, the program and the matcher
  -- behave.
  pub do_judge_returns :
      (t : Task) (w : World)
      → IsCoherent t
      → (x : Bool × Task × World) × (do_judge os config core t w ≡ some x)
  unfolding do_judge
  do_judge_returns t w coherent =
      let c = core.compiler t w in
      let place = laws.compiler-IsStep.keeps t w in
      elim (Bool-cases c.0) [
        | inr bad ↦ ((false, c.1, c.2), rw (bad))
        | inl good ↦ elim (ℕ-cases (get_test_data_count c.1)) [
          | inl none_found ↦
              ((false, record (c.1) { result = config.je_system }, c.2), rw (good, none_found))
          | inr (n, found) ↦
              let ((b, u), e) =
                judge_loop_returns (suc n) 0 (start_run os c.1 c.2)
                  (KeepsPlace-IsCoherent place coherent) (omega arith) in
              rw (good, found, e) (concluded b u)
        ]
      ]

  -- What `doJudge` leaves of a task where it returns true. The count of the accepted tests and the
  -- result are those of the tests that were run on what the compiler left.
  pub record IsSummary (t : Task) (w : World) (u : Task) : Type 0 where
    pub files : KeepsFiles t u
    pub all_counted : u.pass_rate.count ≡ length t.test_data
    pub within : u.pass_rate.accepted ≤ u.pass_rate.count
    pub full : u.pass_rate.accepted ≡ u.pass_rate.count → u.result ≡ config.je_accept
    pub tested :
        Tested os config core
          (start_run os (core.compiler t w).1 (core.compiler t w).2)
          (length t.test_data)
          u.pass_rate.accepted
          u.result

  abbrev Judged : Task → World → Option (Bool × Task × World) → Type 0
  Judged t w none = Unit {0}
  Judged t w (some (true, u, w')) = IsSummary t w u
  Judged t w (some (false, u, w')) =
      ((core.compiler t w).0 ≡ false) × (u ≡ (core.compiler t w).1) ⊎ (u.result ≡ config.je_system)

  do_judge-Judged : (t : Task) (w : World) → IsCoherent t → Judged t w (do_judge os config core t w)
  unfolding do_judge
  do_judge-Judged t w coherent =
      let c = core.compiler t w in
      let place = laws.compiler-IsStep.keeps t w in
      elim (Bool-cases c.0) [
        | inr bad ↦ rw (bad) (inl (bad, refl))
        | inl good ↦ rw (good) (elim (ℕ-cases (get_test_data_count c.1)) [
          | inl none_found ↦ rw (none_found) (inr refl)
          | inr (n, found) ↦
              rw (found)
                (elim (Option-cases (judge_loop os config core (suc n) 0 (start_run os c.1 c.2))) [
                  | inl e ↦ rw (e) tt
                  | inr ((b, u), e) ↦ rw (e) (
                      on_loop u b (
                        LoopTrace-Summed n (start_run os c.1 c.2) u b
                          (KeepsPlace-IsCoherent place coherent) refl (sym found)
                          (judge_loop-LoopTrace os config core (suc n) 0 (start_run os c.1 c.2) u b
                            e)))
                ])
        ])
      ]
    where
      on_loop :
          (u : Run os) (b : Bool)
          → Summed (start_run os (core.compiler t w).1 (core.compiler t w).2) u b
          → Judged t w (conclude os (some (b, u)))
      on_loop u true s = record {
        files = KeepsFiles-trans (laws.compiler-IsStep.keeps t w).keeps_files (record {
          same_submission = record {
            same_solution = s.files.same_submission.same_solution;
            same_problem = s.files.same_submission.same_problem;
            same_user = s.files.same_submission.same_user;
            same_language = s.files.same_submission.same_language;
          };
          same_test_data = s.files.same_test_data;
          same_code_file = s.files.same_code_file;
          same_compiler_output = s.files.same_compiler_output;
          same_exe_name = s.files.same_exe_name;
          same_exe_output = s.files.same_exe_output;
        });
        all_counted = rw (s.files.same_test_data, (laws.compiler-IsStep.keeps t w).same_test_data);
        within = rw s.files.same_test_data s.counted;
        full = λ e. s.full (rw s.files.same_test_data at e) refl;
        tested =
            Tested-length os config core (ap length (laws.compiler-IsStep.keeps t w).same_test_data)
              (s.tested refl);
      }
      on_loop u false s = inr (s.system refl)

  pub do_judge-IsSummary :
      (t u : Task) (w w' : World)
      → IsCoherent t
      → do_judge os config core t w ≡ some (true, u, w')
      → IsSummary t w u
  do_judge-IsSummary t u w w' coherent e = rw e at (do_judge-Judged t w coherent)

  -- With steps as the judge relies on, where `doJudge` returns false on a coherent task, the
  -- compiler refused it and the task is as the compiler left it, or the result is "system error".
  pub do_judge_fails :
      (t u : Task) (w w' : World)
      → IsCoherent t
      → do_judge os config core t w ≡ some (false, u, w')
      → ((core.compiler t w).0 ≡ false) × (u ≡ (core.compiler t w).1)
        ⊎ (u.result ≡ config.je_system)
  do_judge_fails t u w w' coherent e = rw e at (do_judge-Judged t w coherent)
