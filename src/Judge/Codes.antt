-- ===== src/Judge/Codes.antt =====
-- The codes that a judgement of Judger/JudgeCore.cpp can end with.
use online_judger.Common.{
  ℕ, zero, suc, ◌≡◌, ◌<◌, refl, not, ltb, length, ◌⊎◌, Bool, true, false, Option, none, some, inl,
  inr, arith, Bool-cases, Option-cases,
}
use online_judger.Common.Int.{ℤ}
use online_judger.Config.{Config}
use online_judger.Excuter.{compile_command, command_overflows, compile, debug_runner, matcher}
use online_judger.Os.{Os}
use online_judger.Task.{Task, set_test_data_index, get_test_data_count}
use online_judger.Judge.{
  JudgeCore, create_judge_core, Run, Next, go_on, stop, give_up, match_run, end_round, judge_round,
  judge_loop, start_run, conclude, do_judge, finish, judge, judge_program, safe_remove_file,
  do_clean_up, on_task_finish,
}
use online_judger.Judge.Loop.{create_judge_core-CoreLaws}
use online_judger.Judge.Outcome.{do_judge_returns}
use online_judger.Task.Data.{IsCoherent}

-- the final verdicts, which leave out "pending", "compiling" and the like
abbrev pub IsVerdict : Config → ℤ → Type 0
IsVerdict config r =
    (r ≡ config.je_accept)
    ⊎ (r ≡ config.je_present)
    ⊎ (r ≡ config.je_wrong_anwser)
    ⊎ (r ≡ config.je_time_limited)
    ⊎ (r ≡ config.je_memory_limited)
    ⊎ (r ≡ config.je_runtime)
    ⊎ (r ≡ config.je_complie)
    ⊎ (r ≡ config.je_system)

module _ (os : Os) (config : Config) (cb : Option (Task → os.World → os.World)) where
  open os use {World}

  abbrev core : JudgeCore os config
  core = create_judge_core os config cb

  -- a result that is a verdict if the flag is as given
  abbrev Codes : Bool → Bool × Task × World → Type 0
  Codes b r = r.0 ≡ b → IsVerdict config r.1.result

  compile-Codes : (t : Task) (w : World) → Codes false (compile os config t w)
  unfolding compile
  compile-Codes t w h = ground arith

  debug_runner-Codes : (t : Task) (w : World) → Codes false (debug_runner os config t w)
  unfolding debug_runner
  debug_runner-Codes t w h = ground arith

  matcher-IsVerdict : (t : Task) (w : World) → IsVerdict config (matcher os config t w).1.result
  unfolding matcher
  matcher-IsVerdict t w = ground arith

  match_run-IsVerdict :
      (r : Bool × Task × World)
      → Codes false r
      → IsVerdict config (match_run os config core r).1.result
  unfolding match_run
  match_run-IsVerdict (false, t, w) h = h refl
  match_run-IsVerdict (true, t, w) h = matcher-IsVerdict t w

  end_round-IsVerdict :
      (r : Run os) (ran : Bool) (m : Bool × Task × World) (removed : Bool × World)
      → IsVerdict config m.1.result
      → IsVerdict config (end_round os config core r ran m removed).1.task.result
  unfolding end_round
  end_round-IsVerdict r ran (b, u, w) (true, w') k = k
  end_round-IsVerdict r ran (b, u, w) (false, w') k = ground arith

  judge_round-IsVerdict :
      (r : Run os) (t : Task) → IsVerdict config (judge_round os config core r t).1.task.result
  unfolding judge_round
  judge_round-IsVerdict r t =
      let ran = debug_runner os config t r.world in
      let m = match_run os config core ran in
      end_round-IsVerdict r ran.0 m (safe_remove_file os m.1.exe_output m.2)
        (match_run-IsVerdict ran (debug_runner-Codes t r.world))

  abbrev RunCoded : Option (Bool × Run os) → Type 0
  RunCoded none = Unit {0}
  RunCoded (some (b, u)) = IsVerdict config u.task.result

  -- from a state with a verdict, or over at least one round, the loop comes to a verdict
  judge_loop-RunCoded :
      (n i : ℕ) (r : Run os)
      → (IsVerdict config r.task.result) ⊎ ((m : ℕ) × (n ≡ suc m))
      → RunCoded (judge_loop os config core n i r)
  unfolding judge_loop
  judge_loop-RunCoded zero i r (inl v) = v
  judge_loop-RunCoded zero i r (inr (m, e)) = absurd (omega arith)
  judge_loop-RunCoded (suc n) i r h = elim (Option-cases (set_test_data_index r.task i)) [
    | inl e ↦ rw (e, judge_loop) tt
    | inr (u, e) ↦
        let round = judge_round os config core r u in
        let coded = judge_round-IsVerdict r u in
        rw (e, judge_loop)
          (go round.0 round.1 coded (judge_loop-RunCoded n (suc i) round.1 (inl coded)))
  ]
    where
      go :
          (x : Next) (s : Run os)
          → IsVerdict config s.task.result
          → RunCoded (judge_loop os config core n (suc i) s)
          → RunCoded (elim x as (λ _. Option (Bool × Run os)) [
            | go_on ↦ judge_loop os config core n (suc i) s
            | stop ↦ some (true, s)
            | give_up ↦ some (false, s)
          ])
      go go_on s k later = later
      go stop s k later = k
      go give_up s k later = k

  abbrev Coded : Option (Bool × Task × World) → Type 0
  Coded none = Unit {0}
  Coded (some (b, u, w)) = IsVerdict config u.result

  conclude-Coded : (o : Option (Bool × Run os)) → RunCoded o → Coded (conclude os o)
  conclude-Coded none h = tt
  conclude-Coded (some (false, r)) h = h
  conclude-Coded (some (true, r)) h = h

  do_judge-Coded : (t : Task) (w : World) → Coded (do_judge os config core t w)
  unfolding do_judge
  do_judge-Coded t w =
      let c = compile os config t w in
      elim (Bool-cases c.0) [
        | inr bad ↦ rw (bad, do_judge) (compile-Codes t w bad)
        | inl good ↦ rw (good, do_judge) (by_count (get_test_data_count c.1) c)
      ]
    where
      by_count :
          (n : ℕ) (c : Bool × Task × World)
          → Coded (elim n as (λ _. Option (Bool × Task × World)) [
            | zero ↦ some (false, record (c.1) { result = config.je_system }, c.2)
            | suc m ↦ conclude os (judge_loop os config core (suc m) 0 (start_run os c.1 c.2))
          ])
      by_count zero c = ground arith
      by_count (suc m) c =
          conclude-Coded (judge_loop os config core (suc m) 0 (start_run os c.1 c.2))
            (judge_loop-RunCoded (suc m) 0 (start_run os c.1 c.2) (inr (m, refl)))

  judge-Coded : (t : Task) (w : World) → Coded (judge os config core t w)
  unfolding judge finish
  judge-Coded t w = go (do_judge os config core t w) (do_judge-Coded t w)
    where
      go : (o : Option (Bool × Task × World)) → Coded o → Coded (finish os config core o)
      go none h = tt
      go (some (b, u, v)) h = h

  command_overflows_fits :
      (t : Task) (w : World)
      → length (compile_command os config t) < 1024
      → command_overflows os config t w ≡ false
  unfolding command_overflows
  command_overflows_fits t w h =
      let fits : not (ltb (length (compile_command os config t)) 1024) ≡ false = ground arith in
      rw (fits) (ground arith)

  -- Whatever the result of a coherent task was before, its judgement by the core that the program
  -- makes returns, and leaves it with one of the eight final verdicts: accepted, presentation error,
  -- wrong answer, time limit, memory limit, runtime error, compile error, system error. This is so if the
  -- command that the names of its files make for the compiler is shorter than its buffer.
  pub judge_program-IsVerdict :
      (t : Task) (w : World)
      → IsCoherent t
      → length (compile_command os config t) < 1024
      → (b : Bool) × (u : Task) × (w' : World) × (judge_program os config cb t w ≡ some (b, u, w'))
        × IsVerdict config u.result
  unfolding judge finish judge_program
  judge_program-IsVerdict t w h short =
      let ((b, u, v), e) =
        do_judge_returns os config core (create_judge_core-CoreLaws os config cb) t w h in
      let cleaned = do_clean_up os config core u (on_task_finish os config core u v) in
      let returns : judge os config core t w ≡ some (cleaned.0, u, cleaned.1) = rw (e) refl in
      (
        cleaned.0,
        u,
        cleaned.1,
        rw (command_overflows_fits t w short) returns,
        rw returns at (judge-Coded t w),
      )
