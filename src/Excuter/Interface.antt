-- ===== src/Excuter/Interface.antt =====
-- What the judge relies on of the steps that it composes, and that the steps of Judger/Excuter.cpp
-- keep it.
use online_judger.Common.{◌≡◌, ◌⊎◌, true, false, arith}
use online_judger.Config.{Config}
use online_judger.Os.{Os}
use online_judger.Task.{Task}
use online_judger.Task.Data.{KeepsPlace}
use online_judger.Excuter.{Exc, compile, debug_runner, matcher}

module _ (os : Os) (config : Config) where
  open os use {World}

  -- A step leaves the submission, the data, the files and the place in the data alone. If it succeeds,
  -- it leaves the result alone too.
  pub record IsStep (exc : Exc os config) : Type 0 where
    pub keeps : (t : Task) (w : os.World) → KeepsPlace t (exc t w).1
    pub quiet : (t : Task) (w : os.World) → (exc t w).0 ≡ true → (exc t w).1.result ≡ t.result

  -- A matcher leaves them alone too; it succeeds with the result "accepted", and fails with another.
  pub record IsMatcher (exc : Exc os config) : Type 0 where
    pub keeps : (t : Task) (w : os.World) → KeepsPlace t (exc t w).1
    pub accepts :
        (t : Task) (w : os.World) → (exc t w).0 ≡ true → (exc t w).1.result ≡ config.je_accept
    pub rejects :
        (t : Task) (w : os.World)
        → (exc t w).0 ≡ false
        → ((exc t w).1.result ≡ config.je_wrong_anwser)
          ⊎ ((exc t w).1.result ≡ config.je_present)
          ⊎ ((exc t w).1.result ≡ config.je_system)

  compile-KeepsPlace : (t : Task) (w : World) → KeepsPlace t (compile os config t w).1
  unfolding compile
  compile-KeepsPlace t w = ground arith

  compile_quiet :
      (t : Task) (w : World)
      → (compile os config t w).0 ≡ true
      → (compile os config t w).1.result ≡ t.result
  unfolding compile
  compile_quiet t w h = ground arith

  pub compile-IsStep : IsStep (compile os config)
  compile-IsStep = record { keeps = compile-KeepsPlace; quiet = compile_quiet }

  debug_runner-KeepsPlace : (t : Task) (w : World) → KeepsPlace t (debug_runner os config t w).1
  unfolding debug_runner
  debug_runner-KeepsPlace t w = ground arith

  debug_runner_quiet :
      (t : Task) (w : World)
      → (debug_runner os config t w).0 ≡ true
      → (debug_runner os config t w).1.result ≡ t.result
  unfolding debug_runner
  debug_runner_quiet t w h = ground arith

  pub debug_runner-IsStep : IsStep (debug_runner os config)
  debug_runner-IsStep = record { keeps = debug_runner-KeepsPlace; quiet = debug_runner_quiet }

  matcher-KeepsPlace : (t : Task) (w : World) → KeepsPlace t (matcher os config t w).1
  unfolding matcher
  matcher-KeepsPlace t w = ground arith

  matcher_accepts :
      (t : Task) (w : World)
      → (matcher os config t w).0 ≡ true
      → (matcher os config t w).1.result ≡ config.je_accept
  unfolding matcher
  matcher_accepts t w h = ground arith

  matcher_rejects :
      (t : Task) (w : World)
      → (matcher os config t w).0 ≡ false
      → ((matcher os config t w).1.result ≡ config.je_wrong_anwser)
        ⊎ ((matcher os config t w).1.result ≡ config.je_present)
        ⊎ ((matcher os config t w).1.result ≡ config.je_system)
  unfolding matcher
  matcher_rejects t w h = ground arith

  pub matcher-IsMatcher : IsMatcher (matcher os config)
  matcher-IsMatcher = record {
    keeps = matcher-KeepsPlace;
    accepts = matcher_accepts;
    rejects = matcher_rejects;
  }
