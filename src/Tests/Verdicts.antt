-- ===== src/Tests/Verdicts.antt =====
-- The database manager at a concrete database.
use online_judger.Common.{
  ℕ, zero, suc, ◌≡◌, refl, true, List, [], ◌∷◌, none, some, Bytes, codes, arith,
}
use online_judger.Common.Int.{pos}
use online_judger.Config.{new_config}
use online_judger.Task.{Task}
use online_judger.Text.{find_first_of}
use online_judger.Database.{Services, Row, do_write, write_task, escape_string, trim_part_string}
use online_judger.Database.Read.{do_read}
use online_judger.Database.Reading.{IsSound, do_read-IsSound}
use online_judger.Database.Statements.{statements, AllFit, query_all, write_task_overflows}
use online_judger.Database.Sizes.{IsSmall, write_task_fits}
use online_judger.Database.Writing.{IsWritten, do_write-IsWritten}
use online_judger.Tests.Machine.{test_os, test_task}

abbrev pub one_row : List Row
one_row = (codes "7" ∷ codes "1000" ∷ codes "u" ∷ codes "0" ∷ codes "1" ∷ codes "32" ∷ []) ∷ []

abbrev letters : ℕ → Bytes
letters zero = []
letters (suc n) = b'x' ∷ letters n

-- a database with one submission, whose escaped texts have a given length
abbrev pub test_db : ℕ → Services test_os
test_db n = record {
  query = λ _ w. (true, w);
  store_result = λ w. (some one_row, w);
  real_escape_string = λ _. letters n;
  write_file = λ _ _ w. w;
  show_rate = λ _. codes "0.500000";
  reciv_cb = λ _ w. w;
}

do_read-IsSound_example :
    IsSound test_os new_config (test_db 3) (do_read test_os new_config (test_db 3) 2 true)
do_read-IsSound_example = do_read-IsSound test_os new_config (test_db 3) 2 true

do_write-IsWritten_example :
    IsWritten test_os new_config
      (test_db 3)
      ((true, some test_task) ∷ (true, none) ∷ [])
      true
      (do_write test_os new_config (test_db 3) ((true, some test_task) ∷ (true, none) ∷ []) true)
do_write-IsWritten_example =
    do_write-IsWritten test_os new_config (test_db 3) ((true, some test_task) ∷ (true, none) ∷ [])
      true

test_task-IsSmall : IsSmall test_os new_config (test_db 3) test_task
test_task-IsSmall = record {
  result_32 = omega arith;
  run_time_32 = omega arith;
  run_memory_32 = omega arith;
  solution_id_32 = omega arith;
  problem_id_32 = omega arith;
  je_accept_32 = omega arith;
  user_name_short = omega arith;
  rate_short = omega arith;
}

write_task_fits_example :
    AllFit (statements test_os new_config (test_db 3) test_task)
    × (write_task test_os new_config (test_db 3) test_task true
        ≡ some (
            query_all test_os new_config
              (test_db 3)
              (statements test_os new_config (test_db 3) test_task)
              true))
write_task_fits_example =
    write_task_fits test_os new_config (test_db 3) test_task true test_task-IsSmall (λ e. absurd cc)

-- a compile error
abbrev refused_task : Task
refused_task = record test_task { result = pos 5 }

write_task_overflows_example : write_task test_os new_config (test_db 1024) refused_task true ≡ none
unfolding escape_string trim_part_string find_first_of
write_task_overflows_example =
    write_task_overflows test_os new_config (test_db 1024) refused_task true refl (omega arith)
