-- ===== src/Database/Sizes.antt =====
-- How long the statements for a verdict are, and that they fit their buffers.
use online_judger.Common.{
  ℕ, zero, suc, ◌+◌, ◌*◌, ◌/◌, ◌%◌, ◌≤◌, ◌<◌, ◌≡◌, refl, Bool, true, false, [], ◌∷◌, some, arith,
  if◌then◌else◌, length, length-append, Bytes,
}
use online_judger.Common.Int.{ℤ, pos, negsuc, eq_ℤ, eq_ℤ_iff}
use online_judger.Config.{Config}
use online_judger.Number.{digits_onto, show_nat, show_int}
use online_judger.Os.{Os}
use online_judger.Task.{Task}
use online_judger.Database.{
  Services, escape_string, sql_update_solution, sql_update_user_solved, sql_update_user_submit,
  sql_update_problem_accept, sql_update_problem_submit, sql_delete_compile, sql_insert_compile,
  write_task,
}
use online_judger.Database.Statements.{AllFit, statements, query_all, write_task-query_all}

-- ten to the power of `k`
ten : ℕ → ℕ
ten zero = 1
ten (suc k) = 10 * ten k

length-digits_onto :
    (fuel k n : ℕ) (rest : Bytes)
    → n < ten (suc k)
    → length (digits_onto fuel n rest) ≤ suc k + length rest
unfolding digits_onto ten
length-digits_onto zero k n rest h = omega arith
length-digits_onto (suc fuel) zero n rest h = ground (arith, h)
length-digits_onto (suc fuel) (suc k) n rest h =
    let later = length-digits_onto fuel k (n / 10) ((b'0' + n % 10) ∷ rest) (omega (arith, h)) in
    ground (arith, later)

-- the integers of 32 bits
abbrev pub Is32 : ℤ → Type 0
Is32 (pos n) = n < 2147483648
Is32 (negsuc n) = n < 2147483648

length-show_int : (z : ℤ) → Is32 z → length (show_int z) ≤ 11
unfolding show_int show_nat ten
length-show_int (pos n) h = omega (arith, length-digits_onto (suc n) 9 n [] (omega (arith, h)))
length-show_int (negsuc n) h =
    omega (arith, length-digits_onto (suc (suc n)) 9 (suc n) [] (omega (arith, h)))

module _ (os : Os) (config : Config) (db : Services os) where
  -- a task whose numbers have 32 bits, with a user name of at most 400 characters
  pub record IsSmall (t : Task) : Type 0 where
    pub result_32 : Is32 t.result
    pub run_time_32 : Is32 t.run_time
    pub run_memory_32 : Is32 t.run_memory
    pub solution_id_32 : Is32 t.solution_id
    pub problem_id_32 : Is32 t.problem_id
    pub je_accept_32 : Is32 config.je_accept
    pub user_name_short : length t.user_name ≤ 400
    pub rate_short : length (db.show_rate t.pass_rate) ≤ 47

  length-update_solution :
      (t : Task) → IsSmall t → length (sql_update_solution os config db t) < 1024
  unfolding sql_update_solution
  length-update_solution t h =
      let a = length-show_int t.result h.result_32 in
      let b = length-show_int t.run_time h.run_time_32 in
      let c = length-show_int t.run_memory h.run_memory_32 in
      let d = length-show_int t.solution_id h.solution_id_32 in
      let e = h.rate_short in grind (arith, length-append)

  length-update_user_solved :
      (t : Task) → IsSmall t → length (sql_update_user_solved os config db t) < 1024
  unfolding sql_update_user_solved
  length-update_user_solved t h =
      let a = length-show_int config.je_accept h.je_accept_32 in
      let b = h.user_name_short in grind (arith, length-append)

  length-update_user_submit :
      (t : Task) → IsSmall t → length (sql_update_user_submit os config db t) < 1024
  unfolding sql_update_user_submit
  length-update_user_submit t h = let b = h.user_name_short in grind (arith, length-append)

  length-update_problem_accept :
      (t : Task) → IsSmall t → length (sql_update_problem_accept os config db t) < 1024
  unfolding sql_update_problem_accept
  length-update_problem_accept t h =
      let a = length-show_int config.je_accept h.je_accept_32 in
      let b = length-show_int t.problem_id h.problem_id_32 in grind (arith, length-append)

  length-update_problem_submit :
      (t : Task) → IsSmall t → length (sql_update_problem_submit os config db t) < 1024
  unfolding sql_update_problem_submit
  length-update_problem_submit t h =
      let b = length-show_int t.problem_id h.problem_id_32 in grind (arith, length-append)

  length-delete_compile : (t : Task) → IsSmall t → length (sql_delete_compile os config db t) < 1024
  unfolding sql_delete_compile
  length-delete_compile t h =
      let b = length-show_int t.solution_id h.solution_id_32 in grind (arith, length-append)

  length-insert_compile :
      (t : Task)
      → IsSmall t
      → length (escape_string os config db t.compile_error_str) ≤ 950
      → length (sql_insert_compile os config db t) < 1024
  unfolding sql_insert_compile
  length-insert_compile t h k =
      let b = length-show_int t.solution_id h.solution_id_32 in grind (arith, length-append)

  statements-AllFit :
      (t : Task)
      → IsSmall t
      → (t.result ≡ config.je_complie
          → length (escape_string os config db t.compile_error_str) ≤ 950)
      → AllFit (statements os config db t)
  statements-AllFit t h k = (
    length-update_solution t h,
    (
      length-update_user_solved t h,
      (
        length-update_user_submit t h,
        (
          length-update_problem_accept t h,
          (length-update_problem_submit t h, info (eq_ℤ t.result config.je_complie) refl),
        ),
      ),
    ),
  )
    where
      info :
          (b : Bool)
          → eq_ℤ t.result config.je_complie ≡ b
          → AllFit (
              sql_delete_compile os config db t
              ∷ (if b then sql_insert_compile os config db t ∷ [] else []))
      info true e = (
        length-delete_compile t h,
        (length-insert_compile t h (k ((eq_ℤ_iff t.result config.je_complie).0 e)), tt),
      )
      info false e = (length-delete_compile t h, tt)

  -- The numbers of 32 bits, a user name of at most 400 characters and a pass rate of at most 47 keep
  -- every statement for a verdict inside its buffer of 1024 characters, if the escaped messages of a
  -- compile error have at most 950: a round of `doWrite` then sends all of them.
  pub write_task_fits :
      (t : Task) (w : os.World)
      → IsSmall t
      → (t.result ≡ config.je_complie
          → length (escape_string os config db t.compile_error_str) ≤ 950)
      → AllFit (statements os config db t)
        × (write_task os config db t w
            ≡ some (query_all os config db (statements os config db t) w))
  write_task_fits t w h k =
      let fit = statements-AllFit t h k in (fit, write_task-query_all os config db t w fit)
