-- ===== src/Database/Statements.antt =====
-- The statements that a round of the writing thread sends.
use online_judger.Common.{
  ◌≤◌, ◌<◌, ◌≡◌, ◌∙◌, refl, sym, List, [], ◌∷◌, ◌++◌, Option, none, some, inl, inr, Option-cases,
  Bool-cases, arith, if◌then◌else◌, ◌>>=◌, ◌⊎◌, ltb, length, length-append, Bytes, codes,
}
use online_judger.Common.Int.{eq_ℤ, eq_ℤ_iff}
use online_judger.Config.{Config}
use online_judger.Number.{show_int}
use online_judger.Os.{Os}
use online_judger.Task.{Task}
use online_judger.Database.{
  Services, print_1024, send, escape_string, sql_update_solution, sql_update_user_solved,
  sql_update_user_submit, sql_update_problem_accept, sql_update_problem_submit, sql_delete_compile,
  sql_insert_compile, update_solution, update_user, update_problem, update_info, write_task,
}

-- each statement is shorter than the buffer that it is printed into
abbrev pub AllFit : List Bytes → Type 0
AllFit [] = Unit {0}
AllFit (s ∷ ss) = length s < 1024 × AllFit ss

module _ (os : Os) (config : Config) (db : Services os) where
  open os use {World}

  abbrev info_statements : Task → List Bytes
  info_statements t =
      sql_delete_compile os config db t
      ∷ (if eq_ℤ t.result config.je_complie then sql_insert_compile os config db t ∷ [] else [])

  -- the statements for a verdict, in order
  abbrev pub statements : Task → List Bytes
  statements t =
      (sql_update_solution os config db t ∷ [])
      ++ ((sql_update_user_solved os config db t ∷ sql_update_user_submit os config db t ∷ [])
          ++ ((sql_update_problem_accept os config db t
                ∷ sql_update_problem_submit os config db t
                ∷ [])
              ++ info_statements t))

  abbrev pub query_all : List Bytes → World → World
  query_all [] w = w
  query_all (s ∷ ss) w = query_all ss (db.query s w).1

  abbrev pub send_all : List Bytes → World → Option World
  send_all [] w = some w
  send_all (s ∷ ss) w = send os config db s w >>= send_all ss

  send_all-append :
      (ss us : List Bytes) (w : World) → send_all (ss ++ us) w ≡ (send_all ss w >>= send_all us)
  send_all-append [] us w = refl
  send_all-append (s ∷ ss) us w = elim (Option-cases (send os config db s w)) [
    | inl e ↦ rw (e) refl
    | inr (w', e) ↦ rw (e) (send_all-append ss us w')
  ]

  send-fits :
      (s : Bytes) (w : World) → length s < 1024 → send os config db s w ≡ some (db.query s w).1
  unfolding send print_1024
  send-fits s w h = ground arith

  send-none : (s : Bytes) (w : World) → 1024 ≤ length s → send os config db s w ≡ none
  unfolding send print_1024
  send-none s w h = ground arith

  send_all-fits : (ss : List Bytes) (w : World) → AllFit ss → send_all ss w ≡ some (query_all ss w)
  send_all-fits [] w h = refl
  send_all-fits (s ∷ ss) w (h, hs) = rw (send-fits s w h) (send_all-fits ss (db.query s w).1 hs)

  bind-some : (o : Option World) → (o >>= send_all []) ≡ o
  bind-some none = refl
  bind-some (some w) = refl

  send_all-two :
      (s u : Bytes) (w : World)
      → send_all (s ∷ u ∷ []) w ≡ (send os config db s w >>= send os config db u)
  send_all-two s u w = go (send os config db s w)
    where
      go : (o : Option World) → (o >>= send_all (u ∷ [])) ≡ (o >>= send os config db u)
      go none = refl
      go (some w) = bind-some (send os config db u w)

  bind-ext :
      (o : Option World) (f g : World → Option World)
      → ((w : World) → f w ≡ g w)
      → (o >>= f) ≡ (o >>= g)
  bind-ext none f g h = refl
  bind-ext (some w) f g h = h w

  update_info-send_all :
      (t : Task) (w : World) → update_info os config db t w ≡ send_all (info_statements t) w
  unfolding update_info
  update_info-send_all t w =
      bind-ext (send os config db (sql_delete_compile os config db t) w) _ _ (λ w1.
        elim (Bool-cases (eq_ℤ t.result config.je_complie)) [
          | inl e ↦
              rw (e) (sym (bind-some (send os config db (sql_insert_compile os config db t) w1)))
          | inr e ↦ rw (e) refl
        ])

  -- two groups of statements, one after the other
  send_groups :
      (first next : World → Option World) (ss us : List Bytes) (w : World)
      → ((v : World) → first v ≡ send_all ss v)
      → ((v : World) → next v ≡ send_all us v)
      → (first w >>= next) ≡ send_all (ss ++ us) w
  send_groups first next ss us w f n =
      rw (f w) (bind-ext (send_all ss w) next (send_all us) n) ∙ sym (send_all-append ss us w)

  update_solution-send_all :
      (t : Task) (w : World)
      → update_solution os config db t w ≡ send_all (sql_update_solution os config db t ∷ []) w
  unfolding update_solution
  update_solution-send_all t w =
      sym (bind-some (send os config db (sql_update_solution os config db t) w))

  update_user-send_all :
      (t : Task) (w : World)
      → update_user os config db t w
        ≡ send_all
            (sql_update_user_solved os config db t ∷ sql_update_user_submit os config db t ∷ [])
            w
  unfolding update_user
  update_user-send_all t w = sym (
      send_all-two (sql_update_user_solved os config db t) (sql_update_user_submit os config db t)
        w)

  update_problem-send_all :
      (t : Task) (w : World)
      → update_problem os config db t w
        ≡ send_all
            (sql_update_problem_accept os config db t
              ∷ sql_update_problem_submit os config db t
              ∷ [])
            w
  unfolding update_problem
  update_problem-send_all t w = sym (
      send_all-two (sql_update_problem_accept os config db t)
        (sql_update_problem_submit os config db t) w)

  write_task-send_all :
      (t : Task) (w : World) → write_task os config db t w ≡ send_all (statements t) w
  unfolding write_task
  write_task-send_all t w =
      send_groups (update_solution os config db t)
        (λ w1. update_user os config db t w1 >>= λ w2.
          update_problem os config db t w2 >>= update_info os config db t)
        (sql_update_solution os config db t ∷ [])
        ((sql_update_user_solved os config db t ∷ sql_update_user_submit os config db t ∷ [])
          ++ ((sql_update_problem_accept os config db t
                ∷ sql_update_problem_submit os config db t
                ∷ [])
              ++ info_statements t))
        w (update_solution-send_all t)
        (λ w1.
          send_groups (update_user os config db t)
            (λ w2. update_problem os config db t w2 >>= update_info os config db t)
            (sql_update_user_solved os config db t ∷ sql_update_user_submit os config db t ∷ [])
            ((sql_update_problem_accept os config db t
                ∷ sql_update_problem_submit os config db t
                ∷ [])
              ++ info_statements t)
            w1 (update_user-send_all t)
            (λ w2.
              send_groups (update_problem os config db t) (update_info os config db t)
                (sql_update_problem_accept os config db t
                  ∷ sql_update_problem_submit os config db t
                  ∷ [])
                (info_statements t) w2 (update_problem-send_all t) (update_info-send_all t)))

  -- If every statement for a verdict fits its buffer, a round of `doWrite` sends them one after another,
  -- each whatever came of those before: the solution, the two counts of the user, the two counts of the
  -- problem, the removal of the old compiler messages, and for a compile error the new ones.
  pub write_task-query_all :
      (t : Task) (w : World)
      → AllFit (statements t)
      → write_task os config db t w ≡ some (query_all (statements t) w)
  write_task-query_all t w h = write_task-send_all t w ∙ send_all-fits (statements t) w h

  send_all-cases : (ss : List Bytes) (w : World) → AllFit ss ⊎ (send_all ss w ≡ none)
  send_all-cases [] w = inl tt
  send_all-cases (s ∷ ss) w = elim (Bool-cases (ltb (length s) 1024)) [
    | inl e ↦ elim (send_all-cases ss (db.query s w).1) [
      | inl fit ↦ inl (ground arith, fit)
      | inr stops ↦ inr (rw (send-fits s w (ground arith)) stops)
    ]
    | inr e ↦ inr (rw (send-none s w (ground arith)) refl)
  ]

  -- the statements for a verdict fit, or the round ends the program
  pub write_task-cases :
      (t : Task) (w : World) → AllFit (statements t) ⊎ (write_task os config db t w ≡ none)
  write_task-cases t w = rw (write_task-send_all t w) (send_all-cases (statements t) w)

  send_all-none :
      (ss : List Bytes) (s : Bytes) (w : World) → 1024 ≤ length s → send_all (ss ++ s ∷ []) w ≡ none
  send_all-none [] s w h = rw (send-none s w h) refl
  send_all-none (u ∷ ss) s w h = elim (Option-cases (send os config db u w)) [
    | inl e ↦ rw (e) refl
    | inr (w', e) ↦ rw (e) (send_all-none ss s w' h)
  ]

  behind : (xs ys : Bytes) → 1024 ≤ length ys → 1024 ≤ length (xs ++ ys)
  behind xs ys h = omega (arith, length-append xs ys)

  in_front : (xs ys : Bytes) → 1024 ≤ length xs → 1024 ≤ length (xs ++ ys)
  in_front xs ys h = omega (arith, length-append xs ys)

  long_insert :
      (t : Task)
      → 1024 ≤ length (escape_string os config db t.compile_error_str)
      → 1024 ≤ length (sql_insert_compile os config db t)
  unfolding sql_insert_compile
  long_insert t h =
      let front = codes "INSERT INTO `compileinfo`(solution_id, error)VALUES(" in
      behind front _
        (behind (show_int t.solution_id) _ (behind (codes ", \"") _ (in_front _ (codes "\")") h)))

  -- A compile error whose escaped messages do not fit into 1024 characters ends the program: the
  -- statement is printed into a buffer of that size.
  pub write_task_overflows :
      (t : Task) (w : World)
      → t.result ≡ config.je_complie
      → 1024 ≤ length (escape_string os config db t.compile_error_str)
      → write_task os config db t w ≡ none
  write_task_overflows t w e h =
      write_task-send_all t w
      ∙ rw ((eq_ℤ_iff t.result config.je_complie).1 e) (
          send_all-none
            (sql_update_solution os config db t
              ∷ sql_update_user_solved os config db t
              ∷ sql_update_user_submit os config db t
              ∷ sql_update_problem_accept os config db t
              ∷ sql_update_problem_submit os config db t
              ∷ sql_delete_compile os config db t
              ∷ [])
            (sql_insert_compile os config db t) w (long_insert t h))
