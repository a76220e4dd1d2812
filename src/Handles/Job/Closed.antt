-- ===== src/Handles/Job/Closed.antt =====
-- That `ZProcessJob` closes what it opens.
use online_judger.Common.{
  ℕ, zero, suc, ◌+◌, ◌<◌, ◌≡◌, ◌⊎◌, sym, ap, refl, Bool, true, false, List, [], ◌∷◌, Option, none,
  some, Bytes, length, arith, Bool-cases, inl, inr, some_inj,
}
use online_judger.Handles.{Handle, Kernel, safe_close_handle, close_files_and_thread}
use online_judger.Handles.Accounts.{
  one, Ledger, Grows, Quiet, Grows-trans, Grows-Quiet, Grows-eq, IsLawful, safe_close_handle-Grows,
  destroy-Grows, close_files_and_thread-Grows,
}
use online_judger.Handles.Job.{
  ProcessJob, job_rounds, terminate_loop, after_messages, start_job, destroy_job, end_started,
  end_created, run_in_job,
}
use online_judger.Process.{JobMessage, on_message, job_loop, job_start}
use online_judger.Handles.Job.Created.{owned_by_job, JobHolds, create_job_process-Holds}

module _ (kernel : Kernel) (ledger : Ledger kernel) (lawful : IsLawful kernel ledger) where
  open kernel use {World}

  job_rounds-Quiet :
      (port : Handle) (code : ℕ) (ms : List JobMessage) (w : World) (last : ℕ)
      → job_loop code ms ≡ some last
      → (w' : World) × (job_rounds kernel port code ms w ≡ some (last, w'))
        × Quiet kernel ledger w w'
  unfolding job_rounds job_loop
  job_rounds-Quiet port code [] w last e = cc
  job_rounds-Quiet port code (m ∷ ms) w last e = elim (Bool-cases (on_message m code).1) [
    | inl b ↦
        rw (b, job_rounds)
          (
            _,
            ap (λ (c : ℕ). some (c, kernel.next_message port m w))
                (some_inj (rw (b, job_loop) at e)),
            lawful.message port m w,
          )
    | inr b ↦
        let (w', r, q) =
          job_rounds-Quiet port (on_message m code).0 ms (kernel.next_message port m w) last
            (rw (b, job_loop) at e) in
        rw (b, job_rounds) (w', r, Grows-trans kernel ledger w _ w' _ _ (lawful.message port m w) q)
  ]

  terminate_loop-Quiet :
      (tries : ℕ) (job : Handle) (w w' : World)
      → terminate_loop kernel tries job w ≡ some w'
      → Quiet kernel ledger w w'
  unfolding terminate_loop
  terminate_loop-Quiet zero job w w' e = cc
  terminate_loop-Quiet (suc tries) job w w' e = elim (Bool-cases (kernel.terminate_job job w).0) [
    | inl b ↦
        let here = some_inj (rw (b, terminate_loop) at e) in rw (sym here) (lawful.terminate job w)
    | inr b ↦
        let q =
          terminate_loop-Quiet tries job (kernel.sleep (kernel.terminate_job job w).1) w'
            (rw (b, terminate_loop) at e) in
        Grows-trans kernel ledger w _ w' _ _
          (Grows-trans kernel ledger w _ _ _ _ (lawful.terminate job w) (lawful.sleeps _)) q
  ]

  destroy_job-Quiet :
      (p : ProcessJob) (w w' : World)
      → Grows kernel ledger w w' (owned_by_job p)
      → Quiet kernel ledger w (destroy_job kernel p w')
  unfolding destroy_job
  destroy_job-Quiet p w w' o = destroy-Grows kernel ledger lawful p.files w _ _ (
      safe_close_handle-Grows kernel ledger lawful p.job w _ _ (
        safe_close_handle-Grows kernel ledger lawful p.io_port w w' _
          (Grows-eq kernel ledger w w' _ _ (λ j. omega arith) o)))

  -- the state in which the loop over the messages leaves the object
  after_messages-Holds :
      (tries : ℕ) (p : ProcessJob) (code : ℕ) (w w' : World)
      → ((h : Handle) (v : World) → (v' : World) × (terminate_loop kernel tries h v ≡ some v'))
      → Grows kernel ledger w w' (owned_by_job p)
      → (q : ProcessJob) × (u : World) × (after_messages kernel tries p (some (code, w'))
          ≡ some (true, q, u))
        × (q.exit_code ≡ code)
        × Grows kernel ledger w u (owned_by_job q)
  unfolding after_messages
  after_messages-Holds tries p code w w' dies o =
      let w1 = safe_close_handle kernel p.io_port (safe_close_handle kernel p.files.h_process w') in
      let rest = λ (j : ℕ).
        one p.files.h_thread j + one p.files.h_input j + one p.files.h_output j + one p.job j in
      let closed = safe_close_handle-Grows kernel ledger lawful p.io_port w _ rest (
        safe_close_handle-Grows kernel ledger lawful p.files.h_process w w' _
          (Grows-eq kernel ledger w w' _ _ (λ j. omega arith) o)) in
      let (w2, e) = dies p.job w1 in
      let dead =
        Grows-Quiet kernel ledger w w1 w2 rest closed (terminate_loop-Quiet tries p.job w1 w2 e) in
      rw (e, after_messages)
        (
          _,
          _,
          refl,
          refl,
          safe_close_handle-Grows kernel ledger lawful p.job w w2 _
              (Grows-eq kernel ledger w w2 _ _ (λ j. omega arith) dead),
        )

  abbrev pub Dies : ℕ → Type 0
  Dies tries = (h : Handle) (v : World) → (v' : World) × (terminate_loop kernel tries h v ≡ some v')

  abbrev pub JobClosed : World → ℕ → Option (Bool × ℕ × World) → Type 0
  JobClosed w last life =
      (created : Bool) × (code : ℕ) × (w' : World) × (life ≡ some (created, code, w'))
      × ((code ≡ 0) ⊎ (code ≡ last))
      × Quiet kernel ledger w w'

  start_job-Closed :
      (tries : ℕ) (ms : List JobMessage) (p : ProcessJob) (w w' : World) (last : ℕ)
      → job_start ms ≡ some last
      → Dies tries
      → p.exit_code ≡ 0
      → Grows kernel ledger w w' (owned_by_job p)
      → JobClosed w last (end_started kernel (start_job kernel tries ms p w'))
  unfolding start_job end_started job_start
  start_job-Closed tries ms p w w' last ends dies zero_code o =
      let (ok, w1) = kernel.assign_process p.job p.files.h_process w' in
      let o1 = Grows-Quiet kernel ledger w w' w1 _ o (lawful.assign p.job p.files.h_process w') in
      elim (Bool-cases ok) [
        | inl b ↦
            let (files, w2) =
              close_files_and_thread kernel p.files (kernel.resume_thread p.files.h_thread w1) in
            let q = record p { files = files } in
            let o2 =
              close_files_and_thread-Grows kernel ledger lawful p.files w _
                (λ j. one p.job j + one p.io_port j)
                (Grows-eq kernel ledger w _ _ _ (λ j. omega arith)
                  (Grows-Quiet kernel ledger w w1 _ _ o1 (lawful.resume p.files.h_thread w1))) in
            let (w3, got, quiet) =
              job_rounds-Quiet p.io_port p.exit_code ms w2 last (rw (zero_code) ends) in
            let o3 =
              Grows-Quiet kernel ledger w w2 w3 _
                (Grows-eq kernel ledger w w2 _ (owned_by_job q) (λ j. omega arith) o2) quiet in
            let (r, u, done, code, o4) = after_messages-Holds tries q last w w3 dies o3 in
            rw (b, end_started, start_job, got, done)
              (true, _, _, refl, inr code, destroy_job-Quiet r w u o4)
        | inr b ↦
            rw (b, end_started, start_job)
              (true, _, _, refl, inl zero_code, destroy_job-Quiet p w w1 o1)
      ]

  end_created-Closed :
      (tries : ℕ) (ms : List JobMessage) (w : World) (made : Option (Bool × ProcessJob × World))
      (last : ℕ)
      → job_start ms ≡ some last
      → Dies tries
      → JobHolds kernel ledger lawful w made
      → JobClosed w last (end_created kernel tries ms made)
  unfolding end_created
  end_created-Closed tries ms w none last ends dies h = absurd h
  end_created-Closed tries ms w (some (false, p, w')) last ends dies (z, o) =
      (false, _, _, refl, inl z, destroy_job-Quiet p w w' o)
  end_created-Closed tries ms w (some (true, p, w')) last ends dies (z, o) =
      start_job-Closed tries ms p w w' last ends dies z o

  -- The process in a job, over any kernel whose calls account for handles as Windows documents it, for
  -- a command below 1024 characters, messages that end the loop with the code `last`, and a job that
  -- ends within the tries given: the code comes to its end, by which every handle that it opened is
  -- closed again, whether or not the job and the process were created and joined, and no handle was
  -- closed that was not open; the exit code is `last`, or 0.
  pub run_in_job-Closed :
      (in_file out_file : Bytes) (time_ms memory_kb : ℕ) (cmd : Bytes) (tries : ℕ)
      (ms : List JobMessage) (w : World) (last : ℕ)
      → length cmd < 1024
      → job_start ms ≡ some last
      → Dies tries
      → JobClosed w last (run_in_job kernel in_file out_file time_ms memory_kb cmd tries ms w)
  unfolding run_in_job
  run_in_job-Closed in_file out_file time_ms memory_kb cmd tries ms w last short ends dies =
      end_created-Closed tries ms w _ last ends dies (
        create_job_process-Holds kernel ledger lawful in_file out_file time_ms memory_kb cmd w
          short)
