-- ===== src/Handles/Job/Created.antt =====
-- What `ZProcessJob::create` leaves open.
use online_judger.Common.{
  ℕ, ◌+◌, ◌<◌, ◌≡◌, ap, refl, Bool, Option, none, some, Bytes, length, arith, Bool-cases, inl, inr,
}
use online_judger.Handles.{
  JobInformation, Handle, null, invalid, handle, Kernel, ProcessInOut, is_null,
}
use online_judger.Handles.Accounts.{
  one, owned, Ledger, Grows, Grows-trans, Grows-Quiet, Grows-eq, IsLawful, Holds,
  open_and_create-Holds,
}
use online_judger.Handles.Job.{
  ProcessJob, new_job_process, job_handle, set_up_job, with_files, create_job_process,
}

abbrev pub owned_by_job : ProcessJob → ℕ → ℕ
owned_by_job p j = owned p.files j + one p.job j + one p.io_port j

module _ (kernel : Kernel) (ledger : Ledger kernel) (lawful : IsLawful kernel ledger) where
  open kernel use {World}

  -- what is open after `create`, which leaves the code at 0
  abbrev pub JobHolds : World → Option (Bool × ProcessJob × World) → Type 0
  JobHolds w none = ⊥
  JobHolds w (some (ok, p, w')) = (p.exit_code ≡ 0) × Grows kernel ledger w w' (owned_by_job p)

  one-job_handle : (h : Handle) (j : ℕ) → one (job_handle kernel h) j ≡ one h j
  one-job_handle null j = refl
  one-job_handle invalid j = refl
  one-job_handle (handle n) j = refl

  set_up_job-Grows :
      (p : ProcessJob) (w w' : World)
      → p.io_port ≡ null
      → Grows kernel ledger w w' (owned_by_job p)
      → Grows kernel ledger w (set_up_job kernel p w').1 (owned_by_job (set_up_job kernel p w').0)
  unfolding set_up_job
  set_up_job-Grows p w w' bare o =
      Grows-eq kernel ledger w _ _ _ (λ j. omega (arith, ap (λ (h : Handle). one h j) bare))
        (set _ _ _ (
          Grows-trans kernel ledger w _ _ _ _ (set _ _ _ (set _ _ _ (set _ _ _ o)))
            (lawful.port _)))
    where
      set :
          (g : ℕ → ℕ) (v : World) (i : JobInformation)
          → Grows kernel ledger w v g
          → Grows kernel ledger w (kernel.set_information p.job i v) g
      set g v i u = Grows-Quiet kernel ledger w v _ g u (lawful.set p.job i v)

  with_files-Holds :
      (p : ProcessJob) (w w' : World) (made : Option (Bool × ProcessInOut × World))
      → ((j : ℕ) → owned p.files j ≡ 0)
      → p.exit_code ≡ 0
      → Grows kernel ledger w w' (owned_by_job p)
      → Holds kernel ledger lawful w' made
      → JobHolds w (with_files kernel p made)
  with_files-Holds p w w' none empty zero_code o h = absurd h
  with_files-Holds p w w' (some (ok, f, w'')) empty zero_code o h = (
    zero_code,
    Grows-eq kernel ledger w w'' _ _ (λ j. omega (arith, empty j))
        (Grows-trans kernel ledger w w' w'' _ _ o h),
  )

  pub create_job_process-Holds :
      (in_file out_file : Bytes) (time_ms memory_kb : ℕ) (cmd : Bytes) (w : World)
      → length cmd < 1024
      → JobHolds w
          (create_job_process kernel (new_job_process in_file out_file time_ms memory_kb) cmd w)
  unfolding create_job_process
  create_job_process-Holds in_file out_file time_ms memory_kb cmd w short =
      let (h, w1) = kernel.create_job w in
      let made = record (new_job_process in_file out_file time_ms memory_kb) {
        job = job_handle kernel h;
      } in
      let (q, w2) = set_up_job kernel made w1 in
      let got : Grows kernel ledger w w1 (owned_by_job made) =
        Grows-eq kernel ledger w w1 _ _ (λ j. omega (arith, one-job_handle h j)) (lawful.job w) in
      let ready = set_up_job-Grows made w w1 refl got in
      elim (Bool-cases (is_null (job_handle kernel h))) [
        | inl e ↦ rw (e) (refl, got)
        | inr e ↦ rw (e) (
            with_files-Holds q w w2 _ (λ j. refl) refl ready
              (open_and_create-Holds kernel ledger lawful _ in_file out_file cmd w2 short))
      ]
