-- ===== src/Judge/Removal.antt =====
-- `safeRemoveFile`: at most ten attempts.
use online_judger.Common.{ℕ, zero, suc, ◌<◌, ◌≡◌, ◌≢◌, refl, Bool, true, false, arith, Bytes}
use online_judger.Os.{Os, Deletion, deleted, not_found, refused}
use online_judger.Judge.{safe_remove_loop, safe_remove_file}

module _ (os : Os) (name : Bytes) where
  open os use {World, delete_file, sleep}

  -- the world after `n` attempts, with a second of sleep behind each
  abbrev pub after : ℕ → World → World
  after zero w = w
  after (suc n) w = after n (sleep 1000 (delete_file name w).1)

  -- The file is gone after some attempt among the first `n`, those before it having been refused.
  pub record RemovedWithin (n : ℕ) (w : World) (w' : World) : Type 0 where
    pub attempt : ℕ
    pub in_time : attempt < n
    pub gone : (delete_file name (after attempt w)).0 ≢ refused
    pub end_world : w' ≡ (delete_file name (after attempt w)).1
    pub before : (i : ℕ) → i < attempt → (delete_file name (after i w)).0 ≡ refused

  removed_at_once :
      (n : ℕ) (w : World)
      → (delete_file name w).0 ≢ refused
      → RemovedWithin (suc n) w (delete_file name w).1
  removed_at_once n w h = record {
    attempt = 0;
    in_time = omega arith;
    gone = h;
    end_world = refl;
    before = λ i lt. absurd (omega arith);
  }

  removed_later :
      (n : ℕ) (w w' : World)
      → (delete_file name w).0 ≡ refused
      → RemovedWithin n (sleep 1000 (delete_file name w).1) w'
      → RemovedWithin (suc n) w w'
  removed_later n w w' e r = record {
    attempt = suc r.attempt;
    in_time = omega (arith, r.in_time);
    gone = r.gone;
    end_world = r.end_world;
    before = λ i lt. earlier i lt;
  }
    where
      earlier : (i : ℕ) → i < suc r.attempt → (delete_file name (after i w)).0 ≡ refused
      earlier zero lt = e
      earlier (suc i) lt = r.before i (omega arith)

  -- what `safe_remove_loop` returns, on both ways out
  abbrev Removes : ℕ → World → Bool × World → Type 0
  Removes n w r =
      (r.0 ≡ true → RemovedWithin n w r.1)
      × (r.0 ≡ false
          → ((i : ℕ) → i < n → (delete_file name (after i w)).0 ≡ refused) × (r.1 ≡ after n w))

  Removes-at_once :
      (n : ℕ) (w : World)
      → (delete_file name w).0 ≢ refused
      → Removes (suc n) w (true, (delete_file name w).1)
  Removes-at_once n w h = ((λ _. removed_at_once n w h), λ e. absurd cc)

  safe_remove_loop-Removes : (n : ℕ) (w : World) → Removes n w (safe_remove_loop os n name w)
  unfolding safe_remove_loop
  safe_remove_loop-Removes zero w = ((λ e. absurd cc), λ _. ((λ i lt. absurd (omega arith)), refl))
  safe_remove_loop-Removes (suc n) w =
      go (delete_file name w).0 refl
        (safe_remove_loop-Removes n (sleep 1000 (delete_file name w).1))
    where
      go :
          (d : Deletion)
          → (delete_file name w).0 ≡ d
          → Removes n
              (sleep 1000 (delete_file name w).1)
              (safe_remove_loop os n name (sleep 1000 (delete_file name w).1))
          → Removes (suc n) w (safe_remove_loop os (suc n) name w)
      go deleted e ih = rw (e, safe_remove_loop) (Removes-at_once n w (λ r. absurd cc))
      go not_found e ih = rw (e, safe_remove_loop) (Removes-at_once n w (λ r. absurd cc))
      go refused e ih =
          rw (e, safe_remove_loop)
            (
              (λ h. removed_later n w _ e (ih.0 h)),
              λ h. ((λ i lt. earlier i lt (ih.1 h).0), (ih.1 h).1),
            )
        where
          earlier :
              (i : ℕ)
              → i < suc n
              → ((j : ℕ)
                  → j < n
                  → (delete_file name (after j (sleep 1000 (delete_file name w).1))).0 ≡ refused)
              → (delete_file name (after i w)).0 ≡ refused
          earlier zero lt all = e
          earlier (suc i) lt all = all i (omega arith)

  -- `safeRemoveFile` says true exactly when one of at most ten attempts, a second apart, found the
  -- file deleted or not there, and it stops at the first such; it says false after ten refusals.
  pub safe_remove_file-Removes :
      (w : World)
      → let r = safe_remove_file os name w in
        (r.0 ≡ true → RemovedWithin 10 w r.1)
        × (r.0 ≡ false
            → ((i : ℕ) → i < 10 → (delete_file name (after i w)).0 ≡ refused) × (r.1 ≡ after 10 w))
  unfolding safe_remove_file
  safe_remove_file-Removes w = safe_remove_loop-Removes 10 w
