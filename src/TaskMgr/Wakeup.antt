-- ===== src/TaskMgr/Wakeup.antt =====
-- That no item is forgotten, while the count of the semaphore stays below its maximum.
use online_judger.Common.{
  ℕ, zero, suc, ◌+◌, ◌≤◌, ◌≡◌, ◌≢◌, refl, Bool, true, false, List, [], ◌∷◌, ◌++◌, Option, none,
  some, arith, length, total, total-append,
}
use online_judger.TaskMgr.{
  Shared, Pc, idle, add_lock, add_push, add_release, add_unlock, get_wait, get_lock, get_front,
  get_pop, get_unlock, returned, broken, Event, System, max_count, release, advance, exchange, add,
  get, Step, begins, ends, runs, Reachable, fresh, step,
}
use online_judger.TaskMgr.Safety.{
  claims, Sound, AllSound-split, IsSafe, Reachable-IsSafe, shared, length-push, total-idle_threads,
}

module _ {A : Type 0} where
  -- the list is never longer than the maximum of the semaphore, up to this state
  abbrev pub IsSmall : {es : List (Event A)} {s : System A} → Reachable es s → Type 0
  IsSmall (fresh n) = Unit {0}
  IsSmall (step {es} {s} {t} e r one) = IsSmall r × length t.shared.pool ≤ max_count

  abbrev Counts : ℕ → Shared A → Pc A → Option (Option (Event A) × Pc A × Shared A) → Type 0
  Counts o s p none = Unit {0}
  Counts o s p (some (e, p', s')) = s'.count + (o + claims p') ≡ length s'.pool

  advance-Counts :
      (o : ℕ) (xs : List A) (m : Bool) (n : ℕ) (p : Pc A)
      → length xs ≤ max_count
      → Sound xs p
      → n + (o + claims p) ≡ length xs
      → Counts o (shared xs m n) p (advance p (shared xs m n))
  unfolding advance exchange release
  advance-Counts o xs m n idle small h e = tt
  advance-Counts o xs true n (add_lock f x) small h e = e
  advance-Counts o xs false n (add_lock f x) small h e = e
  advance-Counts o xs m n (add_push f x) small h e = omega (arith, e, length-push f x xs)
  advance-Counts o xs m n add_release small h e = ground arith
  advance-Counts o xs m n add_unlock small h e = e
  advance-Counts o xs m zero get_wait small h e = tt
  advance-Counts o xs m (suc n) get_wait small h e = omega (arith, e)
  advance-Counts o xs true n get_lock small h e = e
  advance-Counts o xs false n get_lock small h e = e
  advance-Counts o [] m n get_front small h e = absurd (omega (arith, e))
  advance-Counts o (x ∷ xs) m n get_front small h e = e
  advance-Counts o [] m n (get_pop x) small h e = absurd (omega (arith, e))
  advance-Counts o (y ∷ xs) m n (get_pop x) small h e = omega (arith, e)
  advance-Counts o xs m n (get_unlock x) small h e = e
  advance-Counts o xs m n (returned x) small h e = tt
  advance-Counts o xs m n broken small h e = tt

  abbrev IsExact : System A → Type 0
  IsExact s = s.shared.count + total claims s.threads ≡ length s.shared.pool

  replaced :
      (s : Shared A) (before after : List (Pc A)) (p q : Pc A)
      → claims q ≡ claims p
      → IsExact (record { shared = s; threads = before ++ p ∷ after })
      → IsExact (record { shared = s; threads = before ++ q ∷ after })
  replaced s before after p q c e =
      omega (
        arith,
        c,
        e,
        total-append claims before (p ∷ after),
        total-append claims before (q ∷ after),
      )

  Step-IsExact :
      {s t : System A} {e : Option (Event A)}
      → Step s e t
      → IsSafe s
      → length s.shared.pool ≤ max_count
      → IsExact s
      → IsExact t
  Step-IsExact (begins s before after _ (add f x)) i small h =
      replaced s before after idle (add_lock f x) refl h
  Step-IsExact (begins s before after _ get) i small h =
      replaced s before after idle get_wait refl h
  Step-IsExact (ends s before after x) i small h = replaced s before after (returned x) idle refl h
  Step-IsExact (runs s s' before after p p' e a) i small h =
      let (_, sound, _) = AllSound-split s.pool before p after i.sound in
      let cs = total-append claims before (p ∷ after) in
      let c : s'.count + (total claims before + total claims after + claims p') ≡ length s'.pool =
        rw a at (
          advance-Counts (total claims before + total claims after) s.pool s.mark s.count p small
            sound (omega (arith, cs, h))) in
      omega (arith, c, total-append claims before (p' ∷ after))

  now_small :
      (es : List (Event A)) (s : System A) (r : Reachable es s)
      → IsSmall r
      → length s.shared.pool ≤ max_count
  now_small _ _ (fresh n) h = omega arith
  now_small _ _ (step {es} {s} {t} e r one) (_, h) = h

  Reachable-IsExact :
      (es : List (Event A)) (s : System A) (r : Reachable es s) → IsSmall r → IsExact s
  Reachable-IsExact _ _ (fresh n) h = omega (arith, total-idle_threads claims n refl)
  Reachable-IsExact _ _ (step {es} {s} {t} e r one) (h, _) =
      Step-IsExact one (Reachable-IsSafe es s r) (now_small es s r h) (Reachable-IsExact es s r h)

  -- As long as the list was never longer than the maximum of the semaphore, no item is forgotten: if
  -- the list is not empty and no thread is about to take an item or to announce one, a thread that
  -- waits in `get` can go on.
  pub get_wait_wakes :
      (es : List (Event A)) (s : System A) (r : Reachable es s)
      → IsSmall r
      → total claims s.threads ≡ 0
      → s.shared.pool ≢ []
      → advance get_wait s.shared ≢ none
  unfolding advance
  get_wait_wakes es s r small quiet full e =
      let exact = Reachable-IsExact es s r small in ground (arith, exact, quiet)
