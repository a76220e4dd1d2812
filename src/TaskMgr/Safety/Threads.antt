-- ===== src/TaskMgr/Safety/Threads.antt =====
-- What threads hold, claim and have read, one by one and together.
use online_judger.Common.{
  ℕ, zero, suc, ◌≤◌, ◌≡◌, refl, Bool, true, false, List, [], ◌∷◌, ◌++◌, arith, total,
}
use online_judger.TaskMgr.{
  Pc, idle, add_lock, add_push, add_release, add_unlock, get_wait, get_lock, get_front, get_pop,
  get_unlock, returned, broken, idle_threads,
}

abbrev pub bit : Bool → ℕ
bit true = 1
bit false = 0

pub bit_le : (b : Bool) → bit b ≤ 1
bit_le true = omega arith
bit_le false = omega arith

module _ {A : Type 0} where
  -- whether a thread is between `lock` and `unlock`
  abbrev pub holds : Pc A → ℕ
  holds (add_push f x) = 1
  holds add_release = 1
  holds add_unlock = 1
  holds get_front = 1
  holds (get_pop x) = 1
  holds (get_unlock x) = 1
  holds idle = 0
  holds (add_lock f x) = 0
  holds get_wait = 0
  holds get_lock = 0
  holds (returned x) = 0
  holds broken = 0

  -- whether an item is put aside for a thread: taken from the semaphore, or not yet given to it
  abbrev pub claims : Pc A → ℕ
  claims add_release = 1
  claims get_lock = 1
  claims get_front = 1
  claims (get_pop x) = 1
  claims idle = 0
  claims (add_lock f x) = 0
  claims (add_push f x) = 0
  claims add_unlock = 0
  claims get_wait = 0
  claims (get_unlock x) = 0
  claims (returned x) = 0
  claims broken = 0

  -- what a thread has read is still so: the item that it takes is the first
  abbrev pub Sound : List A → Pc A → Type 0
  Sound xs (get_pop x) = (rest : List A) × (xs ≡ x ∷ rest)
  Sound xs broken = ⊥
  Sound xs _ = Unit {0}

  abbrev pub AllSound : List A → List (Pc A) → Type 0
  AllSound xs [] = Unit {0}
  AllSound xs (p ∷ ps) = Sound xs p × AllSound xs ps

  pub AllSound-split :
      (xs : List A) (ps : List (Pc A)) (p : Pc A) (qs : List (Pc A))
      → AllSound xs (ps ++ p ∷ qs)
      → AllSound xs ps × Sound xs p × AllSound xs qs
  AllSound-split xs [] p qs (h, k) = (tt, h, k)
  AllSound-split xs (q ∷ ps) p qs (a, h) =
      let (b, c, d) = AllSound-split xs ps p qs h in ((a, b), c, d)

  pub AllSound-join :
      (xs : List A) (ps : List (Pc A)) (p : Pc A) (qs : List (Pc A))
      → AllSound xs ps
      → Sound xs p
      → AllSound xs qs
      → AllSound xs (ps ++ p ∷ qs)
  AllSound-join xs [] p qs a b c = (b, c)
  AllSound-join xs (q ∷ ps) p qs (h, a) b c = (h, AllSound-join xs ps p qs a b c)

  pub Sound-free : (xs ys : List A) (p : Pc A) → holds p ≡ 0 → Sound xs p → Sound ys p
  Sound-free xs ys (get_pop x) h s = absurd cc
  Sound-free xs ys broken h s = s
  Sound-free xs ys idle h s = tt
  Sound-free xs ys (add_lock f x) h s = tt
  Sound-free xs ys (add_push f x) h s = tt
  Sound-free xs ys add_release h s = tt
  Sound-free xs ys add_unlock h s = tt
  Sound-free xs ys get_wait h s = tt
  Sound-free xs ys get_lock h s = tt
  Sound-free xs ys get_front h s = tt
  Sound-free xs ys (get_unlock x) h s = tt
  Sound-free xs ys (returned x) h s = tt

  -- threads that do not hold the lock have read nothing that can change
  pub AllSound-free :
      (xs ys : List A) (ps : List (Pc A)) → total holds ps ≡ 0 → AllSound xs ps → AllSound ys ps
  AllSound-free xs ys [] h s = tt
  AllSound-free xs ys (p ∷ ps) h (a, b) =
      (Sound-free xs ys p (omega (arith, h)) a, AllSound-free xs ys ps (omega (arith, h)) b)

  pub total-idle_threads : (f : Pc A → ℕ) (n : ℕ) → f idle ≡ 0 → total f (idle_threads n) ≡ 0
  total-idle_threads f zero h = refl
  total-idle_threads f (suc n) h = omega (arith, h, total-idle_threads f n h)

  pub idle_threads-AllSound : (xs : List A) (n : ℕ) → AllSound xs (idle_threads n)
  idle_threads-AllSound xs zero = tt
  idle_threads-AllSound xs (suc n) = (tt, idle_threads-AllSound xs n)
