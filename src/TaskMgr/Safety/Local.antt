-- ===== src/TaskMgr/Safety/Local.antt =====
-- What a step of one thread does.
use online_judger.Common.{
  ℕ, zero, suc, ◌+◌, ◌≤◌, ◌≡◌, ◌⊎◌, refl, Bool, true, false, List, [], ◌∷◌, ◌++◌, Option, none,
  some, inl, inr, arith, length,
}
use online_judger.TaskMgr.{
  Shared, Pc, idle, add_lock, add_push, add_release, add_unlock, get_wait, get_lock, get_front,
  get_pop, get_unlock, returned, broken, Event, release, advance, exchange, push,
}
use online_judger.TaskMgr.Safety.Threads.{bit, holds, claims, Sound}

release_le : (n : ℕ) → release n ≤ suc n
unfolding release
release_le n = ground arith

module _ {A : Type 0} where
  -- what a step of one thread does, by the lock and the items of the others
  pub record Steps (s : Shared A) (p : Pc A) (s' : Shared A) (p' : Pc A) : Type 0 where
    pub locks : (others : ℕ) → others + holds p ≡ bit s.mark → others + holds p' ≡ bit s'.mark
    pub covers :
        (others : ℕ)
        → s.count + (others + claims p) ≤ length s.pool
        → s'.count + (others + claims p') ≤ length s'.pool
    pub stays : (s'.pool ≡ s.pool) ⊎ (holds p ≡ 1)
    pub reads : Sound s'.pool p'

  length-snoc : (xs : List A) (x : A) → length (xs ++ x ∷ []) ≡ suc (length xs)
  length-snoc [] x = refl
  length-snoc (y ∷ xs) x = omega (arith, length-snoc xs x)

  pub length-push : (f : Bool) (x : A) (xs : List A) → length (push f x xs) ≡ suc (length xs)
  length-push true x xs = refl
  length-push false x xs = length-snoc xs x

  abbrev pub shared : List A → Bool → ℕ → Shared A
  shared xs m n = record { pool = xs; mark = m; count = n }

  abbrev StepsTo : Shared A → Pc A → Option (Option (Event A) × Pc A × Shared A) → Type 0
  StepsTo s p none = Unit {0}
  StepsTo s p (some (e, p', s')) = Steps s p s' p'

  advance-StepsTo :
      (xs : List A) (m : Bool) (n : ℕ) (p : Pc A)
      → n + claims p ≤ length xs
      → Sound xs p
      → holds p ≤ bit m
      → StepsTo (shared xs m n) p (advance p (shared xs m n))
  unfolding advance exchange
  advance-StepsTo xs m n idle c h l = tt
  advance-StepsTo xs true n (add_lock f x) c h l = record {
    locks = λ o e. e;
    covers = λ o e. e;
    stays = inl refl;
    reads = tt;
  }
  advance-StepsTo xs false n (add_lock f x) c h l = record {
    locks = λ o e. omega (arith, e);
    covers = λ o e. e;
    stays = inl refl;
    reads = tt;
  }
  advance-StepsTo xs m n (add_push f x) c h l = record {
    locks = λ o e. e;
    covers = λ o e. omega (arith, e, length-push f x xs);
    stays = inr refl;
    reads = tt;
  }
  advance-StepsTo xs m n add_release c h l = record {
    locks = λ o e. e;
    covers = λ o e. omega (arith, e, release_le n);
    stays = inl refl;
    reads = tt;
  }
  advance-StepsTo xs true n add_unlock c h l = record {
    locks = λ o e. omega (arith, e);
    covers = λ o e. e;
    stays = inl refl;
    reads = tt;
  }
  advance-StepsTo xs false n add_unlock c h l = absurd (omega (arith, l))
  advance-StepsTo xs m zero get_wait c h l = tt
  advance-StepsTo xs m (suc n) get_wait c h l = record {
    locks = λ o e. e;
    covers = λ o e. omega (arith, e);
    stays = inl refl;
    reads = tt;
  }
  advance-StepsTo xs true n get_lock c h l = record {
    locks = λ o e. e;
    covers = λ o e. e;
    stays = inl refl;
    reads = tt;
  }
  advance-StepsTo xs false n get_lock c h l = record {
    locks = λ o e. omega (arith, e);
    covers = λ o e. e;
    stays = inl refl;
    reads = tt;
  }
  advance-StepsTo [] m n get_front c h l = absurd (omega (arith, c))
  advance-StepsTo (x ∷ xs) m n get_front c h l = record {
    locks = λ o e. e;
    covers = λ o e. e;
    stays = inl refl;
    reads = (xs, refl);
  }
  advance-StepsTo [] m n (get_pop x) c h l = absurd (omega (arith, c))
  advance-StepsTo (y ∷ xs) m n (get_pop x) c h l = record {
    locks = λ o e. e;
    covers = λ o e. omega (arith, e);
    stays = inr refl;
    reads = tt;
  }
  advance-StepsTo xs true n (get_unlock x) c h l = record {
    locks = λ o e. omega (arith, e);
    covers = λ o e. e;
    stays = inl refl;
    reads = tt;
  }
  advance-StepsTo xs false n (get_unlock x) c h l = absurd (omega (arith, l))
  advance-StepsTo xs m n (returned x) c h l = tt
  advance-StepsTo xs m n broken c h l = tt

  pub advance-Steps :
      (s s' : Shared A) (p p' : Pc A) (e : Option (Event A))
      → s.count + claims p ≤ length s.pool
      → Sound s.pool p
      → holds p ≤ bit s.mark
      → advance p s ≡ some (e, p', s')
      → Steps s p s' p'
  advance-Steps s s' p p' e c h l a = rw a at (advance-StepsTo s.pool s.mark s.count p c h l)
