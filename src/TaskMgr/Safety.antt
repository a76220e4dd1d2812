-- ===== src/TaskMgr/Safety.antt =====
-- Mutual exclusion, and that `get` finds an item, in every state that threads can come to.
mod Threads
mod Local
pub use Threads.*
pub use Local.*
use online_judger.Common.{
  ℕ, zero, suc, ◌+◌, ◌≤◌, ◌≡◌, ◌⊎◌, refl, Bool, true, false, List, [], ◌∷◌, ◌++◌, Option, none,
  some, inl, inr, arith, length, total, total-append,
}
use online_judger.TaskMgr.{
  Shared, Pc, idle, add_lock, add_push, add_release, add_unlock, get_wait, get_lock, get_front,
  get_pop, get_unlock, returned, broken, Event, System, release, advance, exchange, push, add, get,
  Step, begins, ends, runs, Reachable, fresh, step, idle_threads,
}

module _ {A : Type 0} where
  -- The mark says how many threads hold the lock, there are items for all that are put aside and for
  -- the count of the semaphore, and what threads have read still holds.
  pub record IsSafe (s : System A) : Type 0 where
    pub excludes : total holds s.threads ≡ bit s.shared.mark
    pub covered : s.shared.count + total claims s.threads ≤ length s.shared.pool
    pub sound : AllSound s.shared.pool s.threads

  -- a thread that changes its place among the others, and nothing else
  replaced :
      (s : Shared A) (before after : List (Pc A)) (p q : Pc A)
      → holds q ≡ holds p
      → claims q ≡ claims p
      → Sound s.pool q
      → IsSafe (record { shared = s; threads = before ++ p ∷ after })
      → IsSafe (record { shared = s; threads = before ++ q ∷ after })
  replaced s before after p q h c sound i =
      let (a, _, b) = AllSound-split s.pool before p after i.sound in
      record {
        excludes = omega (
          arith,
          h,
          i.excludes,
          total-append holds before (p ∷ after),
          total-append holds before (q ∷ after),
        );
        covered = omega (
          arith,
          c,
          i.covered,
          total-append claims before (p ∷ after),
          total-append claims before (q ∷ after),
        );
        sound = AllSound-join s.pool before q after a sound b;
      }

  pub Step-IsSafe : {s t : System A} {e : Option (Event A)} → Step s e t → IsSafe s → IsSafe t
  Step-IsSafe (begins s before after _ (add f x)) i =
      replaced s before after idle (add_lock f x) refl refl tt i
  Step-IsSafe (begins s before after _ get) i = replaced s before after idle get_wait refl refl tt i
  Step-IsSafe (ends s before after x) i = replaced s before after (returned x) idle refl refl tt i
  Step-IsSafe (runs s s' before after p p' e a) i =
      let (sb, sp, sa) = AllSound-split s.pool before p after i.sound in
      let hs = total-append holds before (p ∷ after) in
      let cs = total-append claims before (p ∷ after) in
      let bound : holds p ≤ bit s.mark = omega (arith, hs, i.excludes) in
      let st = advance-Steps s s' p p' e (omega (arith, cs, i.covered)) sp bound a in
      let locked =
        st.locks (total holds before + total holds after) (omega (arith, hs, i.excludes)) in
      let covered =
        st.covers (total claims before + total claims after) (omega (arith, cs, i.covered)) in
      record {
        excludes = omega (arith, locked, total-append holds before (p' ∷ after));
        covered = omega (arith, covered, total-append claims before (p' ∷ after));
        sound = elim st.stays [
          | inl same ↦ AllSound-join s'.pool before p' after (rw (same) sb) st.reads (rw (same) sa)
          | inr one ↦
              let at_most : bit s.mark ≤ 1 = bit_le s.mark in
              AllSound-join s'.pool before p' after
                (AllSound-free s.pool s'.pool before (omega (arith, hs, i.excludes, one, at_most))
                  sb)
                st.reads
                (AllSound-free s.pool s'.pool after (omega (arith, hs, i.excludes, one, at_most))
                  sa)
        ];
      }

  -- In every state that threads can come to from a new queue, whatever calls of `add`, `addFront` and
  -- `get` they make: exactly one thread is between `lock` and `unlock` if the mark is set, and none
  -- if not; there is an item in the list for every thread that the semaphore let pass, so that no
  -- thread calls `front` on an empty list; and the item that a thread has read is still the first
  -- when it takes it from the list.
  pub Reachable-IsSafe : (es : List (Event A)) (s : System A) → Reachable es s → IsSafe s
  Reachable-IsSafe _ _ (fresh n) = record {
    excludes = total-idle_threads holds n refl;
    covered = omega (arith, total-idle_threads claims n refl);
    sound = idle_threads-AllSound [] n;
  }
  Reachable-IsSafe _ _ (step {es} {s} e r one) = Step-IsSafe one (Reachable-IsSafe es s r)
