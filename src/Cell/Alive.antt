-- ===== src/Cell/Alive.antt =====
-- The threads of a cell that have not ended, and what they hold.
use online_judger.Common.{
  ℕ, zero, suc, ◌≤◌, ◌≡◌, refl, ap, List, [], ◌∷◌, ◌++◌, none, some, arith, total,
}
use online_judger.Task.{Task}
use online_judger.Task.Data.{IsCoherent}
use online_judger.Cell.{Entry}
use online_judger.Cell.Worker.{AllCoherent}
use online_judger.Cell.Threads.{Thread, waiting, judging, ended, waiting_threads}

abbrev pub is_exit_entry : Entry → ℕ
is_exit_entry none = 1
is_exit_entry (some t) = 0

-- the threads whose loop has not ended, and those of them that judge
abbrev pub is_alive : Thread → ℕ
is_alive waiting = 1
is_alive (judging t) = 1
is_alive ended = 0

abbrev pub is_busy : Thread → ℕ
is_busy waiting = 0
is_busy (judging t) = 1
is_busy ended = 0

abbrev pub AllReady : List Thread → Type 0
AllReady [] = Unit {0}
AllReady (judging t ∷ ps) = IsCoherent t × AllReady ps
AllReady (_ ∷ ps) = AllReady ps

-- a thread that is alive, if there is one
pub data Search (ps : List Thread) : Type 0 where
  all_ended : total is_alive ps ≡ 0 → Search ps
  one_waits : (before after : List Thread) → ps ≡ before ++ waiting ∷ after → Search ps
  one_judges :
      (t : Task) (before after : List Thread)
      → IsCoherent t
      → ps ≡ before ++ judging t ∷ after
      → Search ps

Search-cons : (p : Thread) (ps : List Thread) → is_alive p ≡ 0 → Search ps → Search (p ∷ ps)
Search-cons p ps h (all_ended e) = all_ended (omega (arith, h, e))
Search-cons p ps h (one_waits before after e) = one_waits (p ∷ before) after (ap (◌∷◌ p) e)
Search-cons p ps h (one_judges t before after c e) =
    one_judges t (p ∷ before) after c (ap (◌∷◌ p) e)

pub find_alive : (ps : List Thread) → AllReady ps → Search ps
find_alive [] h = all_ended refl
find_alive (waiting ∷ ps) h = one_waits [] ps refl
find_alive (judging t ∷ ps) h = one_judges t [] ps h.0 refl
find_alive (ended ∷ ps) h = Search-cons ended ps refl (find_alive ps h)

pub AllReady-replace :
    (before : List Thread) (p q : Thread) (after : List Thread)
    → (AllReady (p ∷ after) → AllReady (q ∷ after))
    → AllReady (before ++ p ∷ after)
    → AllReady (before ++ q ∷ after)
AllReady-replace [] p q after f h = f h
AllReady-replace (waiting ∷ before) p q after f h = AllReady-replace before p q after f h
AllReady-replace (judging t ∷ before) p q after f h = (h.0, AllReady-replace before p q after f h.1)
AllReady-replace (ended ∷ before) p q after f h = AllReady-replace before p q after f h

pub AllReady-waiting_threads : (n : ℕ) → AllReady (waiting_threads n)
AllReady-waiting_threads zero = tt
AllReady-waiting_threads (suc n) = AllReady-waiting_threads n

pub AllCoherent-concat :
    (q : List Entry) (t : Task) → AllCoherent q → IsCoherent t → AllCoherent (q ++ some t ∷ [])
AllCoherent-concat [] t h c = (c, tt)
AllCoherent-concat (none ∷ q) t h c = AllCoherent-concat q t h c
AllCoherent-concat (some u ∷ q) t (k, h) c = (k, AllCoherent-concat q t h c)

pub alive-waiting_threads : (n : ℕ) → total is_alive (waiting_threads n) ≡ n
alive-waiting_threads zero = refl
alive-waiting_threads (suc n) = omega (arith, alive-waiting_threads n)

pub busy_le : (ps : List Thread) → total is_busy ps ≤ total is_alive ps
busy_le [] = omega arith
busy_le (waiting ∷ ps) = omega (arith, busy_le ps)
busy_le (judging t ∷ ps) = omega (arith, busy_le ps)
busy_le (ended ∷ ps) = omega (arith, busy_le ps)
