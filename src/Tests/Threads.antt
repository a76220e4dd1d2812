-- ===== src/Tests/Threads.antt =====
-- One thread that adds an item to a queue.
use online_judger.Common.{ℕ, ◌≢◌, refl, Bool, true, false, List, [], ◌∷◌, none, some, arith}
use online_judger.TaskMgr.{
  Pc, idle, add_lock, add_push, add_release, add_unlock, get_wait, Event, pushed, System, advance,
  exchange, release, add, begins, runs, Reachable, fresh, step,
}
use online_judger.TaskMgr.Safety.{IsSafe, Reachable-IsSafe}
use online_judger.TaskMgr.Order.{Replays, Reachable-Replays}
use online_judger.TaskMgr.Wakeup.{get_wait_wakes}

abbrev at : Pc ℕ → List ℕ → Bool → ℕ → System ℕ
at p xs m n = record { shared = record { pool = xs; mark = m; count = n }; threads = p ∷ [] }

abbrev one_item : List ℕ
one_item = 7 ∷ []

abbrev one_event : List (Event ℕ)
one_event = pushed false 7 ∷ []

begun : Reachable [] (at (add_lock false 7) [] false 0)
begun =
    step none (fresh 1) (begins (at idle [] false 0).shared [] [] (add_lock false 7) (add false 7))

locked : Reachable [] (at (add_push false 7) [] true 0)
unfolding advance exchange
locked = step none begun (
    runs (at idle [] false 0).shared (at idle [] true 0).shared [] [] (add_lock false 7)
      (add_push false 7) none refl)

pushed_one : Reachable one_event (at add_release one_item true 0)
unfolding advance exchange
pushed_one = step (some (pushed false 7)) locked (
    runs (at idle [] true 0).shared (at idle one_item true 0).shared [] [] (add_push false 7)
      add_release (some (pushed false 7)) refl)

released : Reachable one_event (at add_unlock one_item true 1)
unfolding advance exchange release
released = step none pushed_one (
    runs (at idle one_item true 0).shared (at idle one_item true 1).shared [] [] add_release
      add_unlock none refl)

Reachable-IsSafe_example : IsSafe (at add_release one_item true 0)
Reachable-IsSafe_example = Reachable-IsSafe one_event (at add_release one_item true 0) pushed_one

Reachable-Replays_example : Replays one_event one_item
Reachable-Replays_example = Reachable-Replays one_event (at add_release one_item true 0) pushed_one

get_wait_wakes_example : advance get_wait (at add_unlock one_item true 1).shared ≢ none
unfolding advance exchange release released pushed_one locked begun
get_wait_wakes_example =
    get_wait_wakes one_event (at add_unlock one_item true 1) released
      ((((((tt, omega arith), omega arith), omega arith)), omega arith)) refl (λ e. absurd cc)
