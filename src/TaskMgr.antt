-- ===== src/TaskMgr.antt =====
-- `TaskMgr` of Commen/TaskMgr.h over `ZSimpleLock`, `ZLockHolder` and `ZSemaphore` of
-- Commen/ZLock.h: a queue that threads share. A step is one access to the shared state.
pub mod Safety
pub mod Order
pub mod Wakeup
use online_judger.Common.{
  ℕ, zero, suc, Bool, true, false, List, [], ◌∷◌, ◌++◌, ◌≡◌, Option, none, some, ltb, if◌then◌else◌,
}

-- `m_pool`, the mark of `m_lock`, and the count of `m_semap`
pub record Shared (A : Type 0) : Type 0 where
  pub pool : List A
  pub mark : Bool
  pub count : ℕ

-- Where a thread stands in `add`, `addFront` or `get`; the flag of an adding thread says that it
-- adds in front. `broken` is the call of `front` on an empty list.
pub data Pc (A : Type 0) : Type 0 where
  idle : Pc A
  add_lock add_push : Bool → A → Pc A
  add_release add_unlock : Pc A
  get_wait get_lock get_front : Pc A
  get_pop get_unlock returned : A → Pc A
  broken : Pc A

-- a change of the list, by the thread that holds the lock
pub data Event (A : Type 0) : Type 0 where
  pushed : Bool → A → Event A
  popped : A → Event A

pub record System (A : Type 0) : Type 0 where
  pub shared : Shared A
  pub threads : List (Pc A)

abbrev pub max_count : ℕ
max_count = 32767

-- `ReleaseSemaphore` by one, which fails at the maximum
unfoldable pub release : ℕ → ℕ
release n = if ltb n max_count then suc n else n

module _ {A : Type 0} where
  abbrev pub push : Bool → A → List A → List A
  push true x xs = x ∷ xs
  push false x xs = xs ++ x ∷ []

  -- `InterlockedExchange(&m_mark, 1)`: the thread goes on if the mark was 0, and tries again if not
  unfoldable pub exchange : Pc A → Pc A → Shared A → Option (Event A) × Pc A × Shared A
  exchange here next s = if s.mark then (none, here, s) else (none, next, record s { mark = true })

  -- The step of a thread; none where the thread waits, or is not in a call.
  unfoldable pub advance : Pc A → Shared A → Option (Option (Event A) × Pc A × Shared A)
  unfolding exchange
  advance idle s = none
  advance (add_lock f x) s = some (exchange (add_lock f x) (add_push f x) s)
  advance (add_push f x) s =
      some (some (pushed f x), add_release, record s { pool = push f x s.pool })
  advance add_release s = some (none, add_unlock, record s { count = release s.count })
  advance add_unlock s = some (none, idle, record s { mark = false })
  advance get_wait s = elim s.count [
    | zero ↦ none
    | suc n ↦ some (none, get_lock, record s { count = n })
  ]
  advance get_lock s = some (exchange get_lock get_front s)
  advance get_front s = elim s.pool [
    | [] ↦ some (none, broken, s)
    | x ∷ xs ↦ some (none, get_pop x, s)
  ]
  advance (get_pop x) s = elim s.pool [
    | [] ↦ some (none, broken, s)
    | y ∷ ys ↦ some (some (popped x), get_unlock x, record s { pool = ys })
  ]
  advance (get_unlock x) s = some (none, returned x, record s { mark = false })
  advance (returned x) s = none
  advance broken s = none

  -- the calls that a thread can begin: `add`, `addFront` and `get`
  pub data Call : Pc A → Type 0 where
    add : (f : Bool) (x : A) → Call (add_lock f x)
    get : Call get_wait

  -- a step of the system, by one thread among the others
  pub data Step : System A → Option (Event A) → System A → Type 0 where
    begins :
        (s : Shared A) (before after : List (Pc A)) (p : Pc A)
        → Call p
        → Step
            (record { shared = s; threads = before ++ idle ∷ after })
            none
            (record { shared = s; threads = before ++ p ∷ after })
    ends :
        (s : Shared A) (before after : List (Pc A)) (x : A)
        → Step
            (record { shared = s; threads = before ++ returned x ∷ after })
            none
            (record { shared = s; threads = before ++ idle ∷ after })
    runs :
        (s s' : Shared A) (before after : List (Pc A)) (p p' : Pc A) (e : Option (Event A))
        → advance p s ≡ some (e, p', s')
        → Step
            (record { shared = s; threads = before ++ p ∷ after })
            e
            (record { shared = s'; threads = before ++ p' ∷ after })

  abbrev pub idle_threads : ℕ → List (Pc A)
  idle_threads zero = []
  idle_threads (suc n) = idle ∷ idle_threads n

  -- the constructor, with threads that are not in a call
  abbrev pub new_system : ℕ → System A
  new_system n = record {
    shared = record { pool = []; mark = false; count = 0 };
    threads = idle_threads n;
  }

  abbrev pub note : Option (Event A) → List (Event A) → List (Event A)
  note none es = es
  note (some e) es = es ++ e ∷ []

  -- the states that threads can come to from a new queue, with the changes of the list on the way
  pub data Reachable : List (Event A) → System A → Type 0 where
    fresh : (n : ℕ) → Reachable [] (new_system n)
    step :
        {es : List (Event A)} {s t : System A} (e : Option (Event A))
        → Reachable es s
        → Step s e t
        → Reachable (note e es) t
