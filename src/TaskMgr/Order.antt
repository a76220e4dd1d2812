-- ===== src/TaskMgr/Order.antt =====
-- The changes of the list as the history of a sequential queue.
use online_judger.Common.{
  ℕ, zero, suc, ◌≡◌, ◌∙◌, refl, sym, ap, Bool, true, false, List, [], ◌∷◌, ◌++◌, Option, none, some,
  append_assoc, append-nil,
}
use online_judger.TaskMgr.{
  Shared, Pc, idle, add_lock, add_push, add_release, add_unlock, get_wait, get_lock, get_front,
  get_pop, get_unlock, returned, broken, Event, pushed, popped, System, advance, exchange, push,
  note, Step, begins, ends, runs, Reachable, fresh, step,
}
use online_judger.TaskMgr.Safety.{Sound, AllSound-split, IsSafe, Reachable-IsSafe, shared}

module _ {A : Type 0} where
  -- the histories of a sequential queue, and what is in it: an item is put at an end, and the first
  -- is taken
  pub data Replays : List (Event A) → List A → Type 0 where
    new : Replays [] []
    put :
        {es : List (Event A)} {xs : List A} (f : Bool) (x : A)
        → Replays es xs
        → Replays (es ++ pushed f x ∷ []) (push f x xs)
    take_first :
        {es : List (Event A)} {xs : List A} (x : A)
        → Replays es (x ∷ xs)
        → Replays (es ++ popped x ∷ []) xs

  abbrev Noted : List (Event A) → Option (Option (Event A) × Pc A × Shared A) → Type 0
  Noted es none = Unit {0}
  Noted es (some (e, p', s')) = Replays (note e es) s'.pool

  advance-Noted :
      (es : List (Event A)) (xs : List A) (m : Bool) (n : ℕ) (p : Pc A)
      → Sound xs p
      → Replays es xs
      → Noted es (advance p (shared xs m n))
  unfolding advance exchange
  advance-Noted es xs m n idle h r = tt
  advance-Noted es xs true n (add_lock f x) h r = r
  advance-Noted es xs false n (add_lock f x) h r = r
  advance-Noted es xs m n (add_push f x) h r = put f x r
  advance-Noted es xs m n add_release h r = r
  advance-Noted es xs m n add_unlock h r = r
  advance-Noted es xs m zero get_wait h r = tt
  advance-Noted es xs m (suc n) get_wait h r = r
  advance-Noted es xs true n get_lock h r = r
  advance-Noted es xs false n get_lock h r = r
  advance-Noted es [] m n get_front h r = r
  advance-Noted es (x ∷ xs) m n get_front h r = r
  advance-Noted es [] m n (get_pop x) h r = r
  advance-Noted es (y ∷ xs) m n (get_pop x) (rest, h) r =
      let same : y ≡ x = cc in take_first x (rw same at r)
  advance-Noted es xs m n (get_unlock x) h r = r
  advance-Noted es xs m n (returned x) h r = tt
  advance-Noted es xs m n broken h r = tt

  Step-Replays :
      {s t : System A} {e : Option (Event A)} (es : List (Event A))
      → Step s e t
      → IsSafe s
      → Replays es s.shared.pool
      → Replays (note e es) t.shared.pool
  Step-Replays es (begins s before after p c) i r = r
  Step-Replays es (ends s before after x) i r = r
  Step-Replays es (runs s s' before after p p' e a) i r =
      let (_, sound, _) = AllSound-split s.pool before p after i.sound in
      rw a at (advance-Noted es s.pool s.mark s.count p sound r)

  -- However the threads interleave, the changes that they make to the list are, in their order, a
  -- history of a sequential queue, and the list holds what is then in that queue.
  pub Reachable-Replays :
      (es : List (Event A)) (s : System A) → Reachable es s → Replays es s.shared.pool
  Reachable-Replays _ _ (fresh n) = new
  Reachable-Replays _ _ (step {es} {s} e r one) =
      Step-Replays es one (Reachable-IsSafe es s r) (Reachable-Replays es s r)

  -- the items of a history that were put at the back, and those that were taken
  abbrev pub added : List (Event A) → List A
  added [] = []
  added (pushed f x ∷ es) = x ∷ added es
  added (popped x ∷ es) = added es

  abbrev pub taken : List (Event A) → List A
  taken [] = []
  taken (pushed f x ∷ es) = taken es
  taken (popped x ∷ es) = x ∷ taken es

  -- no item was put in front
  abbrev pub OnlyAdds : List (Event A) → Type 0
  OnlyAdds [] = Unit {0}
  OnlyAdds (pushed f x ∷ es) = (f ≡ false) × OnlyAdds es
  OnlyAdds (popped x ∷ es) = OnlyAdds es

  OnlyAdds-snoc :
      (es : List (Event A)) (e : Event A)
      → OnlyAdds (es ++ e ∷ [])
      → OnlyAdds es × OnlyAdds (e ∷ [])
  OnlyAdds-snoc [] e h = (tt, h)
  OnlyAdds-snoc (pushed f x ∷ es) e (a, h) = let (b, c) = OnlyAdds-snoc es e h in ((a, b), c)
  OnlyAdds-snoc (popped x ∷ es) e h = OnlyAdds-snoc es e h

  added-append : (es fs : List (Event A)) → added (es ++ fs) ≡ added es ++ added fs
  added-append [] fs = refl
  added-append (pushed f x ∷ es) fs = ap (◌∷◌ x) (added-append es fs)
  added-append (popped x ∷ es) fs = added-append es fs

  taken-append : (es fs : List (Event A)) → taken (es ++ fs) ≡ taken es ++ taken fs
  taken-append [] fs = refl
  taken-append (pushed f x ∷ es) fs = taken-append es fs
  taken-append (popped x ∷ es) fs = ap (◌∷◌ x) (taken-append es fs)

  Replays-added :
      (es : List (Event A)) (xs : List A) → Replays es xs → OnlyAdds es → added es ≡ taken es ++ xs
  Replays-added _ _ new h = refl
  Replays-added _ _ (put {es} {xs} true x r) h =
      let (_, (bad, _)) = OnlyAdds-snoc es (pushed true x) h in absurd cc
  Replays-added _ _ (put {es} {xs} false x r) h =
      let (before, _) = OnlyAdds-snoc es (pushed false x) h in
      added-append es (pushed false x ∷ [])
      ∙ (ap (λ ys. ys ++ x ∷ []) (Replays-added es xs r before)
          ∙ (append_assoc (taken es) xs (x ∷ [])
              ∙ ap (λ ys. ys ++ (xs ++ x ∷ []))
                  (sym (taken-append es (pushed false x ∷ []) ∙ append-nil (taken es)))))
  Replays-added _ xs (take_first {es} x r) h =
      let (before, _) = OnlyAdds-snoc es (popped x) h in
      added-append es (popped x ∷ [])
      ∙ (append-nil (added es)
          ∙ (Replays-added es (x ∷ xs) r before
              ∙ (sym (append_assoc (taken es) (x ∷ []) xs)
                  ∙ ap (λ ys. ys ++ xs) (sym (taken-append es (popped x ∷ []))))))

  -- As long as threads only call `add` and `get`, the items are taken in the order in which they were
  -- added: those taken, followed by those in the list, are those added.
  pub Reachable_fifo :
      (es : List (Event A)) (s : System A)
      → Reachable es s
      → OnlyAdds es
      → added es ≡ taken es ++ s.shared.pool
  Reachable_fifo es s r h = Replays-added es s.shared.pool (Reachable-Replays es s r) h
