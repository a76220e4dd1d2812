-- ===== src/RefPtr/Counts.antt =====
-- That the counters are right.
use online_judger.Common.{
  ℕ, zero, suc, ◌+◌, ◌<◌, ◌≡◌, ◌⊎◌, refl, sym, ap, true, false, List, [], ◌∷◌, ◌++◌, Option, none,
  some, inl, inr, arith, ◌==◌, ==_iff, ==_self, if◌then◌else◌, Bool-cases,
}
use online_judger.Common.Int.{pos}
use online_judger.RefPtr.{
  Object, Heap, new_object, put, increment, add_ref, released, del_ref, same_ptr, assign, Store,
  Step, creates, declares, clears, copies, drops, swaps, Reachable, empty, step,
}

-- whether a pointer is to the object at `a`
abbrev pub refers : ℕ → Option ℕ → ℕ
refers a none = 0
refers a (some b) = if a == b then 1 else 0

-- how many of the variables are
abbrev pub refs : ℕ → List (Option ℕ) → ℕ
refs a [] = 0
refs a (p ∷ ps) = refers a p + refs a ps

-- The object is there exactly if a variable points to it, and then its counter says how many do.
abbrev pub Counted : ℕ → Object → Type 0
Counted zero o = o.alive ≡ false
Counted (suc n) o = (o.alive ≡ true) × (o.managed ≡ true) × (o.counter ≡ pos (suc n))

abbrev pub IsCounted : Store → Type 0
IsCounted s = (a : ℕ) → Counted (refs a s.vars) (s.heap a)

refs-append : (a : ℕ) (ps qs : List (Option ℕ)) → refs a (ps ++ qs) ≡ refs a ps + refs a qs
refs-append a [] qs = omega arith
refs-append a (p ∷ ps) qs = omega (arith, refs-append a ps qs)

increment-Counted :
    (n : ℕ) (o : Object)
    → 0 < n
    → Counted n o
    → Counted (suc n) (record o { counter = increment o.counter })
increment-Counted zero o h c = absurd (omega (arith, h))
increment-Counted (suc n) o h (alive, managed, counter) = (alive, managed, rw (counter) refl)

released-Counted : (n : ℕ) (o : Object) → Counted (suc n) o → Counted n (released o)
unfolding released
released-Counted zero o (alive, managed, counter) = rw (counter, managed) refl
released-Counted (suc n) o (alive, managed, counter) =
    (rw (counter) alive, managed, rw (counter) refl)

-- the pointer is to the object at `a`, or to none or another
refers-cases : (a : ℕ) (q : Option ℕ) → (q ≡ some a) ⊎ (refers a q ≡ 0)
refers-cases a none = inr refl
refers-cases a (some b) = elim (Bool-cases (a == b)) [
  | inl e ↦ let same : a ≡ b = (==_iff a b).0 e in inl (ap some (sym same))
  | inr e ↦ inr (rw (e) refl)
]

refers_self : (a : ℕ) → refers a (some a) ≡ 1
refers_self a = rw (==_self a) refl

add_ref_other : (a : ℕ) (q : Option ℕ) (h : Heap) → refers a q ≡ 0 → add_ref q h a ≡ h a
unfolding add_ref
add_ref_other a none h e = refl
add_ref_other a (some b) h e = elim (Bool-cases (a == b)) [
  | inl f ↦ absurd (ground (arith, e, f))
  | inr f ↦ rw (f) refl
]

del_ref_other : (a : ℕ) (q : Option ℕ) (h : Heap) → refers a q ≡ 0 → del_ref q h a ≡ h a
unfolding del_ref
del_ref_other a none h e = refl
del_ref_other a (some b) h e = elim (Bool-cases (a == b)) [
  | inl f ↦ absurd (ground (arith, e, f))
  | inr f ↦ rw (f) refl
]

add_ref_self :
    (a : ℕ) (h : Heap) → add_ref (some a) h a ≡ record (h a) { counter = increment (h a).counter }
unfolding add_ref
add_ref_self a h = rw (==_self a) refl

del_ref_self : (a : ℕ) (h : Heap) → del_ref (some a) h a ≡ released (h a)
unfolding del_ref
del_ref_self a h = rw (==_self a) refl

recount : {n m : ℕ} {o u : Object} → n ≡ m → o ≡ u → Counted n o → Counted m u
recount e f c = rw e at (rw f at c)

-- one pointer more, to an object that is there
add_ref-Counted :
    (a : ℕ) (q : Option ℕ) (n : ℕ) (h : Heap)
    → (refers a q ≡ 0) ⊎ (0 < n)
    → Counted n (h a)
    → Counted (n + refers a q) (add_ref q h a)
add_ref-Counted a q n h live c = elim (refers-cases a q) [
  | inr e ↦ recount (omega (arith, e)) (sym (add_ref_other a q h e)) c
  | inl e ↦
      let many : 0 < n = ground (arith, live, e, refers_self a) in
      rw (e) (
        recount {n = suc n} (omega (arith, refers_self a)) (sym (add_ref_self a h))
          (increment-Counted n (h a) many c))
]

-- one pointer less
del_ref-Counted :
    (a : ℕ) (q : Option ℕ) (n : ℕ) (h : Heap)
    → Counted (n + refers a q) (h a)
    → Counted n (del_ref q h a)
del_ref-Counted a q n h c = elim (refers-cases a q) [
  | inr e ↦ recount (omega (arith, e)) (sym (del_ref_other a q h e)) c
  | inl e ↦
      let c' : Counted (n + refers a (some a)) (h a) = rw e at c in
      rw (e) (
        recount refl (sym (del_ref_self a h))
          (released-Counted n (h a) (recount {m = suc n} (omega (arith, refers_self a)) refl c')))
]

same_ptr_eq : (p q : Option ℕ) → same_ptr p q ≡ true → p ≡ q
same_ptr_eq none none e = refl
same_ptr_eq none (some b) e = absurd cc
same_ptr_eq (some a) none e = absurd cc
same_ptr_eq (some a) (some b) e = ap some ((==_iff a b).0 e)

assign-Counted :
    (a : ℕ) (old q : Option ℕ) (n : ℕ) (h : Heap)
    → (refers a q ≡ 0) ⊎ (0 < n)
    → Counted (n + refers a old) (h a)
    → Counted (n + refers a q) (assign old q h a)
unfolding assign
assign-Counted a old q n h live c = elim (Bool-cases (same_ptr q old)) [
  | inl e ↦ rw (e) (rw (same_ptr_eq q old e) c)
  | inr e ↦ rw (e) (add_ref-Counted a q n (del_ref old h) live (del_ref-Counted a old n h c))
]

-- a variable that holds the pointer keeps its object there
held : (a : ℕ) (q : Option ℕ) (n : ℕ) → (refers a q ≡ 0) ⊎ (0 < refers a q + n)
held a q n = elim (refers-cases a q) [
  | inr e ↦ inl e
  | inl e ↦ inr (rw (e) (omega (arith, refers_self a)))
]

free_address : (a n : ℕ) (o : Object) → o.alive ≡ false → Counted n o → n ≡ 0
free_address a zero o e c = refl
free_address a (suc n) o e (alive, _, _) = absurd cc

create-Counted :
    (a b n : ℕ) (h : Heap)
    → (h b).alive ≡ false
    → Counted n (h a)
    → Counted (refers a (some b) + n) (assign none (some b) (put b new_object h) a)
unfolding assign add_ref del_ref
create-Counted a b n h free c = elim (Bool-cases (a == b)) [
  | inl e ↦
      let same : a ≡ b = (==_iff a b).0 e in
      let none_yet : n ≡ 0 = free_address a n (h a) (rw (same) free) c in
      rw (none_yet, e) (rw (==_self b) (refl, refl, refl))
  | inr e ↦ rw (e) (recount {n = n} (omega arith) refl c)
]

Step-IsCounted : {s t : Store} → Step s t → IsCounted s → IsCounted t
Step-IsCounted (creates h vars b free) i a = create-Counted a b (refs a vars) h free (i a)
Step-IsCounted (declares h before after q) i a =
    let split = refs-append a before (q ∷ after) in
    recount {n = refs a (before ++ q ∷ after) + refers a q} (omega arith) refl (
      assign-Counted a none q (refs a (before ++ q ∷ after)) h
        (rw split (held_in a q (refs a before) (refs a after)))
        (recount {n = refs a (before ++ q ∷ after)} (omega arith) refl (i a)))
  where
    held_in : (a : ℕ) (q : Option ℕ) (n m : ℕ) → (refers a q ≡ 0) ⊎ (0 < n + (refers a q + m))
    held_in a q n m = ground (arith, held a q m)
Step-IsCounted (clears h before after p) i a =
    recount {n = refs a before + refs a after + 0}
      (omega (arith, refs-append a before (none ∷ after))) refl
      (assign-Counted a p none (refs a before + refs a after) h (inl refl) (
        recount {n = refs a (before ++ p ∷ after)} (omega (arith, refs-append a before (p ∷ after)))
          refl (i a)))
Step-IsCounted (copies h q before after p) i a =
    let n = refs a before + refs a after in
    recount {n = refers a q + n + refers a q} (omega (arith, refs-append a before (q ∷ after))) refl
      (assign-Counted a p q (refers a q + n) h (held a q n) (
        recount {n = refers a q + refs a (before ++ p ∷ after)}
          (omega (arith, refs-append a before (p ∷ after))) refl (i a)))
Step-IsCounted (drops h before after p) i a =
    recount {n = refs a before + refs a after} (omega (arith, refs-append a before after)) refl (
      del_ref-Counted a p (refs a before + refs a after) h (
        recount {n = refs a (before ++ p ∷ after)} (omega (arith, refs-append a before (p ∷ after)))
          refl (i a)))
Step-IsCounted (swaps h before after p q) i a =
    recount {n = refs a (before ++ p ∷ q ∷ after)}
      (omega (arith, refs-append a before (p ∷ q ∷ after), refs-append a before (q ∷ p ∷ after)))
      refl (i a)

-- Let a program, from a store without objects on, create, copy, assign and drop smart pointers to
-- objects that have none among their own members, as one thread. An object is there exactly as long as
-- a smart pointer to it is, so that none is used after it is deleted and none is forgotten, and its
-- counter is the number of the smart pointers to it.
pub Reachable-IsCounted : (s : Store) → Reachable s → IsCounted s
Reachable-IsCounted _ (empty h dead) a = dead a
Reachable-IsCounted _ (step {s} r one) a = Step-IsCounted one (Reachable-IsCounted s r) a
