-- ===== src/RefPtr.antt =====
-- `IBase` and `RefPtr` of Commen/RefPtr.h: objects that count the smart pointers to them. An object is
-- reached by its address. The objects here have no smart pointers among their members: `delete this`
-- would run the destructors of these inside `delRef`, which is not modelled. A step is a whole operation:
-- the counters are not atomic, and threads that share a pointer are not modelled.
pub mod Counts
use online_judger.Common.{
  ℕ, zero, suc, ◌≡◌, Bool, true, false, ◌&&◌, List, [], ◌∷◌, ◌++◌, Option, none, some, ◌==◌,
  if◌then◌else◌,
}
use online_judger.Common.Int.{ℤ, pos, negsuc}

-- `m_nRefCounter_` and `m_bManaged_`, and whether the object is there
pub record Object : Type 0 where
  pub counter : ℤ
  pub managed : Bool
  pub alive : Bool

abbrev pub Heap : Type 0
Heap = ℕ → Object

-- `IBase::IBase`
abbrev pub new_object : Object
new_object = record { counter = pos 0; managed = true; alive = true }

abbrev pub put : ℕ → Object → Heap → Heap
put a o h b = if b == a then o else h b

abbrev pub increment : ℤ → ℤ
increment (pos n) = pos (suc n)
increment (negsuc zero) = pos 0
increment (negsuc (suc n)) = negsuc n

abbrev pub decrement : ℤ → ℤ
decrement (pos zero) = negsuc 0
decrement (pos (suc n)) = pos n
decrement (negsuc n) = negsuc (suc n)

-- `m_nRefCounter_ <= 0`
abbrev pub not_positive : ℤ → Bool
not_positive (pos zero) = true
not_positive (pos (suc n)) = false
not_positive (negsuc n) = true

-- `addRef`, on the object of a pointer that may be NULL
pub add_ref : Option ℕ → Heap → Heap
add_ref none h = h
add_ref (some a) h = put a (record (h a) { counter = increment (h a).counter }) h

-- `delRef`, which ends in `delete this`, on an object that has no smart pointers among its members
pub released : Object → Object
released o =
    let n = decrement o.counter in
    record o { counter = n; alive = if not_positive n && o.managed then false else o.alive }

pub del_ref : Option ℕ → Heap → Heap
unfolding released
del_ref none h = h
del_ref (some a) h = put a (released (h a)) h

abbrev pub same_ptr : Option ℕ → Option ℕ → Bool
same_ptr none none = true
same_ptr none (some b) = false
same_ptr (some a) none = false
same_ptr (some a) (some b) = a == b

-- `operator=(T*)`, on a variable that holds `old`, for objects without such members
pub assign : Option ℕ → Option ℕ → Heap → Heap
unfolding add_ref del_ref
assign old ptr h = if same_ptr ptr old then h else add_ref ptr (del_ref old h)

-- the heap, and what the smart pointers hold
pub record Store : Type 0 where
  pub heap : Heap
  pub vars : List (Option ℕ)

-- What a program does with smart pointers. A pointer that is assigned is NULL, or one that a variable
-- holds.
pub data Step : Store → Store → Type 0 where
  -- `RefPtr<T> p(new T)`, at an address that is free
  creates :
      (h : Heap) (vars : List (Option ℕ)) (a : ℕ)
      → (h a).alive ≡ false
      → Step
          (record { heap = h; vars = vars })
          (record { heap = assign none (some a) (put a new_object h); vars = some a ∷ vars })
  -- `RefPtr<T> p`, `RefPtr<T> p(q)`
  declares :
      (h : Heap) (before after : List (Option ℕ)) (q : Option ℕ)
      → Step
          (record { heap = h; vars = before ++ q ∷ after })
          (record { heap = assign none q h; vars = q ∷ (before ++ q ∷ after) })
  clears :
      (h : Heap) (before after : List (Option ℕ)) (p : Option ℕ)
      → Step
          (record { heap = h; vars = before ++ p ∷ after })
          (record { heap = assign p none h; vars = before ++ none ∷ after })
  -- `p = q`, where `q` is the variable in front
  copies :
      (h : Heap) (q : Option ℕ) (before after : List (Option ℕ)) (p : Option ℕ)
      → Step
          (record { heap = h; vars = q ∷ (before ++ p ∷ after) })
          (record { heap = assign p q h; vars = q ∷ (before ++ q ∷ after) })
  -- `~RefPtr`
  drops :
      (h : Heap) (before after : List (Option ℕ)) (p : Option ℕ)
      → Step
          (record { heap = h; vars = before ++ p ∷ after })
          (record { heap = del_ref p h; vars = before ++ after })
  -- the variables have no order
  swaps :
      (h : Heap) (before after : List (Option ℕ)) (p q : Option ℕ)
      → Step
          (record { heap = h; vars = before ++ p ∷ q ∷ after })
          (record { heap = h; vars = before ++ q ∷ p ∷ after })

-- the stores that a program comes to from one without objects
pub data Reachable : Store → Type 0 where
  empty :
      (h : Heap)
      → ((a : ℕ) → (h a).alive ≡ false)
      → Reachable (record { heap = h; vars = none ∷ [] })
  step : {s t : Store} → Reachable s → Step s t → Reachable t
