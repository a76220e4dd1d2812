-- ===== src/LzData/Walk/Lookup.antt =====
-- The first child with a tag, and how the changes of a list of children change it.
use online_judger.Common.{
  ℕ, zero, suc, ◌≡◌, refl, true, false, Option, none, some, arith, if◌then◌else◌, Bytes, bytes_eq,
}
use online_judger.LzData.{
  Node, Children, nil, cons, tag, get_child, set_child, push_back, find_from, find_child,
}

unfoldable pub lookup : Bytes → Children → Option Node
lookup t nil = none
lookup t (cons n ns) = if bytes_eq (tag n) t then some n else lookup t ns

find_from-suc :
    (i : ℕ) (t : Bytes) (ns : Children)
    → find_from (suc i) t ns ≡ (elim (find_from i t ns) [ none ↦ none | some j ↦ some (suc j) ])
unfolding find_from
find_from-suc i t nil = refl
find_from-suc i t (cons n ns) = ground (arith, find_from-suc (suc i) t ns)

find_child_lem : (t : Bytes) (ns : Children) → find_child t ns ≡ find_from 0 t ns
unfolding find_child
find_child_lem t nil = refl
find_child_lem t (cons n ns) = ground arith

-- one step of the search
pub find_child-cons :
    (t : Bytes) (n : Node) (ns : Children)
    → find_child t (cons n ns) ≡ (
        if bytes_eq (tag n) t
        then some 0
        else (elim (find_child t ns) [ none ↦ none | some j ↦ some (suc j) ]))
find_child-cons t n ns =
    rw (find_child_lem t (cons n ns), find_child_lem t ns)
      (unfold find_from in ground (arith, find_from-suc 0 t ns))

pub find_child-nil : (t : Bytes) → find_child t nil ≡ none
unfolding find_child
find_child-nil t = refl

pub lookup_lem :
    (t : Bytes) (ns : Children)
    → lookup t ns ≡ (elim (find_child t ns) [ none ↦ none | some i ↦ get_child ns i ])
unfolding lookup
lookup_lem t nil = rw (find_child-nil t)
lookup_lem t (cons n ns) = ground (arith, find_child-cons t n ns, lookup_lem t ns)

pub get_child-found :
    (t : Bytes) (ns : Children) (i : ℕ)
    → find_child t ns ≡ some i
    → (n : Node) × (get_child ns i ≡ some n) × (bytes_eq (tag n) t ≡ true)
get_child-found t nil i e = absurd (ground (arith, find_child-nil t))
get_child-found t (cons n ns) zero e = (n, refl, ground (arith, find_child-cons t n ns))
get_child-found t (cons n ns) (suc i) e =
    get_child-found t ns i (ground (arith, find_child-cons t n ns))

-- a new child at the end
pub lookup-push_back :
    (t : Bytes) (ns : Children) (m : Node)
    → lookup t (push_back ns m) ≡ (elim (find_child t ns) [
      | none ↦ if bytes_eq (tag m) t then some m else none
      | some i ↦ lookup t ns
    ])
unfolding lookup
lookup-push_back t nil m = rw (find_child-nil t)
lookup-push_back t (cons n ns) m = ground (arith, find_child-cons t n ns, lookup-push_back t ns m)

-- the child that is found changed in place
pub lookup-set_child_self :
    (t : Bytes) (ns : Children) (i : ℕ) (m : Node)
    → find_child t ns ≡ some i
    → bytes_eq (tag m) t ≡ true
    → lookup t (set_child ns i m) ≡ some m
unfolding lookup
lookup-set_child_self t nil i m e h = absurd (ground (arith, find_child-nil t))
lookup-set_child_self t (cons n ns) zero m e h = rw h
lookup-set_child_self t (cons n ns) (suc i) m e h =
    ground (arith, find_child-cons t n ns, lookup-set_child_self t ns i m)

-- a child changed that has another tag
pub lookup-set_child_ne :
    (u : Bytes) (ns : Children) (i : ℕ) (n m : Node)
    → get_child ns i ≡ some n
    → bytes_eq (tag n) u ≡ false
    → bytes_eq (tag m) u ≡ false
    → lookup u (set_child ns i m) ≡ lookup u ns
unfolding lookup
lookup-set_child_ne u nil i n m e h k = refl
lookup-set_child_ne u (cons x ns) zero n m e h k = ground arith
lookup-set_child_ne u (cons x ns) (suc i) n m e h k =
    ground (arith, lookup-set_child_ne u ns i n m e h k)
