-- ===== src/LzData.antt =====
-- `LZData` of LZData/LZData.h and LZData/LZData.cpp: the tree of tagged values that holds a
-- configuration. The nodes are reached through their parent only, so a tree is a value here, and
-- the pointer that `write` returns is the address of the node under the tree that `write` leaves.
pub mod Walk
pub mod ReadWrite
pub mod Printing
use online_judger.Common.{
  ℕ, zero, suc, ◌+◌, Bool, true, false, not, List, [], ◌∷◌, Option, none, some, leb, ◌==◌,
  if◌then◌else◌, Bytes, bytes_eq, codes, length, take, drop,
}
use online_judger.Common.Int.{ℤ, pos, eq_ℤ}
use online_judger.Number.{atoi, show_int}
use online_judger.Text.{find_first_of}

mutual
  -- `m_tag`, `m_value`, `m_children`
  pub data Node : Type 0 where
    node : Bytes → Bytes → Children → Node

  pub data Children : Type 0 where
    nil : Children
    cons : Node → Children → Children

abbrev pub tag : Node → Bytes
tag (node t v ns) = t

abbrev pub value : Node → Bytes
value (node t v ns) = v

abbrev pub children : Node → Children
children (node t v ns) = ns

-- `newOne` of `lzd` and of `xml`
abbrev pub new_one : Bytes → Bytes → Node
new_one t v = node t v nil

abbrev pub set_string : Node → Bytes → Node
set_string (node t v ns) data_ = node t data_ ns

abbrev pub as_int : Node → ℤ
as_int n = atoi (value n)

abbrev pub set_int : Node → ℤ → Node
set_int n z = set_string n (show_int z)

unfoldable pub as_bool : Node → Bool
as_bool n =
    if bytes_eq (value n) (codes "true")
    then true
    else if bytes_eq (value n) (codes "false")
    then false
    else not (eq_ℤ (as_int n) (pos 0))

unfoldable pub set_bool : Node → Bool → Node
set_bool n b = set_string n (if b then codes "true" else codes "false")

abbrev pub count_children : Children → ℕ
count_children nil = 0
count_children (cons n ns) = suc (count_children ns)

-- `m_children[index]`; `none` stands for an index past the end
abbrev pub get_child : Children → ℕ → Option Node
get_child nil i = none
get_child (cons n ns) zero = some n
get_child (cons n ns) (suc i) = get_child ns i

-- the child at an index changed in place
abbrev pub set_child : Children → ℕ → Node → Children
set_child nil i m = nil
set_child (cons n ns) zero m = cons m ns
set_child (cons n ns) (suc i) m = cons n (set_child ns i m)

-- `m_children.push_back`
abbrev pub push_back : Children → Node → Children
push_back nil m = cons m nil
push_back (cons n ns) m = cons n (push_back ns m)

-- `addChild`: the new list and the index of the new child
abbrev pub add_child : Children → Node → Children × ℕ
add_child ns m = (push_back ns m, count_children ns)

-- the loop of `findNextChild`, from the child at position `i` on
find_from : ℕ → Bytes → Children → Option ℕ
find_from i t nil = none
find_from i t (cons n ns) = if bytes_eq (tag n) t then some i else find_from (suc i) t ns

drop_children : ℕ → Children → Children
drop_children zero ns = ns
drop_children (suc i) nil = nil
drop_children (suc i) (cons n ns) = drop_children i ns

-- An index is `none` where the source has -1.
unfoldable pub find_next_child : Option ℕ → Bytes → Children → Option ℕ
unfolding find_from drop_children
find_next_child index t ns =
    let start : ℕ = elim index [ none ↦ 0 | some i ↦ suc i ] in
    if leb (count_children ns) start then none else find_from start t (drop_children start ns)

unfoldable pub find_child : Bytes → Children → Option ℕ
unfolding find_next_child
find_child t ns = find_next_child none t ns

-- `tag.substr(0, pos)` and `tag.substr(pos + 1)`
abbrev pub head_of : Bytes → Option ℕ → Bytes
head_of t none = t
head_of t (some p) = take p t

-- `read`, on as many names as the fuel allows
pub read_fuel : ℕ → Children → Bytes → Option Node
read_fuel zero ns t = none
read_fuel (suc fuel) ns t =
    let p = find_first_of b'/' t in
    elim (find_child (head_of t p) ns) [
      | none ↦ none
      | some i ↦ elim (get_child ns i) [
        | none ↦ none
        | some n ↦ elim p [ none ↦ some n | some q ↦ read_fuel fuel (children n) (drop (suc q) t) ]
      ]
    ]

-- A path has fewer names than it has characters and one.
unfoldable pub read : Node → Bytes → Option Node
unfolding read_fuel
read n t = read_fuel (suc (length t)) (children n) t

-- the branch of `write` for a path of one name
pub write_last : Children → Bytes → Bytes → Children × List ℕ
write_last ns t v = elim (find_child t ns) [
  | some (suc i) ↦ elim (get_child ns (suc i)) [
    | some n ↦ (set_child ns (suc i) (set_string n v), suc i ∷ [])
    | none ↦ (ns, suc i ∷ [])
  ]
  | _ ↦ (push_back ns (new_one t v), count_children ns ∷ [])
]

-- `write`: the children that it leaves, and the address of the node that it returns
pub write_fuel : ℕ → Children → Bytes → Bytes → Children × List ℕ
unfolding write_last
write_fuel zero ns t v = (ns, [])
write_fuel (suc fuel) ns t v = elim (find_first_of b'/' t) [
  | none ↦ write_last ns t v
  | some p ↦ elim (find_child (take p t) ns) [
    | none ↦
        let below = write_fuel fuel nil (drop (suc p) t) v in
        (push_back ns (node (take p t) [] below.0), count_children ns ∷ below.1)
    | some i ↦ elim (get_child ns i) [
      | none ↦ (ns, [])
      | some n ↦
          let below = write_fuel fuel (children n) (drop (suc p) t) v in
          (set_child ns i (node (tag n) (value n) below.0), i ∷ below.1)
    ]
  ]
]

unfoldable pub write : Node → Bytes → Bytes → Node × List ℕ
unfolding write_fuel
write n t v =
    let below = write_fuel (suc (length t)) (children n) t v in
    (node (tag n) (value n) below.0, below.1)

-- a change of the node at an address, as by a setter called on the pointer that `write` returns
pub update_at : List ℕ → (Node → Node) → Node → Node
update_at [] f n = f n
update_at (i ∷ is) f (node t v ns) = elim (get_child ns i) [
  | none ↦ node t v ns
  | some m ↦ node t v (set_child ns i (update_at is f m))
]

abbrev pub write_string : Node → Bytes → Bytes → Node
write_string n t v = (write n t v).0

unfoldable pub write_int : Node → Bytes → ℤ → Node
unfolding update_at
write_int n t z = let (m, a) = write n t [] in update_at a (λ x. set_int x z) m

unfoldable pub write_bool : Node → Bytes → Bool → Node
unfolding update_at
write_bool n t b = let (m, a) = write n t [] in update_at a (λ x. set_bool x b) m

unfoldable pub read_int : Node → Bytes → ℤ → ℤ
read_int n t def = elim (read n t) [ none ↦ def | some m ↦ as_int m ]

unfoldable pub read_bool : Node → Bytes → Bool → Bool
read_bool n t def = elim (read n t) [ none ↦ def | some m ↦ as_bool m ]

unfoldable pub read_string : Node → Bytes → Bytes → Bytes
read_string n t def = elim (read n t) [ none ↦ def | some m ↦ value m ]
