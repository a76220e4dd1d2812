-- ===== src/LzData/ReadWrite.antt =====
-- `read` after `write`, and after the setters called on the node that `write` returns.
pub mod Update
use online_judger.Common.{
  ℕ, zero, suc, ◌+◌, ◌≡◌, ◌≢◌, refl, ap, ◌∙◌, sym, Bool, true, false, List, [], ◌∷◌, Option, none,
  some, inl, inr, arith, if◌then◌else◌, Bytes, bytes_eq, bytes_eq_iff, bytes_eq_self, Option-cases,
  Bool-cases, codes,
}
use online_judger.Common.Int.{ℤ}
use online_judger.LzData.{
  Node, node, Children, nil, cons, tag, value, children, new_one, set_string, count_children,
  get_child, set_child, push_back, find_child, read, write_last, write, update_at, set_int,
  write_int, read_int, set_bool, write_bool, read_bool, as_int, as_bool, write_string, read_string,
}
use online_judger.LzData.Walk.{walk, write_names, read-walk, write-write_names}
use online_judger.LzData.Walk.Names.{names, names-none}
use online_judger.LzData.Walk.Lookup.{
  lookup, lookup_lem, get_child-found, lookup-push_back, lookup-set_child_self, lookup-set_child_ne,
  find_child-nil, find_child-cons,
}
use online_judger.Number.{atoi-show_int}
use online_judger.Text.{find_first_of}
use online_judger.LzData.ReadWrite.Update.{
  Reaches, last, fresh, down, KeepsTag, write_names-reads, tag-set_string, value-set_string,
}

set_child_same :
    (ns : Children) (i : ℕ) (m : Node) → get_child ns i ≡ some m → set_child ns i m ≡ ns
set_child_same nil i m e = refl
set_child_same (cons n ns) zero m e = ground arith
set_child_same (cons n ns) (suc i) m e = ap (cons n) (set_child_same ns i m e)

update_at-id : (a : List ℕ) (n : Node) → update_at a (λ x. x) n ≡ n
unfolding update_at
update_at-id [] n = refl
update_at-id (i ∷ is) (node t v ns) = elim (Option-cases (get_child ns i)) [
  | inl e ↦ rw (e, update_at)
  | inr (m, e) ↦ rw (e, update_at) (rw (update_at-id is m) (rw (set_child_same ns i m e)))
]

-- A value behind a new name becomes the last child.
pub write_string-fresh :
    (n : Node) (t v : Bytes)
    → find_first_of b'/' t ≡ none
    → find_child t (children n) ≡ none
    → write_string n t v ≡ node (tag n) (value n) (push_back (children n) (new_one t v))
unfolding write_last write_names
write_string-fresh n t v h e =
    ap {B = Node} (λ x. x.0) (write-write_names n t v)
    ∙ rw (names-none t h) (rw (e, write_last) refl)

-- A path at which `write` changes a node or makes one that `read` finds.
abbrev pub CanWrite : Node → Bytes → Type 0
CanWrite n t = Reaches (children n) (names t).0 (names t).1

-- `read` after a setter on the node that `write` returns
read-update :
    (f : Node → Node) (n : Node) (t v : Bytes)
    → KeepsTag f
    → CanWrite n t
    → (m : Node) × (read (update_at (write n t v).1 f (write n t v).0) t ≡ some (f m))
      × (value m ≡ v)
read-update f n t v k r =
    let (m, reads, val) = write_names-reads f k (names t).1 (tag n) (value n) v r in
    (m, rw (write-write_names n t v) (read-walk _ t ∙ reads), val)

-- What is written as a string is read back from the same path, at which `write` makes a node or
-- changes one that is not the first child of its parent.
pub read_string-write_string :
    (n : Node) (t v def : Bytes) → CanWrite n t → read_string (write_string n t v) t def ≡ v
unfolding read_string
read_string-write_string n t v def r =
    let (m, reads, val) = read-update (λ x. x) n t v (λ x. refl) r in
    let plain = rw (update_at-id (write n t v).1 (write n t v).0) at reads in
    rw (plain, read_string) val

-- What is written as an integer is read back as that integer from the same path, at which `write`
-- makes a node or changes one that is not the first child of its parent.
pub read_int-write_int :
    (n : Node) (t : Bytes) (z def : ℤ) → CanWrite n t → read_int (write_int n t z) t def ≡ z
unfolding read_int write_int
read_int-write_int n t z def r =
    let (m, reads, val) = read-update (λ x. set_int x z) n t [] (λ x. tag-set_string x _) r in
    rw (reads, read_int) (rw (value-set_string m _) (atoi-show_int z))

as_bool-set_bool : (n : Node) (b : Bool) → as_bool (set_bool n b) ≡ b
unfolding as_bool set_bool
as_bool-set_bool (node t v ns) true = refl
as_bool-set_bool (node t v ns) false = refl

tag-set_bool : (n : Node) (b : Bool) → tag (set_bool n b) ≡ tag n
unfolding set_bool
tag-set_bool n b = tag-set_string n _

-- What is written as a Boolean is read back as that Boolean from the same path, at which `write`
-- makes a node or changes one that is not the first child of its parent.
pub read_bool-write_bool :
    (n : Node) (t : Bytes) (b def : Bool) → CanWrite n t → read_bool (write_bool n t b) t def ≡ b
unfolding read_bool write_bool
read_bool-write_bool n t b def r =
    let (m, reads, val) = read-update (λ x. set_bool x b) n t [] (λ x. tag-set_bool x b) r in
    rw (reads, read_bool) (as_bool-set_bool m b)

lookup-push_back_ne :
    (u : Bytes) (ns : Children) (m : Node)
    → bytes_eq (tag m) u ≡ false
    → lookup u (push_back ns m) ≡ lookup u ns
lookup-push_back_ne u ns m h = ground (arith, lookup-push_back u ns m, lookup_lem u ns)

tag-found_ne :
    (t u : Bytes) (ns : Children) (i : ℕ) (n : Node)
    → bytes_eq t u ≡ false
    → find_child t ns ≡ some i
    → get_child ns i ≡ some n
    → bytes_eq (tag n) u ≡ false
tag-found_ne t u ns i n h e g =
    let (n', g', same) = get_child-found t ns i e in
    let is_t : tag n' ≡ t = (bytes_eq_iff (tag n') t).0 same in
    let n_is : n' ≡ n = cc in rw (← n_is) (rw (is_t) h)

lookup-write_names_ne :
    (us : List Bytes) (ns : Children) (t u v : Bytes)
    → bytes_eq t u ≡ false
    → lookup u (write_names ns t us v).0 ≡ lookup u ns
unfolding write_names write_last
lookup-write_names_ne [] ns t u v h = go (find_child t ns) refl
  where
    go : (o : Option ℕ) → find_child t ns ≡ o → lookup u (write_last ns t v).0 ≡ lookup u ns
    go none e = rw (e, write_last) (lookup-push_back_ne u ns (new_one t v) h)
    go (some zero) e = rw (e, write_last) (lookup-push_back_ne u ns (new_one t v) h)
    go (some (suc i)) e =
        let (n, g, same) = get_child-found t ns (suc i) e in
        let ne = tag-found_ne t u ns (suc i) n h e g in
        rw (e, write_last)
          (rw (g)
            (lookup-set_child_ne u ns (suc i) n (set_string n v) g ne (rw (tag-set_string n v) ne)))
lookup-write_names_ne (w ∷ us) ns t u v h = elim (Option-cases (find_child t ns)) [
  | inl e ↦ rw (e, write_names) (lookup-push_back_ne u ns (node t [] (write_names nil w us v).0) h)
  | inr (i, e) ↦
      let (n, g, same) = get_child-found t ns i e in
      let ne = tag-found_ne t u ns i n h e g in
      let child = node (tag n) (value n) (write_names (children n) w us v).0 in
      rw (e, write_names) (rw (g) (lookup-set_child_ne u ns i n child g ne ne))
]

walk-lookup :
    (us : List Bytes) (ns ms : Children) (u : Bytes)
    → lookup u ns ≡ lookup u ms
    → walk ns u us ≡ walk ms u us
unfolding walk
walk-lookup [] ns ms u e = e
walk-lookup (w ∷ us) ns ms u e = rw (e, walk)

-- Writing at a path leaves what `read` finds at any path that begins with another name.
pub read-write_ne :
    (n : Node) (t u v : Bytes) → (names t).0 ≢ (names u).0 → read (write n t v).0 u ≡ read n u
read-write_ne n t u v h = rw (write-write_names n t v) (
    read-walk _ u
    ∙ walk-lookup (names u).1 _ (children n) (names u).0 (
        lookup-write_names_ne (names t).1 (children n) (names t).0 (names u).0 v
          (elim (Bool-cases (bytes_eq (names t).0 (names u).0)) [
            | inl same ↦ absurd (h ((bytes_eq_iff (names t).0 (names u).0).0 same))
            | inr ne ↦ ne
          ]))
    ∙ sym (read-walk n u))

count_children-push_back :
    (ns : Children) (m : Node) → count_children (push_back ns m) ≡ suc (count_children ns)
count_children-push_back nil m = refl
count_children-push_back (cons n ns) m = ap suc (count_children-push_back ns m)

-- `write` tests `i > 0`, so it misses a first child: if a path of one name names the first child of
-- a node, `write` leaves what `read` finds there as it was, and adds a child instead.
pub write_shadowed :
    (n : Node) (t v : Bytes)
    → find_first_of b'/' t ≡ none
    → find_child t (children n) ≡ some 0
    → (read (write n t v).0 t ≡ read n t)
      × (count_children (children (write n t v).0) ≡ suc (count_children (children n)))
write_shadowed n t v one e =
    rw (read-walk (write n t v).0 t, read-walk n t)
      (rw (write-write_names n t v) (
        rw (names-none t one) (
          unfold write_names write_last walk in
          rw (e, write_last)
            (
              lookup-push_back (t) (children n) (new_one t v) ∙ rw e,
              count_children-push_back (children n) (new_one t v),
            ))))
