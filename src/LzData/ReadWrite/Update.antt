-- ===== src/LzData/ReadWrite/Update.antt =====
-- What a node reads after a change at the address that `write` returns.
use online_judger.Common.{
  ℕ, zero, suc, ◌≡◌, ◌≢◌, refl, ap, ◌∙◌, List, [], ◌∷◌, Option, none, some, arith, Bytes,
  bytes_eq_self,
}
use online_judger.LzData.{
  Node, node, Children, nil, cons, tag, value, children, new_one, set_string, count_children,
  get_child, set_child, push_back, find_child, write_last, update_at,
}
use online_judger.LzData.Walk.{walk, write_names}
use online_judger.LzData.Walk.Lookup.{
  lookup, get_child-found, lookup-push_back, lookup-set_child_self, find_child-nil,
}

-- Going down the names of a path, either a name is missing, or the last of them is missing or names
-- a child that does not stand first.
pub data Reaches : Children → Bytes → List Bytes → Type 0 where
  last : {ns : Children} {t : Bytes} → find_child t ns ≢ some 0 → Reaches ns t []
  fresh :
      {ns : Children} {t u : Bytes} {us : List Bytes}
      → find_child t ns ≡ none
      → Reaches ns t (u ∷ us)
  down :
      {ns : Children} {t u : Bytes} {us : List Bytes} (i : ℕ) (n : Node)
      → find_child t ns ≡ some i
      → get_child ns i ≡ some n
      → Reaches (children n) u us
      → Reaches ns t (u ∷ us)

get_child-push_back :
    (ns : Children) (x : Node) → get_child (push_back ns x) (count_children ns) ≡ some x
get_child-push_back nil x = refl
get_child-push_back (cons n ns) x = get_child-push_back ns x

set_child-push_back :
    (ns : Children) (x y : Node) → set_child (push_back ns x) (count_children ns) y ≡ push_back ns y
set_child-push_back nil x y = refl
set_child-push_back (cons n ns) x y = ap (cons n) (set_child-push_back ns x y)

get_child-set_child :
    (ns : Children) (i : ℕ) (n x : Node)
    → get_child ns i ≡ some n
    → get_child (set_child ns i x) i ≡ some x
get_child-set_child nil i n x e = cc
get_child-set_child (cons m ns) zero n x e = refl
get_child-set_child (cons m ns) (suc i) n x e = get_child-set_child ns i n x e

set_child-set_child :
    (ns : Children) (i : ℕ) (x y : Node) → set_child (set_child ns i x) i y ≡ set_child ns i y
set_child-set_child nil i x y = refl
set_child-set_child (cons m ns) zero x y = refl
set_child-set_child (cons m ns) (suc i) x y = ap (cons m) (set_child-set_child ns i x y)

-- A setter changes no tag.
abbrev pub KeepsTag : (Node → Node) → Type 0
KeepsTag f = (x : Node) → tag (f x) ≡ tag x

tag-update_at :
    (a : List ℕ) (f : Node → Node) (n : Node) → KeepsTag f → tag (update_at a f n) ≡ tag n
unfolding update_at
tag-update_at [] f n k = k n
tag-update_at (i ∷ is) f (node t v ns) k = ground arith

push_back_reads :
    (t : Bytes) (ns : Children) (m : Node)
    → find_child t ns ≡ none
    → tag m ≡ t
    → lookup t (push_back ns m) ≡ some m
push_back_reads t ns m e h = lookup-push_back t ns m ∙ rw e (rw (h) (rw (bytes_eq_self t)))

pub tag-set_string : (n : Node) (v : Bytes) → tag (set_string n v) ≡ tag n
tag-set_string (node t w ns) v = refl

pub value-set_string : (n : Node) (v : Bytes) → value (set_string n v) ≡ v
value-set_string (node t w ns) v = refl

update_at-nil : (f : Node → Node) (n : Node) → update_at [] f n ≡ f n
unfolding update_at
update_at-nil f n = refl

nil-Reaches : (u : Bytes) (us : List Bytes) → Reaches nil u us
nil-Reaches u [] = last (λ e. ground (arith, find_child-nil u))
nil-Reaches u (w ∷ us) = fresh (find_child-nil u)

module _ (f : Node → Node) (k : KeepsTag f) where
  abbrev updated : Bytes → Bytes → Children × List ℕ → Children
  updated a b w = children (update_at w.1 f (node a b w.0))

  -- one level of the tree: the child at `i`, changed below
  update_pushed :
      (a b : Bytes) (ns : Children) (x : Node) (is : List ℕ)
      → updated a b (push_back ns x, count_children ns ∷ is) ≡ push_back ns (update_at is f x)
  unfolding update_at
  update_pushed a b ns x is =
      rw (get_child-push_back ns x, update_at) (set_child-push_back ns x (update_at is f x))

  update_set :
      (a b : Bytes) (ns : Children) (i : ℕ) (n x : Node) (is : List ℕ)
      → get_child ns i ≡ some n
      → updated a b (set_child ns i x, i ∷ is) ≡ set_child ns i (update_at is f x)
  unfolding update_at
  update_set a b ns i n x is e =
      rw (get_child-set_child ns i n x e, update_at) (set_child-set_child ns i x (update_at is f x))

  -- The last level: the new child, or the one that was found.
  write_last-reads :
      (a b : Bytes) (ns : Children) (t v : Bytes)
      → find_child t ns ≢ some 0
      → (m : Node) × (lookup t (updated a b (write_last ns t v)) ≡ some (f m)) × (value m ≡ v)
  unfolding write_last
  write_last-reads a b ns t v h = go (find_child t ns) refl
    where
      go :
          (o : Option ℕ)
          → find_child t ns ≡ o
          → (m : Node) × (lookup t (updated a b (write_last ns t v)) ≡ some (f m)) × (value m ≡ v)
      go none e = (
        new_one t v,
        rw (e, write_last)
            (rw (update_pushed a b ns (new_one t v) [], update_at-nil f (new_one t v))
              (push_back_reads t ns (f (new_one t v)) e (k (new_one t v)))),
        refl,
      )
      go (some zero) e = absurd (h e)
      go (some (suc i)) e =
          let (n, g, same) = get_child-found t ns (suc i) e in
          (
            set_string n v,
            rw (e, write_last)
                (rw (g) (
                  rw
                    (
                      update_set a b ns (suc i) n (set_string n v) [] g,
                      update_at-nil f (set_string n v),
                    )
                    (lookup-set_child_self t ns (suc i) (f (set_string n v)) e
                      (rw (k (set_string n v), tag-set_string n v) same)))),
            value-set_string n v,
          )

  pub write_names-reads :
      (us : List Bytes) (a b : Bytes) {ns : Children} {t : Bytes} (v : Bytes)
      → Reaches ns t us
      → (m : Node) × (walk (updated a b (write_names ns t us v)) t us ≡ some (f m)) × (value m ≡ v)
  unfolding write_names walk
  write_names-reads [] a b {ns} {t} v (last h) = write_last-reads a b ns t v h
  write_names-reads (u ∷ us) a b {ns} {t} v (fresh e) =
      let below = write_names nil u us v in
      let child = node t [] below.0 in
      let (m, reads, val) = write_names-reads us t [] {ns = nil} {t = u} v (nil-Reaches u us) in
      (
        m,
        rw (e, write_names)
            (rw (update_pushed a b ns child below.1) (
              rw
                (
                  push_back_reads t ns (update_at below.1 f child) e
                      (tag-update_at below.1 f child k),
                  walk,
                )
                reads)),
        val,
      )
  write_names-reads (u ∷ us) a b {ns} {t} v (down i n e g r) =
      let below = write_names (children n) u us v in
      let child = node (tag n) (value n) below.0 in
      let (m, reads, val) = write_names-reads us (tag n) (value n) v r in
      let (n', g', same) = get_child-found t ns i e in
      let found =
        lookup-set_child_self t ns i (update_at below.1 f child) e
          (rw (tag-update_at below.1 f child k) (ground arith)) in
      (
        m,
        rw (e, write_names)
            (rw (g) (rw (update_set a b ns i n child below.1 g) (rw (found, walk) reads))),
        val,
      )
