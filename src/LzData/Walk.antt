-- ===== src/LzData/Walk.antt =====
-- `read` and `write` by the names of a path, one level of the tree to a name.
pub mod Lookup
pub mod Names
use online_judger.Common.{
  ℕ, zero, suc, ◌+◌, ◌<◌, ◌≤◌, ◌≡◌, ◌≢◌, refl, ap, ◌∙◌, sym, Bool, true, false, List, [], ◌∷◌, ◌++◌,
  Option, none, some, inl, inr, arith, ◌==◌, if◌then◌else◌, Bytes, bytes_eq, length, take, drop,
  Option-cases,
}
use online_judger.LzData.{
  Node, node, Children, nil, cons, tag, value, children, new_one, set_string, count_children,
  get_child, set_child, push_back, find_child, head_of, read_fuel, read, write_last, write_fuel,
  write,
}
use online_judger.Text.{find_first_of}
use Lookup.{lookup, lookup_lem}
use Names.{names, names-none, names-some, length-rest-lt}

-- the node at the end of a path of names
unfoldable pub walk : Children → Bytes → List Bytes → Option Node
walk ns t [] = lookup t ns
walk ns t (u ∷ us) = elim (lookup t ns) [ none ↦ none | some n ↦ walk (children n) u us ]

unfoldable pub write_names : Children → Bytes → List Bytes → Bytes → Children × List ℕ
write_names ns t [] v = write_last ns t v
write_names ns t (u ∷ us) v = elim (find_child t ns) [
  | none ↦
      let below = write_names nil u us v in
      (push_back ns (node t [] below.0), count_children ns ∷ below.1)
  | some i ↦ elim (get_child ns i) [
    | none ↦ (ns, [])
    | some n ↦
        let below = write_names (children n) u us v in
        (set_child ns i (node (tag n) (value n) below.0), i ∷ below.1)
  ]
]

read_fuel-walk :
    (fuel : ℕ) (ns : Children) (t : Bytes)
    → length t < fuel
    → read_fuel fuel ns t ≡ walk ns (names t).0 (names t).1
unfolding read_fuel walk
read_fuel-walk zero ns t h = elim h [ ]
read_fuel-walk (suc fuel) ns t h = elim (Option-cases (find_first_of b'/' t)) [
  | inl e ↦ rw (names-none t e) (ground (arith, lookup_lem t ns))
  | inr (p, e) ↦ rw (names-some t p e) (elim (Option-cases (lookup (take p t) ns)) [
    | inl missing ↦ ground (arith, lookup_lem (take p t) ns)
    | inr (n, found) ↦ ground (
      arith,
      lookup_lem (take p t) ns,
      length-rest-lt t p e,
      read_fuel-walk fuel (children n) (drop (suc p) t),
    )
  ])
]

write_fuel-write_names :
    (fuel : ℕ) (ns : Children) (t v : Bytes)
    → length t < fuel
    → write_fuel fuel ns t v ≡ write_names ns (names t).0 (names t).1 v
unfolding write_fuel write_names
write_fuel-write_names zero ns t v h = elim h [ ]
write_fuel-write_names (suc fuel) ns t v h = elim (Option-cases (find_first_of b'/' t)) [
  | inl e ↦ rw (names-none t e) (rw (e, write_fuel))
  | inr (p, e) ↦ rw (names-some t p e) (
      rw (e, write_fuel)
        (elim (Option-cases (find_child (take p t) ns)) [
          | inl missing ↦
              let ih =
                write_fuel-write_names fuel nil (drop (suc p) t) v
                  (omega (arith, length-rest-lt t p e)) in
              ground (arith, ih)
          | inr (i, found) ↦ elim (Option-cases (get_child ns i)) [
            | inl past ↦ ground arith
            | inr (n, at) ↦
                let ih =
                  write_fuel-write_names fuel (children n) (drop (suc p) t) v
                    (omega (arith, length-rest-lt t p e)) in
                ground (arith, ih)
          ]
        ]))
]

-- `read` of a path is the walk down the tree by the names between its slashes, from child to child.
pub read-walk : (n : Node) (t : Bytes) → read n t ≡ walk (children n) (names t).0 (names t).1
unfolding read
read-walk n t = read_fuel-walk (suc (length t)) (children n) t (omega arith)

pub write-write_names :
    (n : Node) (t v : Bytes)
    → write n t v ≡ (
      node (tag n) (value n) (write_names (children n) (names t).0 (names t).1 v).0,
      (write_names (children n) (names t).0 (names t).1 v).1,
    )
unfolding write
write-write_names n t v =
    rw (write_fuel-write_names (suc (length t)) (children n) t v (omega arith))
