-- ===== src/Net/Clients.antt =====
-- That the clients of a server are told apart by their ids.
use online_judger.Common.{
  ℕ, suc, ◌+◌, ◌^◌, ◌<◌, ◌≤◌, ◌≡◌, refl, Bool, false, List, [], ◌∷◌, ◌++◌, some, ◌==◌,
  if◌then◌else◌, arith, Bool-cases, inl, inr,
}
use online_judger.Net.Server.{
  ClientNode, Server, keep, check_dead, add_new_client, accept_round, remove_client, close_node,
  fail_node, change, close_all, close, find_node, get_client, Reachable, fresh, starts, accepts,
  accept_fails, next_id, removes, client_fails, closes,
}

-- the ids go up from `low`, and none is above `top`
abbrev Rising : ℕ → List ClientNode → ℕ → Type 0
Rising low [] top = low ≤ top
Rising low (n ∷ ns) top = (low < n.id) × Rising n.id ns top

Rising-lower :
    (low low' top : ℕ) (ns : List ClientNode) → low' ≤ low → Rising low ns top → Rising low' ns top
Rising-lower low low' top [] h r = omega (arith, h, r)
Rising-lower low low' top (n ∷ ns) h (lt, r) = (omega (arith, h, lt), r)

Rising-keep :
    (test : ClientNode → Bool) (low top : ℕ) (ns : List ClientNode)
    → Rising low ns top
    → Rising low (keep test ns) top
Rising-keep test low top [] r = r
Rising-keep test low top (n ∷ ns) (lt, r) = elim (Bool-cases (test n)) [
  | inl b ↦ rw (b) (lt, Rising-keep test n.id top ns r)
  | inr b ↦
      rw (b) (Rising-keep test low top ns (Rising-lower n.id low top ns (omega (arith, lt)) r))
]

Rising-concat :
    (low top : ℕ) (ns : List ClientNode) (n : ClientNode)
    → n.id ≡ suc top
    → Rising low ns top
    → Rising low (ns ++ n ∷ []) (suc top)
Rising-concat low top [] n e r = (omega (arith, e, r), omega (arith, e))
Rising-concat low top (m ∷ ns) n e (lt, r) = (lt, Rising-concat m.id top ns n e r)

id-close_node : (n : ClientNode) → (close_node n).id ≡ n.id
id-close_node n = ground arith

id-changed : (n : ClientNode) (id : ℕ) → (if n.id == id then fail_node n else n).id ≡ n.id
id-changed n id = ground arith

Rising-change :
    (id low top : ℕ) (ns : List ClientNode)
    → Rising low ns top
    → Rising low (change fail_node id ns) top
Rising-change id low top [] r = r
Rising-change id low top (n ∷ ns) (lt, r) =
    (omega (arith, lt, id-changed n id), rw (id-changed n id) (Rising-change id n.id top ns r))

Rising-close_all :
    (low top : ℕ) (ns : List ClientNode) → Rising low ns top → Rising low (close_all ns) top
Rising-close_all low top [] r = r
Rising-close_all low top (n ∷ ns) (lt, r) =
    (omega (arith, lt, id-close_node n), rw (id-close_node n) (Rising-close_all n.id top ns r))

next_id_lem : (n : ℕ) → suc n < 2 ^ 32 → next_id n ≡ suc n
next_id_lem n h = omega arith

-- as long as the ids do not wrap, they count the clients
Reachable-Rising :
    {k : ℕ} {s : Server}
    → Reachable k s
    → 100 + k < 2 ^ 31
    → (s.id_allocator ≡ 100 + k) × Rising 100 s.pool s.id_allocator
unfolding accept_round check_dead add_new_client remove_client close
Reachable-Rising fresh h = (refl, omega arith)
Reachable-Rising (starts r) h = Reachable-Rising r h
Reachable-Rising (accept_fails r) h = Reachable-Rising r h
Reachable-Rising (accepts {k} {s} socket r) h =
    let (e, rising) = Reachable-Rising r (omega arith) in
    let next : next_id s.id_allocator ≡ suc s.id_allocator =
      next_id_lem s.id_allocator (omega arith) in
    (
      omega (arith, next, e),
      rw (next) (Rising-keep _ 100 _ _ (Rising-concat 100 s.id_allocator s.pool _ refl rising)),
    )
Reachable-Rising (removes {k} {s} id r) h =
    let (e, rising) = Reachable-Rising r h in (e, Rising-keep _ 100 _ s.pool rising)
Reachable-Rising (client_fails {k} {s} id r) h =
    let (e, rising) = Reachable-Rising r h in (e, Rising-change id 100 _ s.pool rising)
Reachable-Rising (closes {k} {s} r) h =
    let (e, rising) = Reachable-Rising r h in (e, Rising-close_all 100 _ s.pool rising)

above :
    (low top : ℕ) (before after : List ClientNode) (n : ClientNode)
    → Rising low (before ++ n ∷ after) top
    → low < n.id
above low top [] after n (lt, r) = lt
above low top (m ∷ before) after n (lt, r) = omega (arith, lt, above m.id top before after n r)

find_node-Rising :
    (low top : ℕ) (before after : List ClientNode) (n : ClientNode)
    → Rising low (before ++ n ∷ after) top
    → find_node n.id (before ++ n ∷ after) ≡ some n
unfolding find_node
find_node-Rising low top [] after n (lt, r) = ground arith
find_node-Rising low top (m ∷ before) after n (lt, r) =
    let higher = above m.id top before after n r in
    let differs : (m.id == n.id) ≡ false = ground arith in
    rw (differs) (find_node-Rising m.id top before after n r)

-- In every state that a server can come to as it accepts, removes, and loses clients, starts and
-- closes, each client in the list is the one that `getClient` finds under its id: no id is given to
-- two of them. This holds as long as the ids, which begin behind 100, have not left the range of `int`.
pub get_client-finds :
    (k : ℕ) (s : Server) (before after : List ClientNode) (n : ClientNode)
    → Reachable k s
    → 100 + k < 2 ^ 31
    → s.pool ≡ before ++ n ∷ after
    → get_client s n.id ≡ some n
get_client-finds k s before after n r h e =
    let rising = (Reachable-Rising r h).1 in
    rw (e) (find_node-Rising 100 s.id_allocator before after n (rw e at rising))
