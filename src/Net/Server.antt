-- ===== src/Net/Server.antt =====
-- acm/ZNet.cpp, class ZServer: the list of its clients. A client node is one object, known by its id.
use online_judger.Common.{
  ℕ, suc, Bool, true, false, not, ◌&&◌, List, [], ◌∷◌, ◌++◌, Option, none, some, ◌==◌, ◌%◌, ◌^◌,
  if◌then◌else◌,
}

-- The ids are of the type `int` and are kept as their patterns of 32 bits.
abbrev pub next_id : ℕ → ℕ
next_id id = suc id % 2 ^ 32

-- `ZClientNode`
pub record ClientNode : Type 0 where
  pub id : ℕ
  pub socket : ℕ
  pub running : Bool

-- `m_running`, `m_pool`, and `s_idAllocator`, which the nodes share
pub record Server : Type 0 where
  pub running : Bool
  pub pool : List ClientNode
  pub id_allocator : ℕ

abbrev pub new_server : Server
new_server = record { running = false; pool = []; id_allocator = 100 }

-- the nodes that a test keeps
abbrev pub keep : (ClientNode → Bool) → List ClientNode → List ClientNode
keep test [] = []
keep test (n ∷ ns) = let rest = keep test ns in if test n then n ∷ rest else rest

-- `ZClientNode::isRunning`
abbrev pub is_node_running : Server → ClientNode → Bool
is_node_running s n = n.running && s.running

-- `checkDead`
unfoldable pub check_dead : Server → Server
check_dead s = record s { pool = keep (is_node_running s) s.pool }

-- `addClient` with a node that the constructor makes
unfoldable pub add_new_client : ℕ → Server → Server
add_new_client socket s = record {
  running = s.running;
  pool = s.pool ++ record { id = next_id s.id_allocator; socket = socket; running = true } ∷ [];
  id_allocator = next_id s.id_allocator;
}

-- a round of `threadProcAccept`, by what `accept` gives
unfoldable pub accept_round : Option ℕ → Server → Server
unfolding check_dead add_new_client
accept_round none s = s
accept_round (some socket) s = check_dead (add_new_client socket s)

-- `removeClient` with the node of an id
unfoldable pub remove_client : ℕ → Server → Server
remove_client id s = record s { pool = keep (λ n. not (n.id == id)) s.pool }

-- `ZClientBase::close`
abbrev pub close_node : ClientNode → ClientNode
close_node n = if n.socket == 0 then n else record { id = n.id; socket = 0; running = false }

-- `ZClientBase::onError`
abbrev pub fail_node : ClientNode → ClientNode
fail_node n = close_node (record { id = n.id; socket = n.socket; running = false })

-- a change of the node of an id
abbrev pub change : (ClientNode → ClientNode) → ℕ → List ClientNode → List ClientNode
change f id [] = []
change f id (n ∷ ns) = (if n.id == id then f n else n) ∷ change f id ns

abbrev pub close_all : List ClientNode → List ClientNode
close_all [] = []
close_all (n ∷ ns) = close_node n ∷ close_all ns

-- `close`
unfoldable pub close : Server → Server
close s = record s { running = false; pool = close_all s.pool }

-- the loop of `getClient`
unfoldable pub find_node : ℕ → List ClientNode → Option ClientNode
find_node id [] = none
find_node id (n ∷ ns) = let rest = find_node id ns in if n.id == id then some n else rest

abbrev pub get_client : Server → ℕ → Option ClientNode
get_client s id = find_node id s.pool

-- What happens to the list, in any order, with the number of clients that were accepted.
pub data Reachable : ℕ → Server → Type 0 where
  fresh : Reachable 0 new_server
  starts : {k : ℕ} {s : Server} → Reachable k s → Reachable k (record s { running = true })
  accept_fails : {k : ℕ} {s : Server} → Reachable k s → Reachable k (accept_round none s)
  accepts :
      {k : ℕ} {s : Server} (socket : ℕ)
      → Reachable k s
      → Reachable (suc k) (accept_round (some socket) s)
  removes : {k : ℕ} {s : Server} (id : ℕ) → Reachable k s → Reachable k (remove_client id s)
  client_fails :
      {k : ℕ} {s : Server} (id : ℕ)
      → Reachable k s
      → Reachable k (record s { pool = change fail_node id s.pool })
  closes : {k : ℕ} {s : Server} → Reachable k s → Reachable k (close s)
