-- ===== src/Cluster/Cache.antt =====
-- nodeCache of node.go: the nodes known from the membership, and those that are available, by type
-- and, for harbors, by cluster. A node lives on a heap, since the three maps share it; of a node's
-- connection the cache sees whether there is a socket and a stream session.
pub mod Tidy
pub mod Invariant
pub mod Update
pub mod Select
use clustergo.Common.{
  ℕ, zero, suc, ◌+◌, ◌%◌, Bool, true, false, ◌&&◌, ◌||◌, not, List, [], ◌∷◌, ◌++◌, Option, none,
  some, ◌==◌, if◌then◌else◌, Outcome, ok, err, panic, ◌>>=◌, length, get_elem?,
}
use clustergo.Common.Int.{ℤ, pos, negsuc}
use clustergo.Common.Table.{Table, lookup, insert, delete, nat_eq, bytes_beq}
use clustergo.Addr.{LogicAddr, harbor_type, cluster, type}
use clustergo.Membership.{NodeInfo, MemberInfo}
use clustergo.Cluster.Groups.{Pointer, group, add_to, remove_from}

-- The fields of `node` that the cache reads and writes.
pub record NodeObject : Type 0 where
  pub addr : LogicAddr
  pub net_addr : List ℕ
  pub available : Bool
  pub has_socket : Bool
  pub has_session : Bool

pub record NodeCache : Type 0 where
  pub local_addr : LogicAddr
  pub objects : Table Pointer NodeObject
  pub fresh : Pointer
  pub allnodes : Table LogicAddr Pointer
  pub nodes : Table ℕ (List Pointer)
  pub harbors : Table ℕ (List Pointer)
  pub initialised : Bool
  pub stopping : Bool

unfoldable pub add_node : NodeCache → Pointer → NodeObject → NodeCache
add_node c p n = record c { nodes = add_to (type n.addr) p c.nodes }

unfoldable pub remove_node : NodeCache → Pointer → NodeObject → NodeCache
remove_node c p n = record c { nodes = remove_from (type n.addr) p c.nodes }

unfoldable pub add_harbor : NodeCache → Pointer → NodeObject → NodeCache
add_harbor c p n = record c { harbors = add_to (cluster n.addr) p c.harbors }

unfoldable pub remove_harbor : NodeCache → Pointer → NodeObject → NodeCache
remove_harbor c p n = record c { harbors = remove_from (cluster n.addr) p c.harbors }

-- The branches on the harbor type that stand around these calls.
unfoldable pub enlist : NodeCache → Pointer → NodeObject → NodeCache
enlist c p n = if type n.addr == harbor_type then add_harbor c p n else add_node c p n

unfoldable pub delist : NodeCache → Pointer → NodeObject → NodeCache
delist c p n = if type n.addr == harbor_type then remove_harbor c p n else remove_node c p n

-- `closeSocket`, on the connection's two marks.
unfoldable pub close_socket : NodeObject → NodeObject
close_socket n = record n { has_socket = false; has_session = false }

unfoldable pub put_object : NodeCache → Pointer → NodeObject → NodeCache
put_object c p n = record c { objects = insert p n c.objects }

-- The nodes that this node is to know: exported ones, those of its cluster, and harbors for a harbor.
unfoldable pub is_visible : NodeCache → NodeInfo → Bool
is_visible c v =
    v.export
    || (cluster v.addr == cluster c.local_addr)
    || ((type c.local_addr == harbor_type) && (type v.addr == harbor_type))

unfoldable pub new_object : NodeInfo → NodeObject
new_object v = record {
  addr = v.addr;
  net_addr = v.net_addr;
  available = v.available;
  has_socket = false;
  has_session = false;
}

-- A round of the first loop.
unfoldable pub add_one : NodeCache → NodeInfo → NodeCache
unfolding new_object
add_one c v =
    if is_visible c v
    then (let n = new_object v in
        let c' = record c {
          objects = insert c.fresh n c.objects;
          fresh = suc c.fresh;
          allnodes = insert v.addr c.fresh c.allnodes;
        } in
        if v.available then enlist c' c.fresh n else c')
    else c

-- The node that `allnodes` has for an address, with its pointer. A nil pointer that is followed panics.
unfoldable pub find_node : NodeCache → LogicAddr → Option (Pointer × NodeObject)
find_node c a = elim (lookup a c.allnodes) [
  | none ↦ none
  | some p ↦ elim (lookup p c.objects) [ none ↦ none | some n ↦ some (p, n) ]
]

-- `err` is the early return behind `go self.Stop()`.
abbrev pub Round : Type 0
Round = Outcome NodeCache NodeCache

unfoldable pub remove_found : NodeCache → Option (Pointer × NodeObject) → Round
remove_found c none = panic
remove_found c (some (p, n)) =
    let c1 = record c { allnodes = delete n.addr c.allnodes } in
    let c2 = if n.available then delist c1 p n else c1 in ok (put_object c2 p (close_socket n))

unfoldable pub remove_one : NodeCache → NodeInfo → Round
remove_one c v =
    if is_visible c v
    then (if v.addr == c.local_addr then err c else remove_found c (find_node c v.addr))
    else ok c

-- A changed net address: of the node itself it ends the round, else the connection is closed.
unfoldable pub move_node :
    NodeCache → NodeInfo → Pointer → NodeObject → Outcome NodeCache (NodeCache × NodeObject)
move_node c v p n =
    if bytes_beq v.net_addr n.net_addr
    then ok (c, n)
    else if n.addr == c.local_addr
    then err c
    else (let n' = record (close_socket n) { net_addr = v.net_addr } in ok (put_object c p n', n'))

unfoldable pub set_available : NodeCache → NodeInfo → Pointer → NodeObject → NodeCache
set_available c v p n =
    if v.available
    then (if n.available
        then c
        else (let n' = record n { available = true } in enlist (put_object c p n') p n'))
    else if n.available
    then (let n' = record n { available = false } in delist (put_object c p n') p n')
    else c

unfoldable pub update_found : NodeCache → NodeInfo → Option (Pointer × NodeObject) → Round
unfolding move_node set_available
update_found c v none = panic
update_found c v (some (p, n)) = do (c', n') ← move_node c v p n; ok (set_available c' v p n')

unfoldable pub update_one : NodeCache → NodeInfo → Round
update_one c v = if is_visible c v then update_found c v (find_node c v.addr) else ok c

unfoldable pub add_all : NodeCache → List NodeInfo → NodeCache
add_all c [] = c
add_all c (v ∷ vs) = add_all (add_one c v) vs

unfoldable pub remove_all : NodeCache → List NodeInfo → Round
remove_all c [] = ok c
remove_all c (v ∷ vs) = do c' ← remove_one c v; remove_all c' vs

unfoldable pub update_all : NodeCache → List NodeInfo → Round
update_all c [] = ok c
update_all c (v ∷ vs) = do c' ← update_one c v; update_all c' vs

-- The deferred `initOnce`, and the stop of the node where the loops returned early.
finish : Round → Outcome NodeCache NodeCache
finish (ok c) = ok (record c { initialised = true })
finish (err c) = ok (record c { initialised = true; stopping = true })
finish panic = panic

unfoldable pub on_node_info_update : NodeCache → MemberInfo → Round
unfolding finish
on_node_info_update c info =
    finish (do c' ← remove_all (add_all c info.add) info.remove; update_all c' info.update)

-- `harbors[int(m) % len(harbors)]`
unfoldable pub get_harbor : NodeCache → ℕ → LogicAddr → Option Pointer
get_harbor c k m =
    let xs = group k c.harbors in if length xs == 0 then none else get_elem? xs (m % length xs)

-- `rand.Intn` is the parameter `rand`, a number below its argument. The remainder of a negative `n`
-- is negative or 0, and a negative index panics.
module _ (rand : ℕ → ℕ) where
  unfoldable pub pick : List Pointer → ℤ → Outcome (Unit {0}) (Option Pointer)
  pick xs (pos zero) = ok (get_elem? xs (rand (length xs)))
  pick xs (pos (suc n)) = ok (get_elem? xs (suc n % length xs))
  pick xs (negsuc n) = if suc n % length xs == 0 then ok (get_elem? xs 0) else panic

  unfoldable pub get_normal_node : NodeCache → ℕ → ℤ → Outcome (Unit {0}) (Option Pointer)
  unfolding pick
  get_normal_node c k n = let xs = group k c.nodes in if length xs == 0 then ok none else pick xs n

unfoldable pub get_node_by_logic_addr : NodeCache → LogicAddr → Option Pointer
get_node_by_logic_addr c a = lookup a c.allnodes

-- `close`: every node that the cache knows closes its connection.
unfoldable pub close_all :
    Table LogicAddr Pointer → Table Pointer NodeObject → Table Pointer NodeObject
close_all [] objects = objects
close_all ((a, p) ∷ rest) objects =
    close_all rest
      (elim (lookup p objects) [ none ↦ objects | some n ↦ insert p (close_socket n) objects ])

unfoldable pub close : NodeCache → NodeCache
close c = record c { objects = close_all c.allnodes c.objects }
