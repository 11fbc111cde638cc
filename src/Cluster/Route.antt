-- ===== src/Cluster/Route.antt =====
-- `getNodeByLogicAddr` of cluster.go: the next hop towards an address.
use clustergo.Cluster.Cache.{NodeObject, NodeCache, get_node_by_logic_addr, get_harbor}
use clustergo.Cluster.Cache.Invariant.{IsValid}
use clustergo.Cluster.Cache.Select.{IsUsable, get_harbor-IsUsable}
use clustergo.Cluster.Groups.{Pointer}
use clustergo.Addr.{LogicAddr, harbor_type, cluster, type}
use clustergo.Common.{◌≡◌, ◌≢◌, arith, Option, some, ◌==◌, if◌then◌else◌, inl, inr, Bool-cases}
use clustergo.Common.Table.{lookup, nat_eq}

-- `self` is the address of the running node, `c` its cache.
unfoldable pub next_hop : LogicAddr → NodeCache → LogicAddr → Option Pointer
next_hop self c to =
    if cluster to == cluster self
    then get_node_by_logic_addr c to
    else if type self == harbor_type
    then get_harbor c (cluster to) to
    else get_harbor c (cluster self) to

-- What a hop has to be: inside the cluster the target itself; from a harbor an available harbor of
-- the target's cluster; from any other node an available harbor of its own cluster.
pub data IsHop (self : LogicAddr) (c : NodeCache) (to : LogicAddr) (p : Pointer) (n : NodeObject)
    : Type 0 where
  direct :
      cluster to ≡ cluster self → lookup p c.objects ≡ some n → n.addr ≡ to → IsHop self c to p n
  across :
      cluster to ≢ cluster self
      → type self ≡ harbor_type
      → IsUsable c p n
      → type n.addr ≡ harbor_type
      → cluster n.addr ≡ cluster to
      → IsHop self c to p n
  outward :
      cluster to ≢ cluster self
      → type self ≢ harbor_type
      → IsUsable c p n
      → type n.addr ≡ harbor_type
      → cluster n.addr ≡ cluster self
      → IsHop self c to p n

-- Every next hop that `getNodeByLogicAddr` gives from a valid cache is a known node: for a target in
-- the own cluster the target itself; else, from a harbor, an available harbor of the target's cluster,
-- and from any other node an available harbor of its own cluster.
pub next_hop-IsHop :
    (self : LogicAddr) (c : NodeCache) (to : LogicAddr) (p : Pointer)
    → IsValid c
    → next_hop self c to ≡ some p
    → (n : NodeObject) × IsHop self c to p n
unfolding next_hop get_node_by_logic_addr
next_hop-IsHop self c to p valid e = elim (Bool-cases (cluster to == cluster self)) [
  | inl near ↦
      let (n, at_p, same) = valid.linked to p (ground (arith, near, e)) in
      (n, direct (ground (arith, near)) at_p same)
  | inr far ↦ elim (Bool-cases (type self == harbor_type)) [
    | inl harbor ↦
        let (n, u, h, k) =
          get_harbor-IsUsable c (cluster to) to p valid (ground (arith, far, harbor, e)) in
        (n, across (ground (arith, far)) (ground (arith, harbor)) u h k)
    | inr normal ↦
        let (n, u, h, k) =
          get_harbor-IsUsable c (cluster self) to p valid (ground (arith, far, normal, e)) in
        (n, outward (ground (arith, far)) (ground (arith, normal)) u h k)
  ]
]
