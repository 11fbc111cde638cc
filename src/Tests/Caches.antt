-- ===== src/Tests/Caches.antt =====
-- nodeCache of node.go and getNodeByLogicAddr of cluster.go, in a cache of node 1.2.3.
use clustergo.Cluster.Cache.{
  NodeObject, NodeCache, add_one, add_node, add_harbor, enlist, new_object, is_visible, add_all,
  remove_all, remove_one, update_one, on_node_info_update, get_normal_node, get_harbor, pick,
  remove_found, update_found, find_node, close_socket, delist, put_object, remove_harbor,
}
use clustergo.Cluster.Cache.Invariant.{IsValid, add_one-IsValid}
use clustergo.Cluster.Cache.Update.{Fits, on_node_info_update-IsValid, on_node_info_update_stale}
use clustergo.Cluster.Cache.Select.{IsUsable, get_normal_node-IsUsable}
use clustergo.Cluster.Route.{next_hop, IsHop, next_hop-IsHop}
use clustergo.Cluster.Groups.{Pointer, count, group, add_to, remove_from, swap_remove}
use clustergo.Addr.{harbor_type, cluster, type}
use clustergo.Common.{◌≡◌, ◌≢◌, refl, arith, true, false, [], ◌∷◌, some, ok}
use clustergo.Common.Int.{pos}
use clustergo.Common.Table.{lookup, insert, delete, nat_eq}
use clustergo.Membership.{NodeInfo, MemberInfo}

abbrev pub empty_cache : NodeCache
empty_cache = record {
  local_addr = 264195;
  objects = [];
  fresh = 0;
  allnodes = [];
  nodes = [];
  harbors = [];
  initialised = false;
  stopping = false;
}

empty_cache-IsValid : IsValid empty_cache
unfolding lookup group
empty_cache-IsValid = record {
  linked = λ a p e. cc;
  unborn = λ p h. refl;
  by_type = record { counts = λ p k. refl };
  by_cluster = record { counts = λ p k. refl };
}

-- Nodes 1.2.4 and 1.255.1, the second a harbor.
abbrev pub peer : NodeInfo
peer = record { addr = 264196; net_addr = b'p' ∷ []; export = false; available = true }

abbrev pub gate : NodeInfo
gate = record { addr = 523265; net_addr = b'g' ∷ []; export = false; available = true }

abbrev pub peer_object : NodeObject
peer_object = record {
  addr = 264196;
  net_addr = b'p' ∷ [];
  available = true;
  has_socket = false;
  has_session = false;
}

unfoldable pub one_cache : NodeCache
unfolding add_one
one_cache = add_one empty_cache peer

one_cache-IsValid : IsValid one_cache
unfolding one_cache lookup
one_cache-IsValid = add_one-IsValid empty_cache peer empty_cache-IsValid (λ e. refl)

unfoldable two_cache : NodeCache
unfolding add_one
two_cache = add_one one_cache gate

two_cache-IsValid : IsValid two_cache
unfolding one_cache two_cache lookup insert add_one is_visible enlist add_node add_harbor add_to
    new_object cluster type
two_cache-IsValid = add_one-IsValid one_cache gate one_cache-IsValid (λ e. refl)

-- The peer is added, changes its net address, and the gate comes and goes.
abbrev change : MemberInfo
change = record {
  add = gate ∷ [];
  remove = gate ∷ [];
  update = record peer { net_addr = b'q' ∷ [] } ∷ [];
}

change-Fits : Fits one_cache change
unfolding one_cache lookup insert add_one is_visible enlist add_node add_harbor add_to new_object
    cluster type add_all remove_all remove_one remove_found find_node close_socket delist put_object
    remove_harbor remove_from delete swap_remove update_one update_found
change-Fits = record {
  adds = (λ e. refl, tt);
  removes = (λ e ne gone. cc, tt);
  updates = (λ e gone. cc, tt);
}

on_node_info_update-IsValid_example :
    (c : NodeCache) × (on_node_info_update one_cache change ≡ ok c)
    × IsValid c
    × (c.initialised ≡ true)
on_node_info_update-IsValid_example =
    on_node_info_update-IsValid one_cache change one_cache-IsValid change-Fits

on_node_info_update_stale_example :
    (c' : NodeCache) × (q : Pointer) × (on_node_info_update one_cache
        (record { add = peer ∷ []; remove = []; update = [] })
      ≡ ok c')
    × (q ≢ 0)
    × (lookup 264196 c'.allnodes ≡ some q)
    × (lookup q c'.objects
        ≡ some (record {
          addr = 264196;
          net_addr = peer.net_addr;
          available = peer.available;
          has_socket = false;
          has_session = false;
        }))
    × (lookup 0 c'.objects ≡ some peer_object)
    × (count 0 (group (type 264196) c'.nodes) ≡ 1)
unfolding one_cache lookup insert add_one is_visible enlist add_node add_harbor add_to new_object
    cluster type
on_node_info_update_stale_example =
    on_node_info_update_stale one_cache peer 0 peer_object one_cache-IsValid refl refl refl refl
      (ground arith)

get_normal_node-IsUsable_example :
    (n : NodeObject) × IsUsable one_cache 0 n × (type n.addr ≡ 2) × (2 ≢ harbor_type)
unfolding one_cache lookup insert add_one is_visible enlist add_node add_harbor add_to new_object
    cluster type get_normal_node pick group
get_normal_node-IsUsable_example =
    get_normal_node-IsUsable (λ k. 0) one_cache 2 (pos 5) 0 one_cache-IsValid refl

-- Towards node 2.0.3.
next_hop-IsHop_example : (n : NodeObject) × IsHop 264195 two_cache 524291 1 n
unfolding one_cache two_cache lookup insert add_one is_visible enlist add_node add_harbor add_to
    new_object cluster type get_harbor group next_hop
next_hop-IsHop_example = next_hop-IsHop 264195 two_cache 524291 1 two_cache-IsValid refl
