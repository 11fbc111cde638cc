-- ===== src/Cluster/Cache/Invariant.antt =====
-- The invariant of the node cache, and that each round of the three loops keeps it.
use clustergo.Cluster.Cache.{
  NodeObject, NodeCache, add_node, remove_node, add_harbor, remove_harbor, enlist, delist,
  close_socket, put_object, is_visible, new_object, add_one, remove_found, set_available,
}
use clustergo.Cluster.Cache.Tidy.{Tidy, Tidy-add, Tidy-remove, Tidy-touch, Tidy-raise, Tidy-lower}
use clustergo.Cluster.Groups.{Pointer, add_to, remove_from}
use clustergo.Membership.{NodeInfo}
use clustergo.Addr.{LogicAddr, harbor_type, cluster, type}
use clustergo.Common.{
  suc, ◌≤◌, ◌≡◌, refl, arith, Bool, true, false, not, none, some, ◌==◌, if◌then◌else◌, ok,
  Bool-cases, inl, inr,
}
use clustergo.Common.Table.{Table, lookup, insert, delete, lookup-insert, lookup-delete, nat_eq}

abbrev pub is_normal : LogicAddr → Bool
is_normal a = not (type a == harbor_type)

abbrev pub is_harbor : LogicAddr → Bool
is_harbor a = type a == harbor_type

-- `allnodes` leads to live nodes under their own address; no node stands beyond the next pointer; each
-- available node that is known stands once in the group of its type, or of its cluster if it is a
-- harbor, and in no other group; and nothing else stands in any group.
pub record IsValid (c : NodeCache) : Type 0 where
  pub linked :
      (a : LogicAddr) (p : Pointer)
      → lookup a c.allnodes ≡ some p
      → (n : NodeObject) × (lookup p c.objects ≡ some n) × (n.addr ≡ a)
  pub unborn : (p : Pointer) → c.fresh ≤ p → lookup p c.objects ≡ none
  pub by_type : Tidy is_normal type c.objects c.allnodes c.nodes
  pub by_cluster : Tidy is_harbor cluster c.objects c.allnodes c.harbors

abbrev Linked : Table LogicAddr Pointer → Table Pointer NodeObject → Type 0
Linked all objects =
    (a : LogicAddr) (p : Pointer)
    → lookup a all ≡ some p
    → (n : NodeObject) × (lookup p objects ≡ some n) × (n.addr ≡ a)

-- A new object under an address, at a pointer that nothing stands at.
Linked-insert :
    (all : Table LogicAddr Pointer) (objects : Table Pointer NodeObject) (p : Pointer)
    (n : NodeObject)
    → Linked all objects
    → lookup p objects ≡ none
    → Linked (insert n.addr p all) (insert p n objects)
Linked-insert all objects p n l new a q e = elim (Bool-cases (n.addr == a)) [
  | inl hit ↦ (
    n,
    ground (arith, e, hit, lookup-insert n.addr a p all, lookup-insert p q n objects),
    ground (arith, hit),
  )
  | inr miss ↦
      let (m, at_q, same) = l a q (ground (arith, e, miss, lookup-insert n.addr a p all)) in
      (m, ground (arith, at_q, new, lookup-insert p q n objects), same)
]

-- An object that is replaced by one with the same address.
Linked-put :
    (all : Table LogicAddr Pointer) (objects : Table Pointer NodeObject) (p : Pointer)
    (n n' : NodeObject)
    → Linked all objects
    → lookup p objects ≡ some n
    → n'.addr ≡ n.addr
    → Linked all (insert p n' objects)
Linked-put all objects p n n' l at_p same a q e = elim (Bool-cases (p == q)) [
  | inl hit ↦
      let (m, at_q, eq) = l a q e in
      (
        n',
        ground (arith, hit, lookup-insert p q n' objects),
        ground (arith, hit, at_p, at_q, eq, same),
      )
  | inr miss ↦
      let (m, at_q, eq) = l a q e in
      (m, ground (arith, miss, at_q, lookup-insert p q n' objects), eq)
]

Linked-delete :
    (all : Table LogicAddr Pointer) (objects : Table Pointer NodeObject) (b : LogicAddr)
    → Linked all objects
    → Linked (delete b all) objects
Linked-delete all objects b l a q e = l a q (ground (arith, e, lookup-delete b a all))

unborn_put :
    (c : NodeCache) (p : Pointer) (n n' : NodeObject)
    → IsValid c
    → lookup p c.objects ≡ some n
    → (q : Pointer) → c.fresh ≤ q
    → lookup q (insert p n' c.objects) ≡ none
unborn_put c p n n' valid at_p q h =
    ground (arith, at_p, lookup-insert p q n' c.objects, valid.unborn q h)

module _ (c : NodeCache) (v : NodeInfo) (valid : IsValid c) where
  -- The state of the cache behind a visible node, in its parts.
  abbrev added : NodeCache
  added = record c {
    objects = insert c.fresh (new_object v) c.objects;
    fresh = suc c.fresh;
    allnodes = insert v.addr c.fresh c.allnodes;
    nodes =
        if v.available
        then (if is_normal v.addr then add_to (type v.addr) c.fresh c.nodes else c.nodes)
        else c.nodes;
    harbors =
        if v.available
        then (if is_harbor v.addr then add_to (cluster v.addr) c.fresh c.harbors else c.harbors)
        else c.harbors;
  }

  add_one-added : is_visible c v ≡ true → add_one c v ≡ added
  unfolding add_one enlist add_node add_harbor
  add_one-added h = ground arith

  added-IsValid : lookup v.addr c.allnodes ≡ none → IsValid added
  unfolding new_object
  added-IsValid new = record {
    linked = Linked-insert c.allnodes c.objects c.fresh (new_object v) valid.linked nothing;
    unborn =
        λ p h. ground (arith, lookup-insert c.fresh p (new_object v) c.objects, valid.unborn p);
    by_type = Tidy-add is_normal type valid.by_type c.fresh (new_object v) nothing new;
    by_cluster = Tidy-add is_harbor cluster valid.by_cluster c.fresh (new_object v) nothing new;
  }
    where
      nothing : lookup c.fresh c.objects ≡ none
      nothing = valid.unborn c.fresh (omega arith)

  -- The first loop keeps the invariant where a visible node's address is not known yet.
  pub add_one-IsValid :
      (is_visible c v ≡ true → lookup v.addr c.allnodes ≡ none) → IsValid (add_one c v)
  add_one-IsValid new = elim (Bool-cases (is_visible c v)) [
    | inl seen ↦ rw (add_one-added seen) (added-IsValid (new seen))
    | inr hidden ↦ unfold add_one in rw hidden valid
  ]

module _ (c : NodeCache) (p : Pointer) (n : NodeObject) (valid : IsValid c)
    (at_p : lookup p c.objects ≡ some n) (known : lookup n.addr c.allnodes ≡ some p) where
  abbrev pub removed : NodeCache
  removed = record c {
    objects = insert p (close_socket n) c.objects;
    allnodes = delete n.addr c.allnodes;
    nodes =
        if n.available
        then (if is_normal n.addr then remove_from (type n.addr) p c.nodes else c.nodes)
        else c.nodes;
    harbors =
        if n.available
        then (if is_harbor n.addr then remove_from (cluster n.addr) p c.harbors else c.harbors)
        else c.harbors;
  }

  pub remove_found-removed : remove_found c (some (p, n)) ≡ ok removed
  unfolding remove_found delist remove_node remove_harbor put_object
  remove_found-removed = ground arith

  pub removed-IsValid : IsValid removed
  unfolding close_socket
  removed-IsValid = record {
    linked =
        Linked-delete c.allnodes (insert p (close_socket n) c.objects) n.addr
          (Linked-put c.allnodes c.objects p n (close_socket n) valid.linked at_p refl);
    unborn = unborn_put c p n (close_socket n) valid at_p;
    by_type = Tidy-remove is_normal type valid.by_type p n (close_socket n) at_p known refl;
    by_cluster =
        Tidy-remove is_harbor cluster valid.by_cluster p n (close_socket n) at_p known refl;
  }

  -- The object is replaced, and the groups follow the change of its availability.
  module _ (n' : NodeObject) (same : n'.addr ≡ n.addr) where
    pub touched-IsValid : n'.available ≡ n.available → IsValid (put_object c p n')
    unfolding put_object
    touched-IsValid e = record {
      linked = Linked-put c.allnodes c.objects p n n' valid.linked at_p same;
      unborn = unborn_put c p n n' valid at_p;
      by_type = Tidy-touch is_normal type valid.by_type p n n' at_p same e;
      by_cluster = Tidy-touch is_harbor cluster valid.by_cluster p n n' at_p same e;
    }

    abbrev raised_cache : NodeCache
    raised_cache = record c {
      objects = insert p n' c.objects;
      nodes = if is_normal n'.addr then add_to (type n'.addr) p c.nodes else c.nodes;
      harbors = if is_harbor n'.addr then add_to (cluster n'.addr) p c.harbors else c.harbors;
    }

    enlist_raised : enlist (put_object c p n') p n' ≡ raised_cache
    unfolding enlist add_node add_harbor put_object
    enlist_raised = ground arith

    enlist-IsValid :
        n.available ≡ false → n'.available ≡ true → IsValid (enlist (put_object c p n') p n')
    enlist-IsValid e e' = rw enlist_raised (record {
      linked = Linked-put c.allnodes c.objects p n n' valid.linked at_p same;
      unborn = unborn_put c p n n' valid at_p;
      by_type = Tidy-raise is_normal type valid.by_type p n n' at_p known same e e';
      by_cluster = Tidy-raise is_harbor cluster valid.by_cluster p n n' at_p known same e e';
    })

    abbrev lowered_cache : NodeCache
    lowered_cache = record c {
      objects = insert p n' c.objects;
      nodes = if is_normal n'.addr then remove_from (type n'.addr) p c.nodes else c.nodes;
      harbors = if is_harbor n'.addr then remove_from (cluster n'.addr) p c.harbors else c.harbors;
    }

    delist_lowered : delist (put_object c p n') p n' ≡ lowered_cache
    unfolding delist remove_node remove_harbor put_object
    delist_lowered = ground arith

    delist-IsValid :
        n.available ≡ true → n'.available ≡ false → IsValid (delist (put_object c p n') p n')
    delist-IsValid e e' = rw delist_lowered (record {
      linked = Linked-put c.allnodes c.objects p n n' valid.linked at_p same;
      unborn = unborn_put c p n n' valid at_p;
      by_type = Tidy-lower is_normal type valid.by_type p n n' at_p known same e e';
      by_cluster = Tidy-lower is_harbor cluster valid.by_cluster p n n' at_p known same e e';
    })

  pub set_available-IsValid : (v : NodeInfo) → IsValid (set_available c v p n)
  unfolding set_available
  set_available-IsValid v = elim (Bool-cases v.available) [
    | inl up ↦ elim (Bool-cases n.available) [
      | inl was ↦ rw (up, was) valid
      | inr was ↦ rw (up, was) (enlist-IsValid (record n { available = true }) refl was refl)
    ]
    | inr down ↦ elim (Bool-cases n.available) [
      | inl was ↦ rw (down, was) (delist-IsValid (record n { available = false }) refl was refl)
      | inr was ↦ rw (down, was) valid
    ]
  ]
