-- ===== src/Cluster/Cache/Select.antt =====
-- Choosing a node from the cache: by type, and a harbor by cluster.
use clustergo.Cluster.Cache.{NodeObject, NodeCache, get_normal_node, get_harbor, pick}
use clustergo.Cluster.Cache.Invariant.{IsValid, is_normal, is_harbor}
use clustergo.Cluster.Cache.Tidy.{Tidy}
use clustergo.Cluster.Groups.{Pointer, count, group}
use clustergo.Addr.{LogicAddr, harbor_type, cluster, type}
use clustergo.Common.{
  ℕ, zero, suc, ◌%◌, ◌<◌, ◌≡◌, ◌≢◌, refl, arith, Bool, true, List, [], ◌∷◌, some, ok, length,
  get_elem?, Option-cases, inl, inr,
}
use clustergo.Common.Int.{ℤ, pos, negsuc}
use clustergo.Common.Table.{Table, lookup, nat_eq}

-- A node that may be chosen: known, alive and available.
pub record IsUsable (c : NodeCache) (p : Pointer) (n : NodeObject) : Type 0 where
  pub stands : lookup p c.objects ≡ some n
  pub known : lookup n.addr c.allnodes ≡ some p
  pub up : n.available ≡ true

get_elem?-count : (xs : List Pointer) (i p : ℕ) → get_elem? xs i ≡ some p → 0 < count p xs
get_elem?-count [] i p e = cc
get_elem?-count (x ∷ xs) zero p e = ground arith
get_elem?-count (x ∷ xs) (suc i) p e = omega (arith, get_elem?-count xs i p e)

get_elem?-some :
    (xs : List Pointer) (i : ℕ) → i < length xs → (p : Pointer) × (get_elem? xs i ≡ some p)
get_elem?-some [] i h = absurd (omega arith)
get_elem?-some (x ∷ xs) zero h = (x, refl)
get_elem?-some (x ∷ xs) (suc i) h = get_elem?-some xs i (omega arith)

-- What stands in a group of a tidy map is usable and of the group's key.
grouped :
    (kind : LogicAddr → Bool) (key : LogicAddr → ℕ) (c : NodeCache) (t : Table ℕ (List Pointer))
    (p : Pointer) (k : ℕ)
    → Tidy kind key c.objects c.allnodes t
    → 0 < count p (group k t)
    → (n : NodeObject) × IsUsable c p n × (kind n.addr ≡ true) × (key n.addr ≡ k)
grouped kind key c t p k tidy h = elim (Option-cases (lookup p c.objects)) [
  | inl e ↦ absurd (ground (arith, e, tidy.counts p k))
  | inr (n, e) ↦ elim (Option-cases (lookup n.addr c.allnodes)) [
    | inl none_there ↦ absurd (ground (arith, e, none_there, tidy.counts p k))
    | inr (q, there) ↦ (
      n,
      record {
        stands = e;
        known = ground (arith, e, there, tidy.counts p k);
        up = ground (arith, e, there, tidy.counts p k);
      },
      ground (arith, e, there, tidy.counts p k),
      ground (arith, e, there, tidy.counts p k),
    )
  ]
]

module _ (rand : ℕ → ℕ) where
  picked : (xs : List Pointer) (n : ℤ) (p : Pointer) → pick rand xs n ≡ ok (some p) → 0 < count p xs
  unfolding pick
  picked xs (pos zero) p e = get_elem?-count xs (rand (length xs)) p (ground arith)
  picked xs (pos (suc n)) p e = get_elem?-count xs (suc n % length xs) p (ground arith)
  picked xs (negsuc n) p e = get_elem?-count xs 0 p (ground arith)

  -- A node that `getNormalNode` hands out of a valid cache is known and available, of the type asked
  -- for and no harbor.
  pub get_normal_node-IsUsable :
      (c : NodeCache) (k : ℕ) (i : ℤ) (p : Pointer)
      → IsValid c
      → get_normal_node rand c k i ≡ ok (some p)
      → (n : NodeObject) × IsUsable c p n × (type n.addr ≡ k) × (k ≢ harbor_type)
  unfolding get_normal_node
  get_normal_node-IsUsable c k i p valid e =
      let (n, usable, normal, same) =
        grouped is_normal type c c.nodes p k valid.by_type
          (picked (group k c.nodes) i p (ground arith)) in
      (n, usable, same, ground arith)

  -- If a known node that is no harbor is available, then for its type and any number that is not
  -- negative `getNormalNode` finds some node, `rand.Intn` being below its argument.
  pub get_normal_node_finds :
      (c : NodeCache) (p : Pointer) (n : NodeObject) (i : ℕ)
      → IsValid c
      → ((k : ℕ) → 0 < k → rand k < k)
      → IsUsable c p n
      → type n.addr ≢ harbor_type
      → (q : Pointer) × (get_normal_node rand c (type n.addr) (pos i) ≡ ok (some q))
  unfolding get_normal_node
  get_normal_node_finds c p n i valid below u normal =
      let (q, e) =
        found (group (type n.addr) c.nodes) i (longer (group (type n.addr) c.nodes) stands) in
      (q, ground (arith, longer (group (type n.addr) c.nodes) stands, e))
    where
      stands : 0 < count p (group (type n.addr) c.nodes)
      stands = ground (arith, u.stands, u.known, u.up, valid.by_type.counts p (type n.addr))

      longer : (xs : List Pointer) → 0 < count p xs → 0 < length xs
      longer [] h = absurd (omega arith)
      longer (x ∷ xs) h = omega arith

      found :
          (xs : List Pointer) (j : ℕ)
          → 0 < length xs
          → (q : Pointer) × (pick rand xs (pos j) ≡ ok (some q))
      found xs zero h =
          let (q, e) = get_elem?-some xs (rand (length xs)) (below (length xs) h) in
          (q, unfold pick in ground (arith, e))
      found xs (suc j) h =
          let (q, e) = get_elem?-some xs (suc j % length xs) (grind arith) in
          (q, unfold pick in ground (arith, e))

-- A harbor that `getHarbor` hands out of a valid cache is known, available, of the harbor type and of
-- the cluster asked for.
pub get_harbor-IsUsable :
    (c : NodeCache) (k : ℕ) (m : LogicAddr) (p : Pointer)
    → IsValid c
    → get_harbor c k m ≡ some p
    → (n : NodeObject) × IsUsable c p n × (type n.addr ≡ harbor_type) × (cluster n.addr ≡ k)
unfolding get_harbor
get_harbor-IsUsable c k m p valid e =
    let (n, usable, harbor, same) =
      grouped is_harbor cluster c c.harbors p k valid.by_cluster
        (get_elem?-count (group k c.harbors) (m % length (group k c.harbors)) p (ground arith)) in
    (n, usable, ground (arith, harbor), same)
