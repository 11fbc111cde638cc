-- ===== src/Cluster/Cache/Update.antt =====
-- `onNodeInfoUpdate` as a whole: on changes that fit the cache it ends without a panic and keeps the
-- invariant; a node that is added twice leaves the first one behind in its group.
use clustergo.Cluster.Cache.{
  NodeObject, NodeCache, enlist, add_node, close_socket, put_object, is_visible, new_object,
  add_one, find_node, remove_one, move_node, update_found, update_one, add_all, remove_all,
  update_all, finish, on_node_info_update, Round,
}
use clustergo.Cluster.Cache.Invariant.{
  IsValid, add_one-IsValid, removed-IsValid, remove_found-removed, touched-IsValid,
  set_available-IsValid,
}
use clustergo.Cluster.Groups.{Pointer, count, group, group-add_to, count-append}
use clustergo.Membership.{NodeInfo, MemberInfo}
use clustergo.Addr.{LogicAddr, harbor_type, type}
use clustergo.Common.{
  ◌≡◌, ◌≢◌, refl, sym, arith, true, false, List, [], ◌∷◌, none, some, ◌==◌, ok, err, panic, ◌>>=◌,
  Bool-cases, Option-cases, inl, inr,
}
use clustergo.Common.Table.{lookup, lookup-insert, nat_eq, bytes_beq}

-- A round, early return included, that ends in a valid cache.
abbrev pub Keeps : Round → Type 0
Keeps (ok c) = IsValid c
Keeps (err c) = IsValid c
Keeps panic = ⊥

abbrev pub Then : Round → (NodeCache → Type 0) → Type 0
Then (ok c) P = P c
Then (err c) P = Unit {0}
Then panic P = Unit {0}

-- A visible node that is to be added has an address that is not known yet.
abbrev pub AddsFit : NodeCache → List NodeInfo → Type 0
AddsFit c [] = Unit {0}
AddsFit c (v ∷ vs) =
    (is_visible c v ≡ true → lookup v.addr c.allnodes ≡ none) × AddsFit (add_one c v) vs

-- A visible node that is to be removed, other than the node itself, is known.
abbrev pub RemovesFit : NodeCache → List NodeInfo → Type 0
RemovesFit c [] = Unit {0}
RemovesFit c (v ∷ vs) =
    (is_visible c v ≡ true → v.addr ≢ c.local_addr → lookup v.addr c.allnodes ≢ none)
    × Then (remove_one c v) (λ c'. RemovesFit c' vs)

-- A visible node that is to be updated is known.
abbrev pub UpdatesFit : NodeCache → List NodeInfo → Type 0
UpdatesFit c [] = Unit {0}
UpdatesFit c (v ∷ vs) =
    (is_visible c v ≡ true → lookup v.addr c.allnodes ≢ none)
    × Then (update_one c v) (λ c'. UpdatesFit c' vs)

pub record Fits (c : NodeCache) (info : MemberInfo) : Type 0 where
  pub adds : AddsFit c info.add
  pub removes : RemovesFit (add_all c info.add) info.remove
  pub updates : Then (remove_all (add_all c info.add) info.remove) (λ c'. UpdatesFit c' info.update)

find_known :
    (c : NodeCache) (a : LogicAddr)
    → IsValid c
    → lookup a c.allnodes ≢ none
    → (p : Pointer) × (n : NodeObject) × (find_node c a ≡ some (p, n))
      × (lookup p c.objects ≡ some n)
      × (lookup n.addr c.allnodes ≡ some p)
unfolding find_node
find_known c a valid h = elim (Option-cases (lookup a c.allnodes)) [
  | inl e ↦ absurd (h e)
  | inr (p, e) ↦
      let (n, at_p, same) = valid.linked a p e in (p, n, ground (arith, e, at_p), at_p, rw same e)
]

module _ (c : NodeCache) (v : NodeInfo) (valid : IsValid c) where
  pub remove_one-Keeps :
      (is_visible c v ≡ true → v.addr ≢ c.local_addr → lookup v.addr c.allnodes ≢ none)
      → Keeps (remove_one c v)
  unfolding remove_one
  remove_one-Keeps h = elim (Bool-cases (is_visible c v)) [
    | inl seen ↦ elim (Bool-cases (v.addr == c.local_addr)) [
      | inl self ↦ rw (seen, self) valid
      | inr away ↦
          let (p, n, found, at_p, known) = find_known c v.addr valid (h seen (ground arith)) in
          rw (seen, away, found, remove_found-removed c p n valid at_p known)
            (removed-IsValid c p n valid at_p known)
    ]
    | inr hidden ↦ rw hidden valid
  ]

  module _ (p : Pointer) (n : NodeObject) (at_p : lookup p c.objects ≡ some n)
      (known : lookup n.addr c.allnodes ≡ some p) where
    update_found-Keeps : Keeps (update_found c v (some (p, n)))
    unfolding update_found move_node
    update_found-Keeps = elim (Bool-cases (bytes_beq v.net_addr n.net_addr)) [
      | inl same ↦ rw same (set_available-IsValid c p n valid at_p known v)
      | inr moved ↦ elim (Bool-cases (n.addr == c.local_addr)) [
        | inl self ↦ rw (moved, self) valid
        | inr away ↦
            rw (moved, away) (set_available-IsValid (put_object c p n') p n' touched at_p' known' v)
      ]
    ]
      where
        n' : NodeObject
        n' = record (close_socket n) { net_addr = v.net_addr }

        touched : IsValid (put_object c p n')
        touched = unfold close_socket in touched-IsValid c p n valid at_p known n' refl refl

        at_p' : lookup p (put_object c p n').objects ≡ some n'
        at_p' = unfold put_object in ground (arith, lookup-insert p p n' c.objects)

        known' : lookup n'.addr (put_object c p n').allnodes ≡ some p
        known' = unfold put_object close_socket in known

  pub update_one-Keeps :
      (is_visible c v ≡ true → lookup v.addr c.allnodes ≢ none) → Keeps (update_one c v)
  unfolding update_one
  update_one-Keeps h = elim (Bool-cases (is_visible c v)) [
    | inl seen ↦
        let (p, n, found, at_p, known) = find_known c v.addr valid (h seen) in
        rw seen (rw found (update_found-Keeps p n at_p known))
    | inr hidden ↦ rw hidden valid
  ]

add_all-IsValid :
    (c : NodeCache) (vs : List NodeInfo) → IsValid c → AddsFit c vs → IsValid (add_all c vs)
unfolding add_all
add_all-IsValid c [] valid h = valid
add_all-IsValid c (v ∷ vs) valid h =
    add_all-IsValid (add_one c v) vs (add_one-IsValid c v valid h.0) h.1

remove_all-Keeps :
    (c : NodeCache) (vs : List NodeInfo) → IsValid c → RemovesFit c vs → Keeps (remove_all c vs)
unfolding remove_all
remove_all-Keeps c [] valid h = valid
remove_all-Keeps c (v ∷ vs) valid h =
    go (remove_one c v) (remove_one-Keeps c v valid h.0) h.1 (λ c'. remove_all-Keeps c' vs)
  where
    go :
        (r : Round)
        → Keeps r
        → Then r (λ c'. RemovesFit c' vs)
        → ((c' : NodeCache) → IsValid c' → RemovesFit c' vs → Keeps (remove_all c' vs))
        → Keeps (r >>= λ c'. remove_all c' vs)
    go (ok c') k t later = later c' k t
    go (err c') k t later = k
    go panic k t later = k

update_all-Keeps :
    (c : NodeCache) (vs : List NodeInfo) → IsValid c → UpdatesFit c vs → Keeps (update_all c vs)
unfolding update_all
update_all-Keeps c [] valid h = valid
update_all-Keeps c (v ∷ vs) valid h =
    go (update_one c v) (update_one-Keeps c v valid h.0) h.1 (λ c'. update_all-Keeps c' vs)
  where
    go :
        (r : Round)
        → Keeps r
        → Then r (λ c'. UpdatesFit c' vs)
        → ((c' : NodeCache) → IsValid c' → UpdatesFit c' vs → Keeps (update_all c' vs))
        → Keeps (r >>= λ c'. update_all c' vs)
    go (ok c') k t later = later c' k t
    go (err c') k t later = k
    go panic k t later = k

finish-Keeps :
    (r : Round) → Keeps r → (c : NodeCache) × (finish r ≡ ok c) × IsValid c × (c.initialised ≡ true)
unfolding finish
finish-Keeps (ok c) k = (
  record c { initialised = true },
  refl,
  record { linked = k.linked; unborn = k.unborn; by_type = k.by_type; by_cluster = k.by_cluster },
  refl,
)
finish-Keeps (err c) k = (
  record c { initialised = true; stopping = true },
  refl,
  record { linked = k.linked; unborn = k.unborn; by_type = k.by_type; by_cluster = k.by_cluster },
  refl,
)
finish-Keeps panic k = absurd k

-- On a valid cache and a change that fits it (added addresses are new, removed and updated ones are
-- known), `onNodeInfoUpdate` ends without a panic, in a valid cache that is marked as initialised;
-- also when it returns early because the node itself was removed or moved.
pub on_node_info_update-IsValid :
    (c : NodeCache) (info : MemberInfo)
    → IsValid c
    → Fits c info
    → (c' : NodeCache) × (on_node_info_update c info ≡ ok c') × IsValid c' × (c'.initialised ≡ true)
unfolding on_node_info_update
on_node_info_update-IsValid c info valid f = finish-Keeps _ (
    go (remove_all (add_all c info.add) info.remove)
      (remove_all-Keeps (add_all c info.add) info.remove (add_all-IsValid c info.add valid f.adds)
        f.removes)
      f.updates)
  where
    go :
        (r : Round)
        → Keeps r
        → Then r (λ c'. UpdatesFit c' info.update)
        → Keeps (r >>= λ c'. update_all c' info.update)
    go (ok c') k t = update_all-Keeps c' info.update k t
    go (err c') k t = k
    go panic k t = k

-- Where a visible node that is no harbor, and whose object is available, is added once more under its
-- address by `onNodeInfoUpdate`: `allnodes` has a new object for it afterwards, with the net address
-- that was added and no connection; the old object is there as before, and it still stands once in the
-- group of the type.
pub on_node_info_update_stale :
    (c : NodeCache) (v : NodeInfo) (p : Pointer) (n : NodeObject)
    → IsValid c
    → is_visible c v ≡ true
    → lookup v.addr c.allnodes ≡ some p
    → lookup p c.objects ≡ some n
    → n.available ≡ true
    → type v.addr ≢ harbor_type
    → (c' : NodeCache) × (q : Pointer) × (on_node_info_update c
          (record { add = v ∷ []; remove = []; update = [] })
        ≡ ok c')
      × (q ≢ p)
      × (lookup v.addr c'.allnodes ≡ some q)
      × (lookup q c'.objects
          ≡ some (record {
            addr = v.addr;
            net_addr = v.net_addr;
            available = v.available;
            has_socket = false;
            has_session = false;
          }))
      × (lookup p c'.objects ≡ some n)
      × (count p (group (type v.addr) c'.nodes) ≡ 1)
unfolding on_node_info_update add_all remove_all update_all finish add_one enlist add_node
    new_object
on_node_info_update_stale c v p n valid seen known at_p up normal =
    let (m, at_p', same) = valid.linked v.addr p known in
    let old : n.addr ≡ v.addr = ground (arith, at_p, at_p', same) in
    let new : p ≢ c.fresh = λ e. cc (at_p, valid.unborn p (omega (arith, e))) in
    let k = type v.addr in
    (
      record (add_one c v) { initialised = true },
      c.fresh,
      refl,
      λ e. new (sym e),
      ground (arith, seen, lookup-insert v.addr v.addr c.fresh c.allnodes),
      ground (arith, seen, lookup-insert c.fresh c.fresh (new_object v) c.objects),
      ground (arith, seen, new, at_p, lookup-insert c.fresh p (new_object v) c.objects),
      ground (
        arith,
        seen,
        new,
        known,
        at_p,
        up,
        old,
        valid.by_type.counts p k,
        group-add_to k k c.fresh c.nodes,
        count-append p (group k c.nodes) (c.fresh ∷ []),
      ),
    )
