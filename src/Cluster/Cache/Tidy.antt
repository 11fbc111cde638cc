-- ===== src/Cluster/Cache/Tidy.antt =====
-- One of the two grouped maps, over a kind of node and the key that it is grouped by: a node stands in
-- its group once if it is available and `allnodes` has it, and otherwise not at all.
use clustergo.Cluster.Cache.{NodeObject}
use clustergo.Cluster.Groups.{
  Pointer, bit, count, group, add_to, remove_from, count-append, count-swap_remove, group-add_to,
  group-remove_from,
}
use clustergo.Addr.{LogicAddr}
use clustergo.Common.{
  ℕ, ◌≡◌, arith, Bool, true, false, ◌&&◌, List, [], ◌∷◌, none, some, ◌==◌, if◌then◌else◌,
  Option-cases, inl, inr,
}
use clustergo.Common.Table.{Table, lookup, insert, delete, lookup-insert, lookup-delete, nat_eq}

abbrev pub points : Table LogicAddr Pointer → LogicAddr → Pointer → Bool
points all a p = elim (lookup a all) [ none ↦ false | some q ↦ q == p ]

module _ (kind : LogicAddr → Bool) (key : LogicAddr → ℕ) where
  abbrev entitled : Table LogicAddr Pointer → Pointer → NodeObject → ℕ → Bool
  entitled all p n k = n.available && (kind n.addr && ((key n.addr == k) && points all n.addr p))

  abbrev pub in_group : Table Pointer NodeObject → Table LogicAddr Pointer → Pointer → ℕ → Bool
  in_group objects all p k = elim (lookup p objects) [ none ↦ false | some n ↦ entitled all p n k ]

  pub record Tidy (objects : Table Pointer NodeObject) (all : Table LogicAddr Pointer)
      (t : Table ℕ (List Pointer)) : Type 0 where
    pub counts : (p : Pointer) (k : ℕ) → count p (group k t) ≡ bit (in_group objects all p k)

  abbrev pub raised : LogicAddr → Pointer → Table ℕ (List Pointer) → Table ℕ (List Pointer)
  raised a p t = if kind a then add_to (key a) p t else t

  abbrev pub lowered : LogicAddr → Pointer → Table ℕ (List Pointer) → Table ℕ (List Pointer)
  lowered a p t = if kind a then remove_from (key a) p t else t

  module _ {objects : Table Pointer NodeObject} {all : Table LogicAddr Pointer}
      {t : Table ℕ (List Pointer)} (tidy : Tidy objects all t) (p : Pointer) where
    -- A node under an address that was not known.
    pub Tidy-add :
        (n : NodeObject)
        → lookup p objects ≡ none
        → lookup n.addr all ≡ none
        → Tidy
            (insert p n objects)
            (insert n.addr p all)
            (if n.available then raised n.addr p t else t)
    Tidy-add n new unknown = record {
      counts = λ q k. elim (Option-cases (lookup q objects)) [
        | inl e ↦ ground (
          arith,
          e,
          new,
          unknown,
          tidy.counts q k,
          lookup-insert p q n objects,
          lookup-insert n.addr n.addr p all,
          group-add_to (key n.addr) k p t,
          count-append q (group k t) (p ∷ []),
        )
        | inr (m, e) ↦ ground (
          arith,
          e,
          new,
          unknown,
          tidy.counts q k,
          lookup-insert p q n objects,
          lookup-insert n.addr m.addr p all,
          group-add_to (key n.addr) k p t,
          count-append q (group k t) (p ∷ []),
        )
      ];
    }

    -- A node that leaves `allnodes`.
    pub Tidy-remove :
        (n n' : NodeObject)
        → lookup p objects ≡ some n
        → lookup n.addr all ≡ some p
        → n'.addr ≡ n.addr
        → Tidy
            (insert p n' objects)
            (delete n.addr all)
            (if n.available then lowered n.addr p t else t)
    Tidy-remove n n' at_p known same = record {
      counts = λ q k. elim (Option-cases (lookup q objects)) [
        | inl e ↦ ground (
          arith,
          e,
          at_p,
          tidy.counts q k,
          lookup-insert p q n' objects,
          lookup-delete n.addr n'.addr all,
          group-remove_from (key n.addr) k p t,
          count-swap_remove p q (group k t),
        )
        | inr (m, e) ↦ ground (
          arith,
          e,
          at_p,
          known,
          same,
          tidy.counts q k,
          lookup-insert p q n' objects,
          lookup-delete n.addr n'.addr all,
          lookup-delete n.addr m.addr all,
          group-remove_from (key n.addr) k p t,
          count-swap_remove p q (group k t),
        )
      ];
    }

    -- A node whose address and availability stay.
    pub Tidy-touch :
        (n n' : NodeObject)
        → lookup p objects ≡ some n
        → n'.addr ≡ n.addr
        → n'.available ≡ n.available
        → Tidy (insert p n' objects) all t
    Tidy-touch n n' at_p same available = record {
      counts = λ q k.
          ground (arith, at_p, same, available, tidy.counts q k, lookup-insert p q n' objects);
    }

    -- A node that becomes available, and one that ceases to be.
    pub Tidy-raise :
        (n n' : NodeObject)
        → lookup p objects ≡ some n
        → lookup n.addr all ≡ some p
        → n'.addr ≡ n.addr
        → n.available ≡ false
        → n'.available ≡ true
        → Tidy (insert p n' objects) all (raised n'.addr p t)
    Tidy-raise n n' at_p known same before after = record {
      counts = λ q k. ground (
        arith,
        at_p,
        known,
        same,
        before,
        after,
        tidy.counts q k,
        lookup-insert p q n' objects,
        group-add_to (key n'.addr) k p t,
        count-append q (group k t) (p ∷ []),
      );
    }

    pub Tidy-lower :
        (n n' : NodeObject)
        → lookup p objects ≡ some n
        → lookup n.addr all ≡ some p
        → n'.addr ≡ n.addr
        → n.available ≡ true
        → n'.available ≡ false
        → Tidy (insert p n' objects) all (lowered n'.addr p t)
    Tidy-lower n n' at_p known same before after = record {
      counts = λ q k. ground (
        arith,
        at_p,
        known,
        same,
        before,
        after,
        tidy.counts q k,
        lookup-insert p q n' objects,
        group-remove_from (key n'.addr) k p t,
        count-swap_remove p q (group k t),
      );
    }
