-- ===== src/Membership/Etcd/Watch.antt =====
-- The subscriber's copy behind the events of the watch is the map that the updates and removals make.
use clustergo.Membership.{NodeInfo, MemberInfo, Json}
use clustergo.Membership.Node.{ReadsBack, IsOrdinary, unmarshal-marshal_node}
use clustergo.Membership.Etcd.{
  Key, Mirror, EtcdEvent, key_of, put_node, put_read, delete_found, config_event, config_events,
  handle_config_events, update_member, remove_member,
}
use clustergo.Addr.{LogicAddr, string}
use clustergo.Common.{
  ℕ, ◌≡◌, refl, sym, ap, ◌∙◌, List, [], ◌∷◌, ◌++◌, Option, none, some, length, drop,
  drop-append_left, if◌then◌else◌, Bool-cases, inl, inr, All, map,
}
use clustergo.Common.Table.{
  Table, lookup, insert, delete, bytes_eq, bytes_beq, bytes_beq_iff, lookup-insert, lookup-delete,
}

-- What is done to the members of a cluster.
pub data Change : Type 0 where
  updates : NodeInfo → Change
  removes : LogicAddr → Change

-- The specification: a map.
abbrev pub after_changes : List Change → Table Key NodeInfo → Table Key NodeInfo
after_changes [] t = t
after_changes (updates n ∷ cs) t = after_changes cs (insert (string n.addr) n t)
after_changes (removes a ∷ cs) t = after_changes cs (delete (string a) t)

module _ (json : Json) (resolve : List ℕ → Option (List ℕ)) (prefix : List ℕ) where
  abbrev pub event_of : Change → EtcdEvent
  event_of (updates n) = update_member json prefix n
  event_of (removes a) = remove_member prefix a

  abbrev pub IsAllowed : Change → Type 0
  IsAllowed (updates n) =
      ReadsBack json n × (resolve n.net_addr ≡ some n.net_addr) × IsOrdinary n.addr
  IsAllowed (removes a) = Unit

  delete_found-lookup :
      (a k : Key) (o : Option NodeInfo) (acc : Mirror × MemberInfo)
      → lookup a acc.0.members ≡ o
      → lookup k (delete_found a o acc).0.members
        ≡ (if bytes_beq a k then none else lookup k acc.0.members)
  unfolding delete_found
  delete_found-lookup a k (some n) (s, info) e = lookup-delete a k s.members
  delete_found-lookup a k none (s, info) e = elim (Bool-cases (bytes_beq a k)) [
    | inl same ↦
        let eq : a ≡ k = (bytes_beq_iff a k).0 same in
        rw same (ap (λ i. lookup i s.members) (sym eq) ∙ e)
    | inr differ ↦ rw differ refl
  ]

  after_changes_same :
      (cs : List Change) (t t' : Table Key NodeInfo)
      → ((k : Key) → lookup k t ≡ lookup k t')
      → (k : Key) → lookup k (after_changes cs t) ≡ lookup k (after_changes cs t')
  after_changes_same [] t t' h k = h k
  after_changes_same (updates n ∷ cs) t t' h k =
      after_changes_same cs (insert (string n.addr) n t) (insert (string n.addr) n t')
        (λ j.
          lookup-insert (string n.addr) j n t
          ∙ ap (λ x. if bytes_beq (string n.addr) j then some n else x) (h j)
          ∙ sym (lookup-insert (string n.addr) j n t'))
        k
  after_changes_same (removes a ∷ cs) t t' h k =
      after_changes_same cs (delete (string a) t) (delete (string a) t')
        (λ j.
          lookup-delete (string a) j t
          ∙ ap (λ x. if bytes_beq (string a) j then none else x) (h j)
          ∙ sym (lookup-delete (string a) j t'))
        k

  config_events-lookup :
      (cs : List Change) (acc : Mirror × MemberInfo) (k : Key)
      → All IsAllowed cs
      → lookup k (config_events json resolve prefix (map event_of cs) acc).0.members
        ≡ lookup k (after_changes cs acc.0.members)
  unfolding config_events config_event put_read put_node update_member remove_member key_of
  config_events-lookup [] acc k h = refl
  config_events-lookup (updates n ∷ cs) acc k ((back, found, o), hs) =
      ap
        (λ r.
          lookup k (config_events json resolve prefix (map event_of cs) (put_read r acc)).0.members)
        (unmarshal-marshal_node json resolve n back found o)
      ∙ config_events-lookup cs (put_node n acc) k hs
  config_events-lookup (removes a ∷ cs) acc k (h, hs) =
      let key : drop (length prefix) (prefix ++ string a) ≡ string a =
        drop-append_left (length prefix) prefix (string a) refl in
      ap
        (λ x.
          lookup k
            (config_events json resolve prefix (map event_of cs)
              (delete_found x (lookup x acc.0.members) acc)).0.members)
        key
      ∙ config_events-lookup cs (delete_found (string a) (lookup (string a) acc.0.members) acc) k hs
      ∙ after_changes_same cs
          (delete_found (string a) (lookup (string a) acc.0.members) acc).0.members
          (delete (string a) acc.0.members)
          (λ j.
            delete_found-lookup (string a) j (lookup (string a) acc.0.members) acc refl
            ∙ sym (lookup-delete (string a) j acc.0.members))
          k

  -- The events of a watch that updates and removals bring about, in order, for nodes that are read back:
  -- behind them the subscriber's copy has at every address the node of a map in which each update
  -- inserts and each removal deletes, starting from the copy as it was.
  pub handle_config_events-after_changes :
      (s : Mirror) (cs : List Change) (k : Key)
      → All IsAllowed cs
      → lookup k (handle_config_events json resolve prefix s (map event_of cs)).0.members
        ≡ lookup k (after_changes cs s.members)
  unfolding handle_config_events
  handle_config_events-after_changes s cs k h = config_events-lookup cs (s, _) k h
