-- ===== src/Membership/Etcd.antt =====
-- membership/etcd/etcd.go: the subscriber's copy and the events of its two watches, which are what etcd
-- hands out.
pub mod Watch
pub mod Read
use clustergo.Membership.{NodeInfo, MemberInfo, NodeError, Json, marshal, unmarshal}
use clustergo.Addr.{LogicAddr, string}
use clustergo.Common.{
  ℕ, Bool, true, false, ◌&&◌, List, [], ◌∷◌, ◌++◌, Option, none, some, length, drop, if◌then◌else◌,
  Outcome, ok, err, panic,
}
use clustergo.Common.Table.{Table, lookup, insert, delete, bytes_eq}

abbrev pub Key : Type 0
Key = List ℕ

pub record Mirror : Type 0 where
  pub alive : Table Key (Unit {0})
  pub members : Table Key NodeInfo

-- `EventTypePut` with the value, and `EventTypeDelete`.
pub data EtcdEvent : Type 0 where
  put_event : List ℕ → List ℕ → EtcdEvent
  delete_event : List ℕ → EtcdEvent

abbrev pub is_some : {A : Type 0} → Option A → Bool
is_some none = false
is_some (some a) = true

unfoldable pub is_alive : Mirror → Key → Bool
is_alive s addr = is_some (lookup addr s.alive)

-- `string(ev.Kv.Key)[len(prefix):]`; etcd gives keys that have the prefix.
unfoldable pub key_of : List ℕ → List ℕ → Key
key_of prefix key = drop (length prefix) key

-- A node as it is reported, with the mark that it is reported with.
abbrev pub seen : NodeInfo → Bool → NodeInfo
seen n available = record n { available = available }

-- A put whose value was read as `n`.
unfoldable pub put_node : NodeInfo → Mirror × MemberInfo → Mirror × MemberInfo
put_node n (s, info) =
    let addr = string n.addr in
    let nn = seen n (is_alive s addr && n.available) in
    (
      record s { members = insert addr n s.members },
      if is_some (lookup addr s.members)
          then record info { update = info.update ++ (nn ∷ []) }
          else record info { add = info.add ++ (nn ∷ []) },
    )

unfoldable pub put_read : Outcome NodeError NodeInfo → Mirror × MemberInfo → Mirror × MemberInfo
put_read (ok n) acc = put_node n acc
put_read (err e) acc = acc
put_read panic acc = acc

unfoldable pub delete_found : Key → Option NodeInfo → Mirror × MemberInfo → Mirror × MemberInfo
delete_found addr none acc = acc
delete_found addr (some n) (s, info) = (
  record s { members = delete addr s.members },
  record info { remove = info.remove ++ (seen n false ∷ []) },
)

module _ (json : Json) (resolve : List ℕ → Option (List ℕ)) (prefix : List ℕ) where
  unfoldable pub config_event : EtcdEvent → Mirror × MemberInfo → Mirror × MemberInfo
  config_event (put_event key value) acc = put_read (unmarshal json resolve value) acc
  config_event (delete_event key) acc =
      delete_found (key_of prefix key) (lookup (key_of prefix key) acc.0.members) acc

  unfoldable pub config_events : List EtcdEvent → Mirror × MemberInfo → Mirror × MemberInfo
  config_events [] acc = acc
  config_events (e ∷ es) acc = config_events es (config_event e acc)

  -- `handleConfigEvents`, and what its callback is handed, if it is not empty.
  unfoldable pub handle_config_events : Mirror → List EtcdEvent → Mirror × MemberInfo
  handle_config_events s events =
      config_events events (s, record { add = []; remove = []; update = [] })

unfoldable pub alive_put : Key → Option (Unit {0}) → Mirror × List NodeInfo → Mirror × List NodeInfo
alive_put addr (some x) acc = acc
alive_put addr none (s, updates) = (
  record s { alive = insert addr tt s.alive },
  elim (lookup addr s.members) [
    | some n ↦ if n.available then updates ++ (seen n true ∷ []) else updates
    | none ↦ updates
  ],
)

unfoldable pub alive_delete :
    Key → Option (Unit {0}) → Mirror × List NodeInfo → Mirror × List NodeInfo
alive_delete addr none acc = acc
alive_delete addr (some x) (s, updates) = (
  record s { alive = delete addr s.alive },
  elim (lookup addr s.members) [ some n ↦ updates ++ (seen n false ∷ []) | none ↦ updates ],
)

module _ (prefix : List ℕ) where
  unfoldable pub alive_event : EtcdEvent → Mirror × List NodeInfo → Mirror × List NodeInfo
  alive_event (put_event key value) acc =
      alive_put (key_of prefix key) (lookup (key_of prefix key) acc.0.alive) acc
  alive_event (delete_event key) acc =
      alive_delete (key_of prefix key) (lookup (key_of prefix key) acc.0.alive) acc

  unfoldable pub alive_events : List EtcdEvent → Mirror × List NodeInfo → Mirror × List NodeInfo
  alive_events [] acc = acc
  alive_events (e ∷ es) acc = alive_events es (alive_event e acc)

  -- `handleAliveEvents`
  unfoldable pub handle_alive_events : Mirror → List EtcdEvent → Mirror × List NodeInfo
  handle_alive_events s events = alive_events events (s, [])

-- The events that `UpdateMember` and `RemoveMember` bring about.
module _ (json : Json) (prefix : List ℕ) where
  unfoldable pub update_member : NodeInfo → EtcdEvent
  update_member n = put_event (prefix ++ string n.addr) (marshal json n)

unfoldable pub remove_member : List ℕ → LogicAddr → EtcdEvent
remove_member prefix a = delete_event (prefix ++ string a)
