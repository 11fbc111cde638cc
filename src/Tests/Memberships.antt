-- ===== src/Tests/Memberships.antt =====
-- membership/membership.go, membership/redis and membership/etcd: nodes 1.2.4 and 1.255.1, and a form of JSON of its own.
use clustergo.Membership.{NodeInfo, NodeJson, Json, marshal, unmarshal, addr_failed}
use clustergo.Membership.Node.{
  ReadsBack, IsOrdinary, unmarshal-marshal_node, unmarshal-marshal_harbor,
}
use clustergo.Membership.Redis.Script.{Key, Member, MemberHash, full, bare, AliveHash, heartbeat}
use clustergo.Membership.Redis.Subscribe.{Subscriber, new_subscriber}
use clustergo.Membership.Redis.Heartbeat.{heartbeat_dead_twice}
use clustergo.Membership.Redis.Fetch.{IsReadable}
use clustergo.Membership.Redis.Runs.{
  Event, updates, removes, fetches, spec_all, empty_hash, fetch, run_step, run_all, IsAllowed,
}
use clustergo.Membership.Redis.Refines.{run_all-spec_all}
use clustergo.Membership.Redis.Resync.{resync_keeps_removed}
use clustergo.Membership.Etcd.{Mirror, handle_config_events}
use clustergo.Membership.Etcd.Read.{current_members, insert_read, get_members, get_members_settled}
use clustergo.Membership.Etcd.Watch.{
  Change, updates as puts, removes as deletes, after_changes, event_of,
  IsAllowed as ChangeIsAllowed, handle_config_events-after_changes,
}
use clustergo.Addr.{cluster, type, string, invalid_type}
use clustergo.Tests.Caches.{peer, gate}
use clustergo.Common.{
  ap, ℕ, ◌≡◌, ◌≢◌, refl, arith, Bool, true, false, List, [], ◌∷◌, ◌++◌, Option, none, some, ◌==◌,
  length, take, drop, take-append_left, drop-append_left, ok, err, map,
}
use clustergo.Common.Table.{lookup, bytes_eq, bytes_beq_iff, insert}

abbrev flag_byte : Bool → ℕ
flag_byte true = 1
flag_byte false = 0

abbrev read_flag : ℕ → Bool
read_flag n = n == 1

abbrev parse : List ℕ → Option NodeJson
parse (e ∷ a ∷ n ∷ rest) = some (record {
  logic_addr = take n rest;
  net_addr = drop n rest;
  export = read_flag e;
  available = read_flag a;
})
parse _ = none

abbrev text_json : Json
text_json = record {
  marshal = λ j.
      flag_byte j.export
      ∷ flag_byte j.available
      ∷ length j.logic_addr
      ∷ (j.logic_addr ++ j.net_addr);
  unmarshal = parse;
}

read_flag-flag_byte : (b : Bool) → read_flag (flag_byte b) ≡ b
read_flag-flag_byte true = refl
read_flag-flag_byte false = refl

text_json-ReadsBack : (n : NodeInfo) → ReadsBack text_json n
unfolding marshal
text_json-ReadsBack n =
    rw
      (
        take-append_left (length (string n.addr)) (string n.addr) n.net_addr refl,
        drop-append_left (length (string n.addr)) (string n.addr) n.net_addr refl,
        read_flag-flag_byte n.export,
        read_flag-flag_byte n.available,
      )
      refl

peer-IsOrdinary : IsOrdinary 264196
unfolding cluster type
peer-IsOrdinary = record {
  fits = omega arith;
  cluster_set = ground arith;
  type_set = ground arith;
  no_harbor = ground arith;
}

unmarshal-marshal_node_example :
    unmarshal text_json (λ s. some s) (marshal text_json peer) ≡ ok peer
unmarshal-marshal_node_example =
    unmarshal-marshal_node text_json (λ s. some s) peer (text_json-ReadsBack peer) refl
      peer-IsOrdinary

gate_cluster : cluster 523265 ≢ 0
unfolding cluster
gate_cluster = ground arith

gate_type : type 523265 ≡ 255
unfolding type
gate_type = refl

unmarshal-marshal_harbor_example :
    unmarshal text_json (λ s. some s) (marshal text_json gate) ≡ err (addr_failed invalid_type)
unmarshal-marshal_harbor_example =
    unmarshal-marshal_harbor text_json (λ s. some s) gate (text_json-ReadsBack gate) (omega arith)
      gate_cluster gate_type

abbrev history : List Event
history =
    updates peer
    ∷ fetches
    ∷ removes 264196
    ∷ updates peer
    ∷ removes 264196
    ∷ fetches
    ∷ updates peer
    ∷ []

run_all-spec_all_example :
    lookup
      (string 264196)
      (run_step text_json
        (λ s. some s)
        fetches
        (run_all text_json (λ s. some s) history (empty_hash, new_subscriber))).1.members
    ≡ lookup (string 264196) (spec_all history [])
run_all-spec_all_example =
    run_all-spec_all text_json (λ s. some s) history (string 264196)
      (put_in, (tt, (tt, (put_in, (tt, (tt, (put_in, tt)))))))
  where
    put_in : IsAllowed text_json (λ s. some s) (updates peer)
    put_in = (text_json-ReadsBack peer, refl, peer-IsOrdinary)

-- The peer was removed at version 5; the subscriber was at 3.
abbrev removed : Member
removed = record { ver = 5; markdel = true; info = marshal text_json peer }

abbrev hash : MemberHash
hash = record { version = some 5; members = (string 264196, removed) ∷ [] }

abbrev old_copy : Subscriber
old_copy = record new_subscriber { member_version = 3; members = (string 264196, peer) ∷ [] }

hash-IsReadable : IsReadable text_json (λ s. some s) (string 264196) removed
hash-IsReadable = record {
  node = peer;
  reads =
      unmarshal-marshal_node text_json (λ s. some s) peer (text_json-ReadsBack peer) refl
        peer-IsOrdinary;
  named = refl;
}

hash_found : lookup (string 264196) hash.members ≡ some removed
unfolding lookup
hash_found = rw ((bytes_beq_iff (string 264196) (string 264196)).1 refl) refl

resync_keeps_removed_example :
    (lookup (string 264196) (fetch text_json (λ s. some s) hash old_copy).members ≡ none)
    × (lookup
          (string 264196)
          (fetch text_json (λ s. some s) hash (record old_copy { member_version = 0 })).members
        ≡ lookup (string 264196) old_copy.members)
resync_keeps_removed_example =
    resync_keeps_removed text_json (λ s. some s) hash old_copy 5 (string 264196) removed
      (unfold lookup in refl, tt) (hash-IsReadable, tt) refl (omega arith) (omega arith)
      (omega arith) hash_found refl

abbrev alive_hash : AliveHash
alive_hash = record { version = some 4; nodes = (7 ∷ [], full 4 true 100) ∷ [] }

dead_found : lookup (7 ∷ []) alive_hash.nodes ≡ some (full 4 true 100)
unfolding lookup
dead_found = refl

heartbeat_dead_twice_example :
    ((heartbeat 200 (7 ∷ []) 5 alive_hash).1 ≡ none)
    × ((heartbeat 200 (7 ∷ []) 5 alive_hash).0.version ≡ some 4)
    × (lookup (7 ∷ []) (heartbeat 200 (7 ∷ []) 5 alive_hash).0.nodes ≡ some (bare 4 205))
    × ((heartbeat 202 (7 ∷ []) 5 (heartbeat 200 (7 ∷ []) 5 alive_hash).0).1 ≡ some 5)
    × (lookup (7 ∷ []) (heartbeat 202 (7 ∷ []) 5 (heartbeat 200 (7 ∷ []) 5 alive_hash).0).0.nodes
        ≡ some (full 5 false 207))
heartbeat_dead_twice_example =
    heartbeat_dead_twice alive_hash (7 ∷ []) 4 100 4 200 5 202 5 refl dead_found

abbrev empty_mirror : Mirror
empty_mirror = record { alive = []; members = [] }

abbrev changes : List Change
changes = puts peer ∷ deletes 264197 ∷ puts peer ∷ []

handle_config_events-after_changes_example :
    lookup
      (string 264196)
      (handle_config_events text_json
        (λ s. some s)
        (b'/' ∷ [])
        empty_mirror
        (map (event_of text_json (λ s. some s) (b'/' ∷ [])) changes)).0.members
    ≡ lookup (string 264196) (after_changes changes [])
handle_config_events-after_changes_example =
    handle_config_events-after_changes text_json (λ s. some s) (b'/' ∷ []) empty_mirror changes
      (string 264196) (put_in, (tt, (put_in, tt)))
  where
    put_in : ChangeIsAllowed text_json (λ s. some s) (b'/' ∷ []) (puts peer)
    put_in = (text_json-ReadsBack peer, refl, peer-IsOrdinary)

abbrev peer_mirror : Mirror
peer_mirror = record { alive = []; members = (string 264196, peer) ∷ [] }

peer_read :
    (k : Key)
    → lookup k (current_members text_json (λ s. some s) (marshal text_json peer ∷ []) [])
      ≡ lookup k peer_mirror.members
unfolding current_members insert_read insert
peer_read k =
    ap (λ r. lookup k (insert_read r []))
      (unmarshal-marshal_node text_json (λ s. some s) peer (text_json-ReadsBack peer) refl
        peer-IsOrdinary)

get_members_settled_example :
    ((get_members text_json (λ s. some s) peer_mirror (marshal text_json peer ∷ [])).1.add ≡ [])
    × ((get_members text_json (λ s. some s) peer_mirror (marshal text_json peer ∷ [])).1.remove
        ≡ [])
get_members_settled_example =
    get_members_settled text_json (λ s. some s) peer_mirror (marshal text_json peer ∷ []) peer_read
