-- ===== src/Tests/Dispatches.antt =====
-- What node 1.2.3 does with messages, and a harbor-less target in another cluster.
use clustergo.Cluster.Dispatch.{
  MsgManager, handles_binary, sends, register_binary, register, on_message, on_relay_message,
}
use clustergo.Cluster.Dispatch.Delivery.{on_message-register_binary}
use clustergo.Cluster.Dispatch.Unroutable.{on_relay_message-unroutable}
use clustergo.Cluster.Cache.{
  get_node_by_logic_addr, get_harbor, add_one, add_node, enlist, is_visible, new_object,
}
use clustergo.Cluster.Groups.{add_to, group}
use clustergo.Cluster.Route.{next_hop}
use clustergo.Addr.{cluster, type, string}
use clustergo.Rpc.Message.{nil}
use clustergo.Common.Text.{codes}
use clustergo.Ss.{message, response, bytes, new_message, new_relay_message, set_msg_type, rpc_req}
use clustergo.Ss.Frame.{packet}
use clustergo.Rpc.Message.RoundTrip.{request_wire, oneway_byte}
use clustergo.Tests.Caches.{one_cache, empty_cache}
use clustergo.Tests.Messages.{ping, ping-fits}
use clustergo.Endian.{put}
use clustergo.Common.{ℕ, ◌≡◌, refl, arith, [], ◌∷◌, ◌++◌, none, some, ok, panic}
use clustergo.Common.Table.{lookup, insert, nat_eq}

abbrev no_handlers : MsgManager ℕ
no_handlers = record { proto_msg_handlers = []; binary_msg_handlers = [] }

abbrev one_handler : MsgManager ℕ
one_handler = record { proto_msg_handlers = []; binary_msg_handlers = (77, some 5) ∷ [] }

one_registered : register_binary 77 (some 5) no_handlers ≡ ok one_handler
unfolding register_binary register lookup insert
one_registered = refl

on_message-register_binary_example :
    (on_message {V = ℕ} {P = ℕ} 264195 empty_cache one_handler 10
        (message (new_message 264195 264196 (bytes (1 ∷ [])) 77))
      ≡ handles_binary 5 264196 77 (1 ∷ []) ∷ [])
    × (on_message {V = ℕ} {P = ℕ} 264195 empty_cache one_handler 10
          (message (new_message 264195 264196 (bytes (1 ∷ [])) 78))
        ≡ on_message 264195 empty_cache no_handlers 10
            (message (new_message 264195 264196 (bytes (1 ∷ [])) 78)))
    × (register_binary 77 (some 5) one_handler ≡ panic)
on_message-register_binary_example =
    on_message-register_binary 264195 empty_cache no_handlers one_handler 10 77 78 264195 264196 5
      (1 ∷ []) one_registered (omega arith)

-- Node 1.2.4 asks for node 2.2.4, to which there is no way.
no_way : next_hop 264195 one_cache 526340 ≡ none
unfolding next_hop get_node_by_logic_addr get_harbor group one_cache add_one lookup insert
    is_visible enlist add_node add_to new_object cluster type
no_way = refl

way_back : next_hop 264195 one_cache 264196 ≡ some 0
unfolding next_hop get_node_by_logic_addr get_harbor group one_cache add_one lookup insert
    is_visible enlist add_node add_to new_object cluster type
way_back = refl

on_relay_message-unroutable_example :
    on_relay_message {H = ℕ} {V = ℕ} {P = ℕ} 264195 one_cache
      (new_relay_message 526340 264196
        (packet 526340 264196 (set_msg_type 0 rpc_req) (request_wire ping (42 ∷ []))))
      10
    ≡ sends 0
        (message (record {
          to = 264196;
          from = 264195;
          cmd = 0;
          payload = response (record {
            seq = ping.seq;
            error = some (record {
              code = 5;
              str = codes "route message to target:" ++ (string 526340 ++ codes " failed");
            });
            ret = nil;
            user_data = [];
            codec = none;
          });
        }))
        11
      ∷ []
unfolding request_wire oneway_byte put
on_relay_message-unroutable_example =
    on_relay_message-unroutable 264195 one_cache 10 526340 264196 ping (42 ∷ []) 0 ping-fits
      (omega arith) no_way way_back refl
