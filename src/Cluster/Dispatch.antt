-- ===== src/Cluster/Dispatch.antt =====
-- cluster.go and node.go: the handlers of messages, and what a node does with one that it has received.
-- `H` stands for handlers, `V` and `P` for the values of the rpc codec and protobuf's messages. A handler
-- that panics has been called: the panic is caught and logged.
pub mod Unroutable
pub mod Delivery
use clustergo.Common.{
  ℕ, ◌+◌, ◌%◌, ◌^◌, Bool, true, false, ◌&&◌, not, List, [], ◌∷◌, ◌++◌, Option, none, some, ◌==◌,
  if◌then◌else◌, Outcome, ok, err, panic,
}
use clustergo.Common.Int.{pos}
use clustergo.Common.Text.{codes}
use clustergo.Common.Table.{Table, lookup, insert, nat_eq}
use clustergo.Addr.{LogicAddr, string}
use clustergo.Cluster.Groups.{Pointer}
use clustergo.Cluster.Cache.{NodeCache}
use clustergo.Cluster.Route.{next_hop}
use clustergo.Cluster.Queue.{Instant}
use clustergo.Ss.{
  Message, Payload, bytes, proto_msg, request, response, other, RelayMessage, Sendable, message,
  relay, unknown, new_message, get_rpc_request,
}
use clustergo.Rpc.Message.{RequestMsg, ResponseMsg, new_error, err_other, nil}

-- A handler that is nil is registered all the same.
pub record MsgManager (H : Type 0) : Type 0 where
  pub proto_msg_handlers : Table ℕ (Option H)
  pub binary_msg_handlers : Table ℕ (Option H)

-- `registerProto` and `registerBinary`: `logger.Panicf` panics.
unfoldable pub register :
    {H : Type 0}
    → ℕ
    → Option H
    → Table ℕ (Option H)
    → Option (Option H)
    → Outcome (Unit {0}) (Table ℕ (Option H))
register cmd handler t (some h) = panic
register cmd handler t none = ok (insert cmd handler t)

-- What a node does with a message.
pub data Effect (H : Type 0) (V : Type 0) (P : Type 0) : Type 0 where
  handles_proto : H → LogicAddr → P → Effect H V P
  handles_binary : H → LogicAddr → ℕ → List ℕ → Effect H V P
  serves : LogicAddr → RequestMsg V → Effect H V P
  takes_response : ResponseMsg V → Effect H V P
  sends : Pointer → Sendable V P → Instant → Effect H V P

module _ {H : Type 0} where
  unfoldable pub register_proto : ℕ → Option H → MsgManager H → Outcome (Unit {0}) (MsgManager H)
  unfolding register
  register_proto cmd handler m =
      elim (register cmd handler m.proto_msg_handlers (lookup cmd m.proto_msg_handlers)) [
        | ok t ↦ ok (record m { proto_msg_handlers = t })
        | err e ↦ err e
        | panic ↦ panic
      ]

  unfoldable pub register_binary : ℕ → Option H → MsgManager H → Outcome (Unit {0}) (MsgManager H)
  unfolding register
  register_binary cmd handler m =
      elim (register cmd handler m.binary_msg_handlers (lookup cmd m.binary_msg_handlers)) [
        | ok t ↦ ok (record m { binary_msg_handlers = t })
        | err e ↦ err e
        | panic ↦ panic
      ]

-- The error response of `onRelayMessage` to a request that has no way on.
unfoldable pub unroutable : {V P : Type 0} → LogicAddr → RelayMessage → RequestMsg V → Message V P
unroutable self m req =
    new_message m.from self
      (response (record {
        seq = req.seq;
        error =
            new_error (pos err_other)
              (codes "route message to target:" ++ (string m.to ++ codes " failed"));
        ret = nil;
        user_data = [];
        codec = none;
      }))
      0

module _ {H V P : Type 0} where
  -- An unknown command and a nil handler are only logged.
  unfoldable pub call_proto : Option (Option H) → LogicAddr → P → List (Effect H V P)
  call_proto (some (some h)) from msg = handles_proto h from msg ∷ []
  call_proto (some none) from msg = []
  call_proto none from msg = []

  unfoldable pub call_binary : Option (Option H) → LogicAddr → ℕ → List ℕ → List (Effect H V P)
  call_binary (some (some h)) from cmd msg = handles_binary h from cmd msg ∷ []
  call_binary (some none) from cmd msg = []
  call_binary none from cmd msg = []

  unfoldable pub dispatch_proto : MsgManager H → LogicAddr → ℕ → P → List (Effect H V P)
  unfolding call_proto
  dispatch_proto m from cmd msg = call_proto (lookup cmd m.proto_msg_handlers) from msg

  unfoldable pub dispatch_binary : MsgManager H → LogicAddr → ℕ → List ℕ → List (Effect H V P)
  unfolding call_binary
  dispatch_binary m from cmd msg = call_binary (lookup cmd m.binary_msg_handlers) from cmd msg

  unfoldable pub answer_back :
      LogicAddr → RelayMessage → Instant → RequestMsg V → Option Pointer → List (Effect H V P)
  answer_back self m now req none = []
  answer_back self m now req (some p) = sends p (message (unroutable self m req)) (now + 1) ∷ []

  unfoldable pub return_error :
      LogicAddr → NodeCache → RelayMessage → Instant → Option (RequestMsg V) → List (Effect H V P)
  return_error self c m now none = []
  return_error self c m now (some req) =
      if req.oneway then [] else answer_back self m now req (next_hop self c m.from)

  unfoldable pub pass_on :
      LogicAddr → NodeCache → RelayMessage → Instant → Option Pointer → List (Effect H V P)
  pass_on self c m now (some p) = sends p (relay m) (now + 1) ∷ []
  pass_on self c m now none = return_error self c m now (get_rpc_request m)

  -- `onRelayMessage`, where an instant is in seconds.
  unfoldable pub on_relay_message :
      LogicAddr → NodeCache → RelayMessage → Instant → List (Effect H V P)
  on_relay_message self c m now = pass_on self c m now (next_hop self c m.to)

  unfoldable pub on_payload : MsgManager H → Message V P → Payload V P → List (Effect H V P)
  on_payload m msg (proto_msg p) = dispatch_proto m msg.from msg.cmd p
  on_payload m msg (bytes b) = dispatch_binary m msg.from msg.cmd b
  on_payload m msg (request r) = serves msg.from r ∷ []
  on_payload m msg (response r) = takes_response r ∷ []
  on_payload m msg other = []

  -- `onMessage`: a relay message is handled by a worker or, when the queue of tasks is full, at once;
  -- either way as it is now.
  unfoldable pub on_message :
      LogicAddr → NodeCache → MsgManager H → Instant → Sendable V P → List (Effect H V P)
  unfolding on_payload
  on_message self c m now (message msg) = on_payload m msg msg.payload
  on_message self c m now (relay r) = on_relay_message self c r now
  on_message self c m now unknown = []

  -- The packet handler of `onEstablish`, for the connection of the node `n`, whose address is `peer`:
  -- `none` is ErrInvaildNode, which closes the connection.
  unfoldable pub handle_packet :
      LogicAddr
      → NodeCache
      → MsgManager H
      → Instant
      → Pointer
      → LogicAddr
      → Sendable V P
      → Option (List (Effect H V P))
  handle_packet self c m now n peer packet = elim (next_hop self c peer) [
    | none ↦ none
    | some p ↦ if p == n then some (on_message self c m now packet) else none
  ]
