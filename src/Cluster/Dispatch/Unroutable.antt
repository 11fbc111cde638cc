-- ===== src/Cluster/Dispatch/Unroutable.antt =====
-- A request that has no way on is answered, once, and nothing else is.
use clustergo.Cluster.Dispatch.{
  sends, unroutable, return_error, answer_back, pass_on, on_relay_message,
}
use clustergo.Cluster.Groups.{Pointer}
use clustergo.Cluster.Cache.{NodeCache}
use clustergo.Cluster.Route.{next_hop}
use clustergo.Cluster.Queue.{Instant}
use clustergo.Ss.{message, response, new_relay_message, set_msg_type, get_msg_type, rpc_req}
use clustergo.Ss.Frame.{packet}
use clustergo.Ss.Relay.{get_rpc_request-relay, get_rpc_request-other}
use clustergo.Rpc.Message.{RequestMsg, wire, nil, new_error}
use clustergo.Rpc.Message.RoundTrip.{RequestFits, request_wire}
use clustergo.Addr.{LogicAddr, string}
use clustergo.Common.Text.{codes}
use clustergo.Common.{
  ℕ, ◌+◌, ◌^◌, ◌<◌, ◌≡◌, ◌≢◌, ap, ◌∙◌, List, [], ◌∷◌, ◌++◌, none, some, false, if◌then◌else◌,
  length,
}

module _ {H V P : Type 0} (self : LogicAddr) (c : NodeCache) (now : Instant)
    (to from : LogicAddr) where
  -- A packet to pass on that carries a request which wants an answer, whose target has no next hop
  -- and whose source has one: the node sends that hop, with one second to do it, one response that is
  -- addressed to the source and comes from the node itself, with the request's sequence number, the
  -- error code 5 and a text that names the target, and with no result; and it does nothing else.
  pub on_relay_message-unroutable :
      (req : RequestMsg V) (body : List ℕ) (p : Pointer)
      → RequestFits req body
      → 9 + length (request_wire req body) < 2 ^ 32
      → next_hop self c to ≡ none
      → next_hop self c from ≡ some p
      → req.oneway ≡ false
      → on_relay_message {H = H} {V = V} {P = P} self c
          (new_relay_message to from
            (packet to from (set_msg_type 0 rpc_req) (request_wire req body)))
          now
        ≡ sends p
            (message (record {
              to = from;
              from = self;
              cmd = 0;
              payload = response (record {
                seq = req.seq;
                error = some (record {
                  code = 5;
                  str = codes "route message to target:" ++ (string to ++ codes " failed");
                });
                ret = nil;
                user_data = [];
                codec = none;
              });
            }))
            (now + 1)
          ∷ []
  unfolding on_relay_message pass_on return_error answer_back new_relay_message unroutable new_error
  on_relay_message-unroutable req body p f fits no_way back two_way =
      let m =
        new_relay_message to from
          (packet to from (set_msg_type 0 rpc_req) (request_wire req body)) in
      ap (pass_on self c m now) no_way
      ∙ ap (return_error self c m now) (get_rpc_request-relay to from req body f fits)
      ∙ ap
          (λ b.
            if b
            then []
            else answer_back self m now (record req { arg = wire body; codec = none })
                (next_hop self c from))
          two_way
      ∙ ap (answer_back self m now (record req { arg = wire body; codec = none })) back

  -- A packet of any other type that has no next hop is dropped without an answer, so that no response
  -- is answered by a response.
  pub on_relay_message-dropped :
      (flag : ℕ) (body : List ℕ)
      → get_msg_type flag ≢ rpc_req
      → 9 + length body < 2 ^ 32
      → next_hop self c to ≡ none
      → on_relay_message {H = H} {V = V} {P = P} self c
          (new_relay_message to from (packet to from flag body))
          now
        ≡ []
  unfolding on_relay_message pass_on return_error new_relay_message
  on_relay_message-dropped flag body ne fits no_way =
      let m = new_relay_message to from (packet to from flag body) in
      ap (pass_on self c m now) no_way
      ∙ ap (return_error {P = P} self c m now) (get_rpc_request-other to from flag body ne fits)
