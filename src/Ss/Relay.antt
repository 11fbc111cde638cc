-- ===== src/Ss/Relay.antt =====
-- Passing a packet on: a node that is not the target sends out the bytes that it received.
use clustergo.Ss.{
  SsCodec, relay, RelayMessage, encode, decode, is_target, new_relay_message, get_rpc_request,
  set_msg_type, rpc_req, get_msg_type, min_size,
}
use clustergo.Ss.Frame.{
  packet, frame, IsCodec, decode-packet, length-packet, length-frame, flag_kinds,
}
use clustergo.Addr.{LogicAddr}
use clustergo.Common.{
  ℕ, ◌+◌, ◌%◌, ◌^◌, ◌<◌, ◌≡◌, ◌≢◌, refl, arith, false, List, [], ◌∷◌, ◌++◌, none, some, ltb, ◌==◌,
  ok, length, length-append, drop, get_or, drop-append_left, append_assoc,
}
use clustergo.Endian.{big_endian, put, length-put}
use clustergo.Buffer.{append_uint32, append_bytes}
use clustergo.Pb.{Proto}
use clustergo.Rpc.Message.{RequestMsg, wire}
use clustergo.Rpc.Message.RoundTrip.{RequestFits, request_wire, decode_request-request_wire}

relay_payload :
    (to from flag : ℕ) (body : List ℕ)
    → 9 + length body < 2 ^ 32
    → (new_relay_message to from (packet to from flag body)).payload ≡ frame to from flag body
unfolding new_relay_message append_uint32 append_bytes
relay_payload to from flag body h =
    let size = length-packet to from flag body in
    let small : (9 + length body) % 2 ^ 32 ≡ 9 + length body = omega arith in rw (size, small)

not_target :
    {V T : Type 0} (hop : SsCodec V T) (to : LogicAddr)
    → hop.self_addr ≢ to
    → is_target hop to ≡ false
unfolding is_target
not_target hop to h = ground arith

module _ {V T P : Type 0} (proto : Proto T P) where
  -- A node that a packet is not addressed to decodes it as a relay message to and from the same
  -- addresses, and encoding that message appends the packet behind its length: the frame as it came.
  pub encode-decode_relay :
      (hop : SsCodec V T) (dst : List ℕ) (to from flag : ℕ) (body : List ℕ)
      → IsCodec hop
      → hop.self_addr ≢ to
      → to < 2 ^ 32
      → from < 2 ^ 32
      → 9 + length body < 2 ^ 32
      → (m : RelayMessage) × (decode proto hop (packet to from flag body) ≡ ok (relay m))
        × (m.to ≡ to)
        × (m.from ≡ from)
        × (encode proto hop dst (relay m) ≡ ok (dst ++ frame to from flag body, 13 + length body))
  unfolding encode
  encode-decode_relay hop dst to from flag body c away ht hf fits = (
    new_relay_message to from (packet to from flag body),
    rw (decode-packet proto hop to from flag body c ht hf, not_target hop to away),
    unfold new_relay_message in refl,
    unfold new_relay_message in refl,
    rw (relay_payload to from flag body fits, length-frame to from flag body),
  )

-- The type and the body stand behind the length at fixed places.
frame_type : (to from flag : ℕ) (body : List ℕ) → get_or (frame to from flag body) 4 0 ≡ flag
frame_type to from flag body =
    skip (put big_endian 4 (9 + length body)) (length-put big_endian 4 (9 + length body))
  where
    skip : (xs : List ℕ) → length xs ≡ 4 → get_or (xs ++ packet to from flag body) 4 0 ≡ flag
    skip (a ∷ b ∷ c ∷ d ∷ []) e = refl
    skip [] e = absurd (omega arith)
    skip (a ∷ []) e = absurd (omega arith)
    skip (a ∷ b ∷ []) e = absurd (omega arith)
    skip (a ∷ b ∷ c ∷ []) e = absurd (omega arith)
    skip (a ∷ b ∷ c ∷ d ∷ x ∷ xs) e = absurd (omega arith)

frame_body : (to from flag : ℕ) (body : List ℕ) → drop 13 (frame to from flag body) ≡ body
frame_body to from flag body =
    let front : List ℕ =
      (put big_endian 4 (9 + length body) ++ (flag ∷ []))
      ++ (put big_endian 4 to ++ put big_endian 4 from) in
    let whole : frame to from flag body ≡ front ++ body = simp append_assoc in
    let size : length front ≡ 13 = omega (
      arith,
      length-append (put big_endian 4 (9 + length body) ++ (flag ∷ []))
          (put big_endian 4 to ++ put big_endian 4 from),
      length-append (put big_endian 4 (9 + length body)) (flag ∷ []),
      length-append (put big_endian 4 to) (put big_endian 4 from),
      length-put big_endian 4 (9 + length body),
      length-put big_endian 4 to,
      length-put big_endian 4 from,
    ) in
    rw whole (drop-append_left 13 front body size)

module _ {V : Type 0} where
  -- `GetRpcRequest` of a relay message that carries a request, whose fields fit their sizes, gives that
  -- request with the encoded argument and without a codec.
  pub get_rpc_request-relay :
      (to from : ℕ) (req : RequestMsg V) (body : List ℕ)
      → RequestFits req body
      → 9 + length (request_wire req body) < 2 ^ 32
      → get_rpc_request (
          new_relay_message to from
            (packet to from (set_msg_type 0 rpc_req) (request_wire req body)))
        ≡ some (record req { arg = wire body; codec = none })
  unfolding get_rpc_request
  get_rpc_request-relay to from req body f fits =
      let flag = set_msg_type 0 rpc_req in
      let w = request_wire req body in
      let long : ltb (length (frame to from flag w)) min_size ≡ false =
        ground (arith, length-frame to from flag w) in
      rw (
        relay_payload to from flag w fits,
        long,
        frame_type to from flag w,
        flag_kinds.2,
        frame_body to from flag w,
        decode_request-request_wire req body none f,
      )

  -- `GetRpcRequest` of a relay message that carries any other type of message gives none.
  pub get_rpc_request-other :
      (to from flag : ℕ) (body : List ℕ)
      → get_msg_type flag ≢ rpc_req
      → 9 + length body < 2 ^ 32
      → get_rpc_request {V = V} (new_relay_message to from (packet to from flag body)) ≡ none
  unfolding get_rpc_request
  get_rpc_request-other to from flag body ne fits =
      let other : (get_msg_type flag == rpc_req) ≡ false = ground arith in
      rw (relay_payload to from flag body fits, frame_type to from flag body, other) (ground arith)
