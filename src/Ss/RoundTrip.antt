-- ===== src/Ss/RoundTrip.antt =====
-- A binary message, a request and a response that are encoded for a node are decoded by it as the same.
pub mod Protobuf
use clustergo.Ss
use clustergo.Ss.{
  SsCodec, Message, Sendable, message, Payload, bytes, proto_msg, request, response, encode,
  encode_payload, encode_proto, finish, first, decode, decode_body, decode_proto, is_target,
  append_ss_header, set_msg_type, bin_msg, pb_msg, rpc_req, rpc_resp, max_packet_size, patch,
  DecodeError, pb_fault, pb_fault_of,
}
use clustergo.Ss.Frame.{
  packet, frame, IsCodec, preamble, finalize-fits, finalize-too_large, decode-packet, flag_kinds,
  length-packet, patch_front,
}
use clustergo.Addr.{LogicAddr}
use clustergo.Common.{
  ℕ, ◌+◌, ◌%◌, ◌^◌, ◌≤◌, ◌<◌, ◌≡◌, ◌≢◌, refl, arith, true, false, List, [], ◌++◌, none, some, ◌==◌,
  Outcome, ok, err, ◌>>=◌, length, length-append, append_assoc,
}
use clustergo.Common.Table.{lookup, bytes_eq}
use clustergo.Endian.{big_endian, put, length-put}
use clustergo.Buffer.{append_uint16}
use clustergo.Buffer.Laws.{at, get_uint-put, get_all-at}
use clustergo.Pb.{Proto, PbMeta, type_at, invalid_id}
use clustergo.Pb
use clustergo.Pb.Marshal.{IsWire, marshal-body, unmarshal-body}
use clustergo.Rpc.Message.{RequestMsg, ResponseMsg, wire}
use clustergo.Rpc.Message.RoundTrip.{
  Appends, RequestFits, request_wire, encode_request-wire, decode_request-request_wire,
}
use clustergo.Rpc.Message.Response.{
  ResponseFits, response_wire, decode_response-response_wire, encode_response-wire,
}

-- A receiver that a message with these addresses is for.
pub record IsReceiver {V T : Type 0} (rs : SsCodec V T) (to from : LogicAddr) : Type 0 where
  pub big : IsCodec rs
  pub target : rs.self_addr ≡ to
  pub to_fits : to < 2 ^ 32
  pub from_fits : from < 2 ^ 32

module _ {V T P : Type 0} (proto : Proto T P) where
  -- `ss` appends the frame with this flag and body for `o` to `dst`, which is not too large, and `rs`
  -- decodes the packet in that frame as `result`.
  abbrev pub Travels :
      SsCodec V T
      → SsCodec V T
      → List ℕ
      → ℕ
      → List ℕ
      → Message V P
      → Outcome DecodeError (Sendable V P)
      → Type 0
  Travels ss rs dst flag body o result =
      (encode proto ss dst (message o) ≡ ok (dst ++ frame o.to o.from flag body, 13 + length body))
      × (13 + length body ≤ max_packet_size)
      × (decode proto rs (packet o.to o.from flag body) ≡ result)

  pub frame-Travels :
      (ss rs : SsCodec V T) (dst : List ℕ) (o : Message V P) (flag : ℕ) (body : List ℕ)
      (result : Outcome DecodeError (Sendable V P))
      → IsReceiver rs o.to o.from
      → 13 + length body ≤ max_packet_size
      → encode proto ss dst (message o) ≡ ok (dst ++ frame o.to o.from flag body, 13 + length body)
      → decode_body proto rs
          (Ss.get_msg_type flag)
          o.to
          o.from
          (at big_endian (preamble o.to o.from flag) body)
        ≡ result
      → Travels ss rs dst flag body o result
  frame-Travels ss rs dst o flag body result r fits e d =
      let hit : is_target rs o.to ≡ true = unfold is_target in ground (arith, r.target) in
      (
        e,
        fits,
        rw (decode-packet proto rs o.to o.from flag body r.big r.to_fits r.from_fits, hit) d,
      )

  -- A binary message that is not empty, with a command of 16 bits and a frame that fits 4096 bytes, is
  -- encoded as one frame, with the command and the bytes as its body, that its receiver decodes as the
  -- same message, command included.
  pub decode-encode_bytes :
      (ss rs : SsCodec V T) (dst b : List ℕ) (to from cmd : ℕ)
      → IsReceiver rs to from
      → b ≢ []
      → cmd < 2 ^ 16
      → 15 + length b ≤ max_packet_size
      → Travels ss rs dst
          (set_msg_type 0 bin_msg)
          (put big_endian 2 cmd ++ b)
          (Ss.new_message to from (bytes b) cmd)
          (ok (message (Ss.new_message to from (bytes b) cmd)))
  decode-encode_bytes ss rs dst b to from cmd r ne hc fits =
      frame-Travels ss rs dst (Ss.new_message to from (bytes b) cmd) (set_msg_type 0 bin_msg)
        (put big_endian 2 cmd ++ b) _ r (omega (arith, size)) sent received
    where
      size : length (put big_endian 2 cmd ++ b) ≡ 2 + length b
      size = omega (arith, length-append (put big_endian 2 cmd) b, length-put big_endian 2 cmd)

      nonempty : (length b == 0) ≡ false
      nonempty = ground arith

      sent :
          encode proto ss dst (message (Ss.new_message to from (bytes b) cmd))
          ≡ ok (
            dst ++ frame to from (set_msg_type 0 bin_msg) (put big_endian 2 cmd ++ b),
            13 + length (put big_endian 2 cmd ++ b),
          )
      sent =
          unfold encode encode_payload append_uint16 in
          rw
            (
              nonempty,
              append_assoc (append_ss_header dst to from (set_msg_type 0 bin_msg))
                  (put big_endian 2 cmd) b,
            )
            (finalize-fits dst to from (set_msg_type 0 bin_msg) (put big_endian 2 cmd ++ b)
              (omega (arith, size)))

      received :
          decode_body proto rs
            (Ss.get_msg_type (set_msg_type 0 bin_msg))
            to
            from
            (at big_endian (preamble to from (set_msg_type 0 bin_msg)) (put big_endian 2 cmd ++ b))
          ≡ ok (message (Ss.new_message to from (bytes b) cmd))
      received =
          unfold decode_body in
          rw (
            flag_kinds.0,
            (get_uint-put big_endian 2 cmd (preamble to from (set_msg_type 0 bin_msg)) b hc).0,
            get_all-at big_endian
                (preamble to from (set_msg_type 0 bin_msg) ++ put big_endian 2 cmd) b,
          )

  -- A request whose fields fit their sizes, whose argument the sender's codec appends as `body` and
  -- whose frame fits 4096 bytes comes out of the frame at its receiver with command 0, the same
  -- sequence number, method, user data and oneway mark, and `body` as its argument with the
  -- receiver's codec.
  pub decode-encode_request :
      (ss rs : SsCodec V T) (dst body : List ℕ) (to from : ℕ) (req : RequestMsg V)
      → IsReceiver rs to from
      → RequestFits req body
      → Appends ss.rpc_codec req.arg body
      → 13 + length (request_wire req body) ≤ max_packet_size
      → Travels ss rs dst
          (set_msg_type 0 rpc_req)
          (request_wire req body)
          (Ss.new_message to from (request req) 0)
          (ok (
            message (
              Ss.new_message to from
                (request (record req { arg = wire body; codec = some rs.rpc_codec }))
                0)))
  decode-encode_request ss rs dst body to from req r f a fits =
      frame-Travels ss rs dst (Ss.new_message to from (request req) 0) (set_msg_type 0 rpc_req)
        (request_wire req body) _ r fits sent received
    where
      sent :
          encode proto ss dst (message (Ss.new_message to from (request req) 0))
          ≡ ok (
            dst ++ frame to from (set_msg_type 0 rpc_req) (request_wire req body),
            13 + length (request_wire req body),
          )
      sent =
          unfold encode encode_payload finish first in
          rw
            (encode_request-wire (append_ss_header dst to from (set_msg_type 0 rpc_req)) req
              ss.rpc_codec body f a)
            (finalize-fits dst to from (set_msg_type 0 rpc_req) (request_wire req body) fits)

      received :
          decode_body proto rs
            (Ss.get_msg_type (set_msg_type 0 rpc_req))
            to
            from
            (at big_endian (preamble to from (set_msg_type 0 rpc_req)) (request_wire req body))
          ≡ ok (
              message (
                Ss.new_message to from
                  (request (record req { arg = wire body; codec = some rs.rpc_codec }))
                  0))
      received =
          unfold decode_body in
          rw (
            flag_kinds.2,
            get_all-at big_endian (preamble to from (set_msg_type 0 rpc_req))
                (request_wire req body),
            decode_request-request_wire req body (some rs.rpc_codec) f,
          )

  -- A response whose fields fit their sizes, whose result the sender's codec appends as `body` and
  -- whose frame fits 4096 bytes comes out of the frame at its receiver with command 0, the same
  -- sequence number, error and user data, and `body` as its result with the receiver's codec.
  pub decode-encode_response :
      (ss rs : SsCodec V T) (dst body : List ℕ) (to from : ℕ) (resp : ResponseMsg V)
      → IsReceiver rs to from
      → ResponseFits resp body
      → Appends ss.rpc_codec resp.ret body
      → 13 + length (response_wire resp body) ≤ max_packet_size
      → Travels ss rs dst
          (set_msg_type 0 rpc_resp)
          (response_wire resp body)
          (Ss.new_message to from (response resp) 0)
          (ok (
            message (
              Ss.new_message to from
                (response (record resp { ret = wire body; codec = some rs.rpc_codec }))
                0)))
  decode-encode_response ss rs dst body to from resp r f a fits =
      frame-Travels ss rs dst (Ss.new_message to from (response resp) 0) (set_msg_type 0 rpc_resp)
        (response_wire resp body) _ r fits sent received
    where
      sent :
          encode proto ss dst (message (Ss.new_message to from (response resp) 0))
          ≡ ok (
            dst ++ frame to from (set_msg_type 0 rpc_resp) (response_wire resp body),
            13 + length (response_wire resp body),
          )
      sent =
          unfold encode encode_payload finish first in
          rw
            (encode_response-wire (append_ss_header dst to from (set_msg_type 0 rpc_resp)) resp
              ss.rpc_codec body f a)
            (finalize-fits dst to from (set_msg_type 0 rpc_resp) (response_wire resp body) fits)

      received :
          decode_body proto rs
            (Ss.get_msg_type (set_msg_type 0 rpc_resp))
            to
            from
            (at big_endian (preamble to from (set_msg_type 0 rpc_resp)) (response_wire resp body))
          ≡ ok (
              message (
                Ss.new_message to from
                  (response (record resp { ret = wire body; codec = some rs.rpc_codec }))
                  0))
      received =
          unfold decode_body in
          rw (
            flag_kinds.3,
            get_all-at big_endian (preamble to from (set_msg_type 0 rpc_resp))
                (response_wire resp body),
            decode_response-response_wire resp body (some rs.rpc_codec) f,
          )

  -- A binary message and a request whose frames would pass 4096 bytes are not encoded: the buffer stays
  -- as it was, with 0 bytes appended. The same holds of an empty binary message.
  pub encode_too_large :
      (ss : SsCodec V T) (dst b body : List ℕ) (to from cmd : ℕ) (req : RequestMsg V)
      → RequestFits req body
      → Appends ss.rpc_codec req.arg body
      → max_packet_size < 15 + length b
      → max_packet_size < 13 + length (request_wire req body)
      → (encode proto ss dst (message (Ss.new_message to from (bytes b) cmd)) ≡ ok (dst, 0))
        × (encode proto ss dst (message (Ss.new_message to from (bytes []) cmd)) ≡ ok (dst, 0))
        × (encode proto ss dst (message (Ss.new_message to from (request req) cmd)) ≡ ok (dst, 0))
  unfolding encode encode_payload
  encode_too_large ss dst b body to from cmd req f a big bigger = (
    unfold append_uint16 in
        rw
          (
            nonempty,
            append_assoc (append_ss_header dst to from (set_msg_type 0 bin_msg))
                (put big_endian 2 cmd) b,
          )
          (finalize-too_large dst to from (set_msg_type 0 bin_msg) (put big_endian 2 cmd ++ b)
            (omega (arith, size))),
    refl,
    unfold finish first in
        rw
          (encode_request-wire (append_ss_header dst to from (set_msg_type 0 rpc_req)) req
            ss.rpc_codec body f a)
          (finalize-too_large dst to from (set_msg_type 0 rpc_req) (request_wire req body) bigger),
  )
    where
      size : length (put big_endian 2 cmd ++ b) ≡ 2 + length b
      size = omega (arith, length-append (put big_endian 2 cmd) b, length-put big_endian 2 cmd)

      nonempty : (length b == 0) ≡ false
      nonempty = ground arith
