-- ===== src/Ss/RoundTrip/Protobuf.antt =====
-- A protobuf message that is encoded for a node is decoded by that node as the same message.
use clustergo.Ss
use clustergo.Ss.{
  SsCodec, Message, Sendable, message, Payload, bytes, proto_msg, request, response, encode,
  encode_payload, encode_proto, finish, first, decode, decode_body, decode_proto, is_target,
  append_ss_header, set_msg_type, bin_msg, pb_msg, rpc_req, rpc_resp, max_packet_size, patch,
  DecodeError, pb_fault, pb_fault_of,
}
use clustergo.Ss.Frame.{frame, preamble, finalize-fits, flag_kinds, patch_front}
use clustergo.Common.{
  ℕ, ◌+◌, ◌%◌, ◌^◌, ◌≤◌, ◌<◌, ◌≡◌, arith, List, ◌++◌, none, some, Outcome, ok, err, ◌>>=◌, length,
  length-append, append_assoc,
}
use clustergo.Common.Table.{lookup, bytes_eq}
use clustergo.Endian.{big_endian, put, length-put}
use clustergo.Buffer.{append_uint16}
use clustergo.Buffer.Laws.{at, get_uint-put, get_all-at}
use clustergo.Pb.{Proto, PbMeta, type_at, invalid_id}
use clustergo.Pb
use clustergo.Pb.Marshal.{IsWire, marshal-body, unmarshal-body}
use clustergo.Ss.RoundTrip.{IsReceiver, Travels, frame-Travels}

module _ {V T P : Type 0} (proto : Proto T P) where
  -- The frame of a protobuf message, whatever id the sender's registry has: the command is the id cut
  -- to 16 bits, and the receiver looks that up.
  proto-Travels :
      (ss rs : SsCodec V T) (dst body : List ℕ) (to from id cmd : ℕ) (m : P)
      (sent_meta meta : PbMeta T) (result : Outcome DecodeError (Sendable V P))
      → IsReceiver rs to from
      → ss.pb_meta ≡ some sent_meta
      → rs.pb_meta ≡ some meta
      → lookup (proto.type_name (proto.type_of m)) sent_meta.name_to_id ≡ some id
      → IsWire proto m body
      → 15 + length body ≤ max_packet_size
      → (pb_fault_of (Pb.unmarshal proto meta (id % 2 ^ 16) body) >>= λ msg.
          ok (message (Ss.new_message to from (proto_msg msg) (id % 2 ^ 16))))
        ≡ result
      → Travels proto ss rs dst
          (set_msg_type 0 pb_msg)
          (put big_endian 2 (id % 2 ^ 16) ++ body)
          (Ss.new_message to from (proto_msg m) cmd)
          result
  proto-Travels ss rs dst body to from id cmd m sent_meta meta result r es er named w fits got =
      frame-Travels proto ss rs dst (Ss.new_message to from (proto_msg m) cmd) flag
        (cmd_bytes ++ body) result r (omega (arith, size)) sent received
    where
      flag : ℕ
      flag = set_msg_type 0 pb_msg

      cmd_bytes : List ℕ
      cmd_bytes = put big_endian 2 (id % 2 ^ 16)

      size : length (cmd_bytes ++ body) ≡ 2 + length body
      size = omega (arith, length-append cmd_bytes body, length-put big_endian 2 (id % 2 ^ 16))

      header : List ℕ
      header = append_ss_header dst to from flag

      sent :
          encode proto ss dst (message (Ss.new_message to from (proto_msg m) cmd))
          ≡ ok (dst ++ frame to from flag (cmd_bytes ++ body), 13 + length (cmd_bytes ++ body))
      sent =
          unfold encode encode_payload encode_proto append_uint16 in
          rw
            (
              es,
              encode_proto,
              marshal-body proto sent_meta id m body (header ++ put big_endian 2 0) named w,
              append_assoc header (put big_endian 2 0) body,
              patch_front header (put big_endian 2 0) body 2 (id % 2 ^ 16)
                  (length-put big_endian 2 0),
            )
            (finalize-fits dst to from flag (cmd_bytes ++ body) (omega (arith, size)))

      received :
          decode_body proto rs
            (Ss.get_msg_type flag)
            to
            from
            (at big_endian (preamble to from flag) (cmd_bytes ++ body))
          ≡ result
      received =
          unfold decode_body decode_proto in
          rw
            (
              flag_kinds.1,
              (get_uint-put big_endian 2 (id % 2 ^ 16) (preamble to from flag) body
                  (omega arith)).0,
              get_all-at big_endian (preamble to from flag ++ cmd_bytes) body,
              er,
              decode_proto,
            )
            got

  -- A protobuf message whose type is registered with the sender under an id of 16 bits that stands for
  -- that type with the receiver, whose bytes protobuf reads back as that message and whose frame fits
  -- 4096 bytes, is decoded by its receiver as the same message, with the id as its command.
  pub decode-encode_proto :
      (ss rs : SsCodec V T) (dst body : List ℕ) (to from id cmd : ℕ) (m : P)
      (sent_meta meta : PbMeta T)
      → IsReceiver rs to from
      → ss.pb_meta ≡ some sent_meta
      → rs.pb_meta ≡ some meta
      → lookup (proto.type_name (proto.type_of m)) sent_meta.name_to_id ≡ some id
      → type_at meta id ≡ some (proto.type_of m)
      → id < 2 ^ 16
      → IsWire proto m body
      → 15 + length body ≤ max_packet_size
      → Travels proto ss rs dst
          (set_msg_type 0 pb_msg)
          (put big_endian 2 (id % 2 ^ 16) ++ body)
          (Ss.new_message to from (proto_msg m) cmd)
          (ok (message (Ss.new_message to from (proto_msg m) id)))
  decode-encode_proto ss rs dst body to from id cmd m sent_meta meta r es er named stands small w
        fits =
      let cut : id % 2 ^ 16 ≡ id = omega arith in
      proto-Travels ss rs dst body to from id cmd m sent_meta meta _ r es er named w fits
        (rw (cut, unmarshal-body proto meta id m body stands w))

  -- A protobuf message that is registered with the sender under any id, whose bytes are those of
  -- `Marshal` and whose frame fits 4096 bytes: where the receiver has nothing under the low 16 bits of
  -- the id, it refuses the packet with the error of an invalid id, whatever it has under the whole id.
  pub decode-encode_wide_id :
      (ss rs : SsCodec V T) (dst body : List ℕ) (to from id cmd : ℕ) (m : P)
      (sent_meta meta : PbMeta T)
      → IsReceiver rs to from
      → ss.pb_meta ≡ some sent_meta
      → rs.pb_meta ≡ some meta
      → lookup (proto.type_name (proto.type_of m)) sent_meta.name_to_id ≡ some id
      → type_at meta (id % 2 ^ 16) ≡ none
      → IsWire proto m body
      → 15 + length body ≤ max_packet_size
      → Travels proto ss rs dst
          (set_msg_type 0 pb_msg)
          (put big_endian 2 (id % 2 ^ 16) ++ body)
          (Ss.new_message to from (proto_msg m) cmd)
          (err (pb_fault (invalid_id (id % 2 ^ 16))))
  decode-encode_wide_id ss rs dst body to from id cmd m sent_meta meta r es er named missing w
        fits =
      proto-Travels ss rs dst body to from id cmd m sent_meta meta _ r es er named w fits
        (unfold Pb.unmarshal Pb.new_message in ground (arith, missing))
