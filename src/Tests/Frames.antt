-- ===== src/Tests/Frames.antt =====
-- codec/ss/codec.go and codec/ss/message.go: frames between node 1.2.3 and node 1.2.4.
use clustergo.Ss.{
  SsCodec, RelayMessage, message, relay, proto_msg, request, encode, decode, new_codec, new_message,
  set_msg_type, pb_fault, pb_msg, rpc_req,
}
use clustergo.Ss.Frame.{packet, frame}
use clustergo.Ss.RoundTrip.{IsReceiver, Travels, decode-encode_request}
use clustergo.Ss.RoundTrip.Protobuf.{decode-encode_proto, decode-encode_wide_id}
use clustergo.Ss.Relay.{encode-decode_relay}
use clustergo.Common.{ℕ, ◌%◌, ◌^◌, ◌++◌, ◌≡◌, refl, arith, [], ◌∷◌, some, ok, err}
use clustergo.Common.Table.{lookup, bytes_eq}
use clustergo.Endian.{put, big_endian}
use clustergo.Buffer.{new_reader}
use clustergo.Pb.{PbMeta, type_at, invalid_id}
use clustergo.Rpc.Message.{wire}
use clustergo.Rpc.Message.RoundTrip.{request_wire, oneway_byte}
use clustergo.Tests.Messages.{byte_codec, ping, ping-fits}
use clustergo.Tests.Registries.{notes, note_7, one_type, note_7-IsWire}

abbrev pub sender : SsCodec ℕ ℕ
sender = new_codec 264195 byte_codec (some one_type)

abbrev pub receiver : SsCodec ℕ ℕ
receiver = new_codec 264196 byte_codec (some one_type)

pub receives : IsReceiver receiver 264196 264195
unfolding new_reader
receives = record { big = refl; target = refl; to_fits = omega arith; from_fits = omega arith }

decode-encode_request_example :
    Travels notes sender receiver
      (5 ∷ [])
      (set_msg_type 0 rpc_req)
      (request_wire ping (42 ∷ []))
      (new_message 264196 264195 (request ping) 0)
      (ok (
        message (
          new_message 264196 264195
            (request (record ping { arg = wire (42 ∷ []); codec = some byte_codec }))
            0)))
unfolding request_wire oneway_byte put
decode-encode_request_example =
    decode-encode_request notes sender receiver (5 ∷ []) (42 ∷ []) 264196 264195 ping receives
      ping-fits (λ dst. refl) (omega arith)

decode-encode_proto_example :
    Travels notes sender receiver []
      (set_msg_type 0 pb_msg)
      (put big_endian 2 3 ++ (7 ∷ []))
      (new_message 264196 264195 (proto_msg note_7) 0)
      (ok (message (new_message 264196 264195 (proto_msg note_7) 3)))
unfolding one_type lookup type_at
decode-encode_proto_example =
    decode-encode_proto notes sender receiver [] (7 ∷ []) 264196 264195 3 0 note_7 one_type one_type
      receives refl refl refl refl (omega arith) note_7-IsWire (omega arith)

-- The type stands under 65539, whose low 16 bits are 3, with the sender, and under nothing with the
-- receiver.
abbrev wide_meta : PbMeta ℕ
wide_meta = record {
  namespace = [];
  name_to_id = (1 ∷ [], 65539) ∷ [];
  id_to_meta = (65539, 1) ∷ [];
  meta_array = [];
}

abbrev wide_codec : SsCodec ℕ ℕ
wide_codec = new_codec 264195 byte_codec (some wide_meta)

abbrev wide_receiver : SsCodec ℕ ℕ
wide_receiver = new_codec 264196 byte_codec (some wide_meta)

receives_wide : IsReceiver wide_receiver 264196 264195
unfolding new_reader
receives_wide = record { big = refl; target = refl; to_fits = omega arith; from_fits = omega arith }

decode-encode_wide_id_example :
    Travels notes wide_codec wide_receiver []
      (set_msg_type 0 pb_msg)
      (put big_endian 2 (65539 % 2 ^ 16) ++ (7 ∷ []))
      (new_message 264196 264195 (proto_msg note_7) 0)
      (err (pb_fault (invalid_id 3)))
unfolding lookup type_at
decode-encode_wide_id_example =
    decode-encode_wide_id notes wide_codec wide_receiver [] (7 ∷ []) 264196 264195 65539 0 note_7
      wide_meta wide_meta receives_wide refl refl refl refl note_7-IsWire (omega arith)

-- Node 1.2.3 has a packet for node 1.2.4 in its hands.
encode-decode_relay_example :
    (m : RelayMessage) × (decode notes sender (packet 264196 264195 2 (0 ∷ 1 ∷ 9 ∷ []))
      ≡ ok (relay m))
    × (m.to ≡ 264196)
    × (m.from ≡ 264195)
    × (encode notes sender [] (relay m) ≡ ok (frame 264196 264195 2 (0 ∷ 1 ∷ 9 ∷ []), 16))
unfolding new_reader
encode-decode_relay_example =
    encode-decode_relay notes sender [] 264196 264195 2 (0 ∷ 1 ∷ 9 ∷ []) refl (omega arith)
      (omega arith) (omega arith) (omega arith)
