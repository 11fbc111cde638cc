-- ===== src/Ss.antt =====
-- codec/ss/message.go and codec/ss/codec.go: framing of messages between nodes.
-- `V` stands for the values of the rpc codec, `T` and `P` for protobuf's types and messages.
pub mod Frame
pub mod RoundTrip
pub mod Relay
use clustergo.Common.{
  ℕ, zero, suc, ◌+◌, ◌-◌, ◌%◌, ◌^◌, ◌≤◌, bit_and, bit_or, Bool, ◌||◌, List, [], ◌∷◌, ◌++◌, Option,
  none, some, ltb, ◌==◌, if◌then◌else◌, Outcome, ok, err, panic, ◌>>=◌, length, take, drop, get_or,
}
use clustergo.Addr.{LogicAddr}
use clustergo.Endian.{big_endian, put}
use clustergo.Buffer.{
  BufferError, BufferReader, BufferWriter, new_writer, append_uint16, append_uint32, append_bytes,
  new_reader, reset, get_byte, get_uint16, get_uint32, get_all,
}
use clustergo.Pb.{PbError, Proto, PbMeta}
use clustergo.Pb
use clustergo.Rpc.Bytes.{Fault}
use clustergo.Rpc.Message.{
  Codec, RequestMsg, ResponseMsg, encode_request, encode_response, decode_request, decode_response,
}

abbrev pub size_len : ℕ
size_len = 4

abbrev pub min_size : ℕ
min_size = 13

abbrev pub pb_msg : ℕ
pb_msg = 1

abbrev pub bin_msg : ℕ
bin_msg = 2

abbrev pub rpc_req : ℕ
rpc_req = 3

abbrev pub rpc_resp : ℕ
rpc_resp = 4

abbrev pub mask_message_type : ℕ
mask_message_type = 7

-- `socket.MaxPacketSize`
abbrev pub max_packet_size : ℕ
max_packet_size = 4096

unfoldable pub set_msg_type : ℕ → ℕ → ℕ
set_msg_type flag t =
    if t == pb_msg || t == bin_msg || t == rpc_req || t == rpc_resp then bit_or flag t else flag

unfoldable pub get_msg_type : ℕ → ℕ
get_msg_type flag = bit_and flag mask_message_type

-- The payload of a message: the cases of the type switches, and any other value.
pub data Payload (V : Type 0) (P : Type 0) : Type 0 where
  bytes : List ℕ → Payload V P
  proto_msg : P → Payload V P
  request : RequestMsg V → Payload V P
  response : ResponseMsg V → Payload V P
  other : Payload V P

pub record Message (V : Type 0) (P : Type 0) : Type 0 where
  pub cmd : ℕ
  pub to : LogicAddr
  pub from : LogicAddr
  pub payload : Payload V P

pub record RelayMessage : Type 0 where
  pub to : LogicAddr
  pub from : LogicAddr
  pub payload : List ℕ

-- Absent optional `cmd` is 0.
abbrev pub new_message : {V P : Type 0} → LogicAddr → LogicAddr → Payload V P → ℕ → Message V P
new_message to from payload cmd = record { cmd = cmd; to = to; from = from; payload = payload }

-- The length is put in front again; the buffer of the pool starts empty.
unfoldable pub new_relay_message : LogicAddr → LogicAddr → List ℕ → RelayMessage
new_relay_message to from payload =
    let w = new_writer big_endian in
    let b = append_uint32 w [] (length payload % 2 ^ 32) in
    record { to = to; from = from; payload = append_bytes w b payload }

unfoldable pub get_rpc_request : {V : Type 0} → RelayMessage → Option (RequestMsg V)
get_rpc_request m =
    if ltb (length m.payload) min_size
    then none
    else if get_msg_type (get_or m.payload 4 0) == rpc_req
    then elim (decode_request (drop min_size m.payload) none) [ ok req ↦ some req | _ ↦ none ]
    else none

-- `appendSSHeader`: the new buffer; the mark is the length of the old one.
unfoldable pub append_ss_header : List ℕ → LogicAddr → LogicAddr → ℕ → List ℕ
append_ss_header dst to from flag =
    let w = new_writer big_endian in
    append_uint32 w (append_uint32 w ((dst ++ (0 ∷ 0 ∷ 0 ∷ 0 ∷ [])) ++ (flag ∷ [])) to) from

-- `PutUint32(b[mark:], v)` and `PutUint16(b[mark:], v)` panic where the slice is too short.
unfoldable pub patch : ℕ → List ℕ → ℕ → ℕ → Outcome Fault (List ℕ)
patch width b mark v =
    if ltb (length b) (mark + width)
    then panic
    else ok (take mark b ++ (put big_endian width v ++ drop (mark + width) b))

unfoldable pub finalize_frame : List ℕ → ℕ → Outcome Fault (List ℕ × ℕ)
unfolding patch
finalize_frame dst mark =
    let total_len = length dst - mark in
    if ltb max_packet_size total_len
    then ok (take mark dst, 0)
    else (do b ← patch 4 dst mark ((total_len - size_len) % 2 ^ 32); ok (b, total_len))

-- What `Encode` is handed: a message, a message to pass on, or anything else.
pub data Sendable (V : Type 0) (P : Type 0) : Type 0 where
  message : Message V P → Sendable V P
  relay : RelayMessage → Sendable V P
  unknown : Sendable V P

pub data DecodeError : Type 0 where
  rpc_fault : Fault → DecodeError
  pb_fault : PbError → DecodeError
  buffer_fault : BufferError → DecodeError
  invalid_packet_type : DecodeError

-- A nil `pbMeta` is a namespace in which nothing was registered.
pub record SsCodec (V : Type 0) (T : Type 0) : Type 0 where
  pub self_addr : LogicAddr
  pub rpc_codec : Codec V
  pub reader : BufferReader
  pub pb_meta : Option (PbMeta T)

abbrev pub new_codec : {V T : Type 0} → LogicAddr → Codec V → Option (PbMeta T) → SsCodec V T
new_codec self_addr rpc_codec pb_meta = record {
  self_addr = self_addr;
  rpc_codec = rpc_codec;
  reader = new_reader big_endian [];
  pb_meta = pb_meta;
}

abbrev pub fault_of : {A : Type 0} → Outcome Fault A → Outcome DecodeError A
fault_of (ok a) = ok a
fault_of (err e) = err (rpc_fault e)
fault_of panic = panic

abbrev pub pb_fault_of : {A : Type 0} → Outcome PbError A → Outcome DecodeError A
pb_fault_of (ok a) = ok a
pb_fault_of (err e) = err (pb_fault e)
pb_fault_of panic = panic

abbrev pub buffer_fault_of : {A : Type 0} → Outcome BufferError A → Outcome DecodeError A
buffer_fault_of (ok a) = ok a
buffer_fault_of (err e) = err (buffer_fault e)
buffer_fault_of panic = panic

first : {E A B : Type 0} → Outcome E (A × B) → Outcome E A
first (ok p) = ok p.0
first (err e) = err e
first panic = panic

-- A failed part cuts the buffer back to the mark; what stands before the mark is `dst`.
finish : List ℕ → Outcome Fault (List ℕ) → Outcome Fault (List ℕ × ℕ)
finish dst (ok b) = finalize_frame b (length dst)
finish dst (err e) = ok (dst, 0)
finish dst panic = panic

module _ {T P : Type 0} (proto : Proto T P) where
  -- The command's place is filled in once `Marshal` has handed out the id, cut to 16 bits.
  encode_proto : List ℕ → List ℕ → Option (PbMeta T) → P → Outcome Fault (List ℕ × ℕ)
  unfolding patch
  encode_proto dst header none msg = panic
  encode_proto dst header (some meta) msg =
      elim (Pb.marshal proto meta (append_uint16 (new_writer big_endian) header 0) msg) [
        | ok (b, id) ↦ (do
          b' ← patch 2 b (length header) (id % 2 ^ 16)
          finalize_frame b' (length dst))
        | err e ↦ ok (dst, 0)
        | panic ↦ panic
      ]

  decode_proto : Option (PbMeta T) → ℕ → List ℕ → Outcome DecodeError P
  decode_proto none cmd b = panic
  decode_proto (some meta) cmd b = pb_fault_of (Pb.unmarshal proto meta cmd b)

unfoldable pub is_target : {V T : Type 0} → SsCodec V T → LogicAddr → Bool
is_target ss to = ss.self_addr == to

module _ {V T P : Type 0} (proto : Proto T P) where
  unfoldable pub encode_payload :
      SsCodec V T → List ℕ → Message V P → Payload V P → Outcome Fault (List ℕ × ℕ)
  unfolding finish encode_proto first
  encode_payload ss dst o (bytes msg) =
      if length msg == 0
      then ok (dst, 0)
      else (let header = append_ss_header dst o.to o.from (set_msg_type 0 bin_msg) in
          finalize_frame (append_uint16 (new_writer big_endian) header o.cmd ++ msg) (length dst))
  encode_payload ss dst o (proto_msg msg) =
      encode_proto proto dst (append_ss_header dst o.to o.from (set_msg_type 0 pb_msg)) ss.pb_meta
        msg
  encode_payload ss dst o (request req) = finish dst (
      first (
        encode_request (append_ss_header dst o.to o.from (set_msg_type 0 rpc_req)) req
          ss.rpc_codec))
  encode_payload ss dst o (response resp) = finish dst (
      first (
        encode_response (append_ss_header dst o.to o.from (set_msg_type 0 rpc_resp)) resp
          ss.rpc_codec))
  encode_payload ss dst o other = ok (dst, 0)

  -- The new buffer and the number of bytes appended.
  unfoldable pub encode : SsCodec V T → List ℕ → Sendable V P → Outcome Fault (List ℕ × ℕ)
  encode ss dst (message o) = encode_payload ss dst o o.payload
  encode ss dst (relay o) = ok (dst ++ o.payload, length o.payload)
  encode ss dst unknown = ok (dst, 0)

  -- The cases of the switch on the message type, on a reader behind the two addresses.
  unfoldable pub decode_body :
      SsCodec V T → ℕ → LogicAddr → LogicAddr → BufferReader → Outcome DecodeError (Sendable V P)
  unfolding decode_proto
  decode_body ss kind to from r =
      let (cmd, r') = get_uint16 r in
      if kind == bin_msg
      then (do b ← buffer_fault_of (get_all r'); ok (message (new_message to from (bytes b) cmd)))
      else if kind == pb_msg
      then (do
        b ← buffer_fault_of (get_all r')
        msg ← decode_proto proto ss.pb_meta cmd b
        ok (message (new_message to from (proto_msg msg) cmd)))
      else if kind == rpc_req
      then (do
        b ← buffer_fault_of (get_all r)
        req ← fault_of (decode_request b (some ss.rpc_codec))
        ok (message (new_message to from (request req) 0)))
      else if kind == rpc_resp
      then (do
        b ← buffer_fault_of (get_all r)
        resp ← fault_of (decode_response b (some ss.rpc_codec))
        ok (message (new_message to from (response resp) 0)))
      else err invalid_packet_type

  -- `Decode`.
  unfoldable pub decode : SsCodec V T → List ℕ → Outcome DecodeError (Sendable V P)
  decode ss payload =
      let (flag, r1) = get_byte (reset ss.reader payload) in
      let (to, r2) = get_uint32 r1 in
      let (from, r3) = get_uint32 r2 in
      if is_target ss to
      then decode_body ss (get_msg_type flag) to from r3
      else ok (relay (new_relay_message to from payload))

-- The codec behind a `Decode`: its reader holds the bytes that `Reset` has set, and every `Decode`
-- begins with a `Reset`, which forgets the offset.
unfoldable pub decode_codec : {V T : Type 0} → SsCodec V T → List ℕ → SsCodec V T
decode_codec ss payload = record ss { reader = reset ss.reader payload }
