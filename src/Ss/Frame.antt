-- ===== src/Ss/Frame.antt =====
-- The bytes of a frame: length, flag, target, source and body.
use clustergo.Ss.{
  SsCodec, relay, append_ss_header, patch, finalize_frame, max_packet_size, decode, decode_body,
  get_msg_type, is_target, new_relay_message, set_msg_type, bin_msg, pb_msg, rpc_req, rpc_resp,
}
use clustergo.Addr.{LogicAddr}
use clustergo.Common.{
  ℕ, ◌+◌, ◌-◌, ◌%◌, ◌^◌, ◌≤◌, ◌<◌, ◌≡◌, refl, arith, true, false, List, [], ◌∷◌, ◌++◌, ltb,
  if◌then◌else◌, ok, length, length-append, take-append_left, drop-append_left, append_assoc,
}
use clustergo.Endian.{big_endian, put, length-put}
use clustergo.Buffer.{BufferReader, append_uint32, reset}
use clustergo.Buffer.Laws.{at, get_byte-at, get_uint-put}
use clustergo.Pb.{Proto}

-- What follows the length.
abbrev pub packet : LogicAddr → LogicAddr → ℕ → List ℕ → List ℕ
packet to from flag body = flag ∷ (put big_endian 4 to ++ (put big_endian 4 from ++ body))

abbrev pub frame : LogicAddr → LogicAddr → ℕ → List ℕ → List ℕ
frame to from flag body = put big_endian 4 (9 + length body) ++ packet to from flag body

pub length-packet :
    (to from flag : ℕ) (body : List ℕ) → length (packet to from flag body) ≡ 9 + length body
length-packet to from flag body = omega (
  arith,
  length-append (put big_endian 4 to) (put big_endian 4 from ++ body),
  length-append (put big_endian 4 from) body,
  length-put big_endian 4 to,
  length-put big_endian 4 from,
)

pub length-frame :
    (to from flag : ℕ) (body : List ℕ) → length (frame to from flag body) ≡ 13 + length body
length-frame to from flag body = omega (
  arith,
  length-append (put big_endian 4 (9 + length body)) (packet to from flag body),
  length-put big_endian 4 (9 + length body),
  length-packet to from flag body,
)

abbrev zeros : List ℕ
zeros = 0 ∷ 0 ∷ 0 ∷ 0 ∷ []

pub header-body :
    (dst : List ℕ) (to from flag : ℕ) (body : List ℕ)
    → append_ss_header dst to from flag ++ body ≡ dst ++ (zeros ++ packet to from flag body)
unfolding append_ss_header append_uint32
header-body dst to from flag body = simp append_assoc

pub patch_front :
    (dst x z : List ℕ) (w v : ℕ)
    → length x ≡ w
    → patch w (dst ++ (x ++ z)) (length dst) v ≡ ok (dst ++ (put big_endian w v ++ z))
unfolding patch
patch_front dst x z w v h = ground (
  arith,
  length-append dst (x ++ z),
  length-append x z,
  take-append_left (length dst) dst (x ++ z) refl,
  append_assoc dst x z,
  length-append dst x,
  drop-append_left (length dst + w) (dst ++ x) z,
)

-- A frame of up to 4096 bytes gets its length; a longer one is taken back.
pub finalize-fits :
    (dst : List ℕ) (to from flag : ℕ) (body : List ℕ)
    → 13 + length body ≤ max_packet_size
    → finalize_frame (append_ss_header dst to from flag ++ body) (length dst)
      ≡ ok (dst ++ frame to from flag body, 13 + length body)
unfolding finalize_frame
finalize-fits dst to from flag body h =
    let total : length (dst ++ (zeros ++ packet to from flag body)) - length dst
        ≡ 13 + length body =
      omega (
        arith,
        length-append dst (zeros ++ packet to from flag body),
        length-packet to from flag body,
      ) in
    let short : ltb max_packet_size (13 + length body) ≡ false = ground arith in
    let size : (13 + length body - 4) % 2 ^ 32 ≡ 9 + length body = omega arith in
    rw (
      header-body dst to from flag body,
      total,
      short,
      size,
      patch_front dst zeros (packet to from flag body) 4 (9 + length body) refl,
    )

pub finalize-too_large :
    (dst : List ℕ) (to from flag : ℕ) (body : List ℕ)
    → max_packet_size < 13 + length body
    → finalize_frame (append_ss_header dst to from flag ++ body) (length dst) ≡ ok (dst, 0)
unfolding finalize_frame
finalize-too_large dst to from flag body h =
    let total : length (dst ++ (zeros ++ packet to from flag body)) - length dst
        ≡ 13 + length body =
      omega (
        arith,
        length-append dst (zeros ++ packet to from flag body),
        length-packet to from flag body,
      ) in
    let long : ltb max_packet_size (13 + length body) ≡ true = ground arith in
    rw (
      header-body dst to from flag body,
      total,
      long,
      take-append_left (length dst) dst (zeros ++ packet to from flag body) refl,
    )

-- The reader of a codec that `NewCodec` has made is big-endian.
abbrev pub IsCodec : {V T : Type 0} → SsCodec V T → Type 0
IsCodec ss = ss.reader.endian ≡ big_endian

reset_lem :
    (r : BufferReader) (b : ℕ) (bs : List ℕ)
    → r.endian ≡ big_endian
    → reset r (b ∷ bs) ≡ at big_endian [] (b ∷ bs)
unfolding reset
reset_lem r b bs e = ground arith

-- The bytes that `Decode` has read when it comes to the body.
abbrev pub preamble : LogicAddr → LogicAddr → ℕ → List ℕ
preamble to from flag = ((flag ∷ []) ++ put big_endian 4 to) ++ put big_endian 4 from

module _ {V T P : Type 0} (proto : Proto T P) where
  -- `Decode` of a packet reads the flag and both addresses, and compares the target.
  pub decode-packet :
      (ss : SsCodec V T) (to from flag : ℕ) (body : List ℕ)
      → IsCodec ss
      → to < 2 ^ 32
      → from < 2 ^ 32
      → decode proto ss (packet to from flag body) ≡ (
          if is_target ss to
          then decode_body proto ss
              (get_msg_type flag)
              to
              from
              (at big_endian (preamble to from flag) body)
          else ok (relay (new_relay_message to from (packet to from flag body))))
  unfolding decode
  decode-packet ss to from flag body c ht hf = rw (
    reset_lem ss.reader flag (put big_endian 4 to ++ (put big_endian 4 from ++ body)) c,
    get_byte-at big_endian [] (put big_endian 4 to ++ (put big_endian 4 from ++ body)) flag,
    (get_uint-put big_endian 4 to (flag ∷ []) (put big_endian 4 from ++ body) ht).0,
    (get_uint-put big_endian 4 from ((flag ∷ []) ++ put big_endian 4 to) body hf).0,
  )

pub flag_kinds :
    (get_msg_type (set_msg_type 0 bin_msg) ≡ bin_msg)
    × (get_msg_type (set_msg_type 0 pb_msg) ≡ pb_msg)
    × (get_msg_type (set_msg_type 0 rpc_req) ≡ rpc_req)
    × (get_msg_type (set_msg_type 0 rpc_resp) ≡ rpc_resp)
unfolding get_msg_type set_msg_type
flag_kinds = (refl, refl, refl, refl)
