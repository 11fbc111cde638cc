-- ===== src/Rpc/Message/RoundTrip.antt =====
-- What `EncodeRequest` and `EncodeResponse` append, and that decoding reads it back.
use clustergo.Rpc.Message.{
  Codec, Payload, nil, wire, object, RequestMsg, clip, patch_uint16, encode_body, write_message,
  encode_request, request_reads, decode_request,
}
use clustergo.Rpc.Bytes.{Fault, write_bool, write_uint64, read_bool}
use clustergo.Rpc.Bytes.Laws.{
  read_byte-cons, field, write_bytes-field, read_uint-put, read_bytes-field,
}
use clustergo.Common.{
  ℕ, ◌+◌, ◌-◌, ◌%◌, ◌^◌, ◌≤◌, ◌<◌, ◌≡◌, refl, ap, arith, Bool, true, false, List, [], ◌∷◌, ◌++◌,
  Option, Outcome, ok, length, length-append, take-append_left, drop-append_left, append-nil,
  append_assoc,
}
use clustergo.Endian.{big_endian, put}

pub clip_short : (n : ℕ) (b : List ℕ) → length b ≤ n → clip n b ≡ b
unfolding clip
clip_short n b h = ground arith

patch-append :
    (b x z : List ℕ) (v : ℕ)
    → length x ≡ 2
    → patch_uint16 (b ++ (x ++ z)) (length b) v ≡ ok (b ++ (put big_endian 2 v ++ z))
unfolding patch_uint16
patch-append b x z v h = ground (
  arith,
  length-append b (x ++ z),
  length-append x z,
  take-append_left (length b) b (x ++ z) refl,
  append_assoc b x z,
  length-append b x,
  drop-append_left (length b + 2) (b ++ x) z,
)

unfoldable pub oneway_byte : Bool → ℕ
oneway_byte true = 1
oneway_byte false = 0

write_bool-byte : (b : List ℕ) (v : Bool) → write_bool b v ≡ b ++ (oneway_byte v ∷ [])
unfolding write_bool oneway_byte
write_bool-byte b true = refl
write_bool-byte b false = refl

read_bool-byte : (v : Bool) (rest : List ℕ) → read_bool (oneway_byte v ∷ rest) ≡ (ok v, rest)
unfolding read_bool oneway_byte
read_bool-byte true rest = rw (read_byte-cons 1 rest) refl
read_bool-byte false rest = rw (read_byte-cons 0 rest) refl

module _ {V : Type 0} where
  -- The codec appends `body` for `v` to whatever stands in the buffer; nothing is encoded for nil.
  abbrev pub Appends : Codec V → Payload V → List ℕ → Type 0
  Appends c nil body = body ≡ []
  Appends c (wire w) body = (dst : List ℕ) → c.encode dst (wire w) ≡ ok (dst ++ body)
  Appends c (object v) body = (dst : List ℕ) → c.encode dst (object v) ≡ ok (dst ++ body)

  encode_body-field :
      (c : Codec V) (b : List ℕ) (v : Payload V) (body : List ℕ)
      → ((dst : List ℕ) → c.encode dst v ≡ ok (dst ++ body))
      → length body < 2 ^ 16
      → encode_body c b v ≡ ok (b ++ field body)
  unfolding encode_body
  encode_body-field c b v body h fits =
      let zeros : List ℕ = 0 ∷ 0 ∷ [] in
      let size : (length ((b ++ zeros) ++ body) - (length b + 2)) % 2 ^ 16 ≡ length body =
        omega (arith, length-append (b ++ zeros) body, length-append b zeros) in
      rw (h (b ++ zeros), size, append_assoc b zeros body)
        (patch-append b zeros body (length body) refl)

  pub write_message-field :
      (c : Codec V) (b : List ℕ) (v : Payload V) (body : List ℕ)
      → Appends c v body
      → length body < 2 ^ 16
      → write_message c b v ≡ ok (b ++ field body)
  unfolding write_message
  write_message-field c b nil body h fits = rw h (ap (λ t. ok (b ++ t)) (unfold put in refl))
  write_message-field c b (wire w) body h fits = encode_body-field c b (wire w) body h fits
  write_message-field c b (object v) body h fits = encode_body-field c b (object v) body h fits

  -- The wire form of a request whose argument the codec writes as `body`.
  unfoldable pub request_wire : RequestMsg V → List ℕ → List ℕ
  request_wire req body =
      put big_endian 8 req.seq
      ++ (oneway_byte req.oneway ∷ (field req.method ++ (field req.user_data ++ field body)))

  -- The sizes that fit their fields.
  pub record RequestFits (req : RequestMsg V) (body : List ℕ) : Type 0 where
    pub seq_fits : req.seq < 2 ^ 64
    pub method_fits : length req.method < 2 ^ 16
    pub user_data_fits : length req.user_data < 2 ^ 16
    pub body_fits : length body < 2 ^ 16

  -- `EncodeRequest` keeps the buffer, appends the wire form and leaves the request as it was.
  pub encode_request-wire :
      (dst : List ℕ) (req : RequestMsg V) (c : Codec V) (body : List ℕ)
      → RequestFits req body
      → Appends c req.arg body
      → encode_request dst req c ≡ ok (dst ++ request_wire req body, req)
  unfolding encode_request request_wire write_uint64
  encode_request-wire dst req c body f h =
      rw
        (
          clip_short 65536 req.method (omega arith),
          clip_short 65536 req.user_data (omega arith),
          write_bool-byte,
          write_bytes-field _ req.method f.method_fits,
          write_bytes-field _ req.user_data f.user_data_fits,
          write_message-field c _ req.arg body h f.body_fits,
        )
        (ap (λ t. ok (t, req)) (simp append_assoc))

  -- The reads of a request take its wire form apart and leave nothing.
  pub request_reads-wire :
      (req : RequestMsg V) (body : List ℕ) (c : Option (Codec V))
      → RequestFits req body
      → request_reads c (request_wire req body)
        ≡ (ok (record req { arg = wire body; codec = c }), [])
  unfolding request_reads request_wire
  request_reads-wire req body c f = rw (
    read_uint-put 8 req.seq _ f.seq_fits,
    read_bool-byte req.oneway,
    read_bytes-field req.method _ f.method_fits,
    read_bytes-field req.user_data _ f.user_data_fits,
    ← append-nil (field body),
    read_bytes-field body [] f.body_fits,
  )

  pub decode_request-request_wire :
      (req : RequestMsg V) (body : List ℕ) (c : Option (Codec V))
      → RequestFits req body
      → decode_request (request_wire req body) c ≡ ok (record req { arg = wire body; codec = c })
  unfolding decode_request
  decode_request-request_wire req body c f =
      ap (λ (p : Outcome Fault (RequestMsg V) × List ℕ). p.0) (request_reads-wire req body c f)

  -- For a request whose sequence number is a uint64 and whose method, user data and encoded argument
  -- are shorter than 65536 bytes, with a codec that appends that encoding: `EncodeRequest` appends
  -- some bytes to the buffer and leaves the request as it was, and `DecodeRequest` of those bytes
  -- gives the same request with the encoded argument, whatever codec it is to carry.
  pub decode_request-encode_request :
      (dst : List ℕ) (req : RequestMsg V) (c : Codec V) (body : List ℕ) (c' : Option (Codec V))
      → RequestFits req body
      → Appends c req.arg body
      → (w : List ℕ) × (encode_request dst req c ≡ ok (dst ++ w, req))
        × (decode_request w c' ≡ ok (record req { arg = wire body; codec = c' }))
  decode_request-encode_request dst req c body c' f h = (
    request_wire req body,
    encode_request-wire dst req c body f h,
    decode_request-request_wire req body c' f,
  )
