-- ===== src/Rpc/Message.antt =====
-- rpc/rpc.go: requests, responses and errors, and their wire form.
-- `V` stands for the values that a codec encodes; an `interface{}` is nil, a []byte or such a value.
pub mod RoundTrip
pub mod Response
pub mod Truncation
use clustergo.Common.{
  ℕ, zero, ◌+◌, ◌-◌, ◌%◌, ◌^◌, Bool, true, false, ◌||◌, List, [], ◌∷◌, ◌++◌, Option, none, some,
  ltb, leb, ◌==◌, if◌then◌else◌, Outcome, ok, err, panic, ◌>>=◌, length, take, drop,
}
use clustergo.Common.Int.{ℤ, pos, negsuc}
use clustergo.Endian.{big_endian, put}
use clustergo.Rpc.Bytes.{
  Fault, no_codec, Reading, return, write_bool, write_uint16, write_uint64, write_bytes, read_bool,
  read_uint, read_bytes, ◌>>=◌ as bind,
}

pub record RpcError : Type 0 where
  pub code : ℕ
  pub str : List ℕ

abbrev pub err_ok : ℕ
err_ok = 0

abbrev pub err_invalid_method : ℕ
err_invalid_method = 1

abbrev pub err_timeout : ℕ
err_timeout = 2

abbrev pub err_cancel : ℕ
err_cancel = 3

abbrev pub err_method : ℕ
err_method = 4

abbrev pub err_other : ℕ
err_other = 5

abbrev pub err_service_unavailable : ℕ
err_service_unavailable = 6

abbrev pub err_busy : ℕ
err_busy = 7

abbrev pub err_end : ℕ
err_end = 8

-- A code outside 1 to 7 gives the nil pointer.
unfoldable pub new_error : ℤ → List ℕ → Option RpcError
new_error (negsuc n) s = none
new_error (pos c) s = if c == 0 || leb err_end c then none else some (record { code = c; str = s })

-- An `interface{}`: nil, a []byte, or a live object.
pub data Payload (V : Type 0) : Type 0 where
  nil : Payload V
  wire : List ℕ → Payload V
  object : V → Payload V

-- The interface `Codec`: `Encode` appends to a buffer, `Decode` fills a destination.
pub record Codec (V : Type 0) : Type 0 where
  pub encode : List ℕ → Payload V → Outcome Fault (List ℕ)
  pub decode : List ℕ → V → Outcome Fault V

pub record RequestMsg (V : Type 0) : Type 0 where
  pub seq : ℕ
  pub method : List ℕ
  pub arg : Payload V
  pub user_data : List ℕ
  pub oneway : Bool
  pub codec : Option (Codec V)

pub record ResponseMsg (V : Type 0) : Type 0 where
  pub seq : ℕ
  pub error : Option RpcError
  pub ret : Payload V
  pub user_data : List ℕ
  pub codec : Option (Codec V)

abbrev pub max_user_data : ℕ
max_user_data = 65536

abbrev pub max_method_len : ℕ
max_method_len = 65536

abbrev pub max_err_str_len : ℕ
max_err_str_len = 65536

-- `if len(b) > n { b = b[:n] }`
unfoldable pub clip : ℕ → List ℕ → List ℕ
clip n b = if ltb n (length b) then take n b else b

-- `PutUint16(b[mark:], v)` panics unless two bytes stand there.
unfoldable pub patch_uint16 : List ℕ → ℕ → ℕ → Outcome Fault (List ℕ)
patch_uint16 b mark v =
    if ltb (length b) (mark + 2)
    then panic
    else ok (take mark b ++ (put big_endian 2 v ++ drop (mark + 2) b))

write_error : List ℕ → Option RpcError → List ℕ
write_error b none = write_uint16 b 0
write_error b (some e) = write_bytes (write_uint16 b (e.code % 2 ^ 16)) (clip max_err_str_len e.str)

-- A code other than 0 is followed by its text, and goes through `NewError`.
read_error : ℕ → Reading (Option RpcError)
read_error code =
    if code == 0 then return none else bind read_bytes λ str. return (new_error (pos code) str)

module _ {V : Type 0} where
  -- The buffer that Go returns beside an error is dropped by every caller, and is left out.
  encode_body : Codec V → List ℕ → Payload V → Outcome Fault (List ℕ)
  encode_body c b v = do
    b' ← c.encode (b ++ (0 ∷ 0 ∷ [])) v
    patch_uint16 b' (length b) ((length b' - (length b + 2)) % 2 ^ 16)

  unfoldable pub write_message : Codec V → List ℕ → Payload V → Outcome Fault (List ℕ)
  unfolding encode_body
  write_message c b nil = ok (b ++ (0 ∷ 0 ∷ []))
  write_message c b (wire w) = encode_body c b (wire w)
  write_message c b (object v) = encode_body c b (object v)

  -- The request comes back too: a long `UserData` is cut in place.
  unfoldable pub encode_request :
      List ℕ → RequestMsg V → Codec V → Outcome Fault (List ℕ × RequestMsg V)
  encode_request dst req c =
      let method = clip max_method_len req.method in
      let req' = record req { user_data = clip max_user_data req.user_data } in
      let b1 = write_uint64 dst req.seq in
      let b2 = write_bool b1 req.oneway in
      let b3 = write_bytes b2 method in
      let b4 = write_bytes b3 req'.user_data in do b5 ← write_message c b4 req.arg; ok (b5, req')

  -- The fields of a request in the order of the reads.
  pub request_reads : Option (Codec V) → Reading (RequestMsg V)
  request_reads c = bind (read_uint 8) λ seq. bind read_bool λ oneway. bind read_bytes λ method.
      bind read_bytes λ user_data. bind read_bytes λ arg. return (record {
        seq = seq;
        method = method;
        arg = wire arg;
        user_data = user_data;
        oneway = oneway;
        codec = c;
      })

  unfoldable pub decode_request : List ℕ → Option (Codec V) → Outcome Fault (RequestMsg V)
  unfolding request_reads
  decode_request buff c = (request_reads c buff).0

  unfoldable pub encode_response :
      List ℕ → ResponseMsg V → Codec V → Outcome Fault (List ℕ × ResponseMsg V)
  unfolding write_error
  encode_response dst resp c =
      let resp' = record resp { user_data = clip max_user_data resp.user_data } in
      let b1 = write_uint64 dst resp.seq in
      let b2 = write_bytes b1 resp'.user_data in
      let b3 = write_error b2 resp.error in do b4 ← write_message c b3 resp.ret; ok (b4, resp')

  pub response_reads : Option (Codec V) → Reading (ResponseMsg V)
  unfolding read_error
  response_reads c = bind (read_uint 8) λ seq. bind read_bytes λ user_data.
      bind (read_uint 2) λ code. bind (read_error code) λ error. bind read_bytes λ ret.
        return
          (record { seq = seq; error = error; ret = wire ret; user_data = user_data; codec = c })

  unfoldable pub decode_response : List ℕ → Option (Codec V) → Outcome Fault (ResponseMsg V)
  unfolding response_reads
  decode_response buff c = (response_reads c buff).0

  -- `copyValue` assigns by reflection: a parameter, an error where the types differ.
  module _ (copy_value : V → V → Outcome Fault V) where
    unfoldable pub decode_into : Option (Codec V) → Payload V → V → Outcome Fault V
    decode_into c nil dst = ok dst
    decode_into none (wire b) dst = err no_codec
    decode_into (some c) (wire b) dst = c.decode b dst
    decode_into c (object v) dst = copy_value dst v
