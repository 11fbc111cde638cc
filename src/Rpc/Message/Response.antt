-- ===== src/Rpc/Message/Response.antt =====
-- The round trip of responses.
use clustergo.Rpc.Message.{
  RpcError, Codec, wire, ResponseMsg, new_error, write_error, encode_response, read_error,
  response_reads, decode_response, err_end,
}
use clustergo.Rpc.Message.RoundTrip.{Appends, clip_short, write_message-field}
use clustergo.Rpc.Bytes.{Fault, write_uint16, write_uint64}
use clustergo.Rpc.Bytes.Laws.{field, write_bytes-field, read_uint-put, read_bytes-field}
use clustergo.Common.{
  ℕ, ◌%◌, ◌^◌, ◌<◌, ◌≡◌, refl, ap, arith, List, [], ◌++◌, Option, none, some, Outcome, ok, length,
  append-nil, append_assoc,
}
use clustergo.Endian.{big_endian, put}

-- What `NewError` can have built, with a text that fits its field.
abbrev pub IsError : Option RpcError → Type 0
IsError none = Unit {0}
IsError (some e) = (0 < e.code) × (e.code < err_end) × (length e.str < 2 ^ 16)

unfoldable pub error_wire : Option RpcError → List ℕ
error_wire none = put big_endian 2 0
error_wire (some e) = put big_endian 2 e.code ++ field e.str

write_error-wire :
    (b : List ℕ) (e : Option RpcError) → IsError e → write_error b e ≡ b ++ error_wire e
unfolding write_error write_uint16 error_wire
write_error-wire b none h = refl
write_error-wire b (some e) h =
    let small : e.code % 2 ^ 16 ≡ e.code = omega arith in
    rw (
      clip_short 65536 e.str (omega arith),
      small,
      write_bytes-field _ e.str (omega arith),
      append_assoc,
    )

abbrev error_code : Option RpcError → ℕ
error_code none = 0
error_code (some e) = e.code

abbrev error_text : Option RpcError → List ℕ
error_text none = []
error_text (some e) = field e.str

error_wire_parts :
    (e : Option RpcError) → error_wire e ≡ put big_endian 2 (error_code e) ++ error_text e
unfolding error_wire
error_wire_parts none = rw append-nil
error_wire_parts (some e) = refl

error_code-lt : (e : Option RpcError) → IsError e → error_code e < 256 ^ 2
error_code-lt none h = omega arith
error_code-lt (some e) h = omega arith

read_error-text :
    (e : Option RpcError) (rest : List ℕ)
    → IsError e
    → read_error (error_code e) (error_text e ++ rest) ≡ (ok e, rest)
unfolding read_error new_error
read_error-text none rest h = refl
read_error-text (some e) rest h = ground (arith, read_bytes-field e.str rest (omega arith))

module _ {V : Type 0} where
  -- The wire form of a response whose result the codec writes as `body`.
  unfoldable pub response_wire : ResponseMsg V → List ℕ → List ℕ
  response_wire resp body =
      put big_endian 8 resp.seq ++ (field resp.user_data ++ (error_wire resp.error ++ field body))

  pub record ResponseFits (resp : ResponseMsg V) (body : List ℕ) : Type 0 where
    pub seq_fits : resp.seq < 2 ^ 64
    pub user_data_fits : length resp.user_data < 2 ^ 16
    pub error_fits : IsError resp.error
    pub body_fits : length body < 2 ^ 16

  pub encode_response-wire :
      (dst : List ℕ) (resp : ResponseMsg V) (c : Codec V) (body : List ℕ)
      → ResponseFits resp body
      → Appends c resp.ret body
      → encode_response dst resp c ≡ ok (dst ++ response_wire resp body, resp)
  unfolding encode_response response_wire write_uint64
  encode_response-wire dst resp c body f h =
      rw
        (
          clip_short 65536 resp.user_data (omega arith),
          write_bytes-field _ resp.user_data f.user_data_fits,
          write_error-wire _ resp.error f.error_fits,
          write_message-field c _ resp.ret body h f.body_fits,
        )
        (ap (λ t. ok (t, resp)) (simp append_assoc))

  pub response_reads-wire :
      (resp : ResponseMsg V) (body : List ℕ) (c : Option (Codec V))
      → ResponseFits resp body
      → response_reads c (response_wire resp body)
        ≡ (ok (record resp { ret = wire body; codec = c }), [])
  unfolding response_reads response_wire
  response_reads-wire resp body c f = rw (
    read_uint-put 8 resp.seq _ f.seq_fits,
    read_bytes-field resp.user_data _ f.user_data_fits,
    error_wire_parts resp.error,
    append_assoc,
    read_uint-put 2 (error_code resp.error) _ (error_code-lt resp.error f.error_fits),
    read_error-text resp.error _ f.error_fits,
    ← append-nil (field body),
    read_bytes-field body [] f.body_fits,
  )

  pub decode_response-response_wire :
      (resp : ResponseMsg V) (body : List ℕ) (c : Option (Codec V))
      → ResponseFits resp body
      → decode_response (response_wire resp body) c
        ≡ ok (record resp { ret = wire body; codec = c })
  unfolding decode_response
  decode_response-response_wire resp body c f =
      ap (λ (p : Outcome Fault (ResponseMsg V) × List ℕ). p.0) (response_reads-wire resp body c f)

  -- For a response whose sequence number is a uint64, whose user data, error text and encoded result
  -- are shorter than 65536 bytes and whose error, if any, has a code from 1 to 7, with a codec that
  -- appends that encoding: `EncodeResponse` appends some bytes and leaves the response as it was, and
  -- `DecodeResponse` of those bytes gives the same response, error included, with the encoded result.
  decode_response-encode_response :
      (dst : List ℕ) (resp : ResponseMsg V) (c : Codec V) (body : List ℕ) (c' : Option (Codec V))
      → ResponseFits resp body
      → Appends c resp.ret body
      → (w : List ℕ) × (encode_response dst resp c ≡ ok (dst ++ w, resp))
        × (decode_response w c' ≡ ok (record resp { ret = wire body; codec = c' }))
  decode_response-encode_response dst resp c body c' f h = (
    response_wire resp body,
    encode_response-wire dst resp c body f h,
    decode_response-response_wire resp body c' f,
  )
