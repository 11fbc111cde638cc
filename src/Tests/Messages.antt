-- ===== src/Tests/Messages.antt =====
-- rpc/rpc.go, with a codec whose values are bytes.
use clustergo.Rpc.Message.{
  Codec, Payload, nil, wire, object, RequestMsg, ResponseMsg, encode_request, decode_request,
  decode_response,
}
use clustergo.Rpc.Message.RoundTrip.{RequestFits, decode_request-encode_request}
use clustergo.Rpc.Message.Response.{ResponseFits}
use clustergo.Rpc.Message.Truncation.{decode-ne-panic}
use clustergo.Rpc.Bytes.{Fault, codec_failed}
use clustergo.Common.{
  ℕ, ◌≡◌, ◌≢◌, refl, arith, false, List, [], ◌∷◌, ◌++◌, none, some, Outcome, ok, err, panic,
}

abbrev pub byte_encode : List ℕ → Payload ℕ → Outcome Fault (List ℕ)
byte_encode dst nil = err (codec_failed [])
byte_encode dst (wire w) = ok (dst ++ w)
byte_encode dst (object v) = ok (dst ++ (v ∷ []))

abbrev pub byte_decode : List ℕ → ℕ → Outcome Fault ℕ
byte_decode [] old = err (codec_failed [])
byte_decode (v ∷ b) old = ok v

abbrev pub byte_codec : Codec ℕ
byte_codec = record { encode = byte_encode; decode = byte_decode }

abbrev pub ping : RequestMsg ℕ
ping = record {
  seq = 4294967297;
  method = b'p' ∷ b'i' ∷ [];
  arg = object 42;
  user_data = 1 ∷ [];
  oneway = false;
  codec = none;
}

abbrev pub pong : ResponseMsg ℕ
pong = record {
  seq = 4294967297;
  error = some (record { code = 3; str = b'c' ∷ [] });
  ret = object 43;
  user_data = [];
  codec = none;
}

pub ping-fits : RequestFits ping (42 ∷ [])
ping-fits = omega arith

pub pong-fits : ResponseFits pong (43 ∷ [])
pong-fits = record {
  seq_fits = omega arith;
  user_data_fits = omega arith;
  error_fits = omega arith;
  body_fits = omega arith;
}

decode_request-encode_request_example :
    (w : List ℕ) × (encode_request (8 ∷ []) ping byte_codec ≡ ok ((8 ∷ []) ++ w, ping))
    × (decode_request w (some byte_codec)
        ≡ ok (record ping { arg = wire (42 ∷ []); codec = some byte_codec }))
decode_request-encode_request_example =
    decode_request-encode_request (8 ∷ []) ping byte_codec (42 ∷ []) (some byte_codec) ping-fits
      (λ dst. refl)

decode-ne-panic_example :
    (decode_request (1 ∷ []) (some byte_codec) ≢ panic)
    × (decode_response (1 ∷ []) (some byte_codec) ≢ panic)
decode-ne-panic_example = decode-ne-panic (1 ∷ []) (some byte_codec)

-- The wire forms without their last byte.
