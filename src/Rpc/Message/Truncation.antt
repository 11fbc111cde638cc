-- ===== src/Rpc/Message/Truncation.antt =====
-- Decoding on any bytes: it never panics, and it never succeeds on a part of a message.
use clustergo.Rpc.Message.{
  Codec, wire, RequestMsg, ResponseMsg, request_reads, decode_request, read_error, response_reads,
  decode_response,
}
use clustergo.Rpc.Message.RoundTrip.{request_wire, RequestFits, request_reads-wire}
use clustergo.Rpc.Message.Response.{response_wire, ResponseFits, response_reads-wire}
use clustergo.Rpc.Bytes.{
  Fault, Reading, return, after, ◌>>=◌, read_byte, read_bool, read_uint, read_sized, read_bytes,
  cut, cut_first,
}
use clustergo.Rpc.Bytes.Laws.{
  Extends, >>=-Extends, return-Extends, read_uint-Extends, read_bool-Extends, read_bytes-Extends,
}
use clustergo.Common.{
  ℕ, ◌≡◌, ◌≢◌, refl, ap, arith, List, [], ◌∷◌, ◌++◌, Option, none, ◌==◌, Outcome, ok, err, panic,
  length-append, Bool-cases, inl, inr,
}

abbrev pub Calm : {A : Type 0} → Reading A → Type 0
Calm m = (s : List ℕ) → (m s).0 ≢ panic

return-Calm : {A : Type 0} (a : A) → Calm (return a)
return-Calm a s e = cc

>>=-Calm :
    {A B : Type 0} (m : Reading A) (f : A → Reading B)
    → Calm m
    → ((a : A) → Calm (f a))
    → Calm (m >>= f)
>>=-Calm {A} m f hm hf s = go (m s).0 (m s).1 (hm s)
  where
    go : (o : Outcome Fault A) (u : List ℕ) → o ≢ panic → (after f o u).0 ≢ panic
    go (ok a) u p = hf a u
    go (err x) u p = λ e. cc
    go panic u p = absurd (p refl)

read_byte-Calm : Calm read_byte
unfolding read_byte cut_first
read_byte-Calm [] e = ground (arith, e)
read_byte-Calm (x ∷ s) e = ground (arith, e)

read_uint-Calm : (w : ℕ) → Calm (read_uint w)
unfolding read_uint cut
read_uint-Calm w s e = ground arith

read_sized-Calm : (w : ℕ) → Calm (read_sized w)
unfolding read_sized cut
read_sized-Calm w s e = ground arith

read_bool-Calm : Calm read_bool
unfolding read_bool
read_bool-Calm = >>=-Calm read_byte _ read_byte-Calm (λ b. return-Calm (b == 1))

read_bytes-Calm : Calm read_bytes
unfolding read_bytes
read_bytes-Calm = >>=-Calm (read_uint 2) _ (read_uint-Calm 2) read_sized-Calm

read_error-Extends : (code : ℕ) → Extends (read_error code)
unfolding read_error
read_error-Extends code = elim (Bool-cases (code == 0)) [
  | inl e ↦ rw e (return-Extends none)
  | inr e ↦ rw e (>>=-Extends read_bytes _ read_bytes-Extends (λ s. return-Extends _))
]

read_error-Calm : (code : ℕ) → Calm (read_error code)
unfolding read_error
read_error-Calm code = elim (Bool-cases (code == 0)) [
  | inl e ↦ rw e (return-Calm none)
  | inr e ↦ rw e (>>=-Calm read_bytes _ read_bytes-Calm (λ s. return-Calm _))
]

module _ {V : Type 0} (c : Option (Codec V)) where
  request_reads-Extends : Extends (request_reads c)
  unfolding request_reads
  request_reads-Extends = >>=-Extends (read_uint 8) _ (read_uint-Extends 8) λ seq.
      >>=-Extends read_bool _ read_bool-Extends λ oneway.
        >>=-Extends read_bytes _ read_bytes-Extends λ method.
          >>=-Extends read_bytes _ read_bytes-Extends
            λ user_data. >>=-Extends read_bytes _ read_bytes-Extends λ arg. return-Extends _

  request_reads-Calm : Calm (request_reads c)
  unfolding request_reads
  request_reads-Calm = >>=-Calm (read_uint 8) _ (read_uint-Calm 8) λ seq.
      >>=-Calm read_bool _ read_bool-Calm λ oneway. >>=-Calm read_bytes _ read_bytes-Calm λ method.
        >>=-Calm read_bytes _ read_bytes-Calm
          λ user_data. >>=-Calm read_bytes _ read_bytes-Calm λ arg. return-Calm _

  response_reads-Extends : Extends (response_reads c)
  unfolding response_reads
  response_reads-Extends = >>=-Extends (read_uint 8) _ (read_uint-Extends 8) λ seq.
      >>=-Extends read_bytes _ read_bytes-Extends λ user_data.
        >>=-Extends (read_uint 2) _ (read_uint-Extends 2) λ code.
          >>=-Extends (read_error code) _ (read_error-Extends code)
            λ error. >>=-Extends read_bytes _ read_bytes-Extends λ ret. return-Extends _

  response_reads-Calm : Calm (response_reads c)
  unfolding response_reads
  response_reads-Calm = >>=-Calm (read_uint 8) _ (read_uint-Calm 8) λ seq.
      >>=-Calm read_bytes _ read_bytes-Calm λ user_data.
        >>=-Calm (read_uint 2) _ (read_uint-Calm 2) λ code.
          >>=-Calm (read_error code) _ (read_error-Calm code)
            λ error. >>=-Calm read_bytes _ read_bytes-Calm λ ret. return-Calm _

-- A read that uses up `front ++ x ∷ back` whole fails on `front`.
cut_fails :
    {A : Type 0} (m : Reading A) (front back : List ℕ) (x : ℕ) (a : A)
    → Extends m
    → Calm m
    → m (front ++ (x ∷ back)) ≡ (ok a, [])
    → (e : Fault) × ((m front).0 ≡ err e)
cut_fails {A} m front back x a ex calm whole = go (m front).0 (m front).1 refl
  where
    go : (o : Outcome Fault A) (u : List ℕ) → m front ≡ (o, u) → (e : Fault) × (o ≡ err e)
    go (ok b) u p =
        absurd (ground (arith, ex front (x ∷ back) b u p, length-append u (x ∷ back), whole))
    go (err e) u p = (e, refl)
    go panic u p = absurd (calm front (ap (λ (q : Outcome Fault A × List ℕ). q.0) p))

-- `DecodeRequest` and `DecodeResponse` end without a panic on any bytes.
pub decode-ne-panic :
    {V : Type 0} (buff : List ℕ) (c : Option (Codec V))
    → (decode_request buff c ≢ panic) × (decode_response buff c ≢ panic)
unfolding decode_request decode_response
decode-ne-panic buff c = (request_reads-Calm c buff, response_reads-Calm c buff)

-- Every proper prefix of a request's wire form, whose fields fit their sizes, is answered with an
-- error by `DecodeRequest`.
decode_request_truncated :
    {V : Type 0} (c : Option (Codec V)) (front back body : List ℕ) (x : ℕ) (req : RequestMsg V)
    → RequestFits req body
    → request_wire req body ≡ front ++ (x ∷ back)
    → (e : Fault) × (decode_request front c ≡ err e)
unfolding decode_request
decode_request_truncated c front back body x req f e =
    cut_fails (request_reads c) front back x (record req { arg = wire body; codec = c })
      (request_reads-Extends c) (request_reads-Calm c) (rw (← e) (request_reads-wire req body c f))

-- Every proper prefix of a response's wire form, whose fields fit their sizes, is answered with an error
-- by `DecodeResponse`.
decode_response_truncated :
    {V : Type 0} (c : Option (Codec V)) (front back body : List ℕ) (x : ℕ) (resp : ResponseMsg V)
    → ResponseFits resp body
    → response_wire resp body ≡ front ++ (x ∷ back)
    → (e : Fault) × (decode_response front c ≡ err e)
unfolding decode_response
decode_response_truncated c front back body x resp f e =
    cut_fails (response_reads c) front back x (record resp { ret = wire body; codec = c })
      (response_reads-Extends c) (response_reads-Calm c)
      (rw (← e) (response_reads-wire resp body c f))
