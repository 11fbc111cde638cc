-- ===== src/Rpc/Server.antt =====
-- rpc/server.go: registered methods, and a request on its way to one answer.
-- A method and an interceptor are what they do to the replyer, in order, and how they end; what they
-- do later, from another goroutine, are further actions on the replyer. A failed `Channel.Reply` is
-- only logged.
pub mod Once
pub mod Answers
use clustergo.Common.{
  ℕ, zero, suc, ◌+◌, Bool, true, false, List, [], ◌∷◌, ◌++◌, Option, none, some, ◌==◌,
  if◌then◌else◌, Outcome, ok, err, panic, length, map,
}
use clustergo.Common.Int.{pos}
use clustergo.Common.Table.{Table, lookup, insert, delete, bytes_eq}
use clustergo.Common.Text.{codes}
use clustergo.Rpc.Bytes.{Fault}
use clustergo.Rpc.Message.{
  RpcError, new_error, err_invalid_method, err_method, err_other, err_service_unavailable, Payload,
  nil, wire, object, Codec, RequestMsg, ResponseMsg, decode_into,
}

-- A Go error: a *Error, perhaps the nil pointer, or one of another type with its text.
pub data GoError : Type 0 where
  rpc_error : Option RpcError → GoError
  plain_error : List ℕ → GoError

-- Interceptors by name.
abbrev pub InterceptorName : Type 0
InterceptorName = ℕ

pub data Effect (V : Type 0) : Type 0 where
  intercepted : InterceptorName → Payload V → Option GoError → Effect V
  replied : ResponseMsg V → Effect V

-- The channel is the one that the effects go to.
pub record Replyer (V : Type 0) : Type 0 where
  pub req : RequestMsg V
  pub replyed : Bool
  pub out_interceptor : List InterceptorName

-- What a handler may do with its replyer.
pub data Action (V : Type 0) : Type 0 where
  replies_with : Payload V → Action V
  fails_with : GoError → Action V
  appends : InterceptorName → Action V

pub data Verdict : Type 0 where
  goes_on stops panics : Verdict

pub record Handling (V : Type 0) : Type 0 where
  pub actions : List (Action V)
  pub verdict : Verdict

-- A registered method: a new argument, and what it does for one.
pub record Method (V : Type 0) : Type 0 where
  pub new : V
  pub run : V → Handling V

pub record Server (V : Type 0) : Type 0 where
  pub methods : Table (List ℕ) (Method V)
  pub stoped : Bool
  pub in_interceptor : List (RequestMsg V → Handling V)

pub data RegisterError : Type 0 where
  empty_name duplicate_method : RegisterError

unfoldable pub response_error : GoError → Option RpcError
response_error (rpc_error e) = e
response_error (plain_error s) = new_error (pos err_method) s

abbrev pub method_panic : GoError
method_panic = rpc_error (new_error (pos err_other) (codes "method panic"))

module _ {V : Type 0} where
  abbrev pub new_server : Server V
  new_server = record { methods = []; stoped = false; in_interceptor = [] }

  abbrev pub stop : Server V → Server V
  stop s = record s { stoped = true }

  unfoldable pub register : Server V → List ℕ → Method V → Outcome RegisterError (Server V)
  register s name m = if length name == 0 then err empty_name else elim (lookup name s.methods) [
    | some _ ↦ err duplicate_method
    | none ↦ ok (record s { methods = insert name m s.methods })
  ]

  unfoldable pub un_register : Server V → List ℕ → Server V
  un_register s name = record s { methods = delete name s.methods }

  -- `callOutInterceptor`.
  unfoldable pub call_out_interceptor : Replyer V → Payload V → Option GoError → List (Effect V)
  call_out_interceptor r ret e = map (λ f. intercepted f ret e) r.out_interceptor

  -- Behind the compare-and-swap: the interceptors, and the response unless the request is oneway.
  unfoldable pub answer :
      Replyer V → Payload V → Option GoError → Option RpcError → Replyer V × List (Effect V)
  unfolding call_out_interceptor
  answer r ret e resp_err = if r.replyed then (r, []) else (
    record r { replyed = true },
    call_out_interceptor r ret e
        ++ (if r.req.oneway
            then []
            else replied (record {
              seq = r.req.seq;
              error = resp_err;
              ret = ret;
              user_data = [];
              codec = none;
            })
              ∷ []),
  )

  unfoldable pub error : Replyer V → GoError → Replyer V × List (Effect V)
  unfolding response_error
  error r e = answer r nil (some e) (response_error e)

  unfoldable pub reply : Replyer V → Payload V → Replyer V × List (Effect V)
  reply r ret = answer r ret none none

  unfoldable pub act : Replyer V → Action V → Replyer V × List (Effect V)
  act r (replies_with ret) = reply r ret
  act r (fails_with e) = error r e
  act r (appends f) = (record r { out_interceptor = r.out_interceptor ++ (f ∷ []) }, [])

  unfoldable pub perform : Replyer V → List (Action V) → Replyer V × List (Effect V)
  perform r [] = (r, [])
  perform r (a ∷ as_left) =
      let (r1, es1) = act r a in let (r2, es2) = perform r1 as_left in (r2, es1 ++ es2)

  -- What one handler did, and what the handlers behind it do if it goes on; with the error that the
  -- caller returns: none where a handler stops, that of the deferred `recover` where it panics.
  unfoldable pub conclude :
      Verdict
      → Replyer V × List (Effect V)
      → Replyer V × (List (Effect V) × Option GoError)
      → Replyer V × (List (Effect V) × Option GoError)
  conclude goes_on (r1, es1) (r2, (es2, e)) = (r2, (es1 ++ es2, e))
  conclude stops (r1, es1) rest = (r1, (es1, none))
  conclude panics (r1, es1) rest = (r1, (es1, some method_panic))

  -- The interceptors and the method, one after the other.
  unfoldable pub serve :
      Replyer V → List (Handling V) → Replyer V × (List (Effect V) × Option GoError)
  serve r [] = (r, ([], none))
  serve r (h ∷ hs) =
      let p = perform r h.actions in let rest = serve p.0 hs in conclude h.verdict p rest

  -- The error that a caller has returned goes to the replyer.
  unfoldable pub settle :
      Replyer V × (List (Effect V) × Option GoError) → Replyer V × List (Effect V)
  settle (r, (es, none)) = (r, es)
  settle (r, (es, some e)) = let (r', es') = error r e in (r', es ++ es')

  abbrev pub new_replyer : RequestMsg V → Replyer V
  new_replyer req = record { req = req; replyed = false; out_interceptor = [] }

  abbrev pub handlings : Server V → Method V → RequestMsg V → V → List (Handling V)
  handlings s m req arg = map (λ f. f req) s.in_interceptor ++ (m.run arg ∷ [])

  -- `describe` is the text of an error of `decodeInto`.
  module _ (copy_value : V → V → Outcome Fault V) (describe : Fault → List ℕ) where
    unfoldable pub call_method :
        Server V
        → Method V
        → RequestMsg V
        → Outcome Fault V
        → Outcome (Unit {0}) (Replyer V × List (Effect V))
    call_method s m req (ok arg) =
        let req' = record req { arg = object arg } in
        ok (settle (serve (new_replyer req') (handlings s m req' arg)))
    call_method s m req (err f) = ok (
        error (new_replyer req)
          (rpc_error (new_error (pos err_other) (codes "arg decode error:" ++ describe f))))
    call_method s m req panic = panic

    unfoldable pub on_message :
        Server V → RequestMsg V → Outcome (Unit {0}) (Replyer V × List (Effect V))
    on_message s req =
        if s.stoped
        then ok (
            error (new_replyer req)
              (rpc_error (new_error (pos err_service_unavailable) (codes "service unavaliable"))))
        else elim (lookup req.method s.methods) [
          | none ↦ ok (
              error (new_replyer req) (
                rpc_error (
                  new_error (pos err_invalid_method)
                    (codes "method " ++ (req.method ++ codes " not found")))))
          | some m ↦ call_method s m req (decode_into copy_value req.codec req.arg m.new)
        ]
