-- ===== src/Rpc/Server/Answers.antt =====
-- The answer to a request that fails, and the table of methods.
use clustergo.Rpc.Server.{
  rpc_error, Effect, intercepted, replied, Replyer, Handling, panics, Method, Server, register,
  un_register, call_out_interceptor, response_error, answer, error, perform, conclude, serve,
  settle, method_panic, new_replyer, call_method, on_message,
}
use clustergo.Rpc.Server.Once.{responses, responses-append, responses-map, mark, Answered-perform}
use clustergo.Common.{
  ℕ, ◌≤◌, ◌≡◌, refl, ap, ◌∙◌, arith, true, false, List, [], ◌∷◌, ◌++◌, Option, none, some,
  if◌then◌else◌, Outcome, ok, err, length, map, Option-cases, inl, inr,
}
use clustergo.Common.Table.{
  lookup, lookup-insert, lookup-delete, bytes_eq, bytes_beq, bytes_beq_iff,
}
use clustergo.Common.Text.{codes}
use clustergo.Rpc.Bytes.{Fault}
use clustergo.Rpc.Message.{
  RpcError, new_error, nil, object, RequestMsg, ResponseMsg, decode_into, err_invalid_method,
  err_other, err_service_unavailable,
}

abbrev pub error_of : ℕ → List ℕ → Option RpcError
error_of code text = some (record { code = code; str = text })

module _ {V : Type 0} where
  abbrev pub error_response : ℕ → Option RpcError → ResponseMsg V
  error_response seq e = record { seq = seq; error = e; ret = nil; user_data = []; codec = none }

  responses-error :
      (r : Replyer V) (e : Option RpcError)
      → r.replyed ≡ false
      → r.req.oneway ≡ false
      → responses (error r (rpc_error e)).1 ≡ error_response r.req.seq e ∷ []
  unfolding error answer call_out_interceptor response_error
  responses-error r e fresh two_way =
      rw (fresh, two_way)
        (responses-append (map (λ f. intercepted f nil (some (rpc_error e))) r.out_interceptor)
            (replied (error_response r.req.seq e) ∷ [])
          ∙ ap (λ t. t ++ (error_response r.req.seq e ∷ []))
              (responses-map r.out_interceptor nil (some (rpc_error e))))

  no_response : (rs : List (ResponseMsg V)) → length rs ≤ 0 → rs ≡ []
  no_response [] h = refl
  no_response (x ∷ rs) h = absurd (omega arith)

  settle-panics :
      (r : Replyer V) (h : Handling V)
      → h.verdict ≡ panics
      → settle (serve r (h ∷ [])) ≡ (
        (error (perform r h.actions).0 method_panic).0,
        (perform r h.actions).1 ++ (error (perform r h.actions).0 method_panic).1,
      )
  unfolding settle serve conclude
  settle-panics r h v = rw v refl

  module _ (copy_value : V → V → Outcome Fault V) (describe : Fault → List ℕ) where
    -- The ways in which a request fails before its method has answered, with the error of each.
    pub data Fails (s : Server V) (req : RequestMsg V) : Option RpcError → Type 0 where
      is_stopped :
          s.stoped ≡ true
          → Fails s req (error_of err_service_unavailable (codes "service unavaliable"))
      is_unknown :
          s.stoped ≡ false
          → lookup req.method s.methods ≡ none
          → Fails s req
              (error_of err_invalid_method (codes "method " ++ (req.method ++ codes " not found")))
      is_undecodable :
          (m : Method V) (f : Fault)
          → s.stoped ≡ false
          → lookup req.method s.methods ≡ some m
          → decode_into copy_value req.codec req.arg m.new ≡ err f
          → Fails s req (error_of err_other (codes "arg decode error:" ++ describe f))
      is_panicking :
          (m : Method V) (arg : V)
          → s.stoped ≡ false
          → lookup req.method s.methods ≡ some m
          → decode_into copy_value req.codec req.arg m.new ≡ ok arg
          → s.in_interceptor ≡ []
          → (m.run arg).verdict ≡ panics
          → (perform (new_replyer (record req { arg = object arg })) (m.run arg).actions).0.replyed
            ≡ false
          → Fails s req (error_of err_other (codes "method panic"))

    -- A request that is not oneway and comes to a stopped server, names no registered method, has an
    -- argument that does not decode, or whose method panics before it has answered (on a server
    -- without interceptors) gets exactly one response: with its sequence number and the error of that
    -- failure.
    pub on_message-Fails :
        (s : Server V) (req : RequestMsg V) (e : Option RpcError)
        → req.oneway ≡ false
        → Fails s req e
        → (r : Replyer V) × (es : List (Effect V)) × (on_message copy_value describe s req
            ≡ ok (r, es))
          × (responses es ≡ error_response req.seq e ∷ [])
    unfolding on_message call_method error answer new_error
    on_message-Fails s req e two_way (is_stopped h) = (
      (error (new_replyer req) (rpc_error e)).0,
      (error (new_replyer req) (rpc_error e)).1,
      rw h refl,
      responses-error (new_replyer req) _ refl two_way,
    )
    on_message-Fails s req e two_way (is_unknown h k) = (
      (error (new_replyer req) (rpc_error e)).0,
      (error (new_replyer req) (rpc_error e)).1,
      rw (h, k) refl,
      responses-error (new_replyer req) _ refl two_way,
    )
    on_message-Fails s req e two_way (is_undecodable m f h k d) = (
      (error (new_replyer req) (rpc_error e)).0,
      (error (new_replyer req) (rpc_error e)).1,
      rw (h, k, d) refl,
      responses-error (new_replyer req) _ refl two_way,
    )
    on_message-Fails s req e two_way (is_panicking m arg h k d bare v quiet) =
        let req' : RequestMsg V = record req { arg = object arg } in
        let p = perform (new_replyer req') (m.run arg).actions in
        let a = Answered-perform (new_replyer req') (m.run arg).actions in
        let nothing : responses p.1 ≡ [] =
          no_response (responses p.1) (omega (arith, a.budget, ap mark quiet)) in
        (
          (error p.0 method_panic).0,
          p.1 ++ (error p.0 method_panic).1,
          rw (h, k, d, bare) (ap ok (settle-panics (new_replyer req') (m.run arg) v)),
          responses-append p.1 (error p.0 method_panic).1
              ∙ ap (λ t. t ++ responses (error p.0 method_panic).1) nothing
              ∙ responses-error p.0 _ quiet (a.oneway ∙ two_way)
              ∙ ap (λ q. error_response q e ∷ []) a.seq,
        )

  -- A registration that succeeds had a free name; afterwards the name stands for the method and every
  -- other name for what it stood for before; and `UnRegister` of the name takes it back.
  register-lookup :
      (s s' : Server V) (name other : List ℕ) (m : Method V)
      → register s name m ≡ ok s'
      → (lookup name s.methods ≡ none)
        × (lookup other s'.methods
            ≡ (if bytes_beq name other then some m else lookup other s.methods))
        × (lookup other (un_register s' name).methods ≡ lookup other s.methods)
  unfolding register un_register
  register-lookup s s' name other m e = elim (Option-cases (lookup name s.methods)) [
    | inl free ↦ ground (
      arith,
      e,
      free,
      bytes_beq_iff name other,
      lookup-insert name other m s.methods,
      lookup-delete name other s'.methods,
    )
    | inr (taken, k) ↦ absurd (ground (arith, e, k))
  ]
