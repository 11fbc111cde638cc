-- ===== src/Rpc/Server/Once.antt =====
-- A request has at most one answer.
use clustergo.Rpc.Server.{
  GoError, Effect, intercepted, replied, Replyer, Action, replies_with, fails_with, appends,
  Verdict, goes_on, stops, panics, Handling, Method, Server, call_out_interceptor, answer, error,
  reply, act, perform, conclude, serve, settle, new_replyer, handlings, call_method, on_message,
  InterceptorName,
}
use clustergo.Common.{
  ℕ, ◌+◌, ◌≤◌, ◌≡◌, refl, ap, ◌∙◌, arith, Bool, true, false, List, [], ◌∷◌, ◌++◌, Option, none,
  some, if◌then◌else◌, Outcome, ok, err, panic, length, length-append, map, Bool-cases,
  Option-cases, inl, inr,
}
use mathlib.Core.Path.{subst}
use clustergo.Common.Table.{lookup, bytes_eq}
use clustergo.Rpc.Bytes.{Fault}
use clustergo.Rpc.Message.{RpcError, Payload, object, RequestMsg, ResponseMsg, decode_into}

-- The responses among the effects.
abbrev pub responses : {V : Type 0} → List (Effect V) → List (ResponseMsg V)
responses [] = []
responses (intercepted f ret e ∷ es) = responses es
responses (replied resp ∷ es) = resp ∷ responses es

abbrev pub AllFor : {V : Type 0} → ℕ → List (ResponseMsg V) → Type 0
AllFor seq [] = Unit {0}
AllFor seq (resp ∷ resps) = (resp.seq ≡ seq) × AllFor seq resps

abbrev pub mark : Bool → ℕ
mark true = 1
mark false = 0

mark-le : (b : Bool) → mark b ≤ 1
mark-le true = omega arith
mark-le false = omega arith

module _ {V : Type 0} where
  pub responses-append :
      (es es' : List (Effect V)) → responses (es ++ es') ≡ responses es ++ responses es'
  responses-append [] es' = refl
  responses-append (intercepted f ret e ∷ es) es' = responses-append es es'
  responses-append (replied resp ∷ es) es' = ap (λ t. resp ∷ t) (responses-append es es')

  pub responses-map :
      (fs : List InterceptorName) (ret : Payload V) (e : Option GoError)
      → responses (map (λ f. intercepted f ret e) fs) ≡ []
  responses-map [] ret e = refl
  responses-map (f ∷ fs) ret e = responses-map fs ret e

  AllFor-append :
      (seq : ℕ) (xs ys : List (ResponseMsg V))
      → AllFor seq xs
      → AllFor seq ys
      → AllFor seq (xs ++ ys)
  AllFor-append seq [] ys h k = k
  AllFor-append seq (x ∷ xs) ys h k = (h.0, AllFor-append seq xs ys h.1 k)

  -- From one replyer to the next: the request is the same in what counts, a response takes the mark,
  -- and every response is for the request.
  pub record Answered (r : Replyer V) (p : Replyer V × List (Effect V)) : Type 0 where
    pub seq : p.0.req.seq ≡ r.req.seq
    pub oneway : p.0.req.oneway ≡ r.req.oneway
    pub budget : mark r.replyed + length (responses p.1) ≤ mark p.0.replyed
    pub silent : r.req.oneway ≡ true → responses p.1 ≡ []
    pub owned : AllFor r.req.seq (responses p.1)

  Answered-nothing : (r : Replyer V) → Answered r (r, [])
  Answered-nothing r = record {
    seq = refl;
    oneway = refl;
    budget = omega arith;
    silent = λ h. refl;
    owned = tt;
  }

  Answered-append :
      (r : Replyer V) (p q : Replyer V × List (Effect V))
      → Answered r p
      → Answered p.0 q
      → Answered r (q.0, p.1 ++ q.1)
  Answered-append r (r1, es1) (r2, es2) a b = record {
    seq = b.seq ∙ a.seq;
    oneway = b.oneway ∙ a.oneway;
    budget = omega (
      arith,
      a.budget,
      b.budget,
      ap length (responses-append es1 es2),
      length-append (responses es1) (responses es2),
    );
    silent = λ h.
        responses-append es1 es2
        ∙ ap (λ t. t ++ responses es2) (a.silent h)
        ∙ b.silent (a.oneway ∙ h);
    owned =
        rw (responses-append es1 es2)
          (AllFor-append r.req.seq (responses es1) (responses es2) a.owned (rw⁻¹ a.seq b.owned));
  }

  if-Answered :
      (r : Replyer V) (b : Bool) (p q : Replyer V × List (Effect V))
      → (b ≡ true → Answered r p)
      → (b ≡ false → Answered r q)
      → Answered r (if b then p else q)
  if-Answered r true p q h k = h refl
  if-Answered r false p q h k = k refl

  said_once :
      (b : Bool) (resp : ResponseMsg V)
      → (length (responses (if b then [] else replied resp ∷ [])) ≤ 1)
        × (b ≡ true → responses (if b then [] else replied resp ∷ []) ≡ [])
        × AllFor resp.seq (responses (if b then [] else replied resp ∷ []))
  said_once true resp = (omega arith, λ h. refl, tt)
  said_once false resp = (omega arith, λ h. cc, (refl, tt))

  pub Answered-answer :
      (r : Replyer V) (ret : Payload V) (e : Option GoError) (resp_err : Option RpcError)
      → Answered r (answer r ret e resp_err)
  unfolding answer call_out_interceptor
  Answered-answer r ret e resp_err =
      if-Answered r r.replyed _ _ (λ h. Answered-nothing r)
        λ fresh.
          let resp : ResponseMsg V = record {
            seq = r.req.seq;
            error = resp_err;
            ret = ret;
            user_data = [];
            codec = none;
          } in
          let pre = map (λ f. intercepted f ret e) r.out_interceptor in
          let said : List (Effect V) = if r.req.oneway then [] else replied resp ∷ [] in
          let whole : responses (pre ++ said) ≡ responses said =
            responses-append pre said
            ∙ ap (λ t. t ++ responses said) (responses-map r.out_interceptor ret e) in
          let (few, none_said, owner) = said_once r.req.oneway resp in
          record {
            seq = refl;
            oneway = refl;
            budget = omega (arith, few, ap length whole, ap mark fresh);
            silent = λ h. whole ∙ none_said h;
            owned = rw whole owner;
          }

  pub Answered-act : (r : Replyer V) (a : Action V) → Answered r (act r a)
  unfolding act reply error
  Answered-act r (replies_with ret) = Answered-answer r ret none none
  Answered-act r (fails_with e) = Answered-answer r _ _ _
  Answered-act r (appends f) = record {
    seq = refl;
    oneway = refl;
    budget = omega arith;
    silent = λ h. refl;
    owned = tt;
  }

  pub Answered-perform :
      (r : Replyer V) (as_left : List (Action V)) → Answered r (perform r as_left)
  unfolding perform
  Answered-perform r [] = Answered-nothing r
  Answered-perform r (a ∷ as_left) =
      Answered-append r (act r a) (perform (act r a).0 as_left) (Answered-act r a)
        (Answered-perform (act r a).0 as_left)

  pub Answered-error : (r : Replyer V) (e : GoError) → Answered r (error r e)
  unfolding error
  Answered-error r e = Answered-answer r _ _ _

  Answered-conclude :
      (v : Verdict) (r : Replyer V) (p : Replyer V × List (Effect V))
      (rest : Replyer V × (List (Effect V) × Option GoError))
      → Answered r p
      → Answered p.0 (rest.0, rest.1.0)
      → Answered r ((conclude v p rest).0, (conclude v p rest).1.0)
  unfolding conclude
  Answered-conclude goes_on r (r1, es1) (r2, (es2, e)) a b =
      Answered-append r (r1, es1) (r2, es2) a b
  Answered-conclude stops r (r1, es1) rest a b = a
  Answered-conclude panics r (r1, es1) rest a b = a

  Answered-serve :
      (r : Replyer V) (hs : List (Handling V)) → Answered r ((serve r hs).0, (serve r hs).1.0)
  unfolding serve
  Answered-serve r [] = Answered-nothing r
  Answered-serve r (h ∷ hs) =
      Answered-conclude h.verdict r (perform r h.actions) (serve (perform r h.actions).0 hs)
        (Answered-perform r h.actions) (Answered-serve (perform r h.actions).0 hs)

  Answered-settle :
      (r : Replyer V) (t : Replyer V × (List (Effect V) × Option GoError))
      → Answered r (t.0, t.1.0)
      → Answered r (settle t)
  unfolding settle
  Answered-settle r (r', (es, none)) a = a
  Answered-settle r (r', (es, some e)) a =
      Answered-append r (r', es) (error r' e) a (Answered-error r' e)

  abbrev Settled : RequestMsg V → Outcome (Unit {0}) (Replyer V × List (Effect V)) → Type 0
  Settled req (ok p) = Answered (new_replyer req) p
  Settled req (err e) = Unit {0}
  Settled req panic = Unit {0}

  module _ (copy_value : V → V → Outcome Fault V) (describe : Fault → List ℕ) where
    call_method-Settled :
        (s : Server V) (m : Method V) (req : RequestMsg V) (arg : Outcome Fault V)
        → Settled req (call_method copy_value describe s m req arg)
    unfolding call_method
    call_method-Settled s m req (ok arg) =
        let req' : RequestMsg V = record req { arg = object arg } in
        let hs = handlings s m req' arg in
        let a =
          Answered-settle (new_replyer req') (serve (new_replyer req') hs)
            (Answered-serve (new_replyer req') hs) in
        record {
          seq = a.seq;
          oneway = a.oneway;
          budget = a.budget;
          silent = a.silent;
          owned = a.owned;
        }
    call_method-Settled s m req (err f) = Answered-error (new_replyer req) _
    call_method-Settled s m req panic = tt

    on_message-Settled :
        (s : Server V) (req : RequestMsg V) → Settled req (on_message copy_value describe s req)
    unfolding on_message
    on_message-Settled s req = elim (Bool-cases s.stoped) [
      | inl h ↦ rw h (Answered-error (new_replyer req) _)
      | inr h ↦ elim (Option-cases (lookup req.method s.methods)) [
        | inl e ↦ rw (h, e) (Answered-error (new_replyer req) _)
        | inr (m, e) ↦
            rw (h, e) (call_method-Settled s m req (decode_into copy_value req.codec req.arg m.new))
      ]
    ]

    -- Whatever the server's state, its interceptors and its methods do, and whatever is done with the
    -- replyer after `OnMessage` has returned: a request has at most one response, none if it is oneway,
    -- and each has the request's sequence number.
    pub on_message_once :
        (s : Server V) (req : RequestMsg V) (r : Replyer V) (es : List (Effect V))
        (later : List (Action V))
        → on_message copy_value describe s req ≡ ok (r, es)
        → (length (responses (es ++ (perform r later).1)) ≤ 1)
          × (req.oneway ≡ true → responses (es ++ (perform r later).1) ≡ [])
          × AllFor req.seq (responses (es ++ (perform r later).1))
    on_message_once s req r es later e =
        let a : Settled req (ok (r, es)) = subst (Settled req) e (on_message-Settled s req) in
        let b =
          Answered-append (new_replyer req) (r, es) (perform r later) a
            (Answered-perform r later) in
        (omega (arith, b.budget, mark-le (perform r later).0.replyed), b.silent, b.owned)
