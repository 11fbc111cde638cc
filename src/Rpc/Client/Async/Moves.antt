-- ===== src/Rpc/Client/Async/Moves.antt =====
-- rpc/client.go, `AsyncCall`: the steps that do not swap the mark, under the invariant.
use clustergo.Rpc.Client.Async.{
  Caller, requesting, accepted, refused, cleaning, gave_up, Timer, armed, firing, expiring, ended,
  Answer, Responder, idle, found, answering, answered, AsyncContext, is_armed, request_on, load_on,
  fire_on, expire_on, message_on, stop_on,
}
use clustergo.Common.{◌≡◌, ap, arith, Bool, true, false}
use clustergo.Rpc.Client.Async.Counts.{
  bit, won, caller_work, timer_work, responder_work, caller_put, bit_le, stop_works, Inv, if-Inv,
}

module _ {V : Type 0} where
  pub request_on-Inv :
      (c c' : Caller) (s : AsyncContext V)
      → s.caller ≡ c
      → won c' ≡ 0
      → caller_put c' ≡ 0
      → Inv s
      → Inv (request_on c' c s)
  unfolding request_on
  request_on-Inv requesting c' s e w p i =
      let w0 = ap won e in
      let k0 = ap caller_work e in
      let p0 = ap caller_put e in
      record {
        owned = omega (arith, i.owned, p, p0);
        put_first = i.put_first;
        put_last = omega (arith, i.put_last, w, w0);
        least = omega (arith, i.least, w, w0);
        most = omega (arith, i.most, w, w0);
        shared = i.shared;
        seen = omega (arith, i.seen, w, w0);
        going = omega (arith, i.going, k0, w, w0);
      }
  request_on-Inv accepted c' s e w p i = i
  request_on-Inv refused c' s e w p i = i
  request_on-Inv (cleaning b) c' s e w p i = i
  request_on-Inv (gave_up b) c' s e w p i = i

  pub load_on-Inv : (c : Caller) (s : AsyncContext V) → s.caller ≡ c → Inv s → Inv (load_on c s)
  unfolding load_on
  load_on-Inv refused s e i =
      let w0 = ap won e in
      let k0 = ap caller_work e in
      let p0 = ap caller_put e in
      if-Inv s.pending _ _
        (λ h.
          let b0 = ap bit h in
          record {
            owned = omega (arith, i.owned, p0, b0, stop_works s.timer, bit_le (is_armed s.timer));
            put_first = i.put_first;
            put_last = omega (arith, i.put_last, w0);
            least = omega (arith, i.least, w0);
            most = omega (arith, i.most, w0);
            shared = i.shared;
            seen = omega (arith, i.seen, w0);
            going = omega (arith, stop_works s.timer);
          })
        (λ h.
          let b0 = ap bit h in
          record {
            owned = omega (arith, i.owned, p0);
            put_first = i.put_first;
            put_last = omega (arith, i.put_last, w0);
            least = omega (arith, i.least, w0);
            most = omega (arith, i.most, w0);
            shared = i.shared;
            seen = omega (arith, i.seen, w0);
            going = omega (arith, i.going);
          })
  load_on-Inv requesting s e i = i
  load_on-Inv accepted s e i = i
  load_on-Inv (cleaning b) s e i = i
  load_on-Inv (gave_up b) s e i = i

  pub fire_on-Inv : (t : Timer) (s : AsyncContext V) → s.timer ≡ t → Inv s → Inv (fire_on t s)
  unfolding fire_on
  fire_on-Inv armed s e i =
      let k0 = ap timer_work e in
      record {
        owned = omega (arith, i.owned, k0);
        put_first = i.put_first;
        put_last = i.put_last;
        least = i.least;
        most = i.most;
        shared = i.shared;
        seen = i.seen;
        going = omega (arith, i.going, k0);
      }
  fire_on-Inv firing s e i = i
  fire_on-Inv expiring s e i = i
  fire_on-Inv ended s e i = i

  pub expire_on-Inv : (t : Timer) (s : AsyncContext V) → s.timer ≡ t → Inv s → Inv (expire_on t s)
  unfolding expire_on
  expire_on-Inv firing s e i =
      let k0 = ap timer_work e in
      if-Inv s.pending _ _
        (λ h.
          let b0 = ap bit h in
          record {
            owned = omega (arith, i.owned, k0, b0);
            put_first = i.put_first;
            put_last = i.put_last;
            least = i.least;
            most = i.most;
            shared = i.shared;
            seen = i.seen;
            going = omega (arith, i.going, k0, b0);
          })
        (λ h. record {
          owned = omega (arith, i.owned, k0);
          put_first = i.put_first;
          put_last = i.put_last;
          least = i.least;
          most = i.most;
          shared = i.shared;
          seen = i.seen;
          going = omega (arith, i.going, k0);
        })
  expire_on-Inv armed s e i = i
  expire_on-Inv expiring s e i = i
  expire_on-Inv ended s e i = i

  pub message_on-Inv :
      (a : Answer V) (b : Bool) (s : AsyncContext V)
      → s.pending ≡ b
      → Inv s
      → Inv (message_on a b s)
  unfolding message_on
  message_on-Inv a true s e i =
      let b0 = ap bit e in
      record {
        owned = omega (arith, i.owned, b0);
        put_first = i.put_first;
        put_last = i.put_last;
        least = i.least;
        most = i.most;
        shared = i.shared;
        seen = i.seen;
        going = omega arith;
      }
  message_on-Inv a false s e i = i

  pub stop_on-Inv :
      (r : Responder V) (s : AsyncContext V) → s.responder ≡ r → Inv s → Inv (stop_on r s)
  unfolding stop_on
  stop_on-Inv (found a) s e i =
      let k0 = ap responder_work e in
      record {
        owned = omega (arith, i.owned, k0, stop_works s.timer);
        put_first = i.put_first;
        put_last = i.put_last;
        least = i.least;
        most = i.most;
        shared = i.shared;
        seen = i.seen;
        going = omega (arith, stop_works s.timer);
      }
  stop_on-Inv idle s e i = i
  stop_on-Inv (answering a b) s e i = i
  stop_on-Inv answered s e i = i
