-- ===== src/Rpc/Client/Async/Swaps.antt =====
-- rpc/client.go, `AsyncCall`: the swaps of the mark and the reuse of the context, under the invariant.
use clustergo.Rpc.Client.Async.{
  Caller, requesting, accepted, refused, cleaning, gave_up, Timer, armed, firing, expiring, ended,
  Responder, idle, found, answering, answered, AsyncContext, result_of, call_on_response, get_again,
  swap_of_other, swap_on, timeout_on, answer_on,
}
use clustergo.Common.Int.{pos}
use clustergo.Common.Text.{codes}
use clustergo.Rpc.Message.{new_error, err_timeout}
use clustergo.Common.{err, ◌==◌, ◌≡◌, ap, ◌∙◌, arith, not, ◌&&◌}
use clustergo.Rpc.Client.Async.Counts.{
  won, caller_work, timer_work, responder_work, caller_put, bit-not, bit_le, bit_and_le,
  bit_and_le_left, bit-&&, won_le, more_if, longer_if, Inv, if-Inv,
}

module _ {V : Type 0} where
  pub swap_on-Inv : (c : Caller) (s : AsyncContext V) → s.caller ≡ c → Inv s → Inv (swap_on c s)
  unfolding swap_on
  swap_on-Inv (cleaning b) s e i =
      let w0 = ap won e in
      let k0 = ap caller_work e in
      let p0 = ap caller_put e in
      let f = bit-not s.fired in
      let r = bit_le s.reused in
      let more = more_if (not s.fired && b) s.puts in
      let few = bit_and_le (not s.fired) b in
      let fewer = bit_and_le_left (not s.fired) b in
      record {
        owned = omega (arith, i.owned, p0, more, few);
        put_first = omega (arith, i.put_first, more);
        put_last = omega (arith, i.put_last, w0, f, more, fewer);
        least = omega (arith, i.least, w0, f);
        most = omega (arith, i.most, i.shared, w0, f, r);
        shared = i.shared;
        seen = more_if (not s.fired) s.intercepted ∙ omega (arith, i.seen, w0);
        going = omega (arith, i.least, i.put_first, i.put_last, w0, f);
      }
  swap_on-Inv requesting s e i = i
  swap_on-Inv accepted s e i = i
  swap_on-Inv refused s e i = i
  swap_on-Inv (gave_up b) s e i = i

  pub timeout_on-Inv : (t : Timer) (s : AsyncContext V) → s.timer ≡ t → Inv s → Inv (timeout_on t s)
  unfolding timeout_on call_on_response
  timeout_on-Inv expiring s e i =
      let result = err (new_error (pos err_timeout) (codes "timeout")) in
      let k0 = ap timer_work e in
      let more = more_if (not s.fired) s.puts in
      let f = bit-not s.fired in
      let c = longer_if (not s.fired) s.callbacks result in
      record {
        owned = omega (arith, i.owned, k0, more, bit-not s.fired);
        put_first = omega (arith, i.put_first, more, bit-not s.fired);
        put_last = omega (arith, i.owned, i.put_first, i.least, k0, f, c, more, bit-not s.fired);
        least = omega (arith, i.least, f, c);
        most = omega (arith, i.owned, i.put_first, i.most, k0, f, c);
        shared = omega (arith, i.owned, i.put_first, i.most, i.shared, k0, f, c);
        seen = more_if (not s.fired) s.intercepted ∙ omega (arith, i.seen, c);
        going = omega (arith, i.owned, i.put_first, i.least, k0, f, c);
      }
  timeout_on-Inv armed s e i = i
  timeout_on-Inv firing s e i = i
  timeout_on-Inv ended s e i = i

  pub answer_on-Inv :
      (r : Responder V) (s : AsyncContext V) → s.responder ≡ r → Inv s → Inv (answer_on r s)
  unfolding answer_on call_on_response
  answer_on-Inv (answering a b) s e i =
      let result = result_of a.failure a.decoded in
      let k0 = ap responder_work e in
      let more = more_if b s.puts in
      let f = bit-not s.fired in
      let c = longer_if (not s.fired) s.callbacks result in
      record {
        owned = omega (arith, i.owned, k0, more, bit_le b);
        put_first = omega (arith, i.put_first, more, bit_le b);
        put_last = omega (arith, i.owned, i.put_first, i.least, k0, f, c, more, bit_le b);
        least = omega (arith, i.least, f, c);
        most = omega (arith, i.owned, i.put_first, i.most, k0, f, c);
        shared = omega (arith, i.owned, i.put_first, i.most, i.shared, k0, f, c);
        seen = more_if (not s.fired) s.intercepted ∙ omega (arith, i.seen, c);
        going = omega (arith, i.owned, i.put_first, i.least, k0, f, c);
      }
  answer_on-Inv idle s e i = i
  answer_on-Inv (found a) s e i = i
  answer_on-Inv answered s e i = i

  pub get_again-Inv : (s : AsyncContext V) → Inv s → Inv (get_again s)
  unfolding get_again
  get_again-Inv s i =
      if-Inv (s.puts == 0) _ _ (λ none_put. i)
        (λ put. record {
          owned = i.owned;
          put_first = ground (arith, put);
          put_last = i.put_last;
          least = omega arith;
          most = omega (arith, i.shared, won_le s.caller);
          shared = i.shared;
          seen = i.seen;
          going = i.going;
        })

  pub swap_of_other-Inv : (s : AsyncContext V) → Inv s → Inv (swap_of_other s)
  unfolding swap_of_other
  swap_of_other-Inv s i =
      let f = bit-not s.fired in
      let r = bit-not s.reused in
      let more = more_if (not s.fired && not s.reused) s.stolen in
      let won_both = bit-&& (not s.fired) (not s.reused) in
      let first = bit_and_le_left (not s.fired) (not s.reused) in
      let second = bit_and_le (not s.fired) (not s.reused) in
      record {
        owned = i.owned;
        put_first = i.put_first;
        put_last = omega (arith, i.put_last, more);
        least = omega (arith, i.least, f, r, more, won_both, first, second);
        most =
            omega (arith, i.most, i.shared, won_le s.caller, f, r, more, won_both, first, second);
        shared = omega (arith, i.most, i.shared, f, r, more, won_both, first, second);
        seen = i.seen;
        going = omega (arith, i.going, more);
      }
