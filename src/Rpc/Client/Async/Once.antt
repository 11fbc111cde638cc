-- ===== src/Rpc/Client/Async/Once.antt =====
-- The callback of an `AsyncCall` runs at most once in every interleaving, whatever other calls do with its
-- context, and is not forgotten.
use clustergo.Rpc.Client.Async.{
  accepted, refused, AsyncContext, new_context, Step, request_ok, request_fails, caller_loads,
  caller_swaps, timer_fires, timer_loads, timer_swaps, message, message_stops, message_swaps,
  others_get, others_swap, step, run,
}
use clustergo.Common.{◌+◌, ◌≤◌, ◌≡◌, refl, arith, List, [], ◌∷◌, length}
use clustergo.Rpc.Client.Async.Counts.{bit, won, bit_le, won_le, work, Inv}
use clustergo.Rpc.Client.Async.Moves.{
  request_on-Inv, load_on-Inv, fire_on-Inv, expire_on-Inv, message_on-Inv, stop_on-Inv,
}
use clustergo.Rpc.Client.Async.Swaps.{
  swap_on-Inv, timeout_on-Inv, answer_on-Inv, get_again-Inv, swap_of_other-Inv,
}

module _ {V : Type 0} where
  step-Inv : (x : Step V) (s : AsyncContext V) → Inv s → Inv (step x s)
  unfolding step
  step-Inv request_ok s i = request_on-Inv s.caller accepted s refl refl refl i
  step-Inv request_fails s i = request_on-Inv s.caller refused s refl refl refl i
  step-Inv caller_loads s i = load_on-Inv s.caller s refl i
  step-Inv caller_swaps s i = swap_on-Inv s.caller s refl i
  step-Inv timer_fires s i = fire_on-Inv s.timer s refl i
  step-Inv timer_loads s i = expire_on-Inv s.timer s refl i
  step-Inv timer_swaps s i = timeout_on-Inv s.timer s refl i
  step-Inv (message a) s i = message_on-Inv a s.pending s refl i
  step-Inv message_stops s i = stop_on-Inv s.responder s refl i
  step-Inv message_swaps s i = answer_on-Inv s.responder s refl i
  step-Inv others_get s i = get_again-Inv s i
  step-Inv others_swap s i = swap_of_other-Inv s i

  run-Inv : (xs : List (Step V)) (s : AsyncContext V) → Inv s → Inv (run xs s)
  unfolding run
  run-Inv [] s i = i
  run-Inv (x ∷ xs) s i = run-Inv xs (step x s) (step-Inv x s i)

  new_context-Inv : Inv {V = V} new_context
  new_context-Inv = record {
    owned = omega arith;
    put_first = omega arith;
    put_last = omega arith;
    least = omega arith;
    most = omega arith;
    shared = omega arith;
    seen = omega arith;
    going = omega arith;
  }

  -- In every interleaving of the caller, the timer and the responses, and of other calls that get the
  -- context from the pool once it is there, or whose callers swap its mark at any time: the callback of
  -- the call has run at most once, the context went back to the pool at most once, and the
  -- in-interceptors have run at most once, or at most twice if another call has got the context.
  pub run_once :
      (xs : List (Step V))
      → (length (run xs new_context).callbacks ≤ 1)
        × ((run xs new_context).puts ≤ 1)
        × ((run xs new_context).intercepted ≤ 1 + bit (run xs new_context).reused)
  run_once xs =
      let s = run xs new_context in
      let i = run-Inv xs new_context new_context-Inv in
      (
        omega (arith, i.shared),
        omega (arith, i.owned),
        omega (arith, i.seen, i.most, i.shared, won_le s.caller, bit_le s.fired, bit_le s.reused),
      )

  -- In every interleaving of the call's own steps, of gets of its context from the pool once it is there
  -- and of swaps by the callers of other calls, behind which the call's number is out of the table and
  -- nobody has still to swap for it: the callback has run, or the caller, whose request failed, has won the swap, or the caller of
  -- another call has won it first, and never two of these without a reuse of the context. The
  -- in-interceptors have run with the callback and with the caller's swap, and never else.
  pub run_settled :
      (xs : List (Step V))
      → work (run xs new_context) ≡ 0
      → let s = run xs new_context in
        (1 ≤ length s.callbacks + (won s.caller + s.stolen))
        × (length s.callbacks + (won s.caller + s.stolen) ≤ 1 + bit s.reused)
        × (s.intercepted ≡ length s.callbacks + won s.caller)
  run_settled xs h =
      let s = run xs new_context in
      let i = run-Inv xs new_context new_context-Inv in
      (
        omega (arith, i.going, h),
        omega (arith, i.most, i.shared, won_le s.caller, bit_le s.fired, bit_le s.reused),
        i.seen,
      )
