-- ===== src/Rpc/Client/Async.antt =====
-- rpc/client.go: one `AsyncCall` with a callback, from the moment its context is stored and its timer is
-- set. Contexts come from a pool: behind the call's `Put` other calls may `Get` this one, and the callers
-- of earlier and of later calls on it, whose requests fail, still swap its `fired`. The caller, the timer's function and `OnMessage` of a response work on the context at the same
-- time; each step below is one of their atomic operations: a `LoadAndDelete`, a `Stop` of the timer, or
-- the compare-and-swap of `fired` with what its winner does. `V` stands for the values of results.
pub mod Counts
pub mod Moves
pub mod Swaps
pub mod Once
use clustergo.Common.{
  ℕ, ◌+◌, ◌==◌, Bool, true, false, not, ◌&&◌, List, [], ◌∷◌, ◌++◌, Option, none, some, Outcome, ok,
  err, if◌then◌else◌,
}
use clustergo.Common.Int.{pos}
use clustergo.Common.Text.{codes}
use clustergo.Rpc.Message.{RpcError, new_error, err_timeout, err_other}

-- `stopped` is the result of `Stop`, false where the caller has not found the context.
pub data Caller : Type 0 where
  requesting : Caller
  accepted : Caller
  refused : Caller
  cleaning : Bool → Caller
  gave_up : Bool → Caller

pub data Timer : Type 0 where
  armed : Timer
  firing : Timer
  expiring : Timer
  ended : Timer

-- A response's error, and what `decodeRet` makes of its result.
pub record Answer (V : Type 0) : Type 0 where
  pub failure : Option RpcError
  pub decoded : Option V

pub data Responder (V : Type 0) : Type 0 where
  idle : Responder V
  found : Answer V → Responder V
  answering : Answer V → Bool → Responder V
  answered : Responder V

-- `reused`: another call has got the context from the pool. `stolen`: how often another call's caller has
-- won a swap of `fired` before that.
pub record AsyncContext (V : Type 0) : Type 0 where
  pub pending : Bool
  pub fired : Bool
  pub caller : Caller
  pub timer : Timer
  pub responder : Responder V
  pub callbacks : List (Outcome (Option RpcError) V)
  pub intercepted : ℕ
  pub puts : ℕ
  pub reused : Bool
  pub stolen : ℕ

pub data Step (V : Type 0) : Type 0 where
  request_ok request_fails caller_loads caller_swaps : Step V
  timer_fires timer_loads timer_swaps : Step V
  message : Answer V → Step V
  message_stops message_swaps : Step V
  others_get others_swap : Step V

unfoldable pub is_armed : Timer → Bool
is_armed armed = true
is_armed _ = false

unfoldable pub stop : Timer → Timer
stop armed = ended
stop t = t

module _ {V : Type 0} where
  abbrev pub new_context : AsyncContext V
  new_context = record {
    pending = true;
    fired = false;
    caller = requesting;
    timer = armed;
    responder = idle;
    callbacks = [];
    intercepted = 0;
    puts = 0;
    reused = false;
    stolen = 0;
  }

  -- What the callback is handed for a response.
  unfoldable pub result_of : Option RpcError → Option V → Outcome (Option RpcError) V
  result_of (some e) decoded = err (some e)
  result_of none (some v) = ok v
  result_of none none = err (new_error (pos err_other) (codes "decode resp.Ret"))

  -- `callOnResponse`: the winner of the compare-and-swap runs the in-interceptors and the callback, and
  -- the context goes back to the pool, if `put` of the winner's mark says so.
  unfoldable pub call_on_response :
      Outcome (Option RpcError) V → (Bool → Bool) → AsyncContext V → AsyncContext V
  call_on_response result put s =
      let won = not s.fired in
      record s {
        fired = true;
        callbacks = if won then s.callbacks ++ (result ∷ []) else s.callbacks;
        intercepted = if won then s.intercepted + 1 else s.intercepted;
        puts = if put won then s.puts + 1 else s.puts;
      }

  -- `channel.Request` returns.
  unfoldable pub request_on : Caller → Caller → AsyncContext V → AsyncContext V
  request_on c requesting s = record s { caller = c }
  request_on c _ s = s

  unfoldable pub load_on : Caller → AsyncContext V → AsyncContext V
  load_on refused s =
      if s.pending
      then record s { pending = false; caller = cleaning (is_armed s.timer); timer = stop s.timer }
      else record s { caller = cleaning false }
  load_on _ s = s

  -- The caller's compare-and-swap: the winner runs the in-interceptors, and no callback.
  unfoldable pub swap_on : Caller → AsyncContext V → AsyncContext V
  swap_on (cleaning stopped) s =
      let won = not s.fired in
      record s {
        fired = true;
        caller = gave_up won;
        intercepted = if won then s.intercepted + 1 else s.intercepted;
        puts = if won && stopped then s.puts + 1 else s.puts;
      }
  swap_on _ s = s

  unfoldable pub fire_on : Timer → AsyncContext V → AsyncContext V
  fire_on armed s = record s { timer = firing }
  fire_on _ s = s

  unfoldable pub expire_on : Timer → AsyncContext V → AsyncContext V
  expire_on firing s =
      if s.pending
      then record s { pending = false; timer = expiring }
      else record s { timer = ended }
  expire_on _ s = s

  -- `onTimeout`.
  unfoldable pub timeout_on : Timer → AsyncContext V → AsyncContext V
  timeout_on expiring s =
      record (call_on_response (err (new_error (pos err_timeout) (codes "timeout"))) (λ won. won)
        s) { timer = ended }
  timeout_on _ s = s

  unfoldable pub message_on : Answer V → Bool → AsyncContext V → AsyncContext V
  message_on a true s = record s { pending = false; responder = found a }
  message_on a false s = s

  unfoldable pub stop_on : Responder V → AsyncContext V → AsyncContext V
  stop_on (found a) s = record s {
    responder = answering a (is_armed s.timer);
    timer = stop s.timer;
  }
  stop_on _ s = s

  unfoldable pub answer_on : Responder V → AsyncContext V → AsyncContext V
  answer_on (answering a stopped) s =
      record (call_on_response (result_of a.failure a.decoded) (λ won. stopped) s) {
        responder = answered;
      }
  answer_on _ s = s

  -- `asynCtxPool.Get` of another call, which begins with `fired = 0`.
  unfoldable pub get_again : AsyncContext V → AsyncContext V
  get_again s = if s.puts == 0 then s else record s { fired = false; reused = true }

  -- The swap of another call's caller, whose request failed.
  unfoldable pub swap_of_other : AsyncContext V → AsyncContext V
  swap_of_other s = record s {
    fired = true;
    stolen = if not s.fired && not s.reused then s.stolen + 1 else s.stolen;
  }

  -- A step that is not the next of its thread changes nothing.
  unfoldable pub step : Step V → AsyncContext V → AsyncContext V
  step request_ok s = request_on accepted s.caller s
  step request_fails s = request_on refused s.caller s
  step caller_loads s = load_on s.caller s
  step caller_swaps s = swap_on s.caller s
  step timer_fires s = fire_on s.timer s
  step timer_loads s = expire_on s.timer s
  step timer_swaps s = timeout_on s.timer s
  step (message a) s = message_on a s.pending s
  step message_stops s = stop_on s.responder s
  step message_swaps s = answer_on s.responder s
  step others_get s = get_again s
  step others_swap s = swap_of_other s

  unfoldable pub run : List (Step V) → AsyncContext V → AsyncContext V
  run [] s = s
  run (x ∷ xs) s = run xs (step x s)
