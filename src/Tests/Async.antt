-- ===== src/Tests/Async.antt =====
-- rpc/client.go: a response comes while the timer fires, and a request that fails.
use clustergo.Rpc.Client.Async.{
  Answer, Step, new_context, run, step, request_ok, request_fails, caller_loads, caller_swaps,
  others_get, get_again, load_on, swap_on, timer_fires, timer_loads, timer_swaps, message,
  message_stops, message_swaps, request_on, fire_on, expire_on, message_on, stop_on, answer_on,
  call_on_response, is_armed, stop, timeout_on,
}
use clustergo.Rpc.Client.Async.Counts.{bit, work, won}
use clustergo.Rpc.Client.Async.Once.{run_once, run_settled}
use clustergo.Common.{ℕ, ◌+◌, ◌≤◌, ◌≡◌, refl, true, List, [], ◌∷◌, none, some, length}

abbrev answer : Answer ℕ
answer = record { failure = none; decoded = some 9 }

abbrev race : List (Step ℕ)
race =
    request_ok
    ∷ timer_fires
    ∷ message answer
    ∷ timer_loads
    ∷ message_stops
    ∷ timer_swaps
    ∷ message_swaps
    ∷ message answer
    ∷ []

-- The timer takes the call and puts its context back while the request still runs; another call gets the
-- context, and then the request fails.
abbrev reuse : List (Step ℕ)
reuse =
    timer_fires ∷ timer_loads ∷ timer_swaps ∷ others_get ∷ request_fails ∷ caller_loads
    ∷ caller_swaps ∷ []

-- The in-interceptors run twice, and the other call is left with its mark set.
reuse_twice : ((run reuse new_context).intercepted ≡ 2) × ((run reuse new_context).fired ≡ true)
unfolding run step request_on fire_on expire_on load_on swap_on call_on_response is_armed stop
    timeout_on get_again
reuse_twice = (refl, refl)

run_once_example :
    (length (run reuse new_context).callbacks ≤ 1)
    × ((run reuse new_context).puts ≤ 1)
    × ((run reuse new_context).intercepted ≤ 1 + bit (run reuse new_context).reused)
run_once_example = run_once reuse

race_settled : work (run race new_context) ≡ 0
unfolding run step request_on fire_on expire_on message_on stop_on answer_on call_on_response
    is_armed stop timeout_on
race_settled = refl

run_settled_example :
    let s = run race new_context in
    (1 ≤ length s.callbacks + (won s.caller + s.stolen))
    × (length s.callbacks + (won s.caller + s.stolen) ≤ 1 + bit s.reused)
    × (s.intercepted ≡ length s.callbacks + won s.caller)
run_settled_example = run_settled race race_settled
