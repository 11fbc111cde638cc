-- ===== src/Tests/Queues.antt =====
-- The queue of a node, with two places and messages that are numbers.
use clustergo.Cluster.Queue.{
  NodeQueue, blocked, returned, pending_queue_full, Instant, Context, push_back, send_message,
  send_message_with_context, dial_ok, dial_error, dial_end,
}
use clustergo.Cluster.Queue.Bounds.{
  IsSound, empty_queue, sends, dials, Reachable, start, stops, step, Reachable-IsSound,
}
use clustergo.Cluster.Queue.Failed.{send_message_refused}
use clustergo.Cluster.Queue.Order.{send_each, queued, dial_ok-send_each}
use clustergo.Common.{ℕ, ◌≡◌, refl, arith, true, false, [], ◌∷◌, ◌++◌, some, none, map}

abbrev one_queued : NodeQueue ℕ
one_queued = record empty_queue { pending = queued (7, 0) ∷ []; outstanding = 1 }

-- A message is queued, and the node is stopped while the dial runs: the message stays without a dial.
abbrev left_over : NodeQueue ℕ
left_over = record one_queued { outstanding = 0 }

left_over-Reachable : Reachable 2 true left_over
unfolding send_message push_back dial_end
left_over-Reachable =
    step (stops (step start (sends 100 (λ c. false) none empty_queue 7 0)))
      (dials true 150 (λ c. false) one_queued (omega arith))

one_queued-Reachable : Reachable 2 false one_queued
unfolding send_message push_back
one_queued-Reachable = step start (sends 100 (λ c. false) none empty_queue 7 0)

Reachable-IsSound_example : IsSound 2 false one_queued
Reachable-IsSound_example = Reachable-IsSound 2 (omega arith) false one_queued one_queued-Reachable

send_message_refused_example :
    (n' : NodeQueue ℕ) × (send_message 1 100 (λ c. false) none one_queued 8 0
      ≡ returned n' (some pending_queue_full))
    × (n'.pending ≡ queued (7, 0) ∷ [])
    × ((m' : ℕ) (deadline : Instant)
        → send_message 1 100 (λ c. false) none n' m' deadline ≡ blocked)
    × ((m' : ℕ) (c : Context) → send_message_with_context 1 100 (λ c. false) none n' m' c ≡ blocked)
    × (dial_ok 100 (λ c. false) n' ≡ blocked)
    × (dial_error 100 (λ c. false) n' ≡ blocked)
send_message_refused_example =
    send_message_refused 1 100 (λ c. false) none one_queued 8 refl refl (omega arith)

dial_ok-send_each_example :
    (n' n'' : NodeQueue ℕ) × (send_each 2 100 (λ c. false) empty_queue ((7, 0) ∷ (8, 200) ∷ [])
      ≡ returned n' none)
    × (dial_ok 150 (λ c. false) n' ≡ returned n'' none)
    × (n''.sent ≡ [] ++ map queued ((7, 0) ∷ (8, 200) ∷ []))
    × (n''.pending ≡ [])
dial_ok-send_each_example =
    dial_ok-send_each (λ c. false) 2 100 150 empty_queue ((7, 0) ∷ (8, 200) ∷ []) refl refl refl
      (omega arith) (refl, (refl, tt))
