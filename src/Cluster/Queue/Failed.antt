-- ===== src/Cluster/Queue/Failed.antt =====
-- What the queue does with a message that it cannot take, and with those without a deadline.
use clustergo.Cluster.Queue.{
  NodeQueue, PendingMessage, blocked, returned, SendError, pending_queue_full, Instant, Context,
  is_failed, remove_failed_msg, send_message, send_message_with_context, dial_ok, dial_error,
}
use clustergo.Common.{
  ℕ, ◌≤◌, ◌<◌, ◌≡◌, refl, arith, Bool, true, false, List, [], ◌∷◌, Option, some, length,
}

module _ {M : Type 0} where
  -- `now.After` of the zero time is true, so `removeFailedMsg(false)` removes the messages without a
  -- deadline too: at any instant behind the zero time the flag makes no difference.
  pub remove_failed_msg_any_flag :
      (now : Instant) (done : Context → Bool) (ms : List (PendingMessage M))
      → 0 < now
      → remove_failed_msg now done false ms ≡ remove_failed_msg now done true ms
  unfolding remove_failed_msg is_failed
  remove_failed_msg_any_flag now done [] h = refl
  remove_failed_msg_any_flag now done (m ∷ ms) h =
      ground (arith, remove_failed_msg_any_flag now done ms h)

  -- On a node without a socket whose queue is full, a message without a deadline is refused with
  -- `ErrPendingQueueFull` and the queue stays as it was; but the mutex stays locked: no later message,
  -- with a deadline or a context, no end of a dial and no failure of one ever returns.
  pub send_message_refused :
      (max : ℕ) (now : Instant) (done : Context → Bool) (e : Option SendError) (n : NodeQueue M)
      (m : M)
      → n.locked ≡ false
      → n.has_socket ≡ false
      → max ≤ length n.pending
      → (n' : NodeQueue M) × (send_message max now done e n m 0
          ≡ returned n' (some pending_queue_full))
        × (n'.pending ≡ n.pending)
        × ((m' : M) (deadline : Instant) → send_message max now done e n' m' deadline ≡ blocked)
        × ((m' : M) (c : Context) → send_message_with_context max now done e n' m' c ≡ blocked)
        × (dial_ok now done n' ≡ blocked)
        × (dial_error now done n' ≡ blocked)
  unfolding send_message send_message_with_context dial_ok dial_error
  send_message_refused max now done e n m l off full = (
    record n { locked = true },
    ground (arith, l, off, full),
    refl,
    λ m' d. refl,
    λ m' c. refl,
    refl,
    refl,
  )
