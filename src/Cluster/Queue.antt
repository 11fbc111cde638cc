-- ===== src/Cluster/Queue.antt =====
-- The messages of a node of node.go: queued while there is no connection, handed to the socket once
-- there is one; and the end of an incoming connection's handshake (onNewConnection of cluster.go).
-- Instants are numbers, the zero `time.Time` is 0. The node's mutex is a mark, since there are returns
-- that do not unlock it. What `Send` of the socket returns is an argument, and `done` tells which
-- contexts are done at the time of the operation.
pub mod Bounds
pub mod Failed
pub mod Order
use clustergo.Common.{
  ℕ, zero, suc, ◌+◌, ◌-◌, Bool, true, false, ◌&&◌, ◌||◌, not, List, [], ◌∷◌, ◌++◌, Option, none,
  some, ltb, leb, ◌==◌, if◌then◌else◌, length,
}
use clustergo.Addr.{LogicAddr}

-- The errors of node.go and cluster.go that come up here, and those of the socket.
pub data SendError : Type 0 where
  pending_queue_full : SendError
  connecting_simultaneously : SendError
  duplicate_conn : SendError
  socket_error : List ℕ → SendError

abbrev pub Instant : Type 0
Instant = ℕ

abbrev pub Context : Type 0
Context = ℕ

pub record PendingMessage (M : Type 0) : Type 0 where
  pub message : M
  pub deadline : Instant
  pub ctx : Option Context

-- `locked`: a return has left the mutex locked. `outstanding`: dials that run or that a timer is to
-- start. `sent`: what the socket was handed, in order.
pub record NodeQueue (M : Type 0) : Type 0 where
  pub locked : Bool
  pub has_socket : Bool
  pub pending : List (PendingMessage M)
  pub outstanding : ℕ
  pub sent : List (PendingMessage M)

-- An operation that has to wait for a mutex that nobody will unlock does not return.
pub data Result (M : Type 0) : Type 0 where
  blocked : Result M
  returned : NodeQueue M → Option SendError → Result M

module _ {M : Type 0} where
  -- The test of `removeFailedMsg`, with `now.After(m.deadline)`.
  unfoldable pub is_failed : Instant → (Context → Bool) → Bool → PendingMessage M → Bool
  is_failed now done remove_zero m = elim m.ctx [
    | some c ↦ done c
    | none ↦ (m.deadline == 0 && remove_zero) || ltb m.deadline now
  ]

  unfoldable pub remove_failed_msg :
      Instant → (Context → Bool) → Bool → List (PendingMessage M) → List (PendingMessage M)
  remove_failed_msg now done remove_zero [] = []
  remove_failed_msg now done remove_zero (m ∷ ms) =
      let rest = remove_failed_msg now done remove_zero ms in
      if is_failed now done remove_zero m then rest else m ∷ rest

  -- `PushBack`, and a dial if the queue was empty.
  unfoldable pub push_back : NodeQueue M → PendingMessage M → NodeQueue M
  push_back n m =
      let pending = n.pending ++ (m ∷ []) in
      record n {
        pending = pending;
        outstanding = if length pending == 1 then suc n.outstanding else n.outstanding;
      }

  -- With a full queue: the return in front of the `Unlock`.
  abbrev pub refuse : NodeQueue M → Result M
  refuse n = returned (record n { locked = true }) (some pending_queue_full)

  module _ (max_pending : ℕ) where
    unfoldable pub send_message :
        Instant → (Context → Bool) → Option SendError → NodeQueue M → M → Instant → Result M
    send_message now done from_socket n msg deadline =
        let m : PendingMessage M = record { message = msg; deadline = deadline; ctx = none } in
        let cleaned = record n { pending = remove_failed_msg now done true n.pending } in
        if n.locked
        then blocked
        else if n.has_socket
        then returned (record n { sent = n.sent ++ (m ∷ []) }) from_socket
        else if leb max_pending (length n.pending)
        then (if deadline == 0
            then refuse n
            else if leb max_pending (length cleaned.pending)
            then refuse cleaned
            else returned (push_back cleaned m) none)
        else returned (push_back n m) none

    unfoldable pub send_message_with_context :
        Instant → (Context → Bool) → Option SendError → NodeQueue M → M → Context → Result M
    send_message_with_context now done from_socket n msg ctx =
        let m : PendingMessage M = record { message = msg; deadline = 0; ctx = some ctx } in
        let cleaned = record n { pending = remove_failed_msg now done true n.pending } in
        if n.locked
        then blocked
        else if n.has_socket
        then returned (record n { sent = n.sent ++ (m ∷ []) }) from_socket
        else if leb max_pending (length n.pending)
        then (if leb max_pending (length cleaned.pending)
            then refuse cleaned
            else returned (push_back cleaned m) none)
        else returned (push_back n m) none

  -- The test of the loop in `onEstablish`, with `now.Before(msg.deadline)`.
  unfoldable pub is_live : Instant → (Context → Bool) → PendingMessage M → Bool
  is_live now done m = elim m.ctx [
    | some c ↦ not (done c)
    | none ↦ (m.deadline == 0) || ltb now m.deadline
  ]

  -- The loop takes messages off the queue until it is empty.
  unfoldable pub drain :
      Instant
      → (Context → Bool)
      → List (PendingMessage M)
      → List (PendingMessage M)
      → List (PendingMessage M)
  drain now done sent [] = sent
  drain now done sent (m ∷ ms) =
      drain now done (if is_live now done m then sent ++ (m ∷ []) else sent) ms

  unfoldable pub on_establish : Instant → (Context → Bool) → NodeQueue M → NodeQueue M
  on_establish now done n = record n {
    has_socket = true;
    pending = [];
    sent = drain now done n.sent n.pending;
  }

  -- The end of a dial that reached the peer; a second connection is closed.
  unfoldable pub dial_ok : Instant → (Context → Bool) → NodeQueue M → Result M
  dial_ok now done n =
      let n' = record n { outstanding = n.outstanding - 1 } in
      if n.locked
      then blocked
      else if n.has_socket
      then returned n' none
      else returned (on_establish now done n') none

  -- The end of a dial that failed: another one after a second, if messages are left.
  unfoldable pub dial_error : Instant → (Context → Bool) → NodeQueue M → Result M
  dial_error now done n =
      let n' = record n { outstanding = n.outstanding - 1 } in
      let kept = remove_failed_msg now done false n'.pending in
      if n.locked
      then blocked
      else if n.has_socket
      then returned n' none
      else returned
          (record n' {
            pending = kept;
            outstanding = if length kept == 0 then n'.outstanding else suc n'.outstanding;
          })
          none

  -- The end of `dial`: where the node was stopped in the meantime, the connection is closed, and the
  -- queue is left as it is.
  unfoldable pub dial_end : Bool → Bool → Instant → (Context → Bool) → NodeQueue M → Result M
  dial_end stopped reached now done n =
      if stopped
      then returned (record n { outstanding = n.outstanding - 1 }) none
      else if reached
      then dial_ok now done n
      else dial_error now done n

  -- The end of `onNewConnection`, once the reply was written.
  unfoldable pub accept :
      Instant → (Context → Bool) → LogicAddr → LogicAddr → NodeQueue M → Result M
  accept now done self peer n =
      if n.locked
      then blocked
      else if not (length n.pending == 0)
      then (if ltb self peer
          then returned n (some connecting_simultaneously)
          else returned (on_establish now done n) none)
      else if n.has_socket
      then returned n (some duplicate_conn)
      else returned (on_establish now done n) none

  -- The socket's close callback.
  unfoldable pub on_close : NodeQueue M → Result M
  on_close n = if n.locked then blocked else returned (record n { has_socket = false }) none
