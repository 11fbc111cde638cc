-- ===== src/Cluster/Queue/Bounds.antt =====
-- What holds of a node's queue in every state that its operations reach.
use clustergo.Cluster.Queue.{
  NodeQueue, PendingMessage, Result, blocked, returned, SendError, Instant, Context,
  remove_failed_msg, push_back, send_message, send_message_with_context, on_establish, dial_ok,
  dial_error, dial_end, accept, on_close, refuse,
}
use clustergo.Addr.{LogicAddr}
use clustergo.Common.{
  ℕ, ◌≤◌, ◌<◌, ◌≡◌, refl, sym, ◌∙◌, arith, Bool, true, false, not, List, [], ◌∷◌, Option, none, ltb,
  leb, ◌==◌, if◌then◌else◌, length, length-append,
}

-- The queue keeps its bound; a node with a socket has nothing queued; and until `die` is closed, a dial
-- runs or is to start while something is queued.
pub record IsSound {M : Type 0} (max : ℕ) (stopped : Bool) (n : NodeQueue M) : Type 0 where
  pub bounded : length n.pending ≤ max
  pub drained : n.has_socket ≡ true → length n.pending ≡ 0
  pub dialing : stopped ≡ false → 0 < length n.pending → 0 < n.outstanding

abbrev pub empty_queue : {M : Type 0} → NodeQueue M
empty_queue = record {
  locked = false;
  has_socket = false;
  pending = [];
  outstanding = 0;
  sent = [];
}

-- One operation on a node, at any instant and with any contexts done. A dial ends only where one runs;
-- whether `die` is closed decides how.
pub data Step {M : Type 0} (max : ℕ) (stopped : Bool) : NodeQueue M → Result M → Type 0 where
  sends :
      (now : Instant) (done : Context → Bool) (e : Option SendError) (n : NodeQueue M) (m : M)
      (deadline : Instant)
      → Step max stopped n (send_message max now done e n m deadline)
  sends_with_context :
      (now : Instant) (done : Context → Bool) (e : Option SendError) (n : NodeQueue M) (m : M)
      (c : Context)
      → Step max stopped n (send_message_with_context max now done e n m c)
  dials :
      (reached : Bool) (now : Instant) (done : Context → Bool) (n : NodeQueue M)
      → 0 < n.outstanding
      → Step max stopped n (dial_end stopped reached now done n)
  accepts :
      (now : Instant) (done : Context → Bool) (self peer : LogicAddr) (n : NodeQueue M)
      → Step max stopped n (accept now done self peer n)
  closes : (n : NodeQueue M) → Step max stopped n (on_close n)

-- The states of a node, and whether `die` is closed. It is closed at any time, and stays so.
pub data Reachable {M : Type 0} (max : ℕ) : Bool → NodeQueue M → Type 0 where
  start : Reachable max false empty_queue
  stops : {n : NodeQueue M} {stopped : Bool} → Reachable max stopped n → Reachable max true n
  step :
      {n n' : NodeQueue M} {e : Option SendError} {stopped : Bool}
      → Reachable max stopped n
      → Step max stopped n (returned n' e)
      → Reachable max stopped n'

pub length-remove_failed_msg :
    {M : Type 0} (now : Instant) (done : Context → Bool) (z : Bool) (ms : List (PendingMessage M))
    → length (remove_failed_msg now done z ms) ≤ length ms
unfolding remove_failed_msg
length-remove_failed_msg now done z [] = omega arith
length-remove_failed_msg now done z (m ∷ ms) =
    ground (arith, length-remove_failed_msg now done z ms)

abbrev Keeps : {M : Type 0} → ℕ → Bool → Result M → Type 0
Keeps max stopped blocked = Unit {0}
Keeps max stopped (returned n e) = IsSound max stopped n

module _ {M : Type 0} (max : ℕ) (room : 0 < max) (stopped : Bool) where
  push_back-IsSound :
      (n : NodeQueue M) (m : PendingMessage M)
      → n.has_socket ≡ false
      → length n.pending < max
      → (stopped ≡ false → 0 < length n.pending → 0 < n.outstanding)
      → IsSound max stopped (push_back n m)
  unfolding push_back
  push_back-IsSound n m off small busy = record {
    bounded = omega (arith, length-append n.pending (m ∷ []));
    drained = λ on. ground (arith, on, off);
    dialing = λ r h. ground (arith, length-append n.pending (m ∷ []), busy r);
  }

  -- A state with the same queue and socket, and with a dial wherever there was one.
  same-IsSound :
      (n n' : NodeQueue M)
      → IsSound max stopped n
      → n'.pending ≡ n.pending
      → n'.has_socket ≡ n.has_socket
      → (0 < n.outstanding → 0 < n'.outstanding)
      → IsSound max stopped n'
  same-IsSound n n' s p h o = record {
    bounded = rw p s.bounded;
    drained = λ on. rw p (s.drained (sym h ∙ on));
    dialing = λ r some_left. o (s.dialing r (ground (arith, some_left, p)));
  }

  if-Keeps :
      (b : Bool) (r r' : Result M)
      → (b ≡ true → Keeps max stopped r)
      → (b ≡ false → Keeps max stopped r')
      → Keeps max stopped (if b then r else r')
  if-Keeps true r r' kept kept' = kept refl
  if-Keeps false r r' kept kept' = kept' refl

  queued-Keeps :
      (now : Instant) (done : Context → Bool) (n : NodeQueue M) (m : PendingMessage M)
      → n.has_socket ≡ false
      → IsSound max stopped n
      → Keeps max stopped (
          if leb max (length (remove_failed_msg now done true n.pending))
          then refuse (record n { pending = remove_failed_msg now done true n.pending })
          else returned
              (push_back (record n { pending = remove_failed_msg now done true n.pending }) m)
              none)
  queued-Keeps now done n m off s =
      let kept = remove_failed_msg now done true n.pending in
      let shorter = length-remove_failed_msg now done true n.pending in
      if-Keeps (leb max (length kept)) _ _
        (λ full. record {
          bounded = omega (arith, shorter, s.bounded);
          drained = λ on. ground (arith, on, off);
          dialing = λ r h. s.dialing r (omega (arith, shorter, h));
        })
        (λ free.
          push_back-IsSound (record n { pending = kept }) m off (ground (arith, free))
            (λ r h. s.dialing r (omega (arith, shorter, h))))

  send_message-Keeps :
      (now : Instant) (done : Context → Bool) (e : Option SendError) (n : NodeQueue M) (m : M)
      (deadline : Instant)
      → IsSound max stopped n
      → Keeps max stopped (send_message max now done e n m deadline)
  unfolding send_message
  send_message-Keeps now done e n m deadline s =
      if-Keeps n.locked _ _ (λ l. tt)
        λ l.
          if-Keeps n.has_socket _ _ (λ on. same-IsSound n _ s refl refl (λ h. h))
            λ off.
              if-Keeps (leb max (length n.pending)) _ _
                (λ full.
                  if-Keeps (deadline == 0) _ _ (λ z. same-IsSound n _ s refl refl (λ h. h))
                    (λ later. queued-Keeps now done n _ off s))
                (λ free. push_back-IsSound n _ off (ground (arith, free)) s.dialing)

  send_message_with_context-Keeps :
      (now : Instant) (done : Context → Bool) (e : Option SendError) (n : NodeQueue M) (m : M)
      (c : Context)
      → IsSound max stopped n
      → Keeps max stopped (send_message_with_context max now done e n m c)
  unfolding send_message_with_context
  send_message_with_context-Keeps now done e n m c s =
      if-Keeps n.locked _ _ (λ l. tt)
        λ l.
          if-Keeps n.has_socket _ _ (λ on. same-IsSound n _ s refl refl (λ h. h))
            λ off.
              if-Keeps (leb max (length n.pending)) _ _ (λ full. queued-Keeps now done n _ off s)
                (λ free. push_back-IsSound n _ off (ground (arith, free)) s.dialing)

  on_establish-IsSound :
      (now : Instant) (done : Context → Bool) (n : NodeQueue M)
      → IsSound max stopped (on_establish now done n)
  unfolding on_establish
  on_establish-IsSound now done n = record {
    bounded = omega arith;
    drained = λ on. refl;
    dialing = λ r h. absurd (omega arith);
  }

  dial_ok-Keeps :
      (now : Instant) (done : Context → Bool) (n : NodeQueue M)
      → IsSound max stopped n
      → Keeps max stopped (dial_ok now done n)
  unfolding dial_ok
  dial_ok-Keeps now done n s =
      if-Keeps n.locked _ _ (λ l. tt)
        λ l.
          if-Keeps n.has_socket _ _
            (λ on. record {
              bounded = s.bounded;
              drained = s.drained;
              dialing = λ r h. absurd (omega (arith, h, s.drained on));
            })
            (λ off. on_establish-IsSound now done _)

  dial_error-Keeps :
      (now : Instant) (done : Context → Bool) (n : NodeQueue M)
      → IsSound max stopped n
      → Keeps max stopped (dial_error now done n)
  unfolding dial_error
  dial_error-Keeps now done n s =
      if-Keeps n.locked _ _ (λ l. tt)
        λ l.
          if-Keeps n.has_socket _ _
            (λ on. record {
              bounded = s.bounded;
              drained = s.drained;
              dialing = λ r h. absurd (omega (arith, h, s.drained on));
            })
            (λ off. record {
              bounded = omega (arith, s.bounded, length-remove_failed_msg now done false n.pending);
              drained = λ on. ground (arith, on, off);
              dialing = λ r h. ground (arith, h);
            })

  dial_end-Keeps :
      (reached : Bool) (now : Instant) (done : Context → Bool) (n : NodeQueue M)
      → IsSound max stopped n
      → Keeps max stopped (dial_end stopped reached now done n)
  unfolding dial_end
  dial_end-Keeps reached now done n s =
      if-Keeps stopped _ _
        (λ over. record { bounded = s.bounded; drained = s.drained; dialing = λ runs. cc })
        λ runs.
          if-Keeps reached _ _ (λ r. dial_ok-Keeps now done n s)
            (λ r. dial_error-Keeps now done n s)

  accept-Keeps :
      (now : Instant) (done : Context → Bool) (self peer : LogicAddr) (n : NodeQueue M)
      → IsSound max stopped n
      → Keeps max stopped (accept now done self peer n)
  unfolding accept
  accept-Keeps now done self peer n s =
      if-Keeps n.locked _ _ (λ l. tt)
        λ l.
          if-Keeps (not (length n.pending == 0)) _ _
            (λ left.
              if-Keeps (ltb self peer) _ _ (λ lower. s) (λ higher. on_establish-IsSound now done n))
            (λ left. if-Keeps n.has_socket _ _ (λ on. s) (λ off. on_establish-IsSound now done n))

  on_close-Keeps : (n : NodeQueue M) → IsSound max stopped n → Keeps max stopped (on_close n)
  unfolding on_close
  on_close-Keeps n s =
      if-Keeps n.locked _ _ (λ l. tt)
        (λ l. record {
          bounded = s.bounded;
          drained = λ on. absurd (ground (arith, on));
          dialing = s.dialing;
        })

  Step-Keeps :
      {n : NodeQueue M} {r : Result M}
      → Step max stopped n r
      → IsSound max stopped n
      → Keeps max stopped r
  Step-Keeps (sends now done e n m deadline) s = send_message-Keeps now done e n m deadline s
  Step-Keeps (sends_with_context now done e n m c) s =
      send_message_with_context-Keeps now done e n m c s
  Step-Keeps (dials reached now done n h) s = dial_end-Keeps reached now done n s
  Step-Keeps (accepts now done self peer n) s = accept-Keeps now done self peer n s
  Step-Keeps (closes n) s = on_close-Keeps n s

module _ {M : Type 0} (max : ℕ) (room : 0 < max) where
  -- In every state that a node reaches from the empty queue, with a bound that is not 0, by its
  -- operations in any order and with a stop at any time: no more messages are queued than the bound,
  -- none are while there is a socket, and, as long as the node is not stopped, a dial has not ended yet
  -- or is to start while some are.
  pub Reachable-IsSound :
      (stopped : Bool) (n : NodeQueue M) → Reachable max stopped n → IsSound max stopped n
  Reachable-IsSound stopped n start = record {
    bounded = omega arith;
    drained = λ on. refl;
    dialing = λ r h. absurd (omega arith);
  }
  Reachable-IsSound stopped n (stops {stopped = before} r) =
      let s = Reachable-IsSound before n r in
      record { bounded = s.bounded; drained = s.drained; dialing = λ runs. cc }
  Reachable-IsSound stopped n (step {n = n0} r t) =
      Step-Keeps max room stopped t (Reachable-IsSound stopped n0 r)
