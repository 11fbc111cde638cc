-- ===== src/Cluster/Queue/Order.antt =====
-- Messages that are queued go out in the order in which they came, once there is a connection.
use clustergo.Cluster.Queue.{
  NodeQueue, PendingMessage, Result, blocked, returned, Instant, Context, push_back, send_message,
  is_live, drain, on_establish, dial_ok,
}
use clustergo.Common.{
  ℕ, ◌+◌, ◌-◌, ◌≤◌, ◌≡◌, refl, sym, ap, ◌∙◌, arith, Bool, true, false, ◌||◌, List, [], ◌∷◌, ◌++◌,
  none, ltb, ◌==◌, length, length-append, append_assoc, append-nil, map,
}

-- `sendMessage` of messages with their deadlines, one after the other.
unfoldable pub send_each :
    {M : Type 0} → ℕ → Instant → (Context → Bool) → NodeQueue M → List (M × Instant) → Result M
send_each max now done n [] = returned n none
send_each max now done n ((m, d) ∷ ms) = elim (send_message max now done none n m d) [
  | blocked ↦ blocked
  | returned n' e ↦ send_each max now done n' ms
]

abbrev pub queued : {M : Type 0} → M × Instant → PendingMessage M
queued (m, d) = record { message = m; deadline = d; ctx = none }

-- Each deadline is the zero time or behind the instant.
abbrev pub AllLive : {M : Type 0} → Instant → List (M × Instant) → Type 0
AllLive now [] = Unit {0}
AllLive now ((m, d) ∷ ms) = (((d == 0) || ltb now d) ≡ true) × AllLive now ms

module _ {M : Type 0} (done : Context → Bool) where
  drain-AllLive :
      (now : Instant) (sent : List (PendingMessage M)) (ms : List (M × Instant))
      → AllLive now ms
      → drain now done sent (map queued ms) ≡ sent ++ map queued ms
  unfolding drain is_live
  drain-AllLive now sent [] h = sym (append-nil sent)
  drain-AllLive now sent ((m, d) ∷ ms) h =
      rw (drain, h.0)
        (drain-AllLive now (sent ++ (queued (m, d) ∷ [])) ms h.1
          ∙ append_assoc sent (queued (m, d) ∷ []) (map queued ms))

  -- The rest of the sends behind the result of one.
  abbrev then_send : ℕ → Instant → List (M × Instant) → Result M → Result M
  then_send max now ms r = elim r [
    | blocked ↦ blocked
    | returned n' e ↦ send_each max now done n' ms
  ]

  send_each-queues :
      (max : ℕ) (now : Instant) (n : NodeQueue M) (ms : List (M × Instant))
      → n.locked ≡ false
      → n.has_socket ≡ false
      → length n.pending + length ms ≤ max
      → (k : ℕ) × (send_each max now done n ms
          ≡ returned (record n { pending = n.pending ++ map queued ms; outstanding = k }) none)
  unfolding send_each push_back
  send_each-queues max now n [] l off h = (
    n.outstanding,
    ap (λ p. returned (record n { pending = p }) none) (sym (append-nil n.pending)),
  )
  send_each-queues max now n ((m, d) ∷ ms) l off h =
      let n' = push_back n (queued (m, d)) in
      let (k, e) =
        send_each-queues max now n' ms l off
          (unfold push_back in omega (arith, h, length-append n.pending (queued (m, d) ∷ []))) in
      let taken : send_message max now done none n m d ≡ returned n' none =
        unfold send_message in ground (arith, l, off, h) in
      (
        k,
        ap (then_send max now ms) taken
            ∙ e
            ∙ ap (λ p. returned (record n { pending = p; outstanding = k }) none)
                (append_assoc n.pending (queued (m, d) ∷ []) (map queued ms)),
      )

  -- On a node without a socket and with nothing queued, messages for which there is room are all
  -- taken, those of the zero deadline too; and if a dial then reaches the peer before the deadlines that
  -- are not zero, the socket is handed all of them, in the order of the sends, and nothing stays queued.
  pub dial_ok-send_each :
      (max : ℕ) (now later : Instant) (n : NodeQueue M) (ms : List (M × Instant))
      → n.locked ≡ false
      → n.has_socket ≡ false
      → n.pending ≡ []
      → length ms ≤ max
      → AllLive later ms
      → (n' n'' : NodeQueue M) × (send_each max now done n ms ≡ returned n' none)
        × (dial_ok later done n' ≡ returned n'' none)
        × (n''.sent ≡ n.sent ++ map queued ms)
        × (n''.pending ≡ [])
  dial_ok-send_each max now later n ms l off e h live =
      let (k, q) = send_each-queues max now n ms l off (omega (arith, h, ap length e)) in
      let n' : NodeQueue M = record n { pending = n.pending ++ map queued ms; outstanding = k } in
      (
        n',
        on_establish later done (record n' { outstanding = k - 1 }),
        q,
        unfold dial_ok in ground (arith, l, off),
        unfold on_establish in rw e (drain-AllLive later n.sent ms live),
        unfold on_establish in refl,
      )
