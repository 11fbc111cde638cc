-- ===== src/Socket/Send/Order.antt =====
-- The sending loop writes the bytes of its messages in order, and nothing else.
use mathlib.Core.Path.{subst}
use clustergo.Socket.Send.{
  Write, done, fell, SendState, running, closed, returned, crashed, Sender, new_sender, write, Turn,
  sends, flushes, ends, gather, gather_dying, send_one, finish, step_running, step_in, step,
  send_all,
}
use clustergo.Common.{
  ℕ, ◌+◌, ◌-◌, ◌≡◌, ◌≢◌, refl, sym, ap, ◌∙◌, arith, Bool, true, false, List, [], ◌∷◌, ◌++◌, ltb,
  if◌then◌else◌, length, length-append, take, take-append-drop, drop, append_assoc, append-nil,
  Outcome, ok, Bool-cases, inl, inr, All, ◌⊎◌,
}

SendState-cases : (x : SendState) → (x ≡ running) ⊎ (x ≢ running)
SendState-cases running = inl refl
SendState-cases (closed e) = inr (λ x. cc)
SendState-cases returned = inr (λ x. cc)
SendState-cases crashed = inr (λ x. cc)

-- `encode` appends the bytes of `wire`.
abbrev pub AppendsTo :
    {E M : Type 0} → (List ℕ → M → Outcome E (List ℕ × ℕ)) → (M → List ℕ) → List ℕ → M → Type 0
AppendsTo encode wire dst o = encode dst o ≡ ok (dst ++ wire o, length (wire o))

module _ {E M : Type 0} (batch : ℕ) (encode : List ℕ → M → Outcome E (List ℕ × ℕ))
    (wire : M → List ℕ) where
  abbrev bytes_of : Turn M → List ℕ
  bytes_of (sends o queued w) = wire o
  bytes_of (flushes o w) = wire o
  bytes_of (ends w) = []

  abbrev pub all_bytes : List (Turn M) → List ℕ
  all_bytes [] = []
  all_bytes (t ∷ ts) = bytes_of t ++ all_bytes ts

  -- What a turn's message is to fulfil.
  abbrev pub Encodes : Turn M → Type 0
  Encodes (sends o queued w) = (dst : List ℕ) → AppendsTo encode wire dst o
  Encodes (flushes o w) = (dst : List ℕ) → AppendsTo encode wire dst o
  Encodes (ends w) = Unit

  -- `total` counts the bytes in the buffer.
  abbrev pub IsCounted : Sender → Type 0
  IsCounted s = s.total ≡ length s.buf

  -- The bytes `x` have gone out, up to those in the buffer; or the loop has ended behind some of them.
  pub data Went (x : List ℕ) (s : Sender) : Type 0 where
    on : s.state ≡ running → IsCounted s → s.written ++ s.buf ≡ x → Went x s
    off : s.state ≢ running → (rest : List ℕ) → s.written ++ rest ≡ x → Went x s

  if-Went :
      (x : List ℕ) (b : Bool) (s s' : Sender) → Went x s → Went x s' → Went x (if b then s else s')
  if-Went x true s s' h k = h
  if-Went x false s s' h k = k

  write-Went :
      (failed : List ℕ → SendState) (s : Sender) (w : Write)
      → ((e : List ℕ) → failed e ≢ running)
      → s.state ≡ running
      → Went (s.written ++ s.buf) (write failed s w)
  unfolding write
  write-Went failed s done ne e = on e refl (append-nil (s.written ++ s.buf))
  write-Went failed s (fell n x) ne e = off (ne x) (drop n s.buf) (
      append_assoc s.written (take n s.buf) (drop n s.buf)
      ∙ ap (λ t. s.written ++ t) (take-append-drop n s.buf))

  pub counted_on :
      (s : Sender) (x : List ℕ)
      → IsCounted s
      → s.total + (length (s.buf ++ x) - length s.buf) ≡ length (s.buf ++ x)
  counted_on s x c = omega (arith, c, length-append s.buf x)

  gather-Went :
      (s : Sender) (queued n : ℕ) (w : Write) (x : List ℕ)
      → s.state ≡ running
      → IsCounted s
      → Went (s.written ++ (s.buf ++ x)) (gather batch encode s queued w (ok (s.buf ++ x, n)))
  unfolding gather
  gather-Went s queued n w x e c =
      if-Went _ _ _ _ (write-Went closed _ w (λ y. λ z. cc) e) (on e (counted_on s x c) refl)

  gather_dying-Went :
      (s : Sender) (n : ℕ) (w : Write) (x : List ℕ)
      → s.state ≡ running
      → IsCounted s
      → Went (s.written ++ (s.buf ++ x)) (gather_dying batch encode s w (ok (s.buf ++ x, n)))
  unfolding gather_dying
  gather_dying-Went s n w x e c =
      if-Went _ _ _ _ (write-Went (λ y. returned) _ w (λ y. λ z. cc) e)
        (on e (counted_on s x c) refl)

  ends-Went :
      (s : Sender) (w : Write)
      → s.state ≡ running
      → Went (s.written ++ s.buf) (finish batch encode s w)
  unfolding finish write
  ends-Went s done e = elim (Bool-cases (ltb 0 s.total)) [
    | inl h ↦ rw h (off (λ z. cc) [] (append-nil (s.written ++ s.buf)))
    | inr h ↦ rw h (off (λ z. cc) s.buf refl)
  ]
  ends-Went s (fell n x) e = elim (Bool-cases (ltb 0 s.total)) [
    | inl h ↦ rw h (
        off (λ z. cc) (drop n s.buf)
          (append_assoc s.written (take n s.buf) (drop n s.buf)
            ∙ ap (λ t. s.written ++ t) (take-append-drop n s.buf)))
    | inr h ↦ rw h (off (λ z. cc) s.buf refl)
  ]

  pub step_running-Went :
      (s : Sender) (t : Turn M)
      → s.state ≡ running
      → IsCounted s
      → Encodes t
      → Went (s.written ++ (s.buf ++ bytes_of t)) (step_running batch encode s t)
  unfolding step_running send_one
  step_running-Went s (sends o queued w) e c h =
      subst (λ r. Went (s.written ++ (s.buf ++ wire o)) (gather batch encode s queued w r))
        (sym (h s.buf)) (gather-Went s queued (length (wire o)) w (wire o) e c)
  step_running-Went s (flushes o w) e c h =
      subst (λ r. Went (s.written ++ (s.buf ++ wire o)) (gather_dying batch encode s w r))
        (sym (h s.buf)) (gather_dying-Went s (length (wire o)) w (wire o) e c)
  step_running-Went s (ends w) e c h =
      subst (λ y. Went (s.written ++ y) (finish batch encode s w)) (sym (append-nil s.buf))
        (ends-Went s w e)

  pub step-running :
      (s : Sender) (t : Turn M)
      → s.state ≡ running
      → step batch encode s t ≡ step_running batch encode s t
  unfolding step step_in
  step-running s t e = ap (λ x. step_in batch encode x s t) e

  step_in-stopped :
      (x : SendState) (s : Sender) (t : Turn M) → x ≢ running → step_in batch encode x s t ≡ s
  unfolding step_in
  step_in-stopped running s t h = absurd (h refl)
  step_in-stopped (closed e) s t h = refl
  step_in-stopped returned s t h = refl
  step_in-stopped crashed s t h = refl

  send_all-stopped :
      (s : Sender) (ts : List (Turn M)) → s.state ≢ running → send_all batch encode s ts ≡ s
  unfolding send_all step
  send_all-stopped s [] h = refl
  send_all-stopped s (t ∷ ts) h =
      ap (λ s'. send_all batch encode s' ts) (step_in-stopped s.state s t h)
      ∙ send_all-stopped s ts h

  Went-append : (x y : List ℕ) (s : Sender) → s.state ≢ running → Went x s → Went (x ++ y) s
  Went-append x y s h (on e c w) = absurd (h e)
  Went-append x y s h (off ne rest w) =
      off ne (rest ++ y) (sym (append_assoc s.written rest y) ∙ ap (λ t. t ++ y) w)

  send_all-Went :
      (s : Sender) (ts : List (Turn M))
      → s.state ≡ running
      → IsCounted s
      → All Encodes ts
      → Went (s.written ++ (s.buf ++ all_bytes ts)) (send_all batch encode s ts)
  unfolding send_all
  send_all-Went s [] e c h = on e c (ap (λ t. s.written ++ t) (sym (append-nil s.buf)))
  send_all-Went s (t ∷ ts) e c (h, hs) =
      next (step batch encode s t)
        (subst (Went (s.written ++ (s.buf ++ bytes_of t))) (sym (step-running s t e))
          (step_running-Went s t e c h))
        (λ s' e' c'. send_all-Went s' ts e' c' hs)
    where
      regroup :
          s.written ++ (s.buf ++ (bytes_of t ++ all_bytes ts))
          ≡ (s.written ++ (s.buf ++ bytes_of t)) ++ all_bytes ts
      regroup = simp append_assoc

      next :
          (s' : Sender)
          → Went (s.written ++ (s.buf ++ bytes_of t)) s'
          → ((s'' : Sender)
              → s''.state ≡ running
              → IsCounted s''
              → Went (s''.written ++ (s''.buf ++ all_bytes ts)) (send_all batch encode s'' ts))
          → Went
              (s.written ++ (s.buf ++ (bytes_of t ++ all_bytes ts)))
              (send_all batch encode s' ts)
      next s' (on e' c' w) later =
          subst (λ x. Went x (send_all batch encode s' ts))
            (sym (append_assoc s'.written s'.buf (all_bytes ts))
              ∙ ap (λ x. x ++ all_bytes ts) w
              ∙ sym regroup)
            (later s' e' c')
      next s' (off ne rest w) later =
          subst (Went (s.written ++ (s.buf ++ (bytes_of t ++ all_bytes ts))))
            (sym (send_all-stopped s' ts ne))
            (subst (λ x. Went x s') (sym regroup)
              (Went-append _ (all_bytes ts) s' ne (off ne rest w)))

  taken : (x : List ℕ) (s : Sender) → Went x s → (rest : List ℕ) × (s.written ++ rest ≡ x)
  taken x s (on e c w) = (s.buf, w)
  taken x s (off ne rest w) = (rest, w)

  -- Whatever turns the loop takes, with writes that fail and a `die` between them: for messages whose
  -- bytes `encode` appends, what the connection has taken is the front part of their bytes, in order.
  pub send_all_prefix :
      (ts : List (Turn M))
      → All Encodes ts
      → (rest : List ℕ) × ((send_all batch encode new_sender ts).written ++ rest ≡ all_bytes ts)
  send_all_prefix ts h = taken (all_bytes ts) _ (send_all-Went new_sender ts refl refl h)
