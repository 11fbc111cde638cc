-- ===== src/Socket/Send/Drained.antt =====
-- The sending loop keeps nothing back where its queue runs empty.
use mathlib.Core.Path.{subst}
use clustergo.Socket.Send.{
  done, running, Sender, new_sender, write, Turn, sends, gather, send_one, step_running, step,
  send_all,
}
use clustergo.Common.{
  ℕ, ◌+◌, ◌-◌, ◌≡◌, refl, sym, ap, ◌∙◌, arith, Bool, true, false, ◌&&◌, ◌||◌, List, [], ◌∷◌, ◌++◌,
  ltb, leb, ◌==◌, if◌then◌else◌, length, append_assoc, append-nil, Outcome, ok, Bool-cases, inl,
  inr, All, map,
}
use clustergo.Socket.Send.Order.{
  AppendsTo, IsCounted, Went, on, off, counted_on, step-running, step_running-Went,
}

-- Messages with what is left in the queue behind each, and writes that succeed.
abbrev pub deliver : {M : Type 0} → List (M × ℕ) → List (Turn M)
deliver = map (λ p. sends p.0 p.1 done)

abbrev pub wires_of : {M : Type 0} → (M → List ℕ) → List (M × ℕ) → List ℕ
wires_of wire [] = []
wires_of wire (p ∷ ps) = wire p.0 ++ wires_of wire ps

module _ {E M : Type 0} (batch : ℕ) (encode : List ℕ → M → Outcome E (List ℕ × ℕ))
    (wire : M → List ℕ) where
  abbrev IsDrained : List ℕ → Sender → Type 0
  IsDrained x s = (s.written ≡ x) × (s.buf ≡ []) × (s.state ≡ running)

  if-running :
      (b : Bool) (s s' : Sender)
      → s.state ≡ running
      → s'.state ≡ running
      → (if b then s else s').state ≡ running
  if-running true s s' h k = h
  if-running false s s' h k = k

  empty : (xs : List ℕ) → length xs ≡ 0 → xs ≡ []
  empty [] h = refl
  empty (x ∷ xs) h = absurd (omega arith)

  none_left : (t : ℕ) → (leb batch t || (ltb 0 t && (0 == 0))) ≡ false → t ≡ 0
  none_left t h = ground arith

  gather-IsDrained :
      (s : Sender) (n : ℕ) (x : List ℕ)
      → s.state ≡ running
      → IsCounted batch encode wire s
      → IsDrained (s.written ++ (s.buf ++ x)) (gather batch encode s 0 done (ok (s.buf ++ x, n)))
  unfolding gather write
  gather-IsDrained s n x e c =
      let t = s.total + (length (s.buf ++ x) - length s.buf) in
      elim (Bool-cases (leb batch t || (ltb 0 t && (0 == 0)))) [
        | inl h ↦ rw h (refl, refl, e)
        | inr h ↦
            let gone : s.buf ++ x ≡ [] =
              empty (s.buf ++ x) (sym (counted_on batch encode wire s x c) ∙ none_left t h) in
            rw h (sym (append-nil s.written) ∙ ap (λ z. s.written ++ z) (sym gone), gone, e)
      ]

  running-sends :
      (s : Sender) (o : M) (queued : ℕ)
      → s.state ≡ running
      → ((dst : List ℕ) → AppendsTo encode wire dst o)
      → (step batch encode s (sends o queued done)).state ≡ running
  unfolding step_running send_one gather write
  running-sends s o queued e h =
      ap (λ s'. s'.state) (step-running batch encode wire s (sends o queued done) e)
      ∙ ap (λ r. (gather batch encode s queued done r).state) (h s.buf)
      ∙ if-running _ _ _ e e

  deliver-IsDrained :
      (s : Sender) (ps : List (M × ℕ)) (o : M)
      → s.state ≡ running
      → IsCounted batch encode wire s
      → All (λ p. (dst : List ℕ) → AppendsTo encode wire dst p.0) ps
      → ((dst : List ℕ) → AppendsTo encode wire dst o)
      → IsDrained
          (s.written ++ (s.buf ++ (wires_of wire ps ++ wire o)))
          (send_all batch encode s (deliver ps ++ (sends o 0 done ∷ [])))
  unfolding send_all step_running send_one
  deliver-IsDrained s [] o e c hs h =
      subst (IsDrained (s.written ++ (s.buf ++ wire o)))
        (ap (gather batch encode s 0 done) (sym (h s.buf))
          ∙ sym (step-running batch encode wire s (sends o 0 done) e))
        (gather-IsDrained s (length (wire o)) (wire o) e c)
  deliver-IsDrained s (p ∷ ps) o e c (g, hs) h =
      next (step batch encode s (sends p.0 p.1 done))
        (subst (Went batch encode wire (s.written ++ (s.buf ++ wire p.0)))
          (sym (step-running batch encode wire s (sends p.0 p.1 done) e))
          (step_running-Went batch encode wire s (sends p.0 p.1 done) e c g))
        (running-sends s p.0 p.1 e g) (λ s' e' c'. deliver-IsDrained s' ps o e' c' hs h)
    where
      regroup :
          s.written ++ (s.buf ++ ((wire p.0 ++ wires_of wire ps) ++ wire o))
          ≡ (s.written ++ (s.buf ++ wire p.0)) ++ (wires_of wire ps ++ wire o)
      regroup = simp append_assoc

      next :
          (s' : Sender)
          → Went batch encode wire (s.written ++ (s.buf ++ wire p.0)) s'
          → s'.state ≡ running
          → ((s'' : Sender)
              → s''.state ≡ running
              → IsCounted batch encode wire s''
              → IsDrained
                  (s''.written ++ (s''.buf ++ (wires_of wire ps ++ wire o)))
                  (send_all batch encode s'' (deliver ps ++ (sends o 0 done ∷ []))))
          → IsDrained
              (s.written ++ (s.buf ++ ((wire p.0 ++ wires_of wire ps) ++ wire o)))
              (send_all batch encode s' (deliver ps ++ (sends o 0 done ∷ [])))
      next s' (on e' c' w) r later =
          subst (λ x. IsDrained x (send_all batch encode s' (deliver ps ++ (sends o 0 done ∷ []))))
            (sym (append_assoc s'.written s'.buf (wires_of wire ps ++ wire o))
              ∙ ap (λ x. x ++ (wires_of wire ps ++ wire o)) w
              ∙ sym regroup)
            (later s' e' c')
      next s' (off ne rest w) r later = absurd (ne r)

  -- Where every write succeeds and nothing is left in the queue behind the last message, the loop has
  -- written the bytes of all its messages, in order and whatever the batch size, keeps none back in the
  -- buffer, and goes on.
  pub send_all_drained :
      (ps : List (M × ℕ)) (o : M)
      → All (λ p. (dst : List ℕ) → AppendsTo encode wire dst p.0) ps
      → ((dst : List ℕ) → AppendsTo encode wire dst o)
      → ((send_all batch encode new_sender (deliver ps ++ (sends o 0 done ∷ []))).written
          ≡ wires_of wire ps ++ wire o)
        × ((send_all batch encode new_sender (deliver ps ++ (sends o 0 done ∷ []))).buf ≡ [])
        × ((send_all batch encode new_sender (deliver ps ++ (sends o 0 done ∷ []))).state ≡ running)
  send_all_drained ps o hs h = deliver-IsDrained new_sender ps o refl refl hs h
