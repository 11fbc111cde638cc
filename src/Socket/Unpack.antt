-- ===== src/Socket/Unpack.antt =====
-- The part of `recv` in front of the read agrees with the reference on the bytes in the window.
use clustergo.Socket.{
  FrameReader, window, move_front, grow, take_packet, unpack, Unpacked, complete, broken, more,
  head_len,
}
use clustergo.Socket.Stream.{Next, got, bad, need, next_frame}
use clustergo.Common.{
  ℕ, zero, suc, ◌+◌, ◌-◌, ◌≤◌, ◌<◌, ◌≡◌, refl, sym, ap, ◌∙◌, arith, Bool, true, false, List, [],
  ◌∷◌, ◌++◌, ltb, leb, ◌==◌, if◌then◌else◌, length, length-append, length-take, length-drop,
  length-replicate, take, drop, replicate, drop-drop, drop-nil, take-append-drop, take-append_le,
  drop-append_le, take-append_left, Bool-cases, inl, inr,
}
use clustergo.Endian.{big_endian, value}

drop_all : {A : Type 0} (n : ℕ) (xs : List A) → length xs ≤ n → drop n xs ≡ []
drop_all n [] h = drop-nil n
drop_all zero (x ∷ xs) h = absurd (omega arith)
drop_all (suc n) (x ∷ xs) h = drop_all n xs (omega arith)

-- The offsets lie in the buffer, and there is room for a length.
pub record IsSound (fr : FrameReader) : Type 0 where
  pub ordered : fr.r ≤ fr.w
  pub inside : fr.w ≤ length fr.buf
  pub head_fits : head_len ≤ length fr.buf

module _ (fr : FrameReader) (s : IsSound fr) where
  pub length-window : length (window fr) ≡ fr.w - fr.r
  unfolding window
  length-window = ground (
    arith,
    s.ordered,
    s.inside,
    length-take (fr.w - fr.r) (drop fr.r fr.buf),
    length-drop fr.r fr.buf,
  )

  -- What stands behind the window.
  abbrev beyond : List ℕ
  beyond = drop (fr.w - fr.r) (drop fr.r fr.buf)

  window-split : drop fr.r fr.buf ≡ window fr ++ beyond
  unfolding window
  window-split = sym (take-append-drop (fr.w - fr.r) (drop fr.r fr.buf))

  head-window :
      head_len ≤ fr.w - fr.r → take head_len (drop fr.r fr.buf) ≡ take head_len (window fr)
  head-window h =
      ap (take head_len) window-split
      ∙ take-append_le head_len (window fr) beyond (omega (arith, length-window, h))

  drop-window : (n : ℕ) → n ≤ fr.w - fr.r → drop (fr.r + n) fr.buf ≡ drop n (window fr) ++ beyond
  drop-window n h =
      sym (drop-drop n fr.r fr.buf)
      ∙ ap (drop n) window-split
      ∙ drop-append_le n (window fr) beyond (omega (arith, length-window, h))

-- The buffer in which the window stands in front, with anything behind it.
front-IsSound :
    (fr : FrameReader) (bs rest : List ℕ) (m : ℕ)
    → head_len ≤ length (bs ++ rest)
    → IsSound (record fr { buf = bs ++ rest; w = length bs; r = 0 })
front-IsSound fr bs rest m h = record {
  ordered = omega arith;
  inside = omega (arith, length-append bs rest);
  head_fits = h;
}

window-front :
    (fr : FrameReader) (bs rest : List ℕ) (k : ℕ)
    → k ≡ length bs
    → window (record fr { buf = bs ++ rest; w = k; r = 0 }) ≡ bs
unfolding window
window-front fr bs rest k e =
    ap (λ i. take i (bs ++ rest)) (omega arith) ∙ take-append_left k bs rest (sym e)

abbrev pub Agrees : FrameReader → Next → Unpacked → Type 0
Agrees fr (got p rest) (complete q fr') =
    (q ≡ p) × (window fr' ≡ rest) × IsSound fr' × (fr'.max_size ≡ fr.max_size)
Agrees fr (bad e) (broken e') = e' ≡ e
Agrees fr need (more fr') =
    (window fr' ≡ window fr)
    × IsSound fr'
    × (fr'.r ≡ 0)
    × (fr'.w < length fr'.buf)
    × (fr'.max_size ≡ fr.max_size)
Agrees fr _ _ = ⊥

if-Agrees :
    (fr : FrameReader) (b : Bool) (n n' : Next) (u u' : Unpacked)
    → (b ≡ true → Agrees fr n u)
    → (b ≡ false → Agrees fr n' u')
    → Agrees fr (if b then n else n') (if b then u else u')
if-Agrees fr true n n' u u' h k = h refl
if-Agrees fr false n n' u u' h k = k refl

-- The reader behind a packet, that begins again at the front where the window is empty.
behind : (fr : FrameReader) → ℕ → Bool → FrameReader
behind fr r' true = record fr { w = 0; r = 0 }
behind fr r' false = record fr { r = r' }

module _ (fr : FrameReader) (s : IsSound fr) where
  behind-Agrees :
      (n : ℕ) (b : Bool) (p : List ℕ)
      → n + head_len ≤ fr.w - fr.r
      → (fr.r + head_len + n == fr.w) ≡ b
      → Agrees fr
          (got p (drop (n + 4) (window fr)))
          (complete p (behind fr (fr.r + head_len + n) b))
  unfolding behind window
  behind-Agrees n true p h e = (
    refl,
    sym (drop_all (n + 4) (window fr) (ground (arith, h, e, length-window fr s))),
    record { ordered = omega arith; inside = omega arith; head_fits = s.head_fits },
    refl,
  )
  behind-Agrees n false p h e = (
    refl,
    ap (take (fr.w - (fr.r + head_len + n)))
          (ap (λ i. drop i fr.buf) (omega arith) ∙ drop-window fr s (n + 4) (omega (arith, h)))
        ∙ take-append_left (fr.w - (fr.r + head_len + n)) (drop (n + 4) (window fr)) (beyond fr s)
            (omega (arith, h, length-drop (n + 4) (window fr), length-window fr s)),
    record { ordered = omega (arith, h); inside = s.inside; head_fits = s.head_fits },
    refl,
  )

  take_packet-Agrees :
      (n : ℕ)
      → n + head_len ≤ fr.w - fr.r
      → Agrees fr (got (take n (drop 4 (window fr))) (drop (n + 4) (window fr))) (take_packet fr n)
  take_packet-Agrees n h =
      let cut : take n (drop (fr.r + head_len) fr.buf) ≡ take n (drop 4 (window fr)) =
        ap (take n) (drop-window fr s 4 (omega (arith, h)))
        ∙ take-append_le n (drop 4 (window fr)) (beyond fr s)
            (omega (arith, h, length-window fr s, length-drop 4 (window fr))) in
      rw (take_packet-behind n, cut) (behind-Agrees n (fr.r + head_len + n == fr.w) _ h refl)
    where
      if-behind :
          (r' : ℕ) (b : Bool)
          → (if b then record fr { w = 0; r = 0 } else record fr { r = r' }) ≡ behind fr r' b
      if-behind r' true = unfold behind in refl
      if-behind r' false = unfold behind in refl

      take_packet-behind :
          (m : ℕ)
          → take_packet fr m
            ≡ complete
                (take m (drop (fr.r + head_len) fr.buf))
                (behind fr (fr.r + head_len + m) (fr.r + head_len + m == fr.w))
      take_packet-behind m =
          unfold take_packet in
          ap (complete (take m (drop (fr.r + head_len) fr.buf)))
            (if-behind (fr.r + head_len + m) (fr.r + head_len + m == fr.w))

  move_front-Agrees : fr.w - fr.r < length fr.buf → Agrees fr need (more (move_front fr))
  unfolding move_front
  move_front-Agrees h =
      let size : length (window fr ++ drop (fr.w - fr.r) fr.buf) ≡ length fr.buf = omega (
        arith,
        h,
        length-window fr s,
        length-append (window fr) (drop (fr.w - fr.r) fr.buf),
        length-drop (fr.w - fr.r) fr.buf,
      ) in
      (
        window-front fr (window fr) (drop (fr.w - fr.r) fr.buf) (fr.w - fr.r)
            (sym (length-window fr s)),
        record {
          ordered = omega arith;
          inside = omega (arith, size, h);
          head_fits = omega (arith, size, s.head_fits);
        },
        refl,
        omega (arith, size, h),
        refl,
      )

  grow-Agrees :
      (size : ℕ) → fr.w - fr.r < size → head_len ≤ size → Agrees fr need (more (grow size fr))
  unfolding grow
  grow-Agrees size h k =
      let fresh : List ℕ = replicate size 0 in
      let total : length (window fr ++ drop (fr.w - fr.r) fresh) ≡ size = omega (
        arith,
        h,
        length-window fr s,
        length-append (window fr) (drop (fr.w - fr.r) fresh),
        length-drop (fr.w - fr.r) fresh,
        length-replicate {A = ℕ} size 0,
      ) in
      (
        window-front fr (window fr) (drop (fr.w - fr.r) fresh) (fr.w - fr.r)
            (sym (length-window fr s)),
        record {
          ordered = omega arith;
          inside = omega (arith, total, h);
          head_fits = omega (arith, total, k);
        },
        refl,
        omega (arith, total, h),
        refl,
      )

  if-need :
      (b : Bool) (u u' : Unpacked)
      → (b ≡ true → Agrees fr need u)
      → (b ≡ false → Agrees fr need u')
      → Agrees fr need (if b then u else u')
  if-need true u u' h k = h refl
  if-need false u u' h k = k refl

  wait-Agrees :
      fr.w - fr.r < length fr.buf
      → Agrees fr need (if ltb 0 fr.r then more (move_front fr) else more fr)
  wait-Agrees h =
      if-need (ltb 0 fr.r) _ _ (λ moved. move_front-Agrees h)
        (λ front. (refl, s, ground (arith, front), ground (arith, front, h), refl))

  -- `unpack` finds the packet, the error or the lack of bytes that the reference finds in the window,
  -- and where it asks for more there is room to read.
  pub unpack-Agrees : Agrees fr (next_frame fr.max_size (window fr)) (unpack fr)
  unfolding unpack next_frame
  unpack-Agrees = elim (Bool-cases (leb head_len (fr.w - fr.r))) [
    | inr short ↦
        let short' : ltb (length (window fr)) 4 ≡ true =
          ground (arith, short, length-window fr s) in
        rw (short, short') (wait-Agrees (ground (arith, short, s.head_fits)))
    | inl long ↦
        let long' : ltb (length (window fr)) 4 ≡ false = ground (arith, long, length-window fr s) in
        let n = value big_endian (take head_len (window fr)) in
        rw (long, long', head-window fr s (ground (arith, long)), length-window fr s)
          (if-Agrees fr (n == 0) _ _ _ _ (λ z. refl)
            λ nonzero.
              if-Agrees fr (ltb fr.max_size (n + 4)) _ _ _ _ (λ big. refl)
                λ fits. elim (Bool-cases (leb (n + 4) (fr.w - fr.r))) [
                  | inl all ↦
                      let all' : ltb (fr.w - fr.r) (n + 4) ≡ false = ground (arith, all) in
                      rw (all, all') (take_packet-Agrees n (ground (arith, all)))
                  | inr part ↦
                      let part' : ltb (fr.w - fr.r) (n + 4) ≡ true = ground (arith, part) in
                      rw (part, part')
                        (if-need (ltb (length fr.buf) (n + 4)) _ _
                          (λ small. grow-Agrees (n + 4) (ground (arith, part)) (omega arith))
                          (λ large. wait-Agrees (ground (arith, part, large))))
                ])
  ]
