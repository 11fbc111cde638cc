-- ===== src/Socket/Receive.antt =====
-- `recv` finds in the arriving bytes the packets of the reference, however the bytes were cut.
use clustergo.Socket.{
  FrameReader, window, unpack, fill, Unpacked, complete, broken, more, conn_error, Arrival, bytes,
  failure, Received, Reading, packet, failed, waits, out_of_fuel, read_on, recv,
}
use clustergo.Socket.Stream.{Next, got, bad, need, extended, next_frame, next_frame-append}
use clustergo.Socket.Unpack.{IsSound, Agrees, unpack-Agrees}
use mathlib.Core.Path.{subst}
use clustergo.Common.{
  ℕ, zero, suc, ◌+◌, ◌-◌, ◌≤◌, ◌<◌, ◌≡◌, ◌≢◌, refl, sym, ap, ◌∙◌, arith, false, List, [], ◌∷◌, ◌++◌,
  leb, length, length-append, length-take, length-drop, take, drop, take-append-drop,
  take-append_left, append_assoc, append-nil, Bool-cases, inl, inr,
}

-- The bytes that arrive before a failure, and what the reads come to behind them.
abbrev pub stream : List Arrival → List ℕ
stream [] = []
stream (bytes bs ∷ conn) = bs ++ stream conn
stream (failure e ∷ conn) = []

abbrev pub ending : List Arrival → Received
ending [] = waits
ending (bytes bs ∷ conn) = ending conn
ending (failure e ∷ conn) = failed (conn_error e)

-- A bound on the number of reads.
abbrev pub reads : List Arrival → ℕ
reads [] = 0
reads (bytes bs ∷ conn) = suc (length bs + reads conn)
reads (failure e ∷ conn) = 1

module _ (fr : FrameReader) (s : IsSound fr) (front : fr.r ≡ 0) (bs : List ℕ)
    (room : fr.w + length bs ≤ length fr.buf) where
  abbrev filled : List ℕ
  filled = take fr.w fr.buf ++ (bs ++ drop (fr.w + length bs) fr.buf)

  length-filled : length filled ≡ length fr.buf
  length-filled = ground (
    arith,
    room,
    length-append (take fr.w fr.buf) (bs ++ drop (fr.w + length bs) fr.buf),
    length-append bs (drop (fr.w + length bs) fr.buf),
    length-take fr.w fr.buf,
    length-drop (fr.w + length bs) fr.buf,
  )

  window-fill : window (fill fr bs) ≡ window fr ++ bs
  unfolding window fill
  window-fill =
      let left : length (take fr.w fr.buf) ≡ fr.w = ground (arith, room, length-take fr.w fr.buf) in
      ap (λ r. take (fr.w + length bs - r) (drop r filled)) front
      ∙ ap (λ i. take i filled) (omega arith)
      ∙ ap (take (fr.w + length bs))
          (sym (append_assoc (take fr.w fr.buf) bs (drop (fr.w + length bs) fr.buf)))
      ∙ take-append_left (fr.w + length bs) (take fr.w fr.buf ++ bs)
          (drop (fr.w + length bs) fr.buf)
          (omega (arith, left, length-append (take fr.w fr.buf) bs))
      ∙ ap (λ i. take i fr.buf ++ bs) (omega arith)
      ∙ ap (λ r. take (fr.w - r) (drop r fr.buf) ++ bs) (sym front)

  fill-IsSound : IsSound (fill fr bs)
  unfolding fill
  fill-IsSound = record {
    ordered = omega (arith, s.ordered);
    inside = omega (arith, room, length-filled);
    head_fits = omega (arith, s.head_fits, length-filled);
  }

-- What `recv` has to hand out where the reference finds `n` in the window and the arriving bytes.
abbrev pub Receives : ℕ → List Arrival → Next → Received × (FrameReader × List Arrival) → Type 0
Receives max conn (got p rest) (packet q, (fr', conn')) =
    (q ≡ p)
    × (window fr' ++ stream conn' ≡ rest)
    × IsSound fr'
    × (fr'.max_size ≡ max)
    × (ending conn' ≡ ending conn)
    × (reads conn' ≤ reads conn)
Receives max conn (bad e) (failed e', s) = e' ≡ e
Receives max conn need (r, s) = r ≡ ending conn
Receives max conn _ _ = ⊥

Receives-more :
    (max : ℕ) (conn conn' : List Arrival) (n : Next) (x : Reading)
    → ending conn ≡ ending conn'
    → reads conn ≤ reads conn'
    → Receives max conn n x
    → Receives max conn' n x
Receives-more max conn conn' (got p rest) (packet q, s) e h (a, b, c, d, f, g) =
    (a, b, c, d, f ∙ e, omega (arith, g, h))
Receives-more max conn conn' (got p rest) (failed x, s) e h r = r
Receives-more max conn conn' (got p rest) (waits, s) e h r = r
Receives-more max conn conn' (got p rest) (out_of_fuel, s) e h r = r
Receives-more max conn conn' (bad x) (packet q, s) e h r = r
Receives-more max conn conn' (bad x) (failed y, s) e h r = r
Receives-more max conn conn' (bad x) (waits, s) e h r = r
Receives-more max conn conn' (bad x) (out_of_fuel, s) e h r = r
Receives-more max conn conn' need (x, s) e h r = r ∙ e

room_lt : (m k : ℕ) → leb m k ≡ false → k < m
room_lt m k h = ground arith

module _ (fuel : ℕ) (fr : FrameReader)
    (again : (fr' : FrameReader) (conn : List Arrival)
      → IsSound fr'
      → reads conn < fuel
      → Receives fr'.max_size conn
          (next_frame fr'.max_size (window fr' ++ stream conn))
          (recv fuel fr' conn)) where
  known :
      (n : Next) (bs : List ℕ)
      → next_frame fr.max_size (window fr) ≡ n
      → n ≢ need
      → next_frame fr.max_size (window fr ++ bs) ≡ extended n bs
  known n bs e h =
      next_frame-append fr.max_size (window fr) bs (λ k. h (sym e ∙ k)) ∙ ap (λ m. extended m bs) e

  -- A read that fits, with what is still to come.
  filled-Receives :
      (fr' : FrameReader) (bs : List ℕ) (conn : List Arrival)
      → Agrees fr need (more fr')
      → fr'.w + length bs ≤ length fr'.buf
      → reads conn < fuel
      → Receives fr.max_size conn
          (next_frame fr.max_size (window fr ++ (bs ++ stream conn)))
          (recv fuel (fill fr' bs) conn)
  filled-Receives fr' bs conn (same, s, front, room, max) h k =
      let whole : window (fill fr' bs) ++ stream conn ≡ window fr ++ (bs ++ stream conn) =
        ap (λ t. t ++ stream conn) (window-fill fr' s front bs h ∙ ap (λ t. t ++ bs) same)
        ∙ append_assoc (window fr) bs (stream conn) in
      let kept : (fill fr' bs).max_size ≡ fr.max_size = unfold fill in max in
      subst
        (λ x.
          Receives x conn (next_frame x (window fr ++ (bs ++ stream conn)))
            (recv fuel (fill fr' bs) conn))
        kept
        (subst
          (λ t.
            Receives (fill fr' bs).max_size conn (next_frame (fill fr' bs).max_size t)
              (recv fuel (fill fr' bs) conn))
          whole (again (fill fr' bs) conn (fill-IsSound fr' s front bs h) k))

  read_on-Receives :
      (n : Next) (u : Unpacked) (conn : List Arrival)
      → next_frame fr.max_size (window fr) ≡ n
      → Agrees fr n u
      → reads conn < suc fuel
      → Receives fr.max_size conn
          (next_frame fr.max_size (window fr ++ stream conn))
          (read_on (recv fuel) fr conn u)
  unfolding read_on
  read_on-Receives (got p rest) (complete q fr') conn e (same, left, s, max) k =
      rw (known (got p rest) (stream conn) e (λ x. cc))
        (same, ap (λ t. t ++ stream conn) left, s, max, refl, omega arith)
  read_on-Receives (bad x) (broken y) conn e a k = rw (known (bad x) (stream conn) e (λ z. cc)) a
  read_on-Receives need (more fr') [] e a k = rw (append-nil (window fr), e) refl
  read_on-Receives need (more fr') (failure x ∷ conn) e a k = rw (append-nil (window fr), e) refl
  read_on-Receives need (more fr') (bytes bs ∷ conn) e a k =
      elim (Bool-cases (leb (length bs) (length fr'.buf - fr'.w))) [
        | inl fits ↦ rw fits (
            Receives-more fr.max_size conn (bytes bs ∷ conn)
              (next_frame fr.max_size (window fr ++ (bs ++ stream conn)))
              (recv fuel (fill fr' bs) conn) refl (omega arith)
              (filled-Receives fr' bs conn a (ground (arith, fits, a.1.inside)) (omega (arith, k))))
        | inr large ↦
            let room = length fr'.buf - fr'.w in
            let left : List Arrival = bytes (drop room bs) ∷ conn in
            let part : length (take room bs) ≡ room = ground (arith, large, length-take room bs) in
            let fewer : reads left < reads (bytes bs ∷ conn) =
              omega (arith, a.3, room_lt (length bs) room large, length-drop room bs) in
            let whole : take room bs ++ stream left ≡ bs ++ stream conn =
              sym (append_assoc (take room bs) (drop room bs) (stream conn))
              ∙ ap (λ t. t ++ stream conn) (take-append-drop room bs) in
            rw large (
              subst
                (λ t.
                  Receives fr.max_size (bytes bs ∷ conn) (next_frame fr.max_size (window fr ++ t))
                    (recv fuel (fill fr' (take room bs)) left))
                whole
                (Receives-more fr.max_size left (bytes bs ∷ conn)
                  (next_frame fr.max_size (window fr ++ (take room bs ++ stream left)))
                  (recv fuel (fill fr' (take room bs)) left) refl (omega (arith, fewer))
                  (filled-Receives fr' (take room bs) left a (omega (arith, part, a.3))
                    (omega (arith, fewer, k)))))
      ]
  read_on-Receives (got p rest) (broken y) conn e a k = elim a [ ]
  read_on-Receives (got p rest) (more fr') conn e a k = elim a [ ]
  read_on-Receives (bad x) (complete q fr') conn e a k = elim a [ ]
  read_on-Receives (bad x) (more fr') conn e a k = elim a [ ]
  read_on-Receives need (complete q fr') conn e a k = elim a [ ]
  read_on-Receives need (broken y) conn e a k = elim a [ ]

-- With as much fuel as there are reads, `recv` hands out the next packet of the stream, or the error of
-- its framing; and where the stream has neither it waits or fails, as the connection does.
pub recv-Receives :
    (fuel : ℕ) (fr : FrameReader) (conn : List Arrival)
    → IsSound fr
    → reads conn < fuel
    → Receives fr.max_size conn
        (next_frame fr.max_size (window fr ++ stream conn))
        (recv fuel fr conn)
unfolding recv
recv-Receives zero fr conn s h = absurd (omega arith)
recv-Receives (suc fuel) fr conn s h =
    read_on-Receives fuel fr (recv-Receives fuel) (next_frame fr.max_size (window fr)) (unpack fr)
      conn refl (unpack-Agrees fr s) h
