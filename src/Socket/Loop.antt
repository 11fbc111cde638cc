-- ===== src/Socket/Loop.antt =====
-- The receiving loop of a connection handles the packets of the stream in order.
use clustergo.Endian.{big_endian, put}
use clustergo.Socket.{
  FrameReader, window, RecvError, Arrival, bytes, failure, Received, Reading, packet, failed, waits,
  out_of_fuel, recv, Ended, left, closed, undecodable, panicked, rejected, still_waits,
  short_of_fuel, Handling, hand_out, take_in, go_on, recv_all,
}
use clustergo.Socket.Stream.{Next, got, bad, need, next_frame, next_frame-shorter, next_frame-frame}
use clustergo.Socket.Receive.{stream, ending, reads, Receives, recv-Receives}
use clustergo.Socket.Unpack.{IsSound}
use clustergo.Common.{
  ℕ, zero, suc, ◌+◌, ◌^◌, All, ◌≤◌, ◌<◌, ◌≡◌, refl, ap, ◌∙◌, arith, Option, none, some, List, [],
  ◌∷◌, ◌++◌, length, append_assoc, if◌then◌else◌, Outcome, ok, err, panic,
}

-- The packets of a stream, and an error of the framing, if there is one.
unfoldable pub cut_on :
    (List ℕ → List (List ℕ) × Option RecvError) → Next → List (List ℕ) × Option RecvError
cut_on again (got p rest) = let later = again rest in (p ∷ later.0, later.1)
cut_on again (bad e) = ([], some e)
cut_on again need = ([], none)

unfoldable pub frames : ℕ → ℕ → List ℕ → List (List ℕ) × Option RecvError
frames zero max bs = ([], none)
frames (suc n) max bs = cut_on (frames n max) (next_frame max bs)

-- What comes behind the packets: the error of the framing, or what the connection ends with.
abbrev pub last_of : List Arrival → Option RecvError → Received
last_of conn none = ending conn
last_of conn (some e) = failed e

last_of_same :
    (conn conn' : List Arrival) (o : Option RecvError)
    → ending conn' ≡ ending conn
    → last_of conn' o ≡ last_of conn o
last_of_same conn conn' none e = e
last_of_same conn conn' (some x) e = refl

module _ {S O E : Type 0} (h : Handling S O E) where
  -- How the loop ends behind `k` packets that were all handled.
  abbrev pub end_of : ℕ → Received → Ended E
  end_of k (failed e) = if h.died k then left else closed e
  end_of k waits = still_waits
  end_of k out_of_fuel = short_of_fuel
  end_of k (packet p) = short_of_fuel

  -- The reference for `recv_all`: packets in a list, handled one after the other until the loop is left,
  -- one does not decode, or one is refused by the handler.
  unfoldable pub serve_all : ℕ → S → List (List ℕ) → Received → List O × Ended E
  serve_all k s [] last = if h.leaves k then ([], left) else ([], end_of k last)
  serve_all k s (p ∷ ps) last =
      let later = serve_all (suc k) (h.decoded s p) ps last in
      if h.leaves k then ([], left) else elim (h.decode s p) [
        | ok o ↦ elim (h.handle k o) [
          | none ↦ (o ∷ later.0, later.1)
          | some e ↦ (o ∷ [], rejected e)
        ]
        | err e ↦ ([], undecodable e)
        | panic ↦ ([], panicked)
      ]

  take_in-cases :
      (k : ℕ) (r : Outcome E O) (later : List O × Ended E)
      → take_in h k r later ≡ (elim r [
        | ok o ↦ elim (h.handle k o) [
          | none ↦ (o ∷ later.0, later.1)
          | some e ↦ (o ∷ [], rejected e)
        ]
        | err e ↦ ([], undecodable e)
        | panic ↦ ([], panicked)
      ])
  unfolding take_in hand_out
  take_in-cases k (ok o) later = go (h.handle k o)
    where
      go :
          (v : Option (List ℕ))
          → hand_out h v o later
            ≡ (elim v [ none ↦ (o ∷ later.0, later.1) | some e ↦ (o ∷ [], rejected e) ])
      go none = refl
      go (some e) = refl
  take_in-cases k (err e) later = refl
  take_in-cases k panic later = refl

  go_on-ending :
      (again : S → FrameReader → List Arrival → List O × Ended E) (k : ℕ) (s : S)
      (conn : List Arrival) (x : FrameReader × List Arrival)
      → go_on h again k s (ending conn, x) ≡ ([], end_of k (ending conn))
  unfolding go_on
  go_on-ending again k s [] x = refl
  go_on-ending again k s (bytes bs ∷ conn) x = go_on-ending again k s conn x
  go_on-ending again k s (failure e ∷ conn) x = refl

  module _ (rounds fuel max : ℕ)
      (again : (k : ℕ) (s : S) (fr : FrameReader) (conn : List Arrival)
        → IsSound fr
        → reads conn < fuel
        → length (window fr ++ stream conn) < rounds
        → let cut = frames rounds fr.max_size (window fr ++ stream conn) in
          recv_all h rounds fuel k s fr conn ≡ serve_all k s cut.0 (last_of conn cut.1)) where
    go_on-cut_on :
        (k : ℕ) (s : S) (conn : List Arrival) (n : Next) (x : Reading)
        → Receives max conn n x
        → reads conn < fuel
        → ((p rest : List ℕ) → n ≡ got p rest → length rest < rounds)
        → (if h.leaves k then ([], left) else go_on h (recv_all h rounds fuel (suc k)) k s x)
          ≡ serve_all k s
              (cut_on (frames rounds max) n).0
              (last_of conn (cut_on (frames rounds max) n).1)
    unfolding go_on cut_on serve_all
    go_on-cut_on k s conn (got p rest) (packet q, (fr, conn')) (same, left', sound, m, e, less) few
          small =
        let cut = frames rounds max rest in
        ap (λ t. if h.leaves k then ([], left) else t)
          (ap
              (λ t.
                take_in h k (h.decode s t)
                  (recv_all h rounds fuel (suc k) (h.decoded s t) fr conn'))
              same
            ∙ ap (take_in h k (h.decode s p)) (
                again (suc k) (h.decoded s p) fr conn' sound (omega (arith, less, few))
                  (omega (arith, ap length left', small p rest refl))
                ∙ ap
                    (λ t.
                      serve_all (suc k) (h.decoded s p)
                        (frames rounds t (window fr ++ stream conn')).0
                        (last_of conn' (frames rounds t (window fr ++ stream conn')).1))
                    m
                ∙ ap
                    (λ t.
                      serve_all (suc k) (h.decoded s p) (frames rounds max t).0
                        (last_of conn' (frames rounds max t).1))
                    left'
                ∙ ap (serve_all (suc k) (h.decoded s p) cut.0) (last_of_same conn conn' cut.1 e))
            ∙ take_in-cases k (h.decode s p)
                (serve_all (suc k) (h.decoded s p) cut.0 (last_of conn cut.1)))
    go_on-cut_on k s conn (got p rest) (failed x, y) r few small = elim r [ ]
    go_on-cut_on k s conn (got p rest) (waits, y) r few small = elim r [ ]
    go_on-cut_on k s conn (got p rest) (out_of_fuel, y) r few small = elim r [ ]
    go_on-cut_on k s conn (bad x) (packet q, y) r few small = elim r [ ]
    go_on-cut_on k s conn (bad x) (failed z, y) r few small =
        ap (λ t. if h.leaves k then ([], left) else ([], if h.died k then left else closed t)) r
    go_on-cut_on k s conn (bad x) (waits, y) r few small = elim r [ ]
    go_on-cut_on k s conn (bad x) (out_of_fuel, y) r few small = elim r [ ]
    go_on-cut_on k s conn need (x, y) r few small =
        ap (λ t. if h.leaves k then ([], left) else t)
          (ap (λ t. go_on h (recv_all h rounds fuel (suc k)) k s (t, y)) r
            ∙ go_on-ending (recv_all h rounds fuel (suc k)) k s conn y)

  -- The receiving loop on a connection, however its bytes were cut into reads, and with any `Decode`,
  -- handler and closing of the socket: with fuel for its reads and rounds for its bytes, it does just
  -- what the reference does with the packets that are cut off the whole stream. It calls the handler
  -- with them in order, up to `die`, to the first that does not decode or to the first that the handler
  -- refuses, and else ends with the error of the framing or as the connection ends.
  pub recv_all-frames :
      (rounds fuel k : ℕ) (s : S) (fr : FrameReader) (conn : List Arrival)
      → IsSound fr
      → reads conn < fuel
      → length (window fr ++ stream conn) < rounds
      → let cut = frames rounds fr.max_size (window fr ++ stream conn) in
        recv_all h rounds fuel k s fr conn ≡ serve_all k s cut.0 (last_of conn cut.1)
  unfolding recv_all frames
  recv_all-frames zero fuel k s fr conn sound few small = absurd (omega arith)
  recv_all-frames (suc rounds) fuel k s fr conn sound few small =
      go_on-cut_on rounds fuel fr.max_size (recv_all-frames rounds fuel) k s conn
        (next_frame fr.max_size (window fr ++ stream conn)) (recv fuel fr conn)
        (recv-Receives fuel fr conn sound few) few
        (λ p rest e.
          omega (arith, small, next_frame-shorter fr.max_size (window fr ++ stream conn) p rest e))

-- The frames of a list of packets.
abbrev pub wires : List (List ℕ) → List ℕ
wires [] = []
wires (p ∷ ps) = (put big_endian 4 (length p) ++ p) ++ wires ps

-- The packets are not empty, and their frames are not larger than `max`.
abbrev pub AllFit : ℕ → List (List ℕ) → Type 0
AllFit max = All (λ p. (0 < length p) × (length p + 4 ≤ max))

pub frames-wires :
    (n max : ℕ) (ps : List (List ℕ))
    → max ≤ 2 ^ 32
    → AllFit max ps
    → length ps < n
    → frames n max (wires ps) ≡ (ps, none)
unfolding frames next_frame cut_on
frames-wires zero max ps w a h = absurd (omega arith)
frames-wires (suc n) max [] w a h = refl
frames-wires (suc n) max (p ∷ ps) w a h =
    ap (λ t. cut_on (frames n max) (next_frame max t))
      (append_assoc (put big_endian 4 (length p)) p (wires ps))
    ∙ ap (cut_on (frames n max)) (next_frame-frame max p (wires ps) a.0.0 a.0.1 w)
    ∙ rw (frames-wires n max ps w a.1 (omega arith)) refl
