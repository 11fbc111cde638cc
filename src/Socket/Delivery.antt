-- ===== src/Socket/Delivery.antt =====
-- Two sockets and a codec at either end: what one node sends the other receives.
use mathlib.Core.Path.{subst}
use clustergo.Socket.{Arrival, Received, Handling, new_frame_reader, recv_all, window}
use clustergo.Socket.Send.{sends, done, new_sender, send_all}
use clustergo.Socket.Send.Order.{AppendsTo}
use clustergo.Socket.Send.Drained.{deliver, wires_of, send_all_drained}
use clustergo.Socket.Receive.{stream, ending, reads}
use clustergo.Socket.Loop.{
  frames, last_of, end_of, serve_all, recv_all-frames, wires, AllFit, frames-wires,
}
use clustergo.Socket.Unpack.{IsSound}
use clustergo.Ss.{
  SsCodec, Message, Sendable, message, encode, decode, decode_codec, is_target, decode_body,
  max_packet_size, DecodeError,
}
use clustergo.Ss.Frame.{packet, frame, length-packet, length-frame}
use clustergo.Ss.RoundTrip.{Travels}
use clustergo.Buffer.{BufferReader, reset}
use clustergo.Pb.{Proto}
use clustergo.Endian.{big_endian, put}
use clustergo.Common.{
  ℕ, suc, ◌+◌, Bool, false, Option, none, ◌≤◌, ◌<◌, ◌≡◌, refl, sym, ap, ◌∙◌, arith, List, [], ◌∷◌,
  ◌++◌, map, All, length, length-append, length-replicate, append_assoc, append-nil, ok,
}

-- A message to send, the flag and the body of its frame, and what it is to arrive as.
pub record Parcel (V : Type 0) (P : Type 0) : Type 0 where
  pub sent : Message V P
  pub flag : ℕ
  pub body : List ℕ
  pub arrives : Message V P

abbrev pub packet_of : {V P : Type 0} → Parcel V P → List ℕ
packet_of p = packet p.sent.to p.sent.from p.flag p.body

abbrev pub frame_of : {V P : Type 0} → Parcel V P → List ℕ
frame_of p = frame p.sent.to p.sent.from p.flag p.body

frame-wire :
    {V P : Type 0} (p : Parcel V P)
    → frame_of p ≡ put big_endian 4 (length (packet_of p)) ++ packet_of p
frame-wire p =
    ap (λ n. put big_endian 4 n ++ packet_of p)
      (sym (length-packet p.sent.to p.sent.from p.flag p.body))

-- The parcels of a queue, and the last of all.
abbrev pub parcels : {V P : Type 0} → List (Parcel V P × ℕ) → Parcel V P → List (Parcel V P)
parcels [] last = last ∷ []
parcels (p ∷ ps) last = p.0 ∷ parcels ps last

parcels-wires :
    {V P : Type 0} (ps : List (Parcel V P × ℕ)) (last : Parcel V P)
    → wires_of frame_of ps ++ frame_of last ≡ wires (map packet_of (parcels ps last))
parcels-wires [] last = frame-wire last ∙ sym (append-nil _)
parcels-wires (p ∷ ps) last =
    append_assoc (frame_of p.0) (wires_of frame_of ps) (frame_of last)
    ∙ ap (λ t. t ++ (wires_of frame_of ps ++ frame_of last)) (frame-wire p.0)
    ∙ ap (λ t. (put big_endian 4 (length (packet_of p.0)) ++ packet_of p.0) ++ t)
        (parcels-wires ps last)

reset-endian :
    (r r' : BufferReader) (b : ℕ) (bs : List ℕ)
    → r.endian ≡ r'.endian
    → reset r (b ∷ bs) ≡ reset r' (b ∷ bs)
unfolding reset
reset-endian r r' b bs e = ground (arith, e)

reset_keeps : (r : BufferReader) (bs : List ℕ) → (reset r bs).endian ≡ r.endian
unfolding reset
reset_keeps r bs = ground arith

module _ {V T P : Type 0} (proto : Proto T P) where
  abbrev pub Arrives : SsCodec V T → SsCodec V T → Parcel V P → Type 0
  Arrives ss rs p =
      (dst : List ℕ) → Travels proto ss rs dst p.flag p.body p.sent (ok (message p.arrives))

  decode_with :
      (ss : SsCodec V T) (r : BufferReader) (b : ℕ) (bs : List ℕ)
      → r.endian ≡ ss.reader.endian
      → decode {P = P} proto (record ss { reader = r }) (b ∷ bs) ≡ decode proto ss (b ∷ bs)
  unfolding decode is_target decode_body
  decode_with ss r b bs e = rw (reset-endian r ss.reader b bs e) refl

  -- `recvloop` of a socket with a node's codec, that is not closed before the connection ends.
  abbrev pub node_handling :
      (ℕ → Sendable V P → Option (List ℕ))
      → (ℕ → Bool)
      → Handling (SsCodec V T) (Sendable V P) DecodeError
  node_handling handle died = record {
    decode = decode proto;
    decoded = decode_codec;
    handle = handle;
    leaves = λ k. false;
    died = died;
  }

  -- The handler returns no error for a parcel, whatever came before.
  abbrev pub IsTaken : (ℕ → Sendable V P → Option (List ℕ)) → Parcel V P → Type 0
  IsTaken handle p = (k : ℕ) → handle k (message p.arrives) ≡ none

  abbrev pub arrived : List (Parcel V P) → List (Sendable V P)
  arrived ps = map (λ p. message p.arrives) ps

  module _ (handle : ℕ → Sendable V P → Option (List ℕ)) (died : ℕ → Bool) where
    -- What a codec decodes does not depend on what it has decoded before.
    serve_all-Arrives :
        (ss rs : SsCodec V T) (r : BufferReader) (k : ℕ) (ps : List (Parcel V P)) (last : Received)
        → r.endian ≡ rs.reader.endian
        → All (Arrives ss rs) ps
        → All (IsTaken handle) ps
        → serve_all (node_handling handle died) k (record rs { reader = r }) (map packet_of ps) last
          ≡ (arrived ps, end_of (node_handling handle died) (length ps + k) last)
    unfolding serve_all decode_codec
    serve_all-Arrives ss rs r k [] last e h t =
        let none_more : k ≡ length {A = Parcel V P} [] + k = omega arith in
        ap (λ n. ([], end_of (node_handling handle died) n last)) none_more
    serve_all-Arrives ss rs r k (p ∷ ps) last e (h, hs) (t, ts) =
        let found : decode {P = P} proto (record rs { reader = r }) (packet_of p)
            ≡ ok (message p.arrives) =
          decode_with rs r p.flag _ e ∙ (h []).2 in
        let later =
          serve_all-Arrives ss rs (reset r (packet_of p)) (suc k) ps last
            (reset_keeps r (packet_of p) ∙ e) hs ts in
        let shift : length ps + suc k ≡ suc (length ps) + k = omega arith in
        rw (found, t k, later, shift) refl

  parcel-AppendsTo :
      (ss rs : SsCodec V T) (p : Parcel V P)
      → Arrives ss rs p
      → (dst : List ℕ) → AppendsTo (λ b q. encode proto ss b (message q.sent)) frame_of dst p
  parcel-AppendsTo ss rs p h dst =
      (h dst).0
      ∙ ap (λ n. ok (dst ++ frame_of p, n)) (sym (length-frame p.sent.to p.sent.from p.flag p.body))

  parcels-AppendTo :
      (ss rs : SsCodec V T) (ps : List (Parcel V P × ℕ)) (last : Parcel V P)
      → All (Arrives ss rs) (parcels ps last)
      → All
          (λ p.
            (dst : List ℕ) → AppendsTo (λ b q. encode proto ss b (message q.sent)) frame_of dst p.0)
          ps
        × ((dst : List ℕ) → AppendsTo (λ b q. encode proto ss b (message q.sent)) frame_of dst last)
  parcels-AppendTo ss rs [] last (h, hs) = (tt, parcel-AppendsTo ss rs last h)
  parcels-AppendTo ss rs (p ∷ ps) last (h, hs) =
      let later = parcels-AppendTo ss rs ps last hs in
      ((parcel-AppendsTo ss rs p.0 h, later.0), later.1)

  parcels-AllFit :
      (ss rs : SsCodec V T) (ps : List (Parcel V P))
      → All (Arrives ss rs) ps
      → AllFit max_packet_size (map packet_of ps)
  parcels-AllFit ss rs [] h = tt
  parcels-AllFit ss rs (p ∷ ps) (h, hs) = (
    (
      omega (arith, length-packet p.sent.to p.sent.from p.flag p.body),
      omega (arith, (h []).1, length-packet p.sent.to p.sent.from p.flag p.body),
    ),
    parcels-AllFit ss rs ps hs,
  )

  parcels-length :
      (ps : List (Parcel V P)) → length (map packet_of ps) ≤ length (wires (map packet_of ps))
  parcels-length [] = omega arith
  parcels-length (p ∷ ps) = omega (
    arith,
    parcels-length ps,
    length-append (put big_endian 4 (length (packet_of p)) ++ packet_of p)
        (wires (map packet_of ps)),
    length-append (put big_endian 4 (length (packet_of p))) (packet_of p),
    length-packet p.sent.to p.sent.from p.flag p.body,
  )

window-new : (max : ℕ) → window (new_frame_reader max) ≡ []
unfolding window
window-new max = refl

pub new_frame_reader-IsSound : (max : ℕ) → IsSound (new_frame_reader max)
new_frame_reader-IsSound max = record {
  ordered = omega arith;
  inside = omega arith;
  head_fits = omega (arith, length-replicate {A = ℕ} 4096 0);
}

module _ {V T P : Type 0} (proto : Proto T P) where
  -- Messages that travel from `ss` to `rs`, the socket's sending loop with writes that succeed and
  -- nothing left in the queue behind the last of them, and a connection that hands out the written
  -- bytes, cut into reads in any way: the receiving loop at the other end, with fuel and rounds for them,
  -- a handler that returns no error for any of them and no close of the socket from its own side, decodes
  -- them all and calls the handler with each, in order and with nothing else, and ends only when the
  -- connection does.
  pub recv_all-send_all :
      (ss rs : SsCodec V T) (handle : ℕ → Sendable V P → Option (List ℕ)) (died : ℕ → Bool)
      (batch rounds fuel : ℕ) (ps : List (Parcel V P × ℕ)) (last : Parcel V P) (conn : List Arrival)
      → All (Arrives proto ss rs) (parcels ps last)
      → All (IsTaken proto handle) (parcels ps last)
      → stream conn
        ≡ (send_all batch
            (λ b q. encode proto ss b (message q.sent))
            new_sender
            (deliver ps ++ (sends last 0 done ∷ []))).written
      → reads conn < fuel
      → length (stream conn) < rounds
      → recv_all
          (node_handling proto handle died)
          rounds
          fuel
          0
          rs
          (new_frame_reader max_packet_size)
          conn
        ≡ (
          map (λ p. message p.arrives) (parcels ps last),
          end_of (node_handling proto handle died) (length (parcels ps last)) (ending conn),
        )
  recv_all-send_all ss rs handle died batch rounds fuel ps last conn h taken same enough more =
      let loop = node_handling proto handle died in
      let sent = parcels ps last in
      let packets = map packet_of sent in
      let (all_append, last_appends) = parcels-AppendTo proto ss rs ps last h in
      let whole : stream conn ≡ wires packets =
        same
        ∙ (send_all_drained batch (λ b q. encode proto ss b (message q.sent)) frame_of ps last
            all_append last_appends).0
        ∙ parcels-wires ps last in
      let fits = parcels-AllFit proto ss rs sent h in
      let few = parcels-length proto sent in
      let cut : frames rounds max_packet_size
            (window (new_frame_reader max_packet_size) ++ stream conn)
          ≡ (packets, none) =
        ap (frames rounds max_packet_size)
          (ap (λ t. t ++ stream conn) (window-new max_packet_size) ∙ whole)
        ∙ frames-wires rounds max_packet_size packets (omega arith) fits
            (omega (arith, few, ap length whole, more)) in
      let all_of_them : length sent + 0 ≡ length sent = omega arith in
      recv_all-frames loop rounds fuel 0 rs (new_frame_reader max_packet_size) conn
        (new_frame_reader-IsSound max_packet_size) enough
        (subst (λ t. length (t ++ stream conn) < rounds) (sym (window-new max_packet_size)) more)
      ∙ ap (λ t. serve_all loop 0 rs t.0 (last_of conn t.1)) cut
      ∙ serve_all-Arrives proto handle died ss rs rs.reader 0 sent (ending conn) refl h taken
      ∙ ap (λ t. (arrived proto sent, end_of loop t (ending conn))) all_of_them
