-- ===== src/Socket.antt =====
-- socket/socket.go: the framing of a connection's bytes. A read hands out what has arrived, as far as
-- there is room, or fails; a failed `SetReadDeadline` is such a failure, and a read that fails has no
-- bytes, as those of a TCP connection. Where nothing has arrived the read waits.
pub mod Stream
pub mod Unpack
pub mod Receive
pub mod Loop
pub mod Send
pub mod Delivery
use clustergo.Common.{
  ℕ, zero, suc, ◌+◌, ◌-◌, Bool, true, false, ◌&&◌, ◌||◌, List, [], ◌∷◌, ◌++◌, Option, none, some,
  ltb, leb, ◌==◌, if◌then◌else◌, length, take, drop, replicate, Outcome, ok, err, panic,
}
use clustergo.Endian.{big_endian, value}

abbrev pub head_len : ℕ
head_len = 4

-- `conn_error` is an error of the connection, by its text.
pub data RecvError : Type 0 where
  zero_payload : RecvError
  packet_too_large : ℕ → RecvError
  conn_error : List ℕ → RecvError

pub record FrameReader : Type 0 where
  pub buf : List ℕ
  pub w : ℕ
  pub r : ℕ
  pub max_size : ℕ

-- The reader that `recvloop` begins with.
abbrev pub new_frame_reader : ℕ → FrameReader
new_frame_reader max_size = record { buf = replicate 4096 0; w = 0; r = 0; max_size = max_size }

-- `fr.buf[fr.r:fr.w]`
unfoldable pub window : FrameReader → List ℕ
window fr = take (fr.w - fr.r) (drop fr.r fr.buf)

-- The unread bytes move to the front of the buffer, or of a new one of `size` bytes.
unfoldable pub move_front : FrameReader → FrameReader
move_front fr = record fr { buf = window fr ++ drop (fr.w - fr.r) fr.buf; w = fr.w - fr.r; r = 0 }

unfoldable pub grow : ℕ → FrameReader → FrameReader
grow size fr = record fr {
  buf = window fr ++ drop (fr.w - fr.r) (replicate size 0);
  w = fr.w - fr.r;
  r = 0;
}

-- The part of `recv`'s loop in front of the read: a packet, an error, or a buffer to read into.
pub data Unpacked : Type 0 where
  complete : List ℕ → FrameReader → Unpacked
  broken : RecvError → Unpacked
  more : FrameReader → Unpacked

unfoldable pub take_packet : FrameReader → ℕ → Unpacked
take_packet fr payload =
    let r' = fr.r + head_len + payload in
    complete (take payload (drop (fr.r + head_len) fr.buf))
      (if r' == fr.w then record fr { w = 0; r = 0 } else record fr { r = r' })

unfoldable pub unpack : FrameReader → Unpacked
unpack fr =
    if leb head_len (fr.w - fr.r)
    then (let payload = value big_endian (take head_len (drop fr.r fr.buf)) in
        if payload == 0
        then broken zero_payload
        else if ltb fr.max_size (payload + head_len)
        then broken (packet_too_large (payload + head_len))
        else if leb (payload + head_len) (fr.w - fr.r)
        then take_packet fr payload
        else if ltb (length fr.buf) (payload + head_len)
        then more (grow (payload + head_len) fr)
        else if ltb 0 fr.r
        then more (move_front fr)
        else more fr)
    else if ltb 0 fr.r
    then more (move_front fr)
    else more fr

-- What the reads of a connection are to find, in order.
pub data Arrival : Type 0 where
  bytes : List ℕ → Arrival
  failure : List ℕ → Arrival

pub data Received : Type 0 where
  packet : List ℕ → Received
  failed : RecvError → Received
  waits : Received
  out_of_fuel : Received

-- `conn.Read(fr.buf[fr.w:])` of `bs`, the part of an arrival that fits.
unfoldable pub fill : FrameReader → List ℕ → FrameReader
fill fr bs = record fr {
  buf = take fr.w fr.buf ++ (bs ++ drop (fr.w + length bs) fr.buf);
  w = fr.w + length bs;
}

abbrev pub Reading : Type 0
Reading = Received × (FrameReader × List Arrival)

-- The rest of a round of `recv`'s loop; `again` is the next round. What does not fit into the buffer
-- stays with the connection.
unfoldable pub read_on :
    (FrameReader → List Arrival → Reading) → FrameReader → List Arrival → Unpacked → Reading
unfolding fill
read_on again fr conn (complete pkt fr') = (packet pkt, (fr', conn))
read_on again fr conn (broken e) = (failed e, (fr, conn))
read_on again fr [] (more fr') = (waits, (fr', []))
read_on again fr (failure e ∷ conn) (more fr') = (failed (conn_error e), (fr', conn))
read_on again fr (bytes bs ∷ conn) (more fr') =
    let room = length fr'.buf - fr'.w in
    if leb (length bs) room
    then again (fill fr' bs) conn
    else again (fill fr' (take room bs)) (bytes (drop room bs) ∷ conn)

-- `recv`, with at most as many rounds as there is fuel.
unfoldable pub recv : ℕ → FrameReader → List Arrival → Reading
recv zero fr conn = (out_of_fuel, (fr, conn))
recv (suc fuel) fr conn = read_on (recv fuel) fr conn (unpack fr)

-- How `recvloop` returns: at `die`, behind a read that failed, behind a packet that `Decode` refuses, or
-- behind one whose handler returns an error, by its text. A panic of `Decode` is none of the loop's own.
pub data Ended (E : Type 0) : Type 0 where
  left : Ended E
  closed : RecvError → Ended E
  undecodable : E → Ended E
  panicked : Ended E
  rejected : List ℕ → Ended E
  still_waits : Ended E
  short_of_fuel : Ended E

-- What the loop works with: `Decode` and the codec that it leaves, the packet handler, and whether `die`
-- is taken in front of a read and found closed behind one that failed. The numbers are those of the
-- packets handled before.
pub record Handling (S : Type 0) (O : Type 0) (E : Type 0) : Type 0 where
  pub decode : S → List ℕ → Outcome E O
  pub decoded : S → List ℕ → S
  pub handle : ℕ → O → Option (List ℕ)
  pub leaves : ℕ → Bool
  pub died : ℕ → Bool

module _ {S O E : Type 0} (h : Handling S O E) where
  -- Behind the handler; `rest` is what the loop does then.
  unfoldable pub hand_out : Option (List ℕ) → O → List O × Ended E → List O × Ended E
  hand_out (some e) o rest = (o ∷ [], rejected e)
  hand_out none o rest = (o ∷ rest.0, rest.1)

  unfoldable pub take_in : ℕ → Outcome E O → List O × Ended E → List O × Ended E
  take_in k (ok o) rest = hand_out (h.handle k o) o rest
  take_in k (err e) rest = ([], undecodable e)
  take_in k panic rest = ([], panicked)

  -- A round of `recvloop` with automatic receiving, from the read on.
  unfoldable pub go_on :
      (S → FrameReader → List Arrival → List O × Ended E) → ℕ → S → Reading → List O × Ended E
  go_on again k s (packet pkt, (fr, conn)) =
      take_in k (h.decode s pkt) (again (h.decoded s pkt) fr conn)
  go_on again k s (failed e, x) = ([], if h.died k then left else closed e)
  go_on again k s (waits, x) = ([], still_waits)
  go_on again k s (out_of_fuel, x) = ([], short_of_fuel)

  -- `recvloop`: what the handler is called with, in order, and how the loop ends.
  unfoldable pub recv_all : ℕ → ℕ → ℕ → S → FrameReader → List Arrival → List O × Ended E
  recv_all zero fuel k s fr conn = ([], short_of_fuel)
  recv_all (suc rounds) fuel k s fr conn =
      if h.leaves k
      then ([], left)
      else go_on (recv_all rounds fuel (suc k)) k s (recv fuel fr conn)
