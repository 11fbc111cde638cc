-- ===== src/Cluster/Handshake.antt =====
-- node.go (`handshake`) and cluster.go (`onNewConnection`): how a node that dials makes itself known and
-- how it is taken in. Package `encoding/json` is a parameter, and so is the cipher; whether the reply
-- can be written and whether `smux` starts are arguments. What the connection hands out is its bytes; a
-- read that finds too few has failed. The mutex and the queue of the node are those of `accept`.
use clustergo.Common.{
  ℕ, ◌%◌, ◌^◌, ◌≤◌, ◌≡◌, refl, ◌∙◌, arith, Bool, true, false, not, List, [], ◌++◌, Option, none,
  some, ltb, if◌then◌else◌, length, take, drop, length-append, take-append_left, drop-append_left,
  append_assoc, Outcome, ok, err, panic, ◌>>=◌, ◌>>◌, or_fail, reject,
}
use clustergo.Common.Table.{lookup, nat_eq, bytes_beq, bytes_beq_iff}
use clustergo.Endian.{big_endian, put, value, length-put, value-put}
use clustergo.Crypto.{Cipher, CryptoError, aes_encrypt, aes_decrypt, nonce_size}
use clustergo.Addr.{LogicAddr}
use clustergo.Cluster.Groups.{Pointer}
use clustergo.Cluster.Queue.{
  Instant, Context, NodeQueue, SendError, Result, blocked, returned, on_establish, accept, drain,
}
use clustergo.Cluster.Cache.{NodeObject, NodeCache, get_node_by_logic_addr}

pub record Handshake : Type 0 where
  pub logic_addr : LogicAddr
  pub net_addr : List ℕ
  pub is_stream : Bool

-- `json.Marshal` and `json.Unmarshal` of a `Handshake`.
pub record HandshakeJson : Type 0 where
  pub marshal : Handshake → List ℕ
  pub unmarshal : List ℕ → Option Handshake

pub data HandshakeError : Type 0 where
  read_failed handshake_too_big json_failed invalid_node net_addr_mismatch panicked : HandshakeError
  stream_handler_missing write_failed smux_failed : HandshakeError
  refused : SendError → HandshakeError
  crypto_failed : CryptoError → HandshakeError

abbrev pub max_handshake_payload : ℕ
max_handshake_payload = 1024

unfoldable pub crypto_fault : {A : Type 0} → Outcome CryptoError A → Outcome HandshakeError A
crypto_fault (ok a) = ok a
crypto_fault (err e) = err (crypto_failed e)
crypto_fault panic = err panicked

-- `io.ReadFull`: the bytes, and the rest.
unfoldable pub read_full : ℕ → List ℕ → Outcome HandshakeError (List ℕ × List ℕ)
read_full n bs = if ltb (length bs) n then err read_failed else ok (take n bs, drop n bs)

-- What `onNewConnection` finds: whether `onNewStream` is set, whether the reply can be written and
-- `smux.Server` starts, the time, the contexts that are done, and the queues of the nodes.
pub record Site (M : Type 0) : Type 0 where
  pub has_stream_handler : Bool
  pub reply_written : Bool
  pub smux_starts : Bool
  pub now : Instant
  pub done : Context → Bool
  pub queues : Pointer → NodeQueue M

-- How a connection is taken in: as a stream session, as the connection of the node's queue, or the call
-- waits for the node's mutex.
pub data Connected (M : Type 0) : Type 0 where
  listens : Connected M
  joins : NodeQueue M → Connected M
  waits : Connected M

module _ {M : Type 0} where
  unfoldable pub accept_stream : Site M → Outcome HandshakeError (Connected M)
  accept_stream s = do
    reject (not s.has_stream_handler) stream_handler_missing
    reject (not s.reply_written) write_failed
    reject (not s.smux_starts) smux_failed
    ok listens

  -- The refusals stand in front of the reply, and `onEstablish` behind it.
  unfoldable pub reply_to : Bool → Result M → Outcome HandshakeError (Connected M)
  reply_to written blocked = ok waits
  reply_to written (returned n (some e)) = err (refused e)
  reply_to written (returned n none) = if written then ok (joins n) else err write_failed

  unfoldable pub welcome :
      Site M → LogicAddr → LogicAddr → Bool → NodeQueue M → Outcome HandshakeError (Connected M)
  welcome s self peer is_stream q =
      if is_stream
      then accept_stream s
      else reply_to s.reply_written (accept s.now s.done self peer q)

  -- A connection is welcome: for streams, where there is a handler and `smux` starts; else, where the
  -- node's mutex is free, nothing is queued for the node and it has no connection.
  abbrev pub IsWelcome : Site M → Bool → NodeQueue M → Type 0
  IsWelcome s true q =
      (s.has_stream_handler ≡ true) × (s.reply_written ≡ true) × (s.smux_starts ≡ true)
  IsWelcome s false q =
      (s.reply_written ≡ true) × (q.locked ≡ false) × (q.pending ≡ []) × (q.has_socket ≡ false)

  abbrev pub taken_in : Bool → NodeQueue M → Connected M
  taken_in true q = listens
  taken_in false q = joins (record q { has_socket = true; pending = [] })

  welcome-IsWelcome :
      (s : Site M) (self peer : LogicAddr) (is_stream : Bool) (q : NodeQueue M)
      → IsWelcome s is_stream q
      → welcome s self peer is_stream q ≡ ok (taken_in is_stream q)
  unfolding welcome accept_stream reply_to accept on_establish drain
  welcome-IsWelcome s self peer true q (set, written, starts) = rw (set, written, starts) refl
  welcome-IsWelcome s self peer false q (written, free, none_left, off) =
      rw (written, free, none_left, off) refl

module _ {B : Type 0} (cipher : Cipher B) (json : HandshakeJson) (secret_key : List ℕ) where
  -- What `handshake` writes, with the nonce that it draws.
  unfoldable pub handshake : Handshake → List ℕ → Outcome HandshakeError (List ℕ)
  handshake h nonce = do
    j ← crypto_fault (aes_encrypt cipher secret_key (json.marshal h) nonce)
    ok (put big_endian 4 (length j % 2 ^ 32) ++ j)

  -- A node of the cache has an object; the pointer of none is nil, whose field panics.
  unfoldable pub known_node : NodeCache → Handshake → Outcome HandshakeError (Pointer × NodeObject)
  known_node c h = do
    p ← or_fail (get_node_by_logic_addr c h.logic_addr) invalid_node
    n ← or_fail (lookup p c.objects) panicked
    reject (not (bytes_beq n.net_addr h.net_addr)) net_addr_mismatch
    ok (p, n)

  -- `onNewConnection`: the node that dials, and how its connection is taken in.
  unfoldable pub on_new_connection :
      {M : Type 0} → Site M → NodeCache → List ℕ → Outcome HandshakeError (Pointer × Connected M)
  on_new_connection s c conn = do
    head ← read_full 4 conn
    reject (ltb max_handshake_payload (value big_endian head.0)) handshake_too_big
    payload ← read_full (value big_endian head.0) head.1
    plain ← crypto_fault (aes_decrypt cipher secret_key payload.0)
    h ← or_fail (json.unmarshal plain) json_failed
    (p, n) ← known_node c h
    o ← welcome s c.local_addr n.addr h.is_stream (s.queues p)
    ok (p, o)

  known_node-accepts :
      (c : NodeCache) (h : Handshake) (p : Pointer) (n : NodeObject)
      → get_node_by_logic_addr c h.logic_addr ≡ some p
      → lookup p c.objects ≡ some n
      → n.net_addr ≡ h.net_addr
      → known_node c h ≡ ok (p, n)
  unfolding known_node
  known_node-accepts c h p n at_addr at_p same =
      let equal : bytes_beq n.net_addr h.net_addr ≡ true =
        (bytes_beq_iff n.net_addr h.net_addr).1 same in
      rw (at_addr, at_p, equal) refl

  -- Under a cipher whose `Open` undoes `Seal` and a JSON library that reads the handshake back, and with a
  -- shared key that the cipher accepts: what a node writes to make itself known, if it is sealed in at
  -- most 1024 bytes, is recognised, whatever bytes follow, by every node in whose cache the first has the
  -- address and the net address of the handshake. The connection is then taken in for the first node: as
  -- a stream session, if the handshake asks for one, a stream handler is set, the reply can be written
  -- and `smux` starts; and if it asks for none, as the connection of the first node's queue, where the
  -- reply can be written, nobody holds the node's mutex, nothing is queued and there is no connection.
  pub on_new_connection-handshake :
      {M : Type 0} (s : Site M) (c : NodeCache) (h : Handshake) (nonce rest : List ℕ) (block : B)
      (p : Pointer) (n : NodeObject)
      → cipher.new_cipher secret_key ≡ some block
      → ((v x : List ℕ) → cipher.open_sealed block v (cipher.seal block v x) ≡ some x)
      → length nonce ≡ nonce_size
      → json.unmarshal (json.marshal h) ≡ some h
      → length (nonce ++ cipher.seal block nonce (json.marshal h)) ≤ max_handshake_payload
      → get_node_by_logic_addr c h.logic_addr ≡ some p
      → lookup p c.objects ≡ some n
      → n.net_addr ≡ h.net_addr
      → IsWelcome s h.is_stream (s.queues p)
      → (sent : List ℕ) × (handshake h nonce ≡ ok sent)
        × (on_new_connection s c (sent ++ rest) ≡ ok (p, taken_in h.is_stream (s.queues p)))
  unfolding handshake on_new_connection read_full crypto_fault aes_encrypt aes_decrypt
  on_new_connection-handshake s c h nonce rest block p n accepted opens size back small at_addr at_p
        same open_door =
      let j = nonce ++ cipher.seal block nonce (json.marshal h) in
      let head = put big_endian 4 (length j % 2 ^ 32) in
      let four = length-put big_endian 4 (length j % 2 ^ 32) in
      let whole = append_assoc head j rest in
      let front = take-append_left 4 head (j ++ rest) four in
      let behind = drop-append_left 4 head (j ++ rest) four in
      let len : value big_endian head ≡ length j =
        value-put big_endian 4 (length j % 2 ^ 32) (omega arith) ∙ omega (arith, small) in
      let enough : ltb (length (head ++ (j ++ rest))) 4 ≡ false =
        ground (arith, four, length-append head (j ++ rest)) in
      let fits : ltb max_handshake_payload (length j) ≡ false = ground (arith, small) in
      let full : ltb (length (j ++ rest)) (length j) ≡ false =
        ground (arith, length-append j rest) in
      let payload = take-append_left (length j) j rest refl in
      let long : ltb (length j) nonce_size ≡ false =
        ground (arith, size, length-append nonce (cipher.seal block nonce (json.marshal h))) in
      let at_nonce =
        take-append_left nonce_size nonce (cipher.seal block nonce (json.marshal h)) size in
      let at_seal =
        drop-append_left nonce_size nonce (cipher.seal block nonce (json.marshal h)) size in
      (
        head ++ j,
        rw accepted refl,
        rw
            (
              whole,
              enough,
              front,
              behind,
              len,
              fits,
              full,
              payload,
              accepted,
              long,
              at_nonce,
              at_seal,
              opens nonce (json.marshal h),
              back,
            )
            (rw
              (
                known_node-accepts c h p n at_addr at_p same,
                welcome-IsWelcome s c.local_addr n.addr h.is_stream (s.queues p) open_door,
              )
              refl),
      )
