-- ===== src/Tests/Sockets.antt =====
-- socket/socket.go: two packets in three reads, a binary message of two bytes, and a write that fails.
use clustergo.Socket.{
  FrameReader, Arrival, bytes, failure, new_frame_reader, window, recv, recv_all, Handling,
}
use clustergo.Socket.Stream.{next_frame}
use clustergo.Socket.Receive.{stream, ending, Receives, recv-Receives}
use clustergo.Socket.Loop.{frames, serve_all, last_of, end_of, recv_all-frames}
use clustergo.Socket.Send.{sends, done, fell, new_sender, send_all, running}
use clustergo.Socket.Send.Order.{send_all_prefix}
use clustergo.Socket.Send.Drained.{deliver, wires_of, send_all_drained}
use clustergo.Socket.Delivery.{
  Parcel, Arrives, node_handling, frame_of, new_frame_reader-IsSound, recv_all-send_all,
}
use clustergo.Ss.{
  message, bytes as payload_bytes, encode, new_message, set_msg_type, bin_msg, max_packet_size,
}
use clustergo.Ss.Frame.{length-frame}
use clustergo.Ss.RoundTrip.{decode-encode_bytes}
use clustergo.Endian.{big_endian, put, value}
use clustergo.Rpc.Bytes.{Fault}
use clustergo.Tests.Frames.{sender, receiver, receives}
use clustergo.Tests.Registries.{notes, Note}
use clustergo.Common.{
  ℕ, ◌≡◌, refl, sym, ap, ◌∙◌, arith, List, [], ◌∷◌, ◌++◌, false, none, some, suc, length, ltb, ◌==◌,
  if◌then◌else◌, ok, err, Outcome, take, drop, take-append-drop, append-nil,
}

abbrev reader : FrameReader
reader = new_frame_reader 4096

abbrev conn : List Arrival
conn =
    bytes (0 ∷ 0 ∷ 0 ∷ 2 ∷ 7 ∷ [])
    ∷ bytes (8 ∷ 0 ∷ 0 ∷ [])
    ∷ bytes (0 ∷ 1 ∷ 9 ∷ [])
    ∷ failure []
    ∷ []

recv-Receives_example :
    Receives 4096 conn (next_frame 4096 (window reader ++ stream conn)) (recv 20 reader conn)
recv-Receives_example = recv-Receives 20 reader conn (new_frame_reader-IsSound 4096) (omega arith)

-- The bytes of a packet, as long as there are no three of them; the handler refuses the 9.
abbrev small_packets : Handling ℕ (List ℕ) ℕ
small_packets = record {
  decode = λ s p. if ltb 2 (length p) then err 3 else ok p;
  decoded = λ s p. suc s;
  handle = λ k p. if value big_endian p == 9 then some [] else none;
  leaves = λ k. false;
  died = λ k. false;
}

recv_all-frames_example :
    recv_all small_packets 20 20 0 0 reader conn
    ≡ serve_all small_packets 0 0
        (frames 20 4096 (window reader ++ stream conn)).0
        (last_of conn (frames 20 4096 (window reader ++ stream conn)).1)
unfolding window
recv_all-frames_example =
    recv_all-frames small_packets 20 20 0 0 reader conn (new_frame_reader-IsSound 4096)
      (omega arith) (omega arith)

-- An `Encode` that appends a byte as a frame.
abbrev byte_frame : ℕ → List ℕ
byte_frame b = 0 ∷ 0 ∷ 0 ∷ 1 ∷ b ∷ []

abbrev encode_byte : List ℕ → ℕ → Outcome Fault (List ℕ × ℕ)
encode_byte dst b = ok (dst ++ byte_frame b, 5)

send_all_prefix_example :
    (rest : List ℕ) × ((send_all 6 encode_byte new_sender
          (sends 7 1 done ∷ sends 8 0 (fell 7 []) ∷ sends 9 0 done ∷ [])).written
        ++ rest
      ≡ byte_frame 7 ++ (byte_frame 8 ++ (byte_frame 9 ++ [])))
send_all_prefix_example =
    send_all_prefix 6 encode_byte byte_frame
      (sends 7 1 done ∷ sends 8 0 (fell 7 []) ∷ sends 9 0 done ∷ [])
      (λ dst. refl, (λ dst. refl, (λ dst. refl, tt)))

send_all_drained_example :
    ((send_all 100 encode_byte new_sender (deliver ((7, 1) ∷ []) ++ (sends 8 0 done ∷ []))).written
      ≡ wires_of byte_frame ((7, 1) ∷ []) ++ byte_frame 8)
    × ((send_all 100 encode_byte new_sender (deliver ((7, 1) ∷ []) ++ (sends 8 0 done ∷ []))).buf
        ≡ [])
    × ((send_all 100 encode_byte new_sender (deliver ((7, 1) ∷ []) ++ (sends 8 0 done ∷ []))).state
        ≡ running)
send_all_drained_example =
    send_all_drained 100 encode_byte byte_frame ((7, 1) ∷ []) 8 (λ dst. refl, tt) (λ dst. refl)

-- A binary message from node 1.2.3 to node 1.2.4, cut behind its fifth byte.
abbrev parcel : Parcel ℕ Note
parcel = record {
  sent = new_message 264196 264195 (payload_bytes (1 ∷ 2 ∷ [])) 77;
  flag = set_msg_type 0 bin_msg;
  body = put big_endian 2 77 ++ (1 ∷ 2 ∷ []);
  arrives = new_message 264196 264195 (payload_bytes (1 ∷ 2 ∷ [])) 77;
}

parcel-Arrives : Arrives notes sender receiver parcel
parcel-Arrives dst =
    decode-encode_bytes notes sender receiver dst (1 ∷ 2 ∷ []) 264196 264195 77 receives
      (ground arith) (omega arith) (omega arith)

abbrev halves : List Arrival
halves = bytes (take 5 (frame_of parcel)) ∷ bytes (drop 5 (frame_of parcel)) ∷ []

halves-written :
    stream halves
    ≡ (send_all 65535
        (λ b q. encode notes sender b (message q.sent))
        new_sender
        (deliver [] ++ (sends parcel 0 done ∷ []))).written
halves-written =
    ap (λ t. take 5 (frame_of parcel) ++ t) (append-nil (drop 5 (frame_of parcel)))
    ∙ take-append-drop 5 (frame_of parcel)
    ∙ sym
        (send_all_drained 65535 (λ b q. encode notes sender b (message q.sent)) frame_of [] parcel
          tt
          (λ dst.
            (parcel-Arrives dst).0
            ∙ ap (λ n. ok (dst ++ frame_of parcel, n))
                (sym (length-frame 264196 264195 parcel.flag parcel.body)))).0

recv_all-send_all_example :
    recv_all
      (node_handling {V = ℕ} notes (λ k o. none) (λ k. false))
      100
      100
      0
      receiver
      (new_frame_reader max_packet_size)
      halves
    ≡ (
      message parcel.arrives ∷ [],
      end_of (node_handling {V = ℕ} notes (λ k o. none) (λ k. false)) 1 (ending halves),
    )
unfolding put
recv_all-send_all_example =
    recv_all-send_all notes sender receiver (λ k o. none) (λ k. false) 65535 100 100 [] parcel
      halves (parcel-Arrives, tt) (λ k. refl, tt) halves-written (omega arith) (omega arith)
