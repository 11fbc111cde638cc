-- ===== src/Socket/Stream.antt =====
-- The reference for the framing: packets cut off the front of a stream of bytes.
use clustergo.Common.{
  ℕ, ◌+◌, ◌^◌, ◌≤◌, ◌<◌, ◌≡◌, ◌≢◌, refl, ap, ◌∙◌, arith, List, ◌++◌, ltb, ◌==◌, if◌then◌else◌,
  length, length-append, length-drop, take, drop, take-append_le, drop-append_le, take-append_left,
  drop-append_left, append_assoc,
}
use clustergo.Endian.{big_endian, put, value, length-put, value-put}
use clustergo.Socket.{RecvError, zero_payload, packet_too_large}

-- The next packet of a stream, with what follows it.
pub data Next : Type 0 where
  got : List ℕ → List ℕ → Next
  bad : RecvError → Next
  need : Next

unfoldable pub next_frame : ℕ → List ℕ → Next
next_frame max bs =
    let payload = value big_endian (take 4 bs) in
    if ltb (length bs) 4
    then need
    else if payload == 0
    then bad zero_payload
    else if ltb max (payload + 4)
    then bad (packet_too_large (payload + 4))
    else if ltb (length bs) (payload + 4)
    then need
    else got (take payload (drop 4 bs)) (drop (payload + 4) bs)

-- A packet or an error shows on a prefix already, and does not change when more arrives.
abbrev pub extended : Next → List ℕ → Next
extended (got p rest) more_bytes = got p (rest ++ more_bytes)
extended (bad e) more_bytes = bad e
extended need more_bytes = need

pub next_frame-append :
    (max : ℕ) (xs ys : List ℕ)
    → next_frame max xs ≢ need
    → next_frame max (xs ++ ys) ≡ extended (next_frame max xs) ys
unfolding next_frame
next_frame-append max xs ys h =
    let v = value big_endian (take 4 xs) in
    ground (
      arith,
      h,
      take-append_le 4 xs ys,
      drop-append_le 4 xs ys,
      take-append_le v (drop 4 xs) ys,
      drop-append_le (v + 4) xs ys,
      length-append xs ys,
      length-drop 4 xs,
    )

pub next_frame-frame :
    (max : ℕ) (p rest : List ℕ)
    → 0 < length p
    → length p + 4 ≤ max
    → max ≤ 2 ^ 32
    → next_frame max (put big_endian 4 (length p) ++ (p ++ rest)) ≡ got p rest
unfolding next_frame
next_frame-frame max p rest some_bytes fits word =
    let n = length p in
    let head = put big_endian 4 n in
    let size : length head ≡ 4 = length-put big_endian 4 n in
    let v : value big_endian (take 4 (head ++ (p ++ rest))) ≡ n =
      ap (value big_endian) (take-append_left 4 head (p ++ rest) size)
      ∙ value-put big_endian 4 n (omega (arith, fits, word)) in
    ground (
      arith,
      v,
      size,
      length-append head (p ++ rest),
      length-append p rest,
      drop-append_left 4 head (p ++ rest) size,
      take-append_left n p rest refl,
      drop-append_left (n + 4) (head ++ p) rest (omega (arith, size, length-append head p)),
      append_assoc head p rest,
    )

pub next_frame-shorter :
    (max : ℕ) (bs p rest : List ℕ) → next_frame max bs ≡ got p rest → length rest < length bs
unfolding next_frame
next_frame-shorter max bs p rest e =
    let v = value big_endian (take 4 bs) in
    let cut : drop (v + 4) bs ≡ rest = ground (arith, e) in
    ground (arith, e, ap length cut, length-drop (v + 4) bs)
