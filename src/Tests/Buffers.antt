-- ===== src/Tests/Buffers.antt =====
-- codec/buffer/buffer.go and rpc/bytes.go.
use clustergo.Endian.{big_endian, put}
use clustergo.Common.{
  ℕ, ◌≡◌, refl, arith, List, [], ◌∷◌, ◌++◌, ok, replicate, take, length, length-replicate,
}
use clustergo.Rpc.Bytes.{read_bytes, write_bytes}
use clustergo.Rpc.Bytes.Laws.{read_bytes-write_bytes_wraps}

written_be : put big_endian 4 0x01020304 ≡ 1 ∷ 2 ∷ 3 ∷ 4 ∷ []
unfolding put
written_be = refl

long_field : List ℕ
long_field = replicate 65536 1

long_field-length : length long_field ≡ 65536
unfolding long_field
long_field-length = length-replicate {A = ℕ} 65536 1

read_bytes-write_bytes_wraps_example :
    read_bytes (write_bytes [] long_field ++ (7 ∷ [])) ≡ (ok [], take 65536 long_field ++ (7 ∷ []))
read_bytes-write_bytes_wraps_example =
    read_bytes-write_bytes_wraps long_field (7 ∷ []) (omega (arith, long_field-length))
