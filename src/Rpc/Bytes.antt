-- ===== src/Rpc/Bytes.antt =====
-- rpc/bytes.go: writing and reading length-prefixed fields, all big-endian.
pub mod Laws
use clustergo.Common.{
  ℕ, zero, suc, ◌+◌, ◌-◌, ◌%◌, ◌^◌, ◌<◌, Bool, true, false, List, [], ◌∷◌, ◌++◌, ltb, ◌==◌,
  if◌then◌else◌, Outcome, ok, err, panic, length, take, drop,
}
use clustergo.Endian.{big_endian, put, value}

-- The error values of the package's own code, and a codec's error with its text.
pub data Fault : Type 0 where
  not_enough_data no_codec type_mismatch : Fault
  codec_failed : List ℕ → Fault

unfoldable pub write_byte : List ℕ → ℕ → List ℕ
write_byte b v = b ++ (v ∷ [])

unfoldable pub write_bool : List ℕ → Bool → List ℕ
unfolding write_byte
write_bool b v = if v then write_byte b 1 else write_byte b 0

unfoldable pub write_uint16 : List ℕ → ℕ → List ℕ
write_uint16 b v = b ++ put big_endian 2 v

unfoldable pub write_uint32 : List ℕ → ℕ → List ℕ
write_uint32 b v = b ++ put big_endian 4 v

unfoldable pub write_uint64 : List ℕ → ℕ → List ℕ
write_uint64 b v = b ++ put big_endian 8 v

-- `uint16(size)` keeps 16 bits of a size that may be 65536.
unfoldable pub write_bytes : List ℕ → List ℕ → List ℕ
unfolding write_uint16
write_bytes b v =
    let size = if ltb 65536 (length v) then 65536 else length v in
    let b' = write_uint16 b (size % 2 ^ 16) in if ltb 0 (length v) then b' ++ take size v else b'

abbrev pub write_string : List ℕ → List ℕ → List ℕ
write_string = write_bytes

-- A read returns a value or an error, and the bytes that are left.
abbrev pub Reading : Type 0 → Type 0
Reading A = List ℕ → Outcome Fault A × List ℕ

abbrev pub return : {A : Type 0} → A → Reading A
return a s = (ok a, s)

abbrev pub after : {A B : Type 0} → (A → Reading B) → Outcome Fault A → Reading B
after f (ok a) s = f a s
after f (err e) s = (err e, s)
after f panic s = (panic, s)

infixl 5 ◌>>=◌
abbrev pub ◌>>=◌ : {A B : Type 0} → Reading A → (A → Reading B) → Reading B
◌>>=◌ m f s = after f (m s).0 (m s).1

-- `br.B[0]` and what is left behind it.
unfoldable pub cut_first : Reading ℕ
cut_first [] = (panic, [])
cut_first (v ∷ b) = (ok v, b)

-- `n` bytes off the front: `BigEndian` or `br.B[:n]`, and `br.B[n:len(br.B)]`, which panics where there
-- are fewer.
unfoldable pub cut : ℕ → Reading (List ℕ)
cut n b = if ltb (length b) n then (panic, b) else (ok (take n b), drop n b)

unfoldable pub read_byte : Reading ℕ
read_byte b = if ltb (length b) 1 then (err not_enough_data, b) else cut_first b

unfoldable pub read_bool : Reading Bool
read_bool = do b ← read_byte; return (b == 1)

-- The common body of `ReadUint16/32/64`, at a width of `w` bytes.
unfoldable pub read_uint : ℕ → Reading ℕ
read_uint w b =
    if ltb (length b) w
    then (err not_enough_data, b)
    else (do front ← cut w; return (value big_endian front)) b

abbrev pub read_uint16 : Reading ℕ
read_uint16 = read_uint 2

abbrev pub read_uint32 : Reading ℕ
read_uint32 = read_uint 4

abbrev pub read_uint64 : Reading ℕ
read_uint64 = read_uint 8

-- The body of `ReadBytes` behind the size.
unfoldable pub read_sized : ℕ → Reading (List ℕ)
read_sized size b =
    if ltb 0 size
    then (if ltb (length b) size then (err not_enough_data, b) else cut size b)
    else (ok [], b)

unfoldable pub read_bytes : Reading (List ℕ)
read_bytes = do size ← read_uint 2; read_sized size

abbrev pub read_string : Reading (List ℕ)
read_string = read_bytes
