-- ===== src/Buffer.antt =====
-- codec/buffer/buffer.go: appending to and reading from byte buffers.
-- Go's `int` offsets and sizes do not overflow here; a size argument may be negative, so it is a ℤ.
pub mod Laws
use clustergo.Common.{
  ℕ, zero, suc, ◌+◌, ◌-◌, ◌*◌, ◌<◌, ◌≤◌, Bool, List, [], ◌∷◌, ◌++◌, ltb, leb, if◌then◌else◌,
  Outcome, ok, err, panic, ◌>>=◌, length, take, drop, get_or,
}
use clustergo.Common.Int.{ℤ, pos, negsuc, to_word, from_word}
use clustergo.Endian.{ByteOrder, put, value}

pub data BufferError : Type 0 where
  out_of_bounds : BufferError

pub record BufferWriter : Type 0 where
  pub endian : ByteOrder

abbrev pub new_writer : ByteOrder → BufferWriter
new_writer endian = record { endian = endian }

unfoldable pub append_byte : BufferWriter → List ℕ → ℕ → List ℕ
append_byte w bs v = bs ++ (v ∷ [])

unfoldable pub append_string : BufferWriter → List ℕ → List ℕ → List ℕ
append_string w bs s = bs ++ s

unfoldable pub append_bytes : BufferWriter → List ℕ → List ℕ → List ℕ
append_bytes w bs bytes = bs ++ bytes

-- The zeros appended at `mark` are overwritten whole by `PutUint16`, and so for the other widths.
unfoldable pub append_uint16 : BufferWriter → List ℕ → ℕ → List ℕ
append_uint16 w bs u16 = bs ++ put w.endian 2 u16

unfoldable pub append_uint32 : BufferWriter → List ℕ → ℕ → List ℕ
append_uint32 w bs u32 = bs ++ put w.endian 4 u32

unfoldable pub append_uint64 : BufferWriter → List ℕ → ℕ → List ℕ
append_uint64 w bs u64 = bs ++ put w.endian 8 u64

unfoldable pub append_int16 : BufferWriter → List ℕ → ℤ → List ℕ
append_int16 w bs i16 = append_uint16 w bs (to_word 16 i16)

unfoldable pub append_int32 : BufferWriter → List ℕ → ℤ → List ℕ
append_int32 w bs i32 = append_uint32 w bs (to_word 32 i32)

unfoldable pub append_int64 : BufferWriter → List ℕ → ℤ → List ℕ
append_int64 w bs i64 = append_uint64 w bs (to_word 64 i64)

-- The `int` is cut to 32 bits.
unfoldable pub append_int : BufferWriter → List ℕ → ℤ → List ℕ
append_int w bs i = append_uint32 w bs (to_word 32 i)

pub record BufferReader : Type 0 where
  pub bs : List ℕ
  pub offset : ℕ
  pub endian : ByteOrder

unfoldable pub new_reader : ByteOrder → List ℕ → BufferReader
new_reader endian b = record { bs = b; offset = 0; endian = endian }

-- An empty argument leaves the old bytes in place.
unfoldable pub reset : BufferReader → List ℕ → BufferReader
reset r b = if ltb 0 (length b) then record r { bs = b; offset = 0 } else record r { offset = 0 }

-- `r.bs[r.offset:]`
unfoldable pub get_all : BufferReader → Outcome BufferError (List ℕ)
get_all r = if leb r.offset (length r.bs) then ok (drop r.offset r.bs) else panic

unfoldable pub is_over : BufferReader → Bool
is_over r = leb (length r.bs) r.offset

unfoldable pub advance : BufferReader → ℕ → BufferReader
advance r n = record r { offset = r.offset + n }

-- The next `n` bytes.
unfoldable pub window : BufferReader → ℕ → List ℕ
window r n = take n (drop r.offset r.bs)

unfoldable pub get_byte : BufferReader → ℕ × BufferReader
unfolding advance
get_byte r =
    if ltb (length r.bs) (r.offset + 1) then (0, r) else (get_or r.bs r.offset 0, advance r 1)

unfoldable pub check_get_byte : BufferReader → Outcome BufferError (ℕ × BufferReader)
unfolding advance
check_get_byte r =
    if ltb (length r.bs) (r.offset + 1)
    then err out_of_bounds
    else ok (get_or r.bs r.offset 0, advance r 1)

-- The common body of `GetUint16/32/64`, at a width of `n` bytes, and of the `CheckGet` variants.
unfoldable pub get_uint : ℕ → BufferReader → ℕ × BufferReader
unfolding advance window
get_uint n r =
    if ltb (length r.bs) (r.offset + n) then (0, r) else (value r.endian (window r n), advance r n)

unfoldable pub check_get_uint : ℕ → BufferReader → Outcome BufferError (ℕ × BufferReader)
unfolding advance window
check_get_uint n r =
    if ltb (length r.bs) (r.offset + n)
    then err out_of_bounds
    else ok (value r.endian (window r n), advance r n)

abbrev pub get_uint16 : BufferReader → ℕ × BufferReader
get_uint16 = get_uint 2

abbrev pub get_uint32 : BufferReader → ℕ × BufferReader
get_uint32 = get_uint 4

abbrev pub get_uint64 : BufferReader → ℕ × BufferReader
get_uint64 = get_uint 8

abbrev pub check_get_uint16 : BufferReader → Outcome BufferError (ℕ × BufferReader)
check_get_uint16 = check_get_uint 2

abbrev pub check_get_uint32 : BufferReader → Outcome BufferError (ℕ × BufferReader)
check_get_uint32 = check_get_uint 4

abbrev pub check_get_uint64 : BufferReader → Outcome BufferError (ℕ × BufferReader)
check_get_uint64 = check_get_uint 8

-- `GetInt16/32/64` and their `CheckGet` variants, at a width of `n` bytes.
unfoldable pub get_int : ℕ → BufferReader → ℤ × BufferReader
get_int n r = let (u, r') = get_uint n r in (from_word (8 * n) u, r')

unfoldable pub check_get_int_n : ℕ → BufferReader → Outcome BufferError (ℤ × BufferReader)
check_get_int_n n r = do (u, r') ← check_get_uint n r; ok (from_word (8 * n) u, r')

-- `CheckGetInt`: `int(u)` of a uint32 is never negative.
unfoldable pub check_get_int : BufferReader → Outcome BufferError (ℤ × BufferReader)
check_get_int r = do (u, r') ← check_get_uint 4 r; ok (pos u, r')

-- `GetBytes`: what is left, if less is left than asked for. A negative size makes a bad slice.
unfoldable pub get_bytes : BufferReader → ℤ → Outcome BufferError (List ℕ × BufferReader)
unfolding advance window
get_bytes r (negsuc n) = panic
get_bytes r (pos size) =
    let n = if ltb (length r.bs - r.offset) size then length r.bs - r.offset else size in
    ok (window r n, advance r n)

unfoldable pub check_get_bytes : BufferReader → ℤ → Outcome BufferError (List ℕ × BufferReader)
unfolding advance window
check_get_bytes r (negsuc n) = panic
check_get_bytes r (pos size) =
    if ltb (length r.bs - r.offset) size
    then err out_of_bounds
    else ok (window r size, advance r size)

-- `string(b)` and the copy of `CopyBytes` are the same bytes.
abbrev pub get_string : BufferReader → ℤ → Outcome BufferError (List ℕ × BufferReader)
get_string = get_bytes

abbrev pub check_get_string : BufferReader → ℤ → Outcome BufferError (List ℕ × BufferReader)
check_get_string = check_get_bytes

abbrev pub copy_bytes : BufferReader → ℤ → Outcome BufferError (List ℕ × BufferReader)
copy_bytes = check_get_bytes
