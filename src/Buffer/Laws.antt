-- ===== src/Buffer/Laws.antt =====
-- The reader against the writer, and the reader's invariant.
use clustergo.Buffer.{
  BufferError, BufferReader, new_writer, append_uint32, append_int, reset, get_all, advance, window,
  get_byte, get_uint, check_get_uint, get_int, check_get_int, get_bytes, check_get_bytes,
}
use clustergo.Common.{
  ℕ, zero, suc, ◌+◌, ◌*◌, ◌^◌, ◌≤◌, ◌<◌, ◌≡◌, refl, arith, List, [], ◌∷◌, ◌++◌, length,
  length-append, drop, take-append_left, drop-append_left, append_assoc, Outcome, ok, err, panic,
  ◌≢◌, ◌↔◌, get_or,
}
use native.Mathlib.Nat.{pow-suc}
use native.Mathlib.Numerals.{towards_suc}
use clustergo.Common.Int.{ℤ, pos, negsuc, to_word, IsSigned, from_word-to_word, to_word-lt}
use clustergo.Endian.{ByteOrder, put, length-put, value-put}

-- The offset never passes the end.
abbrev pub IsValid : BufferReader → Type 0
IsValid r = r.offset ≤ length r.bs

-- A reader that stands behind `pre`, in front of `rest`.
abbrev pub at : ByteOrder → List ℕ → List ℕ → BufferReader
at o pre rest = record { bs = pre ++ rest; offset = length pre; endian = o }

drop_pre : (pre rest : List ℕ) → drop (length pre) (pre ++ rest) ≡ rest
drop_pre pre rest = drop-append_left (length pre) pre rest refl

window-at :
    (o : ByteOrder) (pre x rest : List ℕ) (n : ℕ)
    → length x ≡ n
    → window (at o pre (x ++ rest)) n ≡ x
unfolding window
window-at o pre x rest n e = rw (drop_pre pre (x ++ rest)) (take-append_left n x rest e)

advance-at :
    (o : ByteOrder) (pre x rest : List ℕ) (n : ℕ)
    → length x ≡ n
    → advance (at o pre (x ++ rest)) n ≡ at o (pre ++ x) rest
unfolding advance
advance-at o pre x rest n e = cc (append_assoc pre x rest, length-append pre x, e)

-- A number that was appended in a byte order and a width is read back there, by the plain and by
-- the checked read, and the reader stands behind it.
pub get_uint-put :
    (o : ByteOrder) (n v : ℕ) (pre rest : List ℕ)
    → v < 256 ^ n
    → (get_uint n (at o pre (put o n v ++ rest)) ≡ (v, at o (pre ++ put o n v) rest))
      × (check_get_uint n (at o pre (put o n v ++ rest)) ≡ ok (v, at o (pre ++ put o n v) rest))
unfolding get_uint check_get_uint
get_uint-put o n v pre rest h = ground (
  arith,
  window-at o pre (put o n v) rest n (length-put o n v),
  advance-at o pre (put o n v) rest n (length-put o n v),
  value-put o n v h,
  length-append pre (put o n v ++ rest),
  length-append (put o n v) rest,
  length-put o n v,
)

-- `GetAll` hands out what lies behind the offset.
pub get_all-at : (o : ByteOrder) (pre rest : List ℕ) → get_all (at o pre rest) ≡ ok rest
unfolding get_all
get_all-at o pre rest = ground (arith, length-append pre rest, drop_pre pre rest)

pub get_byte-at :
    (o : ByteOrder) (pre rest : List ℕ) (b : ℕ)
    → get_byte (at o pre (b ∷ rest)) ≡ (b, at o (pre ++ (b ∷ [])) rest)
unfolding get_byte
get_byte-at o pre rest b =
    ground (arith, length-append pre (b ∷ rest), nth pre, advance-at o pre (b ∷ []) rest 1 refl)
  where
    nth : (xs : List ℕ) → get_or (xs ++ (b ∷ rest)) (length xs) 0 ≡ b
    nth [] = refl
    nth (x ∷ xs) = nth xs

byte_bits : (k : ℕ) → 2 ^ (k + 8) ≡ 2 ^ k * 256
byte_bits k = simp towards_suc (omega arith)

pow_bits : (n : ℕ) → 256 ^ n ≡ 2 ^ (8 * n)
pow_bits zero = refl
pow_bits (suc n) =
    let e : 8 * suc n ≡ 8 * n + 8 = omega arith in
    rw e (omega (arith, pow-suc 256 n, byte_bits (8 * n), pow_bits n))

bytes_pow : (n v : ℕ) → v < 2 ^ (8 * n) → v < 256 ^ n
bytes_pow n v h = rw (pow_bits n) h

-- A signed number of 16, 32 or 64 bits comes back with its sign.
pub get_int-append_int :
    (o : ByteOrder) (n : ℕ) (z : ℤ) (pre rest : List ℕ)
    → 0 < n
    → IsSigned (8 * n) z
    → get_int n (at o pre (put o n (to_word (8 * n) z) ++ rest))
      ≡ (z, at o (pre ++ put o n (to_word (8 * n) z)) rest)
unfolding get_int
get_int-append_int o n z pre rest p h = ground (
  arith,
  (get_uint-put o n (to_word (8 * n) z) pre rest
      (bytes_pow n (to_word (8 * n) z) (to_word-lt (8 * n) z))).0,
  from_word-to_word (8 * n) z (omega arith) h,
)

-- A read that panics is not safe; one that gives a value leaves a valid reader.
abbrev pub Safely : Outcome BufferError (List ℕ × BufferReader) → Type 0
Safely (ok p) = IsValid p.1
Safely (err e) = Unit {0}
Safely panic = ⊥

-- From a reader whose offset is within its bytes, `GetByte`, the unsigned reads of any width, `GetBytes`,
-- `CheckGetBytes` and `Reset` leave the offset within the bytes, the two reads of bytes do not panic on
-- a size that is not negative, and `GetAll` does not panic.
pub reads-IsValid :
    (r : BufferReader) (b : List ℕ) (n size : ℕ)
    → IsValid r
    → IsValid (get_byte r).1
      × IsValid (get_uint n r).1
      × IsValid (reset r b)
      × Safely (get_bytes r (pos size))
      × Safely (check_get_bytes r (pos size))
      × (get_all r ≢ panic)
unfolding get_byte get_uint reset get_bytes check_get_bytes get_all
reads-IsValid r b n size h =
    (ground arith, ground arith, ground arith, ground arith, ground arith, ground arith)

-- `AppendInt` and `CheckGetInt` agree on an `int` exactly if it is between 0 and 2^32 - 1: a
-- negative one comes back as a large positive one.
pub check_get_int-append_int :
    (o : ByteOrder) (z : ℤ) (pre rest : List ℕ)
    → (check_get_int (at o pre (append_int (new_writer o) [] z ++ rest))
        ≡ ok (z, at o (pre ++ append_int (new_writer o) [] z) rest))
      ↔ ((n : ℕ) × (z ≡ pos n) × (n < 2 ^ 32))
unfolding check_get_int append_int append_uint32
check_get_int-append_int o z pre rest =
    (λ e. fits z (ground (arith, read, e)), λ p. ground (arith, read, back z p))
  where
    read :
        check_get_uint 4 (at o pre (put o 4 (to_word 32 z) ++ rest))
        ≡ ok (to_word 32 z, at o (pre ++ put o 4 (to_word 32 z)) rest)
    read = (get_uint-put o 4 (to_word 32 z) pre rest (to_word-lt 32 z)).1

    fits : (y : ℤ) → pos (to_word 32 y) ≡ y → (n : ℕ) × (y ≡ pos n) × (n < 2 ^ 32)
    fits (pos n) e = (n, refl, unfold to_word in ground arith)
    fits (negsuc n) e = cc

    back : (y : ℤ) → ((n : ℕ) × (y ≡ pos n) × (n < 2 ^ 32)) → pos (to_word 32 y) ≡ y
    back (pos m) (n, e, h) = unfold to_word in ground arith
    back (negsuc m) (n, e, h) = cc
