-- ===== src/Rpc/Bytes/Laws.antt =====
-- Reading back what was written, and reads under added bytes.
use clustergo.Rpc.Bytes.{
  Fault, write_uint16, write_bytes, Reading, return, after, ◌>>=◌, read_byte, read_bool, read_uint,
  read_sized, read_bytes, cut, cut_first,
}
use clustergo.Common.{
  ℕ, ◌%◌, ◌^◌, ◌≤◌, ◌<◌, ◌≡◌, refl, sym, ap, arith, List, [], ◌∷◌, ◌++◌, ltb, ◌==◌, if◌then◌else◌,
  Outcome, ok, err, panic, length, length-append, take, take-append_left, drop-append_left,
  take-append_le, drop-append_le, append-nil, append_assoc, take_all, lt→ltb,
}
use clustergo.Endian.{big_endian, put, length-put, value-put}

-- What `WriteBytes` appends for a field whose size fits 16 bits.
abbrev pub field : List ℕ → List ℕ
field v = put big_endian 2 (length v) ++ v

pub write_bytes-field : (b v : List ℕ) → length v < 2 ^ 16 → write_bytes b v ≡ b ++ field v
unfolding write_bytes write_uint16
write_bytes-field b [] h = ap (◌++◌ b) (sym (append-nil (put big_endian 2 0)))
write_bytes-field b (x ∷ v) h =
    let e : length (x ∷ v) % 2 ^ 16 ≡ length (x ∷ v) = omega arith in
    ground (
      arith,
      e,
      take_all (length (x ∷ v)) (x ∷ v) (omega arith),
      append_assoc b (put big_endian 2 (length (x ∷ v))) (x ∷ v),
    )

pub read_uint-put :
    (w v : ℕ) (rest : List ℕ)
    → v < 256 ^ w
    → read_uint w (put big_endian w v ++ rest) ≡ (ok v, rest)
unfolding read_uint cut
read_uint-put w v rest h = ground (
  arith,
  length-append (put big_endian w v) rest,
  length-put big_endian w v,
  take-append_left w (put big_endian w v) rest,
  drop-append_left w (put big_endian w v) rest,
  value-put big_endian w v h,
)

read_sized-append : (v rest : List ℕ) → read_sized (length v) (v ++ rest) ≡ (ok v, rest)
unfolding read_sized cut
read_sized-append [] rest = refl
read_sized-append (x ∷ v) rest = ground (
  arith,
  length-append (x ∷ v) rest,
  take-append_left (length (x ∷ v)) (x ∷ v) rest refl,
  drop-append_left (length (x ∷ v)) (x ∷ v) rest refl,
)

pub read_bytes-field :
    (v rest : List ℕ) → length v < 2 ^ 16 → read_bytes (field v ++ rest) ≡ (ok v, rest)
unfolding read_bytes
read_bytes-field v rest h =
    rw (append_assoc (put big_endian 2 (length v)) v rest, read_uint-put 2 (length v) (v ++ rest) h)
      (read_sized-append v rest)

clipped : (n : ℕ) → 2 ^ 16 ≤ n → (if ltb 65536 n then 65536 else n) ≡ 65536
clipped n h = ground arith

write_bytes_wraps :
    (v : List ℕ) → 2 ^ 16 ≤ length v → write_bytes [] v ≡ put big_endian 2 0 ++ take 65536 v
unfolding write_bytes write_uint16
write_bytes_wraps v h = rw (clipped (length v) h, lt→ltb 0 (length v) (omega arith))

-- A field of 65536 bytes or more is written with size 0 in front of its first 65536 bytes: `ReadBytes`
-- returns nothing and leaves those bytes for whatever is read next.
pub read_bytes-write_bytes_wraps :
    (v rest : List ℕ)
    → 2 ^ 16 ≤ length v
    → read_bytes (write_bytes [] v ++ rest) ≡ (ok [], take 65536 v ++ rest)
unfolding read_bytes
read_bytes-write_bytes_wraps v rest h =
    rw
      (
        write_bytes_wraps v h,
        append_assoc (put big_endian 2 0) (take 65536 v) rest,
        read_uint-put 2 0 (take 65536 v ++ rest) (omega arith),
      )
      (unfold read_sized in refl)

-- A read that succeeds on some bytes does the same when more bytes stand behind them.
abbrev pub Extends : {A : Type 0} → Reading A → Type 0
Extends {A} m = (s t : List ℕ) (a : A) (r : List ℕ) → m s ≡ (ok a, r) → m (s ++ t) ≡ (ok a, r ++ t)

pub return-Extends : {A : Type 0} (a : A) → Extends (return a)
return-Extends a s t b r e = cc

pub >>=-Extends :
    {A B : Type 0} (m : Reading A) (f : A → Reading B)
    → Extends m
    → ((a : A) → Extends (f a))
    → Extends (m >>= f)
>>=-Extends {A} m f hm hf s t b r e = go (m s).0 (m s).1 refl e
  where
    go :
        (o : Outcome Fault A) (u : List ℕ)
        → m s ≡ (o, u)
        → after f o u ≡ (ok b, r)
        → after f (m (s ++ t)).0 (m (s ++ t)).1 ≡ (ok b, r ++ t)
    go (ok a) u p q = rw (hm s t a u p) (hf a u t b r q)
    go (err x) u p q = cc
    go panic u p q = cc

pub read_byte-cons : (v : ℕ) (b : List ℕ) → read_byte (v ∷ b) ≡ (ok v, b)
unfolding read_byte cut_first
read_byte-cons v b = ground arith

pub read_byte-Extends : Extends read_byte
unfolding read_byte cut_first
read_byte-Extends [] t a r e = ground (arith, e)
read_byte-Extends (x ∷ s) t a r e = ground (arith, e)

pub read_uint-Extends : (w : ℕ) → Extends (read_uint w)
unfolding read_uint cut
read_uint-Extends w s t a r e =
    ground (arith, length-append s t, take-append_le w s t, drop-append_le w s t)

read_sized-Extends : (w : ℕ) → Extends (read_sized w)
unfolding read_sized cut
read_sized-Extends w s t a r e =
    ground (arith, length-append s t, take-append_le w s t, drop-append_le w s t)

pub read_bool-Extends : Extends read_bool
unfolding read_bool
read_bool-Extends = >>=-Extends read_byte _ read_byte-Extends (λ b. return-Extends (b == 1))

pub read_bytes-Extends : Extends read_bytes
unfolding read_bytes
read_bytes-Extends = >>=-Extends (read_uint 2) _ (read_uint-Extends 2) read_sized-Extends
