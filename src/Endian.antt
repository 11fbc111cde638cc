-- ===== src/Endian.antt =====
-- `encoding/binary`: the byte orders, as far as codec/buffer, rpc and codec/ss use them.
use clustergo.Common.{
  ℕ, zero, suc, ◌+◌, ◌*◌, ◌/◌, ◌%◌, ◌^◌, ◌<◌, ◌≡◌, refl, ap, ◌∙◌, arith, List, [], ◌∷◌, length,
  length-reverse, All, All-reverse,
}
use mathlib.Core.List.{reverse, reverse-reverse}
use native.Mathlib.Nat.{pow-suc}

abbrev pub IsByte : ℕ → Type 0
IsByte b = b < 256

-- The `w` low bytes of `v`, lowest first, and back.
unfoldable pub low_first : ℕ → ℕ → List ℕ
low_first zero v = []
low_first (suc w) v = (v % 256) ∷ low_first w (v / 256)

unfoldable pub low_first_value : List ℕ → ℕ
low_first_value [] = 0
low_first_value (b ∷ bs) = b + 256 * low_first_value bs

pub length-low_first : (w v : ℕ) → length (low_first w v) ≡ w
unfolding low_first
length-low_first zero v = refl
length-low_first (suc w) v = ap suc (length-low_first w (v / 256))

low_first-IsByte : (w v : ℕ) → All IsByte (low_first w v)
unfolding low_first
low_first-IsByte zero v = tt
low_first-IsByte (suc w) v = (omega arith, low_first-IsByte w (v / 256))

low_first_value-low_first : (w v : ℕ) → v < 256 ^ w → low_first_value (low_first w v) ≡ v
unfolding low_first low_first_value
low_first_value-low_first zero v h = omega arith
low_first_value-low_first (suc w) v h =
    let p = pow-suc 256 w in
    omega (arith, p, low_first_value-low_first w (v / 256) (omega (arith, p)))

low_first-low_first_value :
    (bs : List ℕ) → All IsByte bs → low_first (length bs) (low_first_value bs) ≡ bs
unfolding low_first low_first_value
low_first-low_first_value [] h = refl
low_first-low_first_value (b ∷ bs) h =
    let q : (b + 256 * low_first_value bs) / 256 ≡ low_first_value bs = omega arith in
    let r : (b + 256 * low_first_value bs) % 256 ≡ b = omega arith in
    rw (q, r) (ap (◌∷◌ b) (low_first-low_first_value bs h.1))

low_first_value-lt : (bs : List ℕ) → All IsByte bs → low_first_value bs < 256 ^ length bs
unfolding low_first_value
low_first_value-lt [] h = omega arith
low_first_value-lt (b ∷ bs) h = omega (arith, pow-suc 256 (length bs), low_first_value-lt bs h.1)

pub data ByteOrder : Type 0 where
  big_endian little_endian : ByteOrder

-- `PutUint16/32/64` into `w` fresh bytes, and `Uint16/32/64` of a slice of `w` bytes.
unfoldable pub put : ByteOrder → ℕ → ℕ → List ℕ
unfolding low_first
put big_endian w v = reverse (low_first w v)
put little_endian w v = low_first w v

unfoldable pub value : ByteOrder → List ℕ → ℕ
unfolding low_first_value
value big_endian bs = low_first_value (reverse bs)
value little_endian bs = low_first_value bs

pub length-put : (o : ByteOrder) (w v : ℕ) → length (put o w v) ≡ w
unfolding put
length-put big_endian w v = length-reverse (low_first w v) ∙ length-low_first w v
length-put little_endian w v = length-low_first w v

pub put-IsByte : (o : ByteOrder) (w v : ℕ) → All IsByte (put o w v)
unfolding put
put-IsByte big_endian w v = All-reverse IsByte (low_first w v) (low_first-IsByte w v)
put-IsByte little_endian w v = low_first-IsByte w v

pub value-put : (o : ByteOrder) (w v : ℕ) → v < 256 ^ w → value o (put o w v) ≡ v
unfolding put value
value-put big_endian w v h = rw reverse-reverse (low_first_value-low_first w v h)
value-put little_endian w v h = low_first_value-low_first w v h

pub put-value :
    (o : ByteOrder) (w : ℕ) (bs : List ℕ)
    → length bs ≡ w
    → All IsByte bs
    → put o w (value o bs) ≡ bs
unfolding put value
put-value big_endian w bs e h =
    rw (← e, ← length-reverse bs, low_first-low_first_value (reverse bs) (All-reverse IsByte bs h))
      (reverse-reverse bs)
put-value little_endian w bs e h = rw (← e) (low_first-low_first_value bs h)

pub value-lt : (o : ByteOrder) (bs : List ℕ) → All IsByte bs → value o bs < 256 ^ length bs
unfolding value
value-lt big_endian bs h =
    rw (length-reverse bs) at (low_first_value-lt (reverse bs) (All-reverse IsByte bs h))
value-lt little_endian bs h = low_first_value-lt bs h
