-- ===== src/Common/Int.antt =====
-- Go's signed `int` (64 bits) and its conversion to a uint32.
use clustergo.Common.{
  ℕ, zero, suc, ◌-◌, ◌*◌, ◌%◌, ◌^◌, ◌<◌, ◌≡◌, arith, Bool, true, false, ltb, if◌then◌else◌,
}
use native.Mathlib.Nat.{pow-suc, mod-eq_of_lt, mod-lt, one-le-pow}

-- `negsuc n` is -(n + 1).
pub data ℤ : Type 0 where
  pos : ℕ → ℤ
  negsuc : ℕ → ℤ

-- -n
abbrev pub neg : ℕ → ℤ
neg zero = pos zero
neg (suc n) = negsuc n

-- Go's `z % n`: the remainder has the sign of `z`.
unfoldable pub remainder : ℤ → ℕ → ℤ
remainder (pos a) n = pos (a % n)
remainder (negsuc a) n = neg (suc a % n)

-- `uint32(z)`: the low 32 bits in two's complement.
unfoldable pub to_u32 : ℤ → ℕ
to_u32 (pos n) = n % 2 ^ 32
to_u32 (negsuc n) = 2 ^ 32 - 1 - n % 2 ^ 32

pub to_u32-lt : (z : ℤ) → to_u32 z < 2 ^ 32
unfolding to_u32
to_u32-lt (pos n) = omega arith
to_u32-lt (negsuc n) = omega arith

abbrev pub is_zero : ℤ → Bool
is_zero (pos zero) = true
is_zero (pos (suc n)) = false
is_zero (negsuc n) = false

-- `uintW(z)` and `intW(u)` at a width of `w` bits.
unfoldable pub to_word : ℕ → ℤ → ℕ
to_word w (pos n) = n % 2 ^ w
to_word w (negsuc n) = 2 ^ w - 1 - n % 2 ^ w

unfoldable pub from_word : ℕ → ℕ → ℤ
from_word w u = if ltb u (2 ^ (w - 1)) then pos u else negsuc (2 ^ w - 1 - u)

-- The values of a signed integer of `w` bits.
abbrev pub IsSigned : ℕ → ℤ → Type 0
IsSigned w (pos n) = n < 2 ^ (w - 1)
IsSigned w (negsuc n) = n < 2 ^ (w - 1)

word_top : (w : ℕ) → 0 < w → 2 ^ w ≡ 2 ^ (w - 1) * 2
word_top zero h = absurd (omega arith)
word_top (suc w) h = let e : suc w - 1 ≡ w = omega arith in rw e (pow-suc 2 w)

-- A signed integer survives the way through its word.
pub from_word-to_word : (w : ℕ) (z : ℤ) → 0 < w → IsSigned w z → from_word w (to_word w z) ≡ z
unfolding to_word from_word
from_word-to_word w (pos n) p h =
    let e : n % 2 ^ w ≡ n = mod-eq_of_lt (omega (arith, word_top w p)) in
    rw e (ground (arith, word_top w p))
from_word-to_word w (negsuc n) p h =
    let e : n % 2 ^ w ≡ n = mod-eq_of_lt (omega (arith, word_top w p)) in
    rw e (ground (arith, word_top w p))

pub to_word-lt : (w : ℕ) (z : ℤ) → to_word w z < 2 ^ w
unfolding to_word
to_word-lt w (pos n) = mod-lt n (one-le-pow w 2 (omega arith))
to_word-lt w (negsuc n) = omega (arith, one-le-pow w 2 (omega arith))
