-- ===== src/Common/Bits.antt =====
-- Masks and shifts on words, as arithmetic: the native operations at variables.
use Prim.Native.Nat.{
  ℕ, zero, suc, ◌+◌, ◌*◌, ◌/◌, ◌%◌, ◌^◌, ◌≤◌, ◌<◌, min, max, digits, bit_and, bit_or,
  bit_and-bitwise, bit_or-bitwise,
}
use mathlib.Core.Path.{◌≡◌, refl, ap, subst}
use native.Mathlib.Omega.{arith}
use native.Mathlib.Nat.{pow-suc, one-le-pow, div-add-mod', mod-lt}

-- The count of digits to go is only a bound: any that reaches `a` gives the same number.
enough_digits :
    (z : ℕ → ℕ) (f : ℕ → ℕ → ℕ) (n m a b : ℕ) → a ≤ n → a ≤ m → digits z f n a b ≡ digits z f m a b
enough_digits z f zero zero zero b p q = refl
enough_digits z f zero (suc m) zero b p q = refl
enough_digits z f (suc n) zero zero b p q = refl
enough_digits z f (suc n) (suc m) zero b p q = refl
enough_digits z f zero m (suc a) b p q = absurd (omega arith)
enough_digits z f (suc n) zero (suc a) b p q = absurd (omega arith)
enough_digits z f (suc n) (suc m) (suc a) b p q =
    ap (λ t. t * 2 + f (suc a % 2) (b % 2))
      (enough_digits z f n m (suc a / 2) (b / 2) (omega arith) (omega arith))

-- One digit of `&` and of `|`.
and_digit : (a b : ℕ) → bit_and a b ≡ bit_and (a / 2) (b / 2) * 2 + min (a % 2) (b % 2)
and_digit zero b = omega (arith, bit_and-bitwise 0 b, bit_and-bitwise 0 (b / 2))
and_digit (suc a) b =
    rw (bit_and-bitwise (suc a) b, bit_and-bitwise (suc a / 2) (b / 2))
      (ap (λ t. t * 2 + min (suc a % 2) (b % 2))
        (enough_digits (λ _. 0) min a (suc a / 2) (suc a / 2) (b / 2) (omega arith) (omega arith)))

or_digit : (a b : ℕ) → bit_or a b ≡ bit_or (a / 2) (b / 2) * 2 + max (a % 2) (b % 2)
or_digit zero b = omega (arith, bit_or-bitwise 0 b, bit_or-bitwise 0 (b / 2))
or_digit (suc a) b =
    rw (bit_or-bitwise (suc a) b, bit_or-bitwise (suc a / 2) (b / 2))
      (ap (λ t. t * 2 + max (suc a % 2) (b % 2))
        (enough_digits (λ y. y) max a (suc a / 2) (suc a / 2) (b / 2) (omega arith) (omega arith)))

zero-and : (b : ℕ) → bit_and 0 b ≡ 0
zero-and b = bit_and-bitwise 0 b

pub zero-or : (b : ℕ) → bit_or 0 b ≡ b
zero-or b = bit_or-bitwise 0 b

and-zero_below : (n a : ℕ) → a ≤ n → bit_and a 0 ≡ 0
and-zero_below zero a h = let e : a ≡ 0 = omega arith in rw e (zero-and 0)
and-zero_below (suc n) zero h = zero-and 0
and-zero_below (suc n) (suc a) h =
    omega (arith, and_digit (suc a) 0, and-zero_below n (suc a / 2) (omega arith))

pub and-zero : (a : ℕ) → bit_and a 0 ≡ 0
and-zero a = and-zero_below a a (omega arith)

or-zero_below : (n a : ℕ) → a ≤ n → bit_or a 0 ≡ a
or-zero_below zero a h = let e : a ≡ 0 = omega arith in rw e (zero-or 0)
or-zero_below (suc n) zero h = zero-or 0
or-zero_below (suc n) (suc a) h =
    omega (arith, or_digit (suc a) 0, or-zero_below n (suc a / 2) (omega arith))

pub or-zero : (a : ℕ) → bit_or a 0 ≡ a
or-zero a = or-zero_below a a (omega arith)

-- A mask of `k` ones keeps the low field. `q` is what lies above it.
low_field : (k q r m : ℕ) → r < 2 ^ k → m + 1 ≡ 2 ^ k → bit_and (q * 2 ^ k + r) m ≡ r
low_field zero q r m h e =
    let e' : m ≡ 0 = omega arith in rw e' (omega (arith, and-zero (q * 2 ^ 0 + r)))
low_field (suc k) q r m h e = omega (
  arith,
  pow-suc 2 k,
  and_digit (q * 2 ^ suc k + r) m,
  ap (λ (t : ℕ). q * t) (pow-suc 2 k),
  ap (λ (t : ℕ). bit_and t (m / 2)) halved,
  low_field k q (r / 2) (m / 2) (omega (arith, pow-suc 2 k)) (omega (arith, pow-suc 2 k)),
)
  where
    halved : (q * 2 ^ suc k + r) / 2 ≡ q * 2 ^ k + r / 2
    halved = omega (arith, ap (λ (t : ℕ). q * t) (pow-suc 2 k))

-- A mask over a high field drops the low one.
high_field : (k q r m : ℕ) → r < 2 ^ k → bit_and (q * 2 ^ k + r) (m * 2 ^ k) ≡ bit_and q m * 2 ^ k
high_field zero q r m h =
    let a : q * 2 ^ 0 + r ≡ q = omega arith in
    let b : m * 2 ^ 0 ≡ m = omega arith in rw (a, b) (omega arith)
high_field (suc k) q r m h = omega (
  arith,
  and_digit (q * 2 ^ suc k + r) (m * 2 ^ suc k),
  ap (λ (t : ℕ). q * t) (pow-suc 2 k),
  ap (λ (t : ℕ). m * t) (pow-suc 2 k),
  ap (λ (t : ℕ). bit_and q m * t) (pow-suc 2 k),
  ap (λ (t : ℕ). bit_and t (m * 2 ^ suc k / 2)) halved,
  ap (λ (t : ℕ). bit_and (q * 2 ^ k + r / 2) t) halved_mask,
  high_field k q (r / 2) m (omega (arith, pow-suc 2 k)),
)
  where
    halved : (q * 2 ^ suc k + r) / 2 ≡ q * 2 ^ k + r / 2
    halved = omega (arith, ap (λ (t : ℕ). q * t) (pow-suc 2 k))

    halved_mask : m * 2 ^ suc k / 2 ≡ m * 2 ^ k
    halved_mask = omega (arith, ap (λ (t : ℕ). m * t) (pow-suc 2 k))

-- `x & (2^k - 1)` is the remainder.
pub and_low : (k x m : ℕ) → m + 1 ≡ 2 ^ k → bit_and x m ≡ x % 2 ^ k
and_low k x m e =
    subst (λ t. bit_and t m ≡ x % 2 ^ k) (div-add-mod' x (2 ^ k))
      (low_field k (x / 2 ^ k) (x % 2 ^ k) m (mod-lt x (one-le-pow k 2 (omega arith))) e)

-- `x & (m << k)` masks the quotient.
pub and_high : (k x m : ℕ) → bit_and x (m * 2 ^ k) ≡ bit_and (x / 2 ^ k) m * 2 ^ k
and_high k x m =
    subst (λ t. bit_and t (m * 2 ^ k) ≡ bit_and (x / 2 ^ k) m * 2 ^ k) (div-add-mod' x (2 ^ k))
      (high_field k (x / 2 ^ k) (x % 2 ^ k) m (mod-lt x (one-le-pow k 2 (omega arith))))

-- `|` of a low field and a shifted one is their sum.
pub or_fields : (k r q : ℕ) → r < 2 ^ k → bit_or r (q * 2 ^ k) ≡ q * 2 ^ k + r
or_fields zero r q h =
    let a : r ≡ 0 = omega arith in
    let b : q * 2 ^ 0 ≡ q = omega arith in rw (a, b) (omega (arith, zero-or q))
or_fields (suc k) r q h = omega (
  arith,
  or_digit r (q * 2 ^ suc k),
  ap (λ (t : ℕ). q * t) (pow-suc 2 k),
  ap (λ (t : ℕ). bit_or (r / 2) t) halved,
  or_fields k (r / 2) q (omega (arith, pow-suc 2 k)),
)
  where
    halved : q * 2 ^ suc k / 2 ≡ q * 2 ^ k
    halved = omega (arith, ap (λ (t : ℕ). q * t) (pow-suc 2 k))

pub or_fields' : (k r q : ℕ) → r < 2 ^ k → bit_or (q * 2 ^ k) r ≡ q * 2 ^ k + r
or_fields' zero r q h =
    let a : r ≡ 0 = omega arith in
    let b : q * 2 ^ 0 ≡ q = omega arith in rw (a, b) (omega (arith, or-zero q))
or_fields' (suc k) r q h = omega (
  arith,
  or_digit (q * 2 ^ suc k) r,
  ap (λ (t : ℕ). q * t) (pow-suc 2 k),
  ap (λ (t : ℕ). bit_or t (r / 2)) halved,
  or_fields' k (r / 2) q (omega (arith, pow-suc 2 k)),
)
  where
    halved : q * 2 ^ suc k / 2 ≡ q * 2 ^ k
    halved = omega (arith, ap (λ (t : ℕ). q * t) (pow-suc 2 k))
