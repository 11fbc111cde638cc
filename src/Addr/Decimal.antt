-- ===== src/Addr/Decimal.antt =====
-- `%d` against `strconv.Atoi`, and `strings.Split` against joining by dots.
use clustergo.Addr.{decimal_loop, decimal, split, parse_digits, atoi}
use clustergo.Common.{
  ℕ, zero, suc, ◌+◌, ◌-◌, ◌*◌, ◌/◌, ◌%◌, ◌^◌, ◌≤◌, ◌<◌, ◌≡◌, refl, ap, ◌∙◌, arith, List, [], ◌∷◌,
  ◌++◌, some, All, All-append, inl, inr, ◌≢◌, ltb, Bool-cases,
}
use clustergo.Common.Int.{pos}

abbrev pub IsDigit : ℕ → Type 0
IsDigit c = (b'0' ≤ c) × (c ≤ b'9')

parse_digits-append :
    (xs ys : List ℕ) (acc k : ℕ)
    → parse_digits xs acc ≡ some k
    → parse_digits (xs ++ ys) acc ≡ parse_digits ys k
unfolding parse_digits
parse_digits-append [] ys acc k h = ground arith
parse_digits-append (x ∷ xs) ys acc k h =
    ground (arith, parse_digits-append xs ys (acc * 10 + (x - b'0')) k)

parse_digits-one : (d acc : ℕ) → d < 10 → parse_digits ((b'0' + d) ∷ []) acc ≡ some (acc * 10 + d)
unfolding parse_digits
parse_digits-one d acc h = ground arith

-- What `%d` writes reads back, with a bound on the rounds.
parse_digits-decimal_loop : (f n : ℕ) → n < f → parse_digits (decimal_loop f n) 0 ≡ some n
unfolding decimal_loop
parse_digits-decimal_loop zero n h = absurd (omega arith)
parse_digits-decimal_loop (suc f) n h = elim (Bool-cases (ltb n 10)) [
  | inl small ↦ rw small (parse_digits-one n 0 (ground arith) ∙ ap some (omega arith))
  | inr large ↦ rw large (
      parse_digits-append (decimal_loop f (n / 10)) _ 0 (n / 10)
        (parse_digits-decimal_loop f (n / 10) (ground arith))
      ∙ parse_digits-one (n % 10) (n / 10) (omega arith)
      ∙ ap some (omega arith))
]

decimal_loop-IsDigit : (f n : ℕ) → All IsDigit (decimal_loop f n)
unfolding decimal_loop
decimal_loop-IsDigit zero n = tt
decimal_loop-IsDigit (suc f) n = elim (Bool-cases (ltb n 10)) [
  | inl small ↦ rw small (ground arith)
  | inr large ↦ rw large (
      All-append IsDigit (decimal_loop f (n / 10)) _ (decimal_loop-IsDigit f (n / 10))
        (omega arith))
]

pub decimal-IsDigit : (n : ℕ) → All IsDigit (decimal n)
unfolding decimal
decimal-IsDigit n = decimal_loop-IsDigit (suc n) n

-- A number that starts with a digit has no sign, and takes the last branch of `Atoi`.
atoi_digits :
    (s : List ℕ) (n : ℕ)
    → All IsDigit s
    → s ≢ []
    → parse_digits s 0 ≡ some n
    → n < 2 ^ 63
    → atoi s ≡ some (pos n)
unfolding atoi
atoi_digits [] n d ne e h = absurd (ne refl)
atoi_digits (c ∷ s) n d ne e h = ground arith

parsed_nonempty : (s : List ℕ) (n : ℕ) → 0 < n → parse_digits s 0 ≡ some n → s ≢ []
unfolding parse_digits
parsed_nonempty [] n h e q = ground arith
parsed_nonempty (c ∷ s) n h e q = cc

decimal-ne-nil : (n : ℕ) → decimal n ≢ []
unfolding decimal decimal_loop
decimal-ne-nil zero e = cc
decimal-ne-nil (suc n) e =
    parsed_nonempty (decimal (suc n)) (suc n) (omega arith)
      (parse_digits-decimal_loop (suc (suc n)) (suc n) (omega arith)) e

-- `Atoi` reads back every int that `%d` writes.
pub atoi-decimal : (n : ℕ) → n < 2 ^ 63 → atoi (decimal n) ≡ some (pos n)
unfolding decimal
atoi-decimal n h =
    atoi_digits (decimal n) n (decimal-IsDigit n) (decimal-ne-nil n)
      (parse_digits-decimal_loop (suc n) n (omega arith)) h

-- A piece without a dot is split off whole.
pub split-last : (p : List ℕ) → All IsDigit p → split p ≡ p ∷ []
unfolding split
split-last [] d = refl
split-last (c ∷ p) d = ground (arith, split-last p d.1)

pub split-join : (p rest : List ℕ) → All IsDigit p → split (p ++ (b'.' ∷ rest)) ≡ p ∷ split rest
unfolding split
split-join [] rest d = refl
split-join (c ∷ p) rest d = ground (arith, split-join p rest d.1)
