-- ===== src/Rpc/Client/Async/Counts.antt =====
-- rpc/client.go, `AsyncCall`: what is counted of a call, and the invariant on the counts.
use clustergo.Rpc.Client.Async.{
  Caller, requesting, accepted, refused, cleaning, gave_up, Timer, armed, firing, expiring, ended,
  Responder, idle, found, answering, answered, AsyncContext, stop,
}
use clustergo.Common.{
  ℕ, ◌+◌, ◌≤◌, ◌≡◌, refl, arith, Bool, true, false, not, ◌&&◌, List, [], ◌∷◌, ◌++◌, if◌then◌else◌,
  length, length-append,
}

abbrev pub bit : Bool → ℕ
bit true = 1
bit false = 0

-- The caller has won the compare-and-swap.
abbrev pub won : Caller → ℕ
won (gave_up b) = bit b
won requesting = 0
won accepted = 0
won refused = 0
won (cleaning b) = 0

-- Who has still to come to the compare-and-swap.
abbrev pub caller_work : Caller → ℕ
caller_work refused = 1
caller_work (cleaning b) = 1
caller_work requesting = 0
caller_work accepted = 0
caller_work (gave_up b) = 0

abbrev pub timer_work : Timer → ℕ
timer_work expiring = 1
timer_work armed = 0
timer_work firing = 0
timer_work ended = 0

abbrev pub responder_work : {V : Type 0} → Responder V → ℕ
responder_work idle = 0
responder_work (found a) = 1
responder_work (answering a b) = 1
responder_work answered = 0

-- Who may still put the context back.
abbrev pub caller_put : Caller → ℕ
caller_put (cleaning b) = bit b
caller_put requesting = 0
caller_put accepted = 0
caller_put refused = 0
caller_put (gave_up b) = 0

pub bit-not : (b : Bool) → bit b + bit (not b) ≡ 1
bit-not true = refl
bit-not false = refl

pub bit_le : (b : Bool) → bit b ≤ 1
bit_le true = omega arith
bit_le false = omega arith

pub bit_and_le : (b c : Bool) → bit (b && c) ≤ bit c
bit_and_le true c = omega arith
bit_and_le false c = omega arith

pub bit_and_le_left : (b c : Bool) → bit (b && c) ≤ bit b
bit_and_le_left true c = bit_le c
bit_and_le_left false c = omega arith

pub bit-&& : (b c : Bool) → bit b + bit c ≤ 1 + bit (b && c)
bit-&& true c = omega arith
bit-&& false c = omega (arith, bit_le c)

pub won_le : (c : Caller) → won c ≤ 1
won_le (gave_up b) = bit_le b
won_le requesting = omega arith
won_le accepted = omega arith
won_le refused = omega arith
won_le (cleaning b) = omega arith

pub more_if : (b : Bool) (n : ℕ) → (if b then n + 1 else n) ≡ n + bit b
more_if true n = refl
more_if false n = omega arith

pub longer_if :
    {A : Type 0} (b : Bool) (xs : List A) (x : A)
    → length (if b then xs ++ (x ∷ []) else xs) ≡ length xs + bit b
longer_if true xs x = omega (arith, length-append xs (x ∷ []))
longer_if false xs x = omega arith

pub stop_works : (t : Timer) → timer_work (stop t) ≡ timer_work t
unfolding stop
stop_works armed = refl
stop_works firing = refl
stop_works expiring = refl
stop_works ended = refl

module _ {V : Type 0} where
  -- What is left to do: the number is in the table, or someone has still to swap.
  abbrev pub work : AsyncContext V → ℕ
  work s =
      bit s.pending + (caller_work s.caller + (timer_work s.timer + responder_work s.responder))

  -- The swaps of `fired` that were won while the context was this call's, and one more by its caller.
  abbrev pub swaps : AsyncContext V → ℕ
  swaps s = length s.callbacks + (won s.caller + s.stolen)

  pub record Inv (s : AsyncContext V) : Type 0 where
    pub owned :
        bit s.pending
          + (caller_put s.caller + (timer_work s.timer + (responder_work s.responder + s.puts)))
        ≤ 1
    pub put_first : bit s.reused ≤ s.puts
    pub put_last : s.puts ≤ swaps s
    pub least : bit s.fired ≤ swaps s + bit s.reused
    pub most : swaps s ≤ bit s.fired + (bit s.reused + bit s.reused)
    pub shared : length s.callbacks + s.stolen ≤ 1
    pub seen : s.intercepted ≡ length s.callbacks + won s.caller
    pub going : 1 ≤ swaps s + work s

  pub if-Inv :
      (b : Bool) (x y : AsyncContext V)
      → (b ≡ true → Inv x)
      → (b ≡ false → Inv y)
      → Inv (if b then x else y)
  if-Inv true x y h k = h refl
  if-Inv false x y h k = k refl
