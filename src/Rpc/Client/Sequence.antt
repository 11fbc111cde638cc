-- ===== src/Rpc/Client/Sequence.antt =====
-- Sequence numbers that a client hands out are increasing.
use clustergo.Rpc.Client.{Client, make_sequence}
use clustergo.Common.{
  ℕ, ◌+◌, ◌*◌, ◌^◌, ◌≤◌, ◌<◌, ◌≡◌, arith, List, [], ◌∷◌, ltb, length, Bool-cases, inl, inr,
}

-- The calls' numbers, in order, at the readings of the clock.
unfoldable pub make_sequences : {C : Type 0} → List ℕ → Client C → List ℕ
make_sequences [] c = []
make_sequences (now ∷ nows) c =
    (make_sequence now c).0 ∷ make_sequences nows (make_sequence now c).1

abbrev pub AllWords : List ℕ → Type 0
AllWords [] = Unit {0}
AllWords (x ∷ xs) = (x < 2 ^ 32) × AllWords xs

-- Each number is larger than the one before it, the first larger than `low`.
abbrev pub IsAbove : ℕ → List ℕ → Type 0
IsAbove low [] = Unit {0}
IsAbove low (x ∷ xs) = (low < x) × IsAbove x xs

module _ {C : Type 0} where
  abbrev pub last_sequence : Client C → ℕ
  last_sequence c = c.timestamp * 2 ^ 32 + c.next_sequence

  make_sequence-next :
      (now : ℕ) (c : Client C)
      → now < 2 ^ 32
      → c.timestamp < 2 ^ 32
      → c.next_sequence + 1 < 2 ^ 32
      → (last_sequence c < (make_sequence now c).0)
        × ((make_sequence now c).0 ≡ last_sequence (make_sequence now c).1)
        × ((make_sequence now c).1.timestamp < 2 ^ 32)
        × ((make_sequence now c).1.next_sequence ≤ c.next_sequence + 1)
  unfolding make_sequence
  make_sequence-next now c hn ht hs = elim (Bool-cases (ltb c.timestamp now)) [
    | inl later ↦ ground (arith, later, hn, ht, hs)
    | inr same ↦ ground (arith, same, hn, ht, hs)
  ]

  -- From a client whose counter is at `next_sequence`, and for any readings of the clock, also one
  -- that goes back: fewer than 2^32 - 1 - `next_sequence` calls get increasing numbers, all above the
  -- last one, so that no two pending calls share a number.
  pub make_sequences-IsAbove :
      (nows : List ℕ) (c : Client C)
      → AllWords nows
      → c.timestamp < 2 ^ 32
      → c.next_sequence + length nows < 2 ^ 32
      → IsAbove (last_sequence c) (make_sequences nows c)
  unfolding make_sequences
  make_sequences-IsAbove [] c h ht hs = tt
  make_sequences-IsAbove (now ∷ nows) c h ht hs =
      let (above, same, small, near) = make_sequence-next now c h.0 ht (omega (arith, hs)) in
      (
        above,
        rw same (
            make_sequences-IsAbove nows (make_sequence now c).1 h.1 small
              (omega (arith, hs, near))),
      )
