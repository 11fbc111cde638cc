-- ===== src/Rpc/Client/Pending.antt =====
-- The table of pending calls: a call is taken out at most once, and other calls stay.
use clustergo.Rpc.Client.{Client, index_in, shard, store, load_and_delete}
use clustergo.Common.{
  ℕ, zero, suc, ◌%◌, ◌^◌, ◌≤◌, ◌<◌, ◌-◌, ◌≡◌, ◌≢◌, ◌↔◌, refl, ap, ◌∙◌, arith, false, Bool-cases,
  inl, inr, lt→ltb, Outcome, err, ◌>>=◌, List, [], ◌∷◌, Option, none, some, ltb, ◌==◌,
  if◌then◌else◌, ok, panic, length, get_or, set, length-set,
}
use clustergo.Common.Int.{neg, remainder, from_word}
use clustergo.Common.Table.{lookup, insert, delete, lookup-insert, lookup-delete, nat_eq}

-- What is found under a number, without taking it out.
abbrev pub pending : {C : Type 0} → Client C → ℕ → Option C
pending c seq = lookup seq (get_or c.pending_call (seq % 32) [])

get_or-set :
    {A : Type 0} (xs : List A) (i j : ℕ) (x d : A)
    → i < length xs
    → get_or (set xs i x) j d ≡ (if i == j then x else get_or xs j d)
get_or-set [] i j x d h = absurd (omega arith)
get_or-set (y ∷ xs) zero zero x d h = ground arith
get_or-set (y ∷ xs) zero (suc j) x d h = ground arith
get_or-set (y ∷ xs) (suc i) zero x d h = ground arith
get_or-set (y ∷ xs) (suc i) (suc j) x d h = ground (arith, get_or-set xs i j x d (omega (arith, h)))

shard_low : (seq : ℕ) → seq < 2 ^ 63 → shard seq ≡ ok (seq % 32)
unfolding shard index_in remainder from_word
shard_low seq small = rw (lt→ltb seq (2 ^ 63) small) (ground arith)

-- The two's complement of a number of 2^63 or more is negative, and so is its remainder, if it is not 0.
shard_high : (seq : ℕ) → 2 ^ 63 ≤ seq → shard seq ≡ index_in 32 (neg (suc (2 ^ 64 - 1 - seq) % 32))
unfolding shard remainder from_word
shard_high seq big = let high : ltb seq (2 ^ 63) ≡ false = ground (arith, big) in rw high refl

index_in-neg : (n : ℕ) → n ≢ 0 → index_in 32 (neg n) ≡ panic
unfolding index_in
index_in-neg zero ne = absurd (ne refl)
index_in-neg (suc n) ne = refl

index_in_zero : index_in 32 (neg 0) ≡ ok 0
unfolding index_in
index_in_zero = refl

shard-panic : (seq : ℕ) → seq < 2 ^ 64 → (shard seq ≡ panic) ↔ ((2 ^ 63 ≤ seq) × (seq % 32 ≢ 0))
shard-panic seq word = (fails, λ h. shard_high seq h.0 ∙ index_in-neg _ (odd h.0 h.1))
  where
    odd : 2 ^ 63 ≤ seq → seq % 32 ≢ 0 → suc (2 ^ 64 - 1 - seq) % 32 ≢ 0
    odd big ne e = omega (arith, big, ne, e, word)

    fails : shard seq ≡ panic → (2 ^ 63 ≤ seq) × (seq % 32 ≢ 0)
    fails e = elim (Bool-cases (ltb seq (2 ^ 63))) [
      | inl low ↦ cc (e, shard_low seq (ground (arith, low)))
      | inr high ↦
          let big : 2 ^ 63 ≤ seq = ground (arith, high) in
          (
            big,
            λ z.
                let even : suc (2 ^ 64 - 1 - seq) % 32 ≡ 0 = omega (arith, z, word, big) in
                cc (e, shard_high seq big, ap (λ n. index_in 32 (neg n)) even, index_in_zero),
          )
    ]

module _ {C : Type 0} where
  -- On a client with its 32 tables, a call that is stored under a number below 2^63 is found there
  -- by the first `LoadAndDelete` of the number and by no second one, and what is pending under any
  -- other number is the same before and after.
  load_and_delete-store :
      (c : Client C) (seq other : ℕ) (ctx : C)
      → length c.pending_call ≡ 32
      → seq < 2 ^ 63
      → seq ≢ other
      → (c1 c2 c3 : Client C) × (store c seq ctx ≡ ok c1)
        × (load_and_delete c1 seq ≡ ok (some ctx, c2))
        × (load_and_delete c2 seq ≡ ok (none, c3))
        × (pending c2 other ≡ pending c other)
  unfolding store load_and_delete
  load_and_delete-store c seq other ctx h small ne =
      let i = seq % 32 in
      let low = shard_low seq small in
      let inside : i < length c.pending_call = omega (arith, h) in
      let t1 = insert seq ctx (get_or c.pending_call i []) in
      let p1 = set c.pending_call i t1 in
      let p2 = set p1 i (delete seq t1) in
      let in1 : i < length p1 = omega (arith, inside, length-set c.pending_call i t1) in
      let in2 : i < length p2 = omega (arith, in1, length-set p1 i (delete seq t1)) in
      let at1 : get_or p1 i [] ≡ t1 = ground (arith, get_or-set c.pending_call i i t1 [] inside) in
      let at2 : get_or p2 i [] ≡ delete seq t1 =
        ground (arith, get_or-set p1 i i (delete seq t1) [] in1) in
      (
        record c { pending_call = p1 },
        record c { pending_call = p2 },
        record c { pending_call = set p2 i (delete seq (delete seq t1)) },
        rw low refl,
        rw (low, at1) (ap (λ o. ok (o, record c { pending_call = p2 })) found),
        rw (low, at2)
            (ap (λ o. ok (o, record c { pending_call = set p2 i (delete seq (delete seq t1)) }))
              gone),
        ground (
          arith,
          ne,
          at1,
          get_or-set p1 i (other % 32) (delete seq t1) [] in1,
          get_or-set c.pending_call i (other % 32) t1 [] inside,
          lookup-delete seq other t1,
          lookup-insert seq other ctx (get_or c.pending_call i []),
        ),
      )
    where
      found : lookup seq (insert seq ctx (get_or c.pending_call (seq % 32) [])) ≡ some ctx
      found = ground (arith, lookup-insert seq seq ctx (get_or c.pending_call (seq % 32) []))

      gone : lookup seq (delete seq (insert seq ctx (get_or c.pending_call (seq % 32) []))) ≡ none
      gone =
          ground
            (arith, lookup-delete seq seq (insert seq ctx (get_or c.pending_call (seq % 32) [])))

  -- Taking out the call of a 64-bit number, with which `OnMessage` of a response begins, panics exactly
  -- for the numbers of 2^63 or more that are no multiples of 32.
  pub load_and_delete-panic :
      (c : Client C) (seq : ℕ)
      → seq < 2 ^ 64
      → (load_and_delete c seq ≡ panic) ↔ ((2 ^ 63 ≤ seq) × (seq % 32 ≢ 0))
  unfolding load_and_delete
  load_and_delete-panic c seq word =
      let s = shard-panic seq word in (λ e. s.0 (of_bind _ (shard seq) e), λ h. rw (s.1 h) refl)
    where
      of_bind :
          {A : Type 0} (f : ℕ → A) (o : Outcome (Unit {0}) ℕ)
          → (o >>= λ i. ok (f i)) ≡ panic
          → o ≡ panic
      of_bind f (ok i) e = cc
      of_bind f (err x) e = cc
      of_bind f panic e = refl
