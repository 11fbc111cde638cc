-- ===== src/Rpc/Client.antt =====
-- rpc/client.go: sequence numbers and the table of pending calls. `C` stands for the contexts that
-- wait for a response. The clock's reading is an argument.
pub mod Sequence
pub mod Pending
pub mod Async
use clustergo.Common.{
  ℕ, zero, suc, ◌+◌, ◌-◌, ◌*◌, ◌%◌, ◌^◌, List, [], ◌∷◌, Option, none, some, ltb, ◌==◌,
  if◌then◌else◌, Outcome, ok, err, panic, ◌>>=◌, replicate, get_or, set,
}
use clustergo.Common.Int.{ℤ, pos, negsuc, remainder, from_word}
use clustergo.Common.Table.{Table, lookup, insert, delete, nat_eq}

pub record Client (C : Type 0) : Type 0 where
  pub next_sequence : ℕ
  pub timestamp : ℕ
  pub pending_call : List (Table ℕ C)

-- An array of `size` elements at an `int`: an index outside of it panics.
unfoldable pub index_in : ℕ → ℤ → Outcome (Unit {0}) ℕ
index_in size (pos i) = if ltb i size then ok i else panic
index_in size (negsuc i) = panic

-- `int(seq) % len(c.pendingCall)` as an index.
unfoldable pub shard : ℕ → Outcome (Unit {0}) ℕ
shard seq = index_in 32 (remainder (from_word 64 seq) 32)

module _ {C : Type 0} where
  abbrev pub new_client : Client C
  new_client = record { next_sequence = 0; timestamp = 0; pending_call = replicate 32 [] }

  -- `now` is `getTimeStamp`, a uint32.
  unfoldable pub make_sequence : ℕ → Client C → ℕ × Client C
  make_sequence now c =
      let c' : Client C =
        if ltb c.timestamp now
        then record c { timestamp = now; next_sequence = 1 }
        else record c { next_sequence = (c.next_sequence + 1) % 2 ^ 32 } in
      ((c'.timestamp * 2 ^ 32 + c'.next_sequence) % 2 ^ 64, c')

  -- `c.pending(seq).Store(seq, ctx)`
  unfoldable pub store : Client C → ℕ → C → Outcome (Unit {0}) (Client C)
  store c seq ctx = do
    i ← shard seq
    ok (record c {
      pending_call = set c.pending_call i (insert seq ctx (get_or c.pending_call i []));
    })

  -- `c.pending(seq).LoadAndDelete(seq)`, with which `OnMessage` begins.
  unfoldable pub load_and_delete : Client C → ℕ → Outcome (Unit {0}) (Option C × Client C)
  load_and_delete c seq = do
    i ← shard seq
    ok (
      lookup seq (get_or c.pending_call i []),
      record c { pending_call = set c.pending_call i (delete seq (get_or c.pending_call i [])) },
    )
