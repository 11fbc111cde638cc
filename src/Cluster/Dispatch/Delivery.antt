-- ===== src/Cluster/Dispatch/Delivery.antt =====
-- A message that arrives runs the handler of its command.
use clustergo.Cluster.Dispatch.{
  MsgManager, handles_binary, register_binary, dispatch_binary, call_binary, on_message, on_payload,
  register,
}
use clustergo.Cluster.Cache.{NodeCache}
use clustergo.Cluster.Queue.{Instant}
use clustergo.Ss.{message, bytes, new_message}
use clustergo.Addr.{LogicAddr}
use clustergo.Common.{
  ℕ, ap, ◌∙◌, Option-cases, inl, inr, ◌≡◌, ◌≢◌, refl, arith, List, [], ◌∷◌, some, ok, panic,
}
use clustergo.Common.Table.{lookup, insert, lookup-insert, nat_eq, Table}

register_binary-ok :
    {H : Type 0} (m m' : MsgManager H) (cmd : ℕ) (h : H)
    → register_binary cmd (some h) m ≡ ok m'
    → m' ≡ record m { binary_msg_handlers = insert cmd (some h) m.binary_msg_handlers }
unfolding register_binary
register_binary-ok m m' cmd h e = elim (Option-cases (lookup cmd m.binary_msg_handlers)) [
  | inl new ↦ ground (arith, new, e)
  | inr (old, found) ↦ ground (arith, found, e)
]

lookup-insert_same : {B : Type 0} (k : ℕ) (v : B) (t : Table ℕ B) → lookup k (insert k v t) ≡ some v
lookup-insert_same k v t = ground (arith, lookup-insert k k v t)

lookup-insert_other :
    {B : Type 0} (k j : ℕ) (v : B) (t : Table ℕ B) → k ≢ j → lookup j (insert k v t) ≡ lookup j t
lookup-insert_other k j v t ne = ground (arith, ne, lookup-insert k j v t)

module _ {H V P : Type 0} where
  -- A handler that was registered for a command is the one that messages of that command run, with
  -- their source and their bytes; those of any other command run what they ran before; and a second
  -- registration of the command panics.
  pub on_message-register_binary :
      (self : LogicAddr) (c : NodeCache) (m m' : MsgManager H) (now : Instant)
      (cmd other to from : ℕ) (h : H) (b : List ℕ)
      → register_binary cmd (some h) m ≡ ok m'
      → cmd ≢ other
      → (on_message {V = V} {P = P} self c m' now (message (new_message to from (bytes b) cmd))
          ≡ handles_binary h from cmd b ∷ [])
        × (on_message {V = V} {P = P} self c m' now (message (new_message to from (bytes b) other))
            ≡ on_message self c m now (message (new_message to from (bytes b) other)))
        × (register_binary cmd (some h) m' ≡ panic)
  unfolding register_binary register on_message on_payload dispatch_binary
  on_message-register_binary self c m m' now cmd other to from h b e ne =
      let bound : lookup cmd m'.binary_msg_handlers ≡ some (some h) =
        ap (λ x. lookup cmd x.binary_msg_handlers) (register_binary-ok m m' cmd h e)
        ∙ lookup-insert_same cmd (some h) m.binary_msg_handlers in
      let kept : lookup other m'.binary_msg_handlers ≡ lookup other m.binary_msg_handlers =
        ap (λ x. lookup other x.binary_msg_handlers) (register_binary-ok m m' cmd h e)
        ∙ lookup-insert_other cmd other (some h) m.binary_msg_handlers ne in
      (
        ap (λ o. call_binary o from cmd b) bound,
        ap (λ o. call_binary o from other b) kept,
        rw (bound, register_binary) refl,
      )
