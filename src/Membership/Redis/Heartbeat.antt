-- ===== src/Membership/Redis/Heartbeat.antt =====
-- membership/redis/script.go: how a node dies, and what its heartbeats do then.
use clustergo.Membership.Redis.Script.{
  Key, Alive, full, bare, AliveHash, prev_dead, refreshed, next_version, heartbeat, is_overdue,
  bury, bury_overdue, any_overdue, check_timeout,
}
use clustergo.Common.{
  ℕ, ◌+◌, ◌≡◌, refl, ◌∙◌, arith, true, false, [], ◌∷◌, none, some, if◌then◌else◌, Bool-cases, inl,
  inr, ◌⊎◌,
}
use clustergo.Common.Table.{Table, lookup, insert, bytes_eq, bytes_beq_iff, lookup-insert}

-- The value that was stored last is what is looked up.
pub lookup-insert_same :
    {V : Type 0} (k : Key) (v : V) (t : Table Key V) → lookup k (insert k v t) ≡ some v
lookup-insert_same k v t = lookup-insert k k v t ∙ rw ((bytes_beq_iff k k).1 refl) refl

module _ (s : AliveHash) (key : Key) where
  heartbeat-dead :
      (ver d now timeout : ℕ)
      → lookup key s.nodes ≡ some (full ver true d)
      → heartbeat now key timeout s
        ≡ (record s { nodes = insert key (bare ver (now + timeout)) s.nodes }, none)
  unfolding heartbeat prev_dead refreshed
  heartbeat-dead ver d now timeout h = rw h refl

  heartbeat-bare :
      (ver d v now timeout : ℕ)
      → s.version ≡ some v
      → lookup key s.nodes ≡ some (bare ver d)
      → heartbeat now key timeout s ≡ (
        record {
          version = some (v + 1);
          nodes = insert key (full (v + 1) false (now + timeout)) s.nodes;
        },
        some (v + 1),
      )
  unfolding heartbeat prev_dead refreshed next_version
  heartbeat-bare ver d v now timeout e h = rw (h, e) refl

-- The heartbeats of a node that is marked dead: the first is published to nobody and leaves the version
-- and a value in which no script finds a mark, so that the second brings the node back to life under a
-- new version.
pub heartbeat_dead_twice :
    (s : AliveHash) (key : Key) (ver d v now timeout now' timeout' : ℕ)
    → s.version ≡ some v
    → lookup key s.nodes ≡ some (full ver true d)
    → ((heartbeat now key timeout s).1 ≡ none)
      × ((heartbeat now key timeout s).0.version ≡ some v)
      × (lookup key (heartbeat now key timeout s).0.nodes ≡ some (bare ver (now + timeout)))
      × ((heartbeat now' key timeout' (heartbeat now key timeout s).0).1 ≡ some (v + 1))
      × (lookup key (heartbeat now' key timeout' (heartbeat now key timeout s).0).0.nodes
          ≡ some (full (v + 1) false (now' + timeout')))
heartbeat_dead_twice s key ver d v now timeout now' timeout' e h =
    let first = heartbeat-dead s key ver d now timeout h in
    let s' : AliveHash = record s { nodes = insert key (bare ver (now + timeout)) s.nodes } in
    let second =
      heartbeat-bare s' key ver (now + timeout) v now' timeout' e
        (lookup-insert_same key (bare ver (now + timeout)) s.nodes) in
    rw (first, second)
      (refl, e, lookup-insert_same key _ s.nodes, refl, lookup-insert_same key _ s'.nodes)

bury-lookup :
    (now ver : ℕ) (t : Table Key Alive) (k : Key) (a : Alive)
    → lookup k t ≡ some a
    → lookup k (bury_overdue now ver t) ≡ some (if is_overdue now a then bury ver a else a)
unfolding lookup bury_overdue
bury-lookup now ver [] k a h = cc
bury-lookup now ver ((j, b) ∷ t) k a h = ground (arith, bury-lookup now ver t k a)

none_overdue :
    (now : ℕ) (t : Table Key Alive) (k : Key) (a : Alive)
    → any_overdue now t ≡ false
    → lookup k t ≡ some a
    → is_overdue now a ≡ false
unfolding lookup any_overdue
none_overdue now [] k a e h = cc
none_overdue now ((j, b) ∷ t) k a e h = ground (arith, none_overdue now t k a)

-- The check for timeouts marks a node dead, under the next version, where its deadline has passed and
-- it is not dead, and leaves every other value; and where there is a node to mark it publishes that
-- version.
pub check_timeout-lookup :
    (now : ℕ) (s : AliveHash) (k : Key) (a : Alive)
    → lookup k s.nodes ≡ some a
    → (lookup k (check_timeout now s).0.nodes
        ≡ some (if is_overdue now a then bury (next_version s.version) a else a))
      × ((is_overdue now a ≡ false) ⊎ ((check_timeout now s).1 ≡ some (next_version s.version)))
unfolding check_timeout
check_timeout-lookup now s k a h = elim (Bool-cases (any_overdue now s.nodes)) [
  | inl some_dead ↦ rw some_dead (bury-lookup now (next_version s.version) s.nodes k a h, inr refl)
  | inr alive ↦ let calm = none_overdue now s.nodes k a alive h in rw (alive, calm) (h, inl refl)
]
