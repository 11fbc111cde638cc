-- ===== src/Cluster/Send.antt =====
-- cluster.go and rpc.go: the calls by which a program sends.
use clustergo.Common.{
  ℕ, ◌+◌, ◌≡◌, ◌≢◌, refl, arith, Bool, true, false, ◌&&◌, ◌||◌, not, List, Option, none, some, ◌==◌,
  if◌then◌else◌,
}
use clustergo.Addr.{LogicAddr}
use clustergo.Cluster.Groups.{Pointer}
use clustergo.Cluster.Cache.{NodeCache}
use clustergo.Cluster.Route.{next_hop}
use clustergo.Cluster.Queue.{Instant, SendError}
use clustergo.Ss.{Message, bytes, proto_msg, new_message}

pub data ClusterError : Type 0 where
  server_die server_not_start invalid_node busy : ClusterError
  send_failed : SendError → ClusterError

-- The channels `started` and `die`, closed or not, and whether the queue of tasks has room.
pub record Side : Type 0 where
  pub self : LogicAddr
  pub cache : NodeCache
  pub started : Bool
  pub dead : Bool
  pub has_room : Bool

-- The `select` in front of every call; where both channels are closed it picks either, `die` if
-- `picks_die`.
unfoldable pub not_ready : Side → Bool → Option ClusterError
not_ready s picks_die =
    if s.dead && (picks_die || not s.started)
    then some server_die
    else if s.started
    then none
    else some server_not_start

-- `gopool.Go`: a task is queued or refused. A node that sends to itself queues a `dispatch_binary` or
-- `dispatch_proto` of the message, from its own address.
unfoldable pub go : Side → Option ClusterError
go s = if s.has_room then none else some busy

-- Where a call goes: to the node itself, through a node of the cache, or nowhere.
pub data Way : Type 0 where
  own : Way
  through : Pointer → Way
  nowhere : Way

unfoldable pub way : Side → LogicAddr → Way
way s to =
    if to == s.self
    then own
    else elim (next_hop s.self s.cache to) [ none ↦ nowhere | some p ↦ through p ]

-- `DefaultSendTimeout`, in the unit of instants; the calls' optional deadline overrides it.
unfoldable pub deadline_of : Instant → Instant → Option Instant → Instant
deadline_of timeout now none = now + timeout
deadline_of timeout now (some d) = d

module _ {V P : Type 0} (default_send_timeout : Instant)
    (send_message : Pointer → Message V P → Instant → Option SendError) where
  -- What `n.sendMessage` returns is dropped.
  drop_error : Option SendError → Option ClusterError
  drop_error e = none

  send_way : Side → Message V P → Instant → Way → Option ClusterError
  unfolding drop_error
  send_way s msg d own = go s
  send_way s msg d (through p) = drop_error (send_message p msg d)
  send_way s msg d nowhere = some invalid_node

  send_ready : Option ClusterError → Side → LogicAddr → Message V P → Instant → Option ClusterError
  unfolding send_way
  send_ready (some e) s to msg d = some e
  send_ready none s to msg d = send_way s msg d (way s to)

  unfoldable pub send_bin_message :
      Side → Bool → LogicAddr → ℕ → List ℕ → Instant → Option Instant → Option ClusterError
  unfolding send_ready
  send_bin_message s picks_die to cmd msg now deadline =
      send_ready (not_ready s picks_die) s to (new_message to s.self (bytes msg) cmd)
        (deadline_of default_send_timeout now deadline)

  unfoldable pub send_pb_message :
      Side → Bool → LogicAddr → P → Instant → Option Instant → Option ClusterError
  unfolding send_ready
  send_pb_message s picks_die to msg now deadline =
      send_ready (not_ready s picks_die) s to (new_message to s.self (proto_msg msg) 0)
        (deadline_of default_send_timeout now deadline)

  -- A node that has started and is not stopped, and a target that is not the node itself and has a
  -- hop: whatever `sendMessage` returns, a full queue as well, both calls return no error.
  pub send_message_error_dropped :
      (s : Side) (picks_die : Bool) (to : LogicAddr) (p : Pointer) (cmd : ℕ) (b : List ℕ) (msg : P)
      (now : Instant) (deadline : Option Instant)
      → s.started ≡ true
      → s.dead ≡ false
      → to ≢ s.self
      → next_hop s.self s.cache to ≡ some p
      → (send_bin_message s picks_die to cmd b now deadline ≡ none)
        × (send_pb_message s picks_die to msg now deadline ≡ none)
  unfolding send_bin_message send_pb_message not_ready way
  send_message_error_dropped s picks_die to p cmd b msg now deadline up alive away hop =
      let other : (to == s.self) ≡ false = ground arith in
      (rw (up, alive, other, hop) refl, rw (up, alive, other, hop) refl)
