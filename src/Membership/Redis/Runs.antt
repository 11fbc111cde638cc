-- ===== src/Membership/Redis/Runs.antt =====
-- The runs of a hash of members and a subscriber, and what they refine: a map from addresses to nodes.
use clustergo.Membership.{NodeInfo, MemberInfo, Json}
use clustergo.Membership.Node.{ReadsBack, IsOrdinary}
use clustergo.Membership.Redis.Script.{Key, MemberHash, get_members_script}
use clustergo.Membership.Redis.Subscribe.{Subscriber, get_members, put_member, remove_member}
use clustergo.Addr.{LogicAddr, string}
use clustergo.Common.{ℕ, ◌≡◌, List, [], ◌∷◌, Option, none, some, Outcome, ok, err, panic}
use clustergo.Common.Table.{Table, insert, delete, bytes_eq}

abbrev pub ver_of : Option ℕ → ℕ
ver_of none = 0
ver_of (some v) = v

pub data Event : Type 0 where
  updates : NodeInfo → Event
  removes : LogicAddr → Event
  fetches : Event

-- The specification: a map, that a fetch leaves alone.
abbrev pub spec_step : Event → Table Key NodeInfo → Table Key NodeInfo
spec_step (updates n) t = insert (string n.addr) n t
spec_step (removes a) t = delete (string a) t
spec_step fetches t = t

abbrev pub spec_all : List Event → Table Key NodeInfo → Table Key NodeInfo
spec_all [] t = t
spec_all (e ∷ es) t = spec_all es (spec_step e t)

-- The subscriber behind a call of `getMembers`.
abbrev pub fetched : Subscriber → Outcome (List ℕ) (Subscriber × Option MemberInfo) → Subscriber
fetched cli (ok p) = p.0
fetched cli (err e) = cli
fetched cli panic = cli

abbrev pub System : Type 0
System = MemberHash × Subscriber

abbrev pub empty_hash : MemberHash
empty_hash = record { version = none; members = [] }

module _ (json : Json) (resolve : List ℕ → Option (List ℕ)) where
  unfoldable pub fetch : MemberHash → Subscriber → Subscriber
  fetch s cli =
      fetched cli (get_members json resolve cli (ok (get_members_script cli.member_version s)))

  abbrev pub run_step : Event → System → System
  run_step (updates n) (s, cli) = (put_member json n s, cli)
  run_step (removes a) (s, cli) = (remove_member a s, cli)
  run_step fetches (s, cli) = (s, fetch s cli)

  abbrev pub run_all : List Event → System → System
  run_all [] x = x
  run_all (e ∷ es) x = run_all es (run_step e x)

  -- The nodes that are put in are read back.
  abbrev pub IsAllowed : Event → Type 0
  IsAllowed (updates n) =
      ReadsBack json n × (resolve n.net_addr ≡ some n.net_addr) × IsOrdinary n.addr
  IsAllowed (removes a) = Unit
  IsAllowed fetches = Unit
