-- ===== src/Membership/Redis/Subscribe.antt =====
-- membership/redis/subscribe.go and admin.go: the subscriber's copy of the members and the live nodes. A
-- reply of redis is the rows of a script, or an error by its text.
use clustergo.Membership.{NodeInfo, MemberInfo, Json, marshal, unmarshal}
use clustergo.Membership.Redis.Script.{
  Key, insert_update, mark_delete, update_member, MemberHash, Reply, MemberRow, AliveRow,
}
use clustergo.Addr.{LogicAddr, string}
use clustergo.Common.{
  ℕ, Bool, true, false, ◌&&◌, ◌||◌, List, [], ◌∷◌, ◌++◌, Option, none, some, ltb, ◌==◌,
  if◌then◌else◌, length, Outcome, ok, err, panic,
}
use clustergo.Common.Table.{Table, lookup, insert, delete, bytes_eq}

pub record Subscriber : Type 0 where
  pub member_version : ℕ
  pub alive_version : ℕ
  pub alive : Table Key (Unit {0})
  pub members : Table Key NodeInfo

abbrev pub new_subscriber : Subscriber
new_subscriber = record { member_version = 0; alive_version = 0; alive = []; members = [] }

abbrev pub is_some : {A : Type 0} → Option A → Bool
is_some none = false
is_some (some a) = true

unfoldable pub is_alive : Subscriber → Key → Bool
is_alive cli key = is_some (lookup key cli.alive)

-- A row whose info was read as `n`.
unfoldable pub take_node : NodeInfo → Bool → Subscriber × MemberInfo → Subscriber × MemberInfo
unfolding is_alive
take_node n markdel (cli, info) =
    let key = string n.addr in
    let seen = record n { available = is_alive cli key && n.available } in
    let known = is_some (lookup key cli.members) in
    if markdel
    then (if known
        then (
          record cli { members = delete key cli.members },
          record info { remove = info.remove ++ (seen ∷ []) },
        )
        else (cli, info))
    else (
      record cli { members = insert key n cli.members },
      if known
          then record info { update = info.update ++ (seen ∷ []) }
          else record info { add = info.add ++ (seen ∷ []) },
    )

-- The callback is called where there is something to report.
unfoldable pub reported : MemberInfo → Option MemberInfo
reported info =
    if ltb 0 (length info.add) || (ltb 0 (length info.update) || ltb 0 (length info.remove))
    then some info
    else none

abbrev pub no_info : MemberInfo
no_info = record { add = []; remove = []; update = [] }

module _ (json : Json) (resolve : List ℕ → Option (List ℕ)) where
  -- A row that cannot be read is left out.
  unfoldable pub take_member : MemberRow → Subscriber × MemberInfo → Subscriber × MemberInfo
  unfolding take_node
  take_member row acc = elim (unmarshal json resolve row.info) [
    | ok n ↦ take_node n row.markdel acc
    | err e ↦ acc
    | panic ↦ acc
  ]

  unfoldable pub take_members : List MemberRow → Subscriber × MemberInfo → Subscriber × MemberInfo
  unfolding take_member
  take_members [] acc = acc
  take_members (row ∷ rows) acc = take_members rows (take_member row acc)

  -- The rows of a reply; a reply without them has a slice that is too short.
  unfoldable pub take_reply :
      Subscriber → Option (List MemberRow) → Outcome (List ℕ) (Subscriber × Option MemberInfo)
  take_reply cli none = panic
  take_reply cli (some rows) =
      let (cli', info) = take_members rows (cli, no_info) in ok (cli', reported info)

  -- `getMembers`: the subscriber, and what the callback is handed.
  unfoldable pub get_members :
      Subscriber
      → Outcome (List ℕ) (Reply MemberRow)
      → Outcome (List ℕ) (Subscriber × Option MemberInfo)
  unfolding take_reply
  get_members cli (err e) = err e
  get_members cli panic = panic
  get_members cli (ok r) =
      if r.version == cli.member_version
      then ok (cli, none)
      else take_reply (record cli { member_version = r.version }) r.rows

-- A row of `getAlives`.
unfoldable pub take_alive : AliveRow → Subscriber × List NodeInfo → Subscriber × List NodeInfo
unfolding is_alive
take_alive row (cli, updates) =
    let node = lookup row.key cli.members in
    if row.dead
    then (
      record cli { alive = delete row.key cli.alive },
      elim node [ some n ↦ updates ++ (record n { available = false } ∷ []) | none ↦ updates ],
    )
    else if is_alive cli row.key
    then (cli, updates)
    else (
      record cli { alive = insert row.key tt cli.alive },
      elim node [
        | some n ↦ if n.available then updates ++ (record n { available = true } ∷ []) else updates
        | none ↦ updates
      ],
    )

unfoldable pub take_alives : List AliveRow → Subscriber × List NodeInfo → Subscriber × List NodeInfo
take_alives [] acc = acc
take_alives (row ∷ rows) acc = take_alives rows (take_alive row acc)

take_alive_reply :
    Subscriber → Option (List AliveRow) → Outcome (List ℕ) (Subscriber × Option MemberInfo)
take_alive_reply cli none = panic
take_alive_reply cli (some rows) =
    let (cli', updates) = take_alives rows (cli, []) in
    ok (cli', reported (record no_info { update = updates }))

-- `getAlives`.
unfoldable pub get_alives :
    Subscriber
    → Outcome (List ℕ) (Reply AliveRow)
    → Outcome (List ℕ) (Subscriber × Option MemberInfo)
unfolding take_alive_reply
get_alives cli (err e) = err e
get_alives cli panic = panic
get_alives cli (ok r) =
    if r.version == cli.alive_version
    then ok (cli, none)
    else take_alive_reply (record cli { alive_version = r.version }) r.rows

-- The hash that `UpdateMember` and `RemoveMember` leave behind.
module _ (json : Json) where
  unfoldable pub put_member : NodeInfo → MemberHash → MemberHash
  put_member n s = (update_member (string n.addr) (insert_update (marshal json n)) s).0

unfoldable pub remove_member : LogicAddr → MemberHash → MemberHash
remove_member a s = (update_member (string a) mark_delete s).0
