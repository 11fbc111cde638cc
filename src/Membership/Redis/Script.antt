-- ===== src/Membership/Redis/Script.antt =====
-- membership/redis/script.go: the scripts on the hashes of members and of live nodes. A value of a hash is
-- the fields that its pattern finds between the separators; `hgetall` is in the order of the table.
use clustergo.Common.{
  ℕ, ◌+◌, Bool, true, false, ◌&&◌, not, List, [], ◌∷◌, Option, none, some, ltb, ◌==◌, if◌then◌else◌,
}
use clustergo.Common.Table.{Table, lookup, insert, bytes_eq}

-- The text of a logical address.
abbrev pub Key : Type 0
Key = List ℕ

-- `ver`, `markdel` and `info` of a value in the hash of members.
pub record Member : Type 0 where
  pub ver : ℕ
  pub markdel : Bool
  pub info : List ℕ

-- The hash of members, and its version, if that key is there.
pub record MemberHash : Type 0 where
  pub version : Option ℕ
  pub members : Table Key Member

pub data Action : Type 0 where
  insert_update : List ℕ → Action
  mark_delete : Action

unfoldable pub next_version : Option ℕ → ℕ
next_version none = 1
next_version (some v) = v + 1

-- What is published, if anything.
abbrev pub Published : Type 0
Published = Option ℕ

unfoldable pub mark_deleted : Key → ℕ → MemberHash → Option Member → MemberHash × Published
mark_deleted key ver s none = (record s { version = some ver }, none)
mark_deleted key ver s (some e) = (
  record {
    version = some ver;
    members = insert key (record e { ver = ver; markdel = true }) s.members;
  },
  some ver,
)

-- `ScriptUpdateMember`.
unfoldable pub update_member : Key → Action → MemberHash → MemberHash × Published
unfolding mark_deleted
update_member key (insert_update data_bytes) s =
    let ver = next_version s.version in
    (
      record {
        version = some ver;
        members = insert key (record { ver = ver; markdel = false; info = data_bytes }) s.members;
      },
      some ver,
    )
update_member key mark_delete s = mark_deleted key (next_version s.version) s (lookup key s.members)

-- What a script returns: a version, and rows behind it, where there are any to return.
pub record Reply (R : Type 0) : Type 0 where
  pub version : ℕ
  pub rows : Option (List R)

-- `clientVer == 0` asks for what is there, any other version for what has changed since, deleted
-- members included.
unfoldable pub is_wanted : ℕ → ℕ → Bool → Bool
is_wanted client_ver ver gone = if client_ver == 0 then not gone else ltb client_ver ver

pub record MemberRow : Type 0 where
  pub key : Key
  pub info : List ℕ
  pub markdel : Bool

unfoldable pub member_rows : ℕ → Table Key Member → List MemberRow
member_rows client_ver [] = []
member_rows client_ver ((key, e) ∷ t) =
    let later = member_rows client_ver t in
    if is_wanted client_ver e.ver e.markdel
    then record { key = key; info = e.info; markdel = e.markdel } ∷ later
    else later

-- The reply of the two scripts that read, for a version that may be missing.
unfoldable pub reply_since : {R : Type 0} → ℕ → Option ℕ → List R → Reply R
reply_since client_ver none rows = record { version = client_ver; rows = none }
reply_since client_ver (some v) rows = record {
  version = v;
  rows = if client_ver == v then none else some rows;
}

-- `ScriptGetMembers`.
unfoldable pub get_members_script : ℕ → MemberHash → Reply MemberRow
get_members_script client_ver s =
    reply_since client_ver s.version (member_rows client_ver s.members)

-- A value in the hash of live nodes: `full ver dead deadline` has both separators; `bare ver deadline`
-- has one, and no pattern of the scripts finds anything in it.
pub data Alive : Type 0 where
  full : ℕ → Bool → ℕ → Alive
  bare : ℕ → ℕ → Alive

pub record AliveHash : Type 0 where
  pub version : Option ℕ
  pub nodes : Table Key Alive

-- `prevDead`, with `false` where there is no value or none that the pattern finds.
unfoldable pub prev_dead : Option Alive → Bool
prev_dead none = false
prev_dead (some (full ver dead deadline)) = dead
prev_dead (some (bare ver deadline)) = false

-- The first result of the match is all that the `..` behind it takes.
unfoldable pub refreshed : Key → ℕ → AliveHash → Option Alive → AliveHash
refreshed key deadline s (some (full ver dead old)) = record s {
  nodes = insert key (bare ver deadline) s.nodes;
}
refreshed key deadline s _ = s

-- `ScriptHeartbeat`, where `now` is redis' time in seconds.
unfoldable pub heartbeat : ℕ → Key → ℕ → AliveHash → AliveHash × Published
unfolding refreshed
heartbeat now key timeout s =
    let deadline = now + timeout in
    let node_data = lookup key s.nodes in
    if prev_dead node_data
    then (refreshed key deadline s node_data, none)
    else (let ver = next_version s.version in
        (
          record { version = some ver; nodes = insert key (full ver false deadline) s.nodes },
          some ver,
        ))

pub record AliveRow : Type 0 where
  pub key : Key
  pub dead : Bool

unfoldable pub alive_rows : ℕ → Table Key Alive → List AliveRow
alive_rows client_ver [] = []
alive_rows client_ver ((key, full ver dead deadline) ∷ t) =
    let later = alive_rows client_ver t in
    if is_wanted client_ver ver dead then record { key = key; dead = dead } ∷ later else later
alive_rows client_ver ((key, bare ver deadline) ∷ t) = alive_rows client_ver t

-- `ScriptGetAlives`.
unfoldable pub get_alives_script : ℕ → AliveHash → Reply AliveRow
get_alives_script client_ver s = reply_since client_ver s.version (alive_rows client_ver s.nodes)

unfoldable pub is_overdue : ℕ → Alive → Bool
is_overdue now (full ver dead deadline) = not dead && ltb deadline now
is_overdue now (bare ver deadline) = false

unfoldable pub bury : ℕ → Alive → Alive
bury ver (full old dead deadline) = full ver true deadline
bury ver (bare old deadline) = bare old deadline

-- The loop of `ScriptCheckTimeout` over what `hgetall` has returned; `hset` of a key that is there
-- keeps its place.
unfoldable pub bury_overdue : ℕ → ℕ → Table Key Alive → Table Key Alive
bury_overdue now ver [] = []
bury_overdue now ver ((key, a) ∷ t) =
    (key, (if is_overdue now a then bury ver a else a)) ∷ bury_overdue now ver t

unfoldable pub any_overdue : ℕ → Table Key Alive → Bool
any_overdue now [] = false
any_overdue now ((key, a) ∷ t) =
    let later = any_overdue now t in if is_overdue now a then true else later

-- `ScriptCheckTimeout`.
unfoldable pub check_timeout : ℕ → AliveHash → AliveHash × Published
check_timeout now s =
    let ver = next_version s.version in
    if any_overdue now s.nodes
    then (record { version = some ver; nodes = bury_overdue now ver s.nodes }, some ver)
    else (s, none)
