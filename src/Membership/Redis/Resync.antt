-- ===== src/Membership/Redis/Resync.antt =====
-- membership/redis/subscribe.go: the version 0 that the resync behind an error leaves.
use clustergo.Membership.{Json}
use clustergo.Membership.Redis.Script.{Key, Member, MemberHash, is_wanted}
use clustergo.Membership.Redis.Subscribe.{Subscriber}
use clustergo.Membership.Redis.Fetch.{IsReadable}
use clustergo.Membership.Redis.Runs.{fetch}
use clustergo.Membership.Redis.Refines.{fetch-lookup}
use clustergo.Common.{
  ℕ, ◌<◌, ◌≡◌, refl, ◌∙◌, arith, true, false, List, Option, none, some, ◌==◌, ltb,
}
use clustergo.Common.Table.{lookup, bytes_eq, Unique, AllPairs}

module _ (json : Json) (resolve : List ℕ → Option (List ℕ)) where
  -- A member that was removed since the subscriber's version: a fetch from that version takes it out of
  -- the subscriber's copy, and a fetch from version 0, at which the resync of `watch` may leave the
  -- subscriber, keeps it there as it is. All values of the hash are to be readable, and stand under their node's address.
  pub resync_keeps_removed :
      (s : MemberHash) (cli : Subscriber) (v : ℕ) (k : Key) (m : Member)
      → Unique s.members
      → AllPairs (IsReadable json resolve) s.members
      → s.version ≡ some v
      → 0 < cli.member_version
      → cli.member_version < m.ver
      → cli.member_version < v
      → lookup k s.members ≡ some m
      → m.markdel ≡ true
      → (lookup k (fetch json resolve s cli).members ≡ none)
        × (lookup k (fetch json resolve s (record cli { member_version = 0 })).members
            ≡ lookup k cli.members)
  unfolding is_wanted
  resync_keeps_removed s cli v k m u r e known older behind found gone =
      let old : (v == cli.member_version) ≡ false = ground arith in
      let new : (v == 0) ≡ false = ground arith in
      let some_ver : (cli.member_version == 0) ≡ false = ground arith in
      let newer : ltb cli.member_version m.ver ≡ true = ground arith in
      (
        (fetch-lookup json resolve s cli v k u r e old).0 ∙ rw (found, some_ver, newer, gone) refl,
        (fetch-lookup json resolve s (record cli { member_version = 0 }) v k u r e new).0
            ∙ rw (found, gone) refl,
      )
