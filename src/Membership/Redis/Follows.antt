-- ===== src/Membership/Redis/Follows.antt =====
-- A subscriber's copy follows the hash of members: an invariant, and what updates and removals do to it.
use mathlib.Core.Path.{subst}
use clustergo.Membership.{NodeInfo, Json, marshal}
use clustergo.Membership.Node.{unmarshal-marshal_node}
use clustergo.Membership.Redis.Script.{
  Key, Member, MemberHash, mark_deleted, next_version, update_member, is_wanted,
}
use clustergo.Membership.Redis.Subscribe.{Subscriber, put_member}
use clustergo.Membership.Redis.Fetch.{IsReadable, live, after}
use clustergo.Addr.{string}
use clustergo.Common.{
  ℕ, ◌+◌, ◌≤◌, ◌<◌, ◌≡◌, ◌⊎◌, refl, sym, ap, ◌∙◌, arith, true, false, List, Option, none, some,
  Bool-cases, inl, inr,
}
use clustergo.Common.Table.{
  Table, lookup, insert, delete, bytes_eq, bytes_beq, bytes_beq_iff, lookup-insert, lookup-delete,
  Unique, insert-Unique, AllPairs, AllPairs-insert, AllPairs-lookup,
}
use clustergo.Membership.Redis.Runs.{ver_of, updates, System, IsAllowed}

module _ (json : Json) (resolve : List ℕ → Option (List ℕ)) where
  -- How the subscriber's copy at a key follows the hash, from a version on.
  abbrev pub FollowsAt : ℕ → ℕ → Option Member → Option NodeInfo → Option NodeInfo → Type 0
  FollowsAt server_ver ver none wanted known = (wanted ≡ none) × (known ≡ none)
  FollowsAt server_ver ver (some e) wanted known =
      (e.ver ≤ server_ver)
      × (0 < e.ver)
      × (wanted ≡ live json resolve e)
      × (((e.ver ≤ ver) × (known ≡ wanted)) ⊎ ((ver < e.ver) × ((0 < ver) ⊎ (known ≡ none))))

  pub record Follows (x : System) (t : Table Key NodeInfo) : Type 0 where
    pub unique : Unique x.0.members
    pub readable : AllPairs (IsReadable json resolve) x.0.members
    pub behind : x.1.member_version ≤ ver_of x.0.version
    pub at :
        (k : Key)
        → FollowsAt
            (ver_of x.0.version)
            x.1.member_version
            (lookup k x.0.members)
            (lookup k t)
            (lookup k x.1.members)

  pub FollowsAt-later :
      (sv sv' ver : ℕ) (m : Option Member) (w known : Option NodeInfo)
      → sv ≤ sv'
      → FollowsAt sv ver m w known
      → FollowsAt sv' ver m w known
  FollowsAt-later sv sv' ver none w known l h = h
  FollowsAt-later sv sv' ver (some e) w known l (a, b, c, h) = (omega (arith, a, l), b, c, h)

  pub FollowsAt-fresh :
      (sv ver : ℕ) (m : Option Member) (w known : Option NodeInfo)
      → FollowsAt sv ver m w known
      → (0 < ver) ⊎ (known ≡ none)
  FollowsAt-fresh sv ver none w known h = inr h.1
  FollowsAt-fresh sv ver (some e) w known (a, b, c, inl (d, h)) = inl (omega (arith, b, d))
  FollowsAt-fresh sv ver (some e) w known (a, b, c, inr (d, h)) = h

  pub FollowsAt-caught_up :
      (sv : ℕ) (m : Option Member) (w known : Option NodeInfo)
      → FollowsAt sv sv m w known
      → known ≡ w
  FollowsAt-caught_up sv none w known h = h.1 ∙ sym h.0
  FollowsAt-caught_up sv (some e) w known (a, b, c, inl (d, h)) = h
  FollowsAt-caught_up sv (some e) w known (a, b, c, inr (d, h)) = absurd (omega (arith, a, d))

  pub FollowsAt-after :
      (sv ver : ℕ) (m : Option Member) (w known : Option NodeInfo)
      → FollowsAt sv ver m w known
      → FollowsAt sv sv m w (after json resolve ver m known)
  unfolding is_wanted
  FollowsAt-after sv ver none w known h = h
  FollowsAt-after sv ver (some e) w known (a, b, c, h) = (
    a,
    b,
    c,
    inl (
      a,
      elim (Bool-cases (is_wanted ver e.ver e.markdel)) [
        | inl wanted ↦ rw wanted (sym c)
        | inr unwanted ↦ rw unwanted (kept unwanted h)
      ],
    ),
  )
    where
      gone : e.markdel ≡ true → known ≡ none → known ≡ w
      gone d k = k ∙ sym (c ∙ rw d refl)

      kept :
          is_wanted ver e.ver e.markdel ≡ false
          → (((e.ver ≤ ver) × (known ≡ w)) ⊎ ((ver < e.ver) × ((0 < ver) ⊎ (known ≡ none))))
          → known ≡ w
      kept u (inl (d, k)) = k
      kept u (inr (d, inl k)) = absurd (ground (arith, u, d, k))
      kept u (inr (d, inr k)) = elim (Bool-cases e.markdel) [
        | inl del ↦ gone del k
        | inr here ↦ absurd (ground (arith, u, d, here))
      ]

  pub next_lem : (v : Option ℕ) → next_version v ≡ ver_of v + 1
  unfolding next_version
  next_lem none = refl
  next_lem (some v) = refl

  pub FollowsAt-put :
      (sv next ver : ℕ) (m : Option Member) (e : Member) (w w' known : Option NodeInfo)
      → next ≡ sv + 1
      → ver ≤ sv
      → e.ver ≡ next
      → w' ≡ live json resolve e
      → FollowsAt sv ver m w known
      → FollowsAt next ver (some e) w' known
  FollowsAt-put sv next ver m e w w' known n b v l h = (
    omega (arith, v),
    omega (arith, n, v),
    l,
    inr (omega (arith, n, v, b), FollowsAt-fresh sv ver m w known h),
  )

  pub put-Follows :
      (n : NodeInfo) (s : MemberHash) (cli : Subscriber) (t : Table Key NodeInfo)
      → IsAllowed json resolve (updates n)
      → Follows (s, cli) t
      → Follows (put_member json n s, cli) (insert (string n.addr) n t)
  unfolding put_member update_member
  put-Follows n s cli t (back, found, o) f =
      let reads = unmarshal-marshal_node json resolve n back found o in
      let new : Member = record {
        ver = next_version s.version;
        markdel = false;
        info = marshal json n;
      } in
      let key = string n.addr in
      record {
        unique = insert-Unique key new s.members f.unique;
        readable =
            AllPairs-insert (IsReadable json resolve) key new s.members
              (record { node = n; reads = reads; named = refl }) f.readable;
        behind = omega (arith, f.behind, next_lem s.version);
        at = λ k. elim (Bool-cases (bytes_beq key k)) [
          | inl same ↦
              rw (lookup-insert key k new s.members, lookup-insert key k n t, same)
                (FollowsAt-put (ver_of s.version) (next_version s.version) cli.member_version
                  (lookup k s.members) new (lookup k t) (some n) (lookup k cli.members)
                  (next_lem s.version) f.behind refl (rw reads refl) (f.at k))
          | inr differ ↦
              rw (lookup-insert key k new s.members, lookup-insert key k n t, differ)
                (FollowsAt-later (ver_of s.version) (next_version s.version) cli.member_version
                  (lookup k s.members) (lookup k t) (lookup k cli.members)
                  (omega (arith, next_lem s.version)) (f.at k))
        ];
      }

  pub removed :
      (key : Key) (s : MemberHash) (cli : Subscriber) (t : Table Key NodeInfo) (m : Option Member)
      → lookup key s.members ≡ m
      → Follows (s, cli) t
      → Follows ((mark_deleted key (next_version s.version) s m).0, cli) (delete key t)
  unfolding mark_deleted
  removed key s cli t none e f = record {
    unique = f.unique;
    readable = f.readable;
    behind = omega (arith, f.behind, next_lem s.version);
    at = λ k.
        let still =
          FollowsAt-later (ver_of s.version) (next_version s.version) cli.member_version
            (lookup k s.members) (lookup k t) (lookup k cli.members)
            (omega (arith, next_lem s.version)) (f.at k) in
        elim (Bool-cases (bytes_beq key k)) [
          | inl same ↦
              let eq : key ≡ k = (bytes_beq_iff key k).0 same in
              let gone : lookup k s.members ≡ none = ap (λ i. lookup i s.members) (sym eq) ∙ e in
              let old : FollowsAt (next_version s.version) cli.member_version none (lookup k t)
                  (lookup k cli.members) =
                subst
                  (λ m.
                    FollowsAt (next_version s.version) cli.member_version m (lookup k t)
                      (lookup k cli.members))
                  gone still in
              rw (lookup-delete key k t, same, gone) (refl, old.1)
          | inr differ ↦ rw (lookup-delete key k t, differ) still
        ];
  }
  removed key s cli t (some m) e f =
      let new : Member = record m { ver = next_version s.version; markdel = true } in
      let old = AllPairs-lookup (IsReadable json resolve) key m s.members f.readable e in
      record {
        unique = insert-Unique key new s.members f.unique;
        readable =
            AllPairs-insert (IsReadable json resolve) key new s.members
              (record { node = old.node; reads = old.reads; named = old.named }) f.readable;
        behind = omega (arith, f.behind, next_lem s.version);
        at = λ k. elim (Bool-cases (bytes_beq key k)) [
          | inl same ↦
              rw (lookup-insert key k new s.members, lookup-delete key k t, same)
                (FollowsAt-put (ver_of s.version) (next_version s.version) cli.member_version
                  (lookup k s.members) new (lookup k t) none (lookup k cli.members)
                  (next_lem s.version) f.behind refl refl (f.at k))
          | inr differ ↦
              rw (lookup-insert key k new s.members, lookup-delete key k t, differ)
                (FollowsAt-later (ver_of s.version) (next_version s.version) cli.member_version
                  (lookup k s.members) (lookup k t) (lookup k cli.members)
                  (omega (arith, next_lem s.version)) (f.at k))
        ];
      }
