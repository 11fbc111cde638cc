-- ===== src/Membership/Redis/Refines.antt =====
-- The hash of members and a subscriber's copy of it refine a map from addresses to nodes.
use mathlib.Core.Path.{subst}
use clustergo.Membership.{NodeInfo, MemberInfo, Json}
use clustergo.Membership.Redis.Script.{
  Key, MemberHash, update_member, get_members_script, reply_since,
}
use clustergo.Membership.Redis.Subscribe.{
  Subscriber, new_subscriber, get_members, remove_member, no_info,
}
use clustergo.Membership.Redis.Fetch.{
  IsReadable, after, take_members-lookup, take_members-version, get_members-differs,
}
use clustergo.Addr.{string}
use clustergo.Common.{
  ℕ, ◌≤◌, ◌≡◌, refl, sym, ap, ◌∙◌, arith, true, false, List, [], ◌∷◌, Option, none, some, ◌==◌,
  Bool-cases, Option-cases, inl, inr, All,
}
use clustergo.Common.Table.{Table, lookup, bytes_eq, Unique, AllPairs}
use clustergo.Membership.Redis.Runs.{
  ver_of, Event, updates, removes, fetches, spec_step, spec_all, System, empty_hash, fetched, fetch,
  run_step, run_all, IsAllowed,
}
use clustergo.Membership.Redis.Follows.{
  FollowsAt, Follows, FollowsAt-after, FollowsAt-caught_up, put-Follows, removed,
}

module _ (json : Json) (resolve : List ℕ → Option (List ℕ)) where
  pub fetch-lookup :
      (s : MemberHash) (cli : Subscriber) (v : ℕ) (k : Key)
      → Unique s.members
      → AllPairs (IsReadable json resolve) s.members
      → s.version ≡ some v
      → (v == cli.member_version) ≡ false
      → (lookup k (fetch json resolve s cli).members
          ≡ after json resolve cli.member_version (lookup k s.members) (lookup k cli.members))
        × ((fetch json resolve s cli).member_version ≡ v)
  unfolding fetch
  fetch-lookup s cli v k u r e ne =
      let (cli', info, got, is) = get_members-differs json resolve cli s v e ne in
      let start : Subscriber × MemberInfo = (record cli { member_version = v }, no_info) in
      (
        ap (λ x. lookup k (fetched cli x).members) got
            ∙ ap (λ c. lookup k c.members) is
            ∙ take_members-lookup json resolve cli.member_version s.members k start u r,
        ap (λ x. (fetched cli x).member_version) got
            ∙ ap (λ c. c.member_version) is
            ∙ take_members-version json resolve cli.member_version s.members start r,
      )

  fetch_same :
      (s : MemberHash) (cli : Subscriber) (v : ℕ)
      → s.version ≡ some v
      → (v == cli.member_version) ≡ true
      → fetch json resolve s cli ≡ cli
  unfolding fetch get_members get_members_script reply_since
  fetch_same s cli v e h = rw (e, h) refl

  fetch_unborn :
      (s : MemberHash) (cli : Subscriber) → s.version ≡ none → fetch json resolve s cli ≡ cli
  unfolding fetch get_members get_members_script reply_since
  fetch_unborn s cli e =
      let same : (cli.member_version == cli.member_version) ≡ true = ground arith in
      rw (e, same) refl

  pub fetch-Follows :
      (s : MemberHash) (cli : Subscriber) (t : Table Key NodeInfo)
      → Follows json resolve (s, cli) t
      → Follows json resolve (s, fetch json resolve s cli) t
        × ((fetch json resolve s cli).member_version ≡ ver_of s.version)
  fetch-Follows s cli t f = elim (Option-cases s.version) [
    | inl e ↦
        let same = fetch_unborn s cli e in
        let bound : cli.member_version ≤ 0 =
          subst (λ v. cli.member_version ≤ ver_of v) e f.behind in
        (
          subst (λ c. Follows json resolve (s, c) t) (sym same) f,
          ap (λ c. c.member_version) same ∙ omega (arith, bound) ∙ sym (ap ver_of e),
        )
    | inr (v, e) ↦ elim (Bool-cases (v == cli.member_version)) [
      | inl h ↦
          let same = fetch_same s cli v e h in
          (
            subst (λ c. Follows json resolve (s, c) t) (sym same) f,
            ap (λ c. c.member_version) same ∙ ground (arith, h) ∙ sym (ap ver_of e),
          )
      | inr h ↦
          let ver : (fetch json resolve s cli).member_version ≡ ver_of s.version =
            (fetch-lookup s cli v [] f.unique f.readable e h).1 ∙ sym (ap ver_of e) in
          (
            record {
              unique = f.unique;
              readable = f.readable;
              behind = omega (arith, ver);
              at = λ k.
                  subst
                    (λ n.
                      FollowsAt json resolve (ver_of s.version) n (lookup k s.members) (lookup k t)
                        (lookup k (fetch json resolve s cli).members))
                    (sym ver)
                    (subst
                      (λ x.
                        FollowsAt json resolve (ver_of s.version) (ver_of s.version)
                          (lookup k s.members) (lookup k t) x)
                      (sym (fetch-lookup s cli v k f.unique f.readable e h).0)
                      (FollowsAt-after json resolve (ver_of s.version) cli.member_version
                        (lookup k s.members) (lookup k t) (lookup k cli.members) (f.at k)));
            },
            ver,
          )
    ]
  ]

  step-Follows :
      (e : Event) (x : System) (t : Table Key NodeInfo)
      → IsAllowed json resolve e
      → Follows json resolve x t
      → Follows json resolve (run_step json resolve e x) (spec_step e t)
  unfolding remove_member update_member
  step-Follows (updates n) (s, cli) t a f = put-Follows json resolve n s cli t a f
  step-Follows (removes a) (s, cli) t al f =
      removed json resolve (string a) s cli t (lookup (string a) s.members) refl f
  step-Follows fetches (s, cli) t a f = (fetch-Follows s cli t f).0

  run_all-Follows :
      (es : List Event) (x : System) (t : Table Key NodeInfo)
      → All (IsAllowed json resolve) es
      → Follows json resolve x t
      → Follows json resolve (run_all json resolve es x) (spec_all es t)
  run_all-Follows [] x t h f = f
  run_all-Follows (e ∷ es) x t (h, hs) f =
      run_all-Follows es (run_step json resolve e x) (spec_step e t) hs (step-Follows e x t h f)

  start-Follows : Follows json resolve (empty_hash, new_subscriber) []
  unfolding lookup
  start-Follows = record {
    unique = tt;
    readable = tt;
    behind = omega arith;
    at = λ k. (refl, refl);
  }

  -- From an empty hash and a new subscriber, whatever nodes are put in and removed and whenever the
  -- subscriber fetches, for nodes that are read back: behind one more fetch, the subscriber's copy has at
  -- every address exactly the node of a map in which each update inserts and each removal deletes.
  pub run_all-spec_all :
      (es : List Event) (k : Key)
      → All (IsAllowed json resolve) es
      → lookup k
          (run_step json resolve fetches
            (run_all json resolve es (empty_hash, new_subscriber))).1.members
        ≡ lookup k (spec_all es [])
  run_all-spec_all es k h =
      let x = run_all json resolve es (empty_hash, new_subscriber) in
      let (f, ver) =
        fetch-Follows x.0 x.1 (spec_all es []) (run_all-Follows es _ [] h start-Follows) in
      FollowsAt-caught_up json resolve (ver_of x.0.version) (lookup k x.0.members)
        (lookup k (spec_all es [])) (lookup k (fetch json resolve x.0 x.1).members)
        (subst
          (λ n.
            FollowsAt json resolve (ver_of x.0.version) n (lookup k x.0.members)
              (lookup k (spec_all es [])) (lookup k (fetch json resolve x.0 x.1).members))
          ver (f.at k))
