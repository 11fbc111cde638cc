-- ===== src/Membership/Redis/Fetch.antt =====
-- What a fetch of the members makes of the subscriber's copy.
use clustergo.Membership.{NodeInfo, MemberInfo, NodeError, Json, unmarshal}
use clustergo.Membership.Redis.Script.{
  Key, Member, MemberHash, MemberRow, is_wanted, member_rows, reply_since, get_members_script,
}
use clustergo.Membership.Redis.Subscribe.{
  Subscriber, is_some, take_node, take_member, take_members, take_reply, get_members, no_info,
  reported,
}
use clustergo.Addr.{string}
use clustergo.Common.{
  ℕ, ◌≡◌, refl, sym, ap, ◌∙◌, arith, Bool, true, false, List, [], ◌∷◌, Option, none, some, ◌==◌,
  if◌then◌else◌, Bool-cases, Option-cases, inl, inr, Outcome, ok, err, panic,
}
use clustergo.Common.Table.{
  Table, lookup, bytes_eq, bytes_beq, bytes_beq_iff, lookup-insert, lookup-delete, Unique, AllPairs,
}

module _ (json : Json) (resolve : List ℕ → Option (List ℕ)) where
  -- A value that is read as a node with the key that it stands under.
  pub record IsReadable (key : Key) (e : Member) : Type 0 where
    pub node : NodeInfo
    pub reads : unmarshal json resolve e.info ≡ ok node
    pub named : string node.addr ≡ key

  -- The node of a value that is not marked.
  abbrev node_of : Outcome NodeError NodeInfo → Option NodeInfo
  node_of (ok n) = some n
  node_of (err e) = none
  node_of panic = none

  abbrev pub live : Member → Option NodeInfo
  live e = if e.markdel then none else node_of (unmarshal json resolve e.info)

take_node-lookup :
    (n : NodeInfo) (markdel : Bool) (cli : Subscriber) (info : MemberInfo) (k : Key)
    → lookup k (take_node n markdel (cli, info)).0.members ≡ (
        if bytes_beq (string n.addr) k
        then (if markdel then none else some n)
        else lookup k cli.members)
unfolding take_node
take_node-lookup n false cli info k = lookup-insert (string n.addr) k n cli.members
take_node-lookup n true cli info k =
    elim (Bool-cases (is_some (lookup (string n.addr) cli.members))) [
      | inl known ↦ rw known (lookup-delete (string n.addr) k cli.members)
      | inr unknown ↦ elim (Bool-cases (bytes_beq (string n.addr) k)) [
        | inl same ↦
            let eq : string n.addr ≡ k = (bytes_beq_iff (string n.addr) k).0 same in
            rw (unknown, same)
              (elim (Option-cases (lookup k cli.members)) [
                | inl e ↦ e
                | inr (m, e) ↦ absurd (ground (arith, unknown, eq, e))
              ])
        | inr differ ↦ rw (unknown, differ) refl
      ]
    ]

take_node-version :
    (n : NodeInfo) (markdel : Bool) (acc : Subscriber × MemberInfo)
    → (take_node n markdel acc).0.member_version ≡ acc.0.member_version
unfolding take_node
take_node-version n false acc = refl
take_node-version n true (cli, info) =
    elim (Bool-cases (is_some (lookup (string n.addr) cli.members))) [
      | inl known ↦ rw known refl
      | inr unknown ↦ rw unknown refl
    ]

-- What a key stands for behind a fetch, for what it stands for in the hash and in front of the fetch.
module _ (json : Json) (resolve : List ℕ → Option (List ℕ)) where
  abbrev pub after : ℕ → Option Member → Option NodeInfo → Option NodeInfo
  after client_ver none old = old
  after client_ver (some e) old =
      if is_wanted client_ver e.ver e.markdel then live json resolve e else old

  take_member-readable :
      (row : MemberRow) (acc : Subscriber × MemberInfo) (n : NodeInfo)
      → unmarshal json resolve row.info ≡ ok n
      → take_member json resolve row acc ≡ take_node n row.markdel acc
  unfolding take_member
  take_member-readable row acc n h = rw (h, take_member) refl

  pub take_members-lookup :
      (client_ver : ℕ) (t : Table Key Member) (k : Key) (acc : Subscriber × MemberInfo)
      → Unique t
      → AllPairs (IsReadable json resolve) t
      → lookup k (take_members json resolve (member_rows client_ver t) acc).0.members
        ≡ after client_ver (lookup k t) (lookup k acc.0.members)
  unfolding take_members member_rows lookup
  take_members-lookup v [] k acc u h = refl
  take_members-lookup v ((j, e) ∷ t) k acc (u, us) (h, hs) =
      elim (Bool-cases (is_wanted v e.ver e.markdel)) [
        | inl wanted ↦
            let row : MemberRow = record { key = j; info = e.info; markdel = e.markdel } in
            let taken = take_member-readable row acc h.node h.reads in
            let step : lookup k (take_member json resolve row acc).0.members
                ≡ (if bytes_beq j k then live json resolve e else lookup k acc.0.members) =
              ap (λ x. lookup k x.0.members) taken
              ∙ take_node-lookup h.node e.markdel acc.0 acc.1 k
              ∙ rw (h.named, h.reads) refl in
            rw wanted (
              take_members-lookup v t k (take_member json resolve row acc) us hs
              ∙ ap (after v (lookup k t)) step
              ∙ elim (Bool-cases (bytes_beq j k)) [
                | inl same ↦
                    let eq : j ≡ k = (bytes_beq_iff j k).0 same in
                    let gone : lookup k t ≡ none = ap (λ i. lookup i t) (sym eq) ∙ u in
                    rw (same, gone, wanted) refl
                | inr differ ↦ rw differ refl
              ])
        | inr unwanted ↦ rw unwanted (
            take_members-lookup v t k acc us hs ∙ elim (Bool-cases (bytes_beq j k)) [
              | inl same ↦
                  let eq : j ≡ k = (bytes_beq_iff j k).0 same in
                  let gone : lookup k t ≡ none = ap (λ i. lookup i t) (sym eq) ∙ u in
                  rw (same, gone, unwanted) refl
              | inr differ ↦ rw differ refl
            ])
      ]

  pub take_members-version :
      (client_ver : ℕ) (t : Table Key Member) (acc : Subscriber × MemberInfo)
      → AllPairs (IsReadable json resolve) t
      → (take_members json resolve (member_rows client_ver t) acc).0.member_version
        ≡ acc.0.member_version
  unfolding take_members member_rows
  take_members-version v [] acc h = refl
  take_members-version v ((j, e) ∷ t) acc (h, hs) =
      elim (Bool-cases (is_wanted v e.ver e.markdel)) [
        | inl wanted ↦
            let row : MemberRow = record { key = j; info = e.info; markdel = e.markdel } in
            rw wanted (
              take_members-version v t (take_member json resolve row acc) hs
              ∙ ap (λ x. x.0.member_version) (take_member-readable row acc h.node h.reads)
              ∙ take_node-version h.node e.markdel acc)
        | inr unwanted ↦ rw unwanted (take_members-version v t acc hs)
      ]

  -- A fetch from a version that differs succeeds.
  pub get_members-differs :
      (cli : Subscriber) (s : MemberHash) (v : ℕ)
      → s.version ≡ some v
      → (v == cli.member_version) ≡ false
      → (cli' : Subscriber) × (info : Option MemberInfo) × (get_members json resolve cli
            (ok (get_members_script cli.member_version s))
          ≡ ok (cli', info))
        × (cli'
            ≡ (take_members json resolve
                (member_rows cli.member_version s.members)
                (record cli { member_version = v }, no_info)).0)
  unfolding get_members get_members_script reply_since take_reply
  get_members-differs cli s v e ne =
      let turned : (cli.member_version == v) ≡ false = ground (arith, ne) in
      let taken =
        take_members json resolve (member_rows cli.member_version s.members)
          (record cli { member_version = v }, no_info) in
      (taken.0, reported taken.1, rw (e, ne, turned) refl, refl)
