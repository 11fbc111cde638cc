-- ===== src/Membership/Etcd/Read.antt =====
-- membership/etcd/etcd.go: the full reads of the ticker, `getMembers` and `getAlives`, of the values and
-- the keys that etcd returns; a failed read changes nothing. Go's maps are read in the order of the table.
use clustergo.Membership.{NodeInfo, MemberInfo, NodeError, Json, unmarshal}
use clustergo.Membership.Etcd.{Key, Mirror, is_some, seen, is_alive, key_of}
use clustergo.Addr.{string}
use clustergo.Common.{
  ℕ, ◌≡◌, refl, sym, ap, ◌∙◌, true, false, ◌&&◌, List, [], ◌∷◌, ◌++◌, Option, none, some,
  if◌then◌else◌, Outcome, ok, err, panic, Bool-cases, inl, inr,
}
use clustergo.Common.Table.{Table, lookup, insert, bytes_eq, bytes_beq, bytes_beq_iff, AllPairs}

unfoldable pub insert_read : Outcome NodeError NodeInfo → Table Key NodeInfo → Table Key NodeInfo
insert_read (ok n) t = insert (string n.addr) n t
insert_read (err e) t = t
insert_read panic t = t

module _ (json : Json) (resolve : List ℕ → Option (List ℕ)) where
  unfoldable pub current_members : List (List ℕ) → Table Key NodeInfo → Table Key NodeInfo
  current_members [] t = t
  current_members (v ∷ vs) t = current_members vs (insert_read (unmarshal json resolve v) t)

-- The members of `t` that `other` has not, and those that it has, as they are reported.
unfoldable pub absent_of : Mirror → Table Key NodeInfo → Table Key NodeInfo → List NodeInfo
absent_of s other [] = []
absent_of s other ((addr, n) ∷ t) =
    let later = absent_of s other t in
    if is_some (lookup addr other) then later else seen n (is_alive s addr && n.available) ∷ later

unfoldable pub present_of : Mirror → Table Key NodeInfo → Table Key NodeInfo → List NodeInfo
present_of s other [] = []
present_of s other ((addr, n) ∷ t) =
    let later = present_of s other t in
    if is_some (lookup addr other) then seen n (is_alive s addr && n.available) ∷ later else later

module _ (json : Json) (resolve : List ℕ → Option (List ℕ)) where
  -- `getMembers`, with what its callback is handed, if it is not empty.
  unfoldable pub get_members : Mirror → List (List ℕ) → Mirror × MemberInfo
  get_members s values =
      let current = current_members json resolve values [] in
      (
        record s { members = current },
        record {
          add = absent_of s s.members current;
          remove = absent_of s current s.members;
          update = present_of s s.members current;
        },
      )

unfoldable pub current_alive : List ℕ → List Key → Table Key (Unit {0}) → Table Key (Unit {0})
current_alive prefix [] t = t
current_alive prefix (k ∷ ks) t = current_alive prefix ks (insert (key_of prefix k) tt t)

-- What is reported of a node that has come to life, or that has died.
unfoldable pub risen : Option NodeInfo → List NodeInfo
risen none = []
risen (some n) = if n.available then seen n true ∷ [] else []

unfoldable pub fallen : Option NodeInfo → List NodeInfo
fallen none = []
fallen (some n) = seen n false ∷ []

unfoldable pub changed_of :
    (Option NodeInfo → List NodeInfo)
    → Mirror
    → Table Key (Unit {0})
    → Table Key (Unit {0})
    → List NodeInfo
changed_of report s other [] = []
changed_of report s other ((addr, x) ∷ t) =
    let later = changed_of report s other t in
    if is_some (lookup addr other) then later else report (lookup addr s.members) ++ later

-- `getAlives`
unfoldable pub get_alives : List ℕ → Mirror → List Key → Mirror × List NodeInfo
get_alives prefix s keys =
    let current = current_alive prefix keys [] in
    (
      record s { alive = current },
      changed_of risen s s.alive current ++ changed_of fallen s current s.alive,
    )

-- A key of a table is found in it.
kept_found :
    {V : Type 0} (k j : Key) (v : V) (t : Table Key V)
    → is_some (lookup k t) ≡ true
    → is_some (lookup k ((j, v) ∷ t)) ≡ true
unfolding lookup
kept_found k j v t h = elim (Bool-cases (bytes_beq j k)) [
  | inl same ↦ rw same refl
  | inr differ ↦ rw differ h
]

AllPairs-kept :
    {V : Type 0} (j : Key) (w : V) (t u : Table Key V)
    → AllPairs (λ k v. is_some (lookup k t) ≡ true) u
    → AllPairs (λ k v. is_some (lookup k ((j, w) ∷ t)) ≡ true) u
AllPairs-kept j w t [] h = tt
AllPairs-kept j w t ((k, v) ∷ u) (h, hs) = (kept_found k j w t h, AllPairs-kept j w t u hs)

AllPairs-own : {V : Type 0} (t : Table Key V) → AllPairs (λ k v. is_some (lookup k t) ≡ true) t
unfolding lookup
AllPairs-own [] = tt
AllPairs-own ((j, v) ∷ t) =
    (rw ((bytes_beq_iff j j).1 refl) refl, AllPairs-kept j v t t (AllPairs-own t))

absent_of-found :
    (s : Mirror) (other t : Table Key NodeInfo)
    → AllPairs (λ k v. is_some (lookup k other) ≡ true) t
    → absent_of s other t ≡ []
unfolding absent_of
absent_of-found s other [] h = refl
absent_of-found s other ((k, v) ∷ t) (h, hs) = rw h (absent_of-found s other t hs)

AllPairs-same :
    (t t' u : Table Key NodeInfo)
    → ((k : Key) → lookup k t ≡ lookup k t')
    → AllPairs (λ k v. is_some (lookup k t) ≡ true) u
    → AllPairs (λ k v. is_some (lookup k t') ≡ true) u
AllPairs-same t t' [] e h = tt
AllPairs-same t t' ((k, v) ∷ u) e (h, hs) = (ap is_some (sym (e k)) ∙ h, AllPairs-same t t' u e hs)

-- A full read whose values make the map that the subscriber has already reports no node as added and
-- none as removed.
pub get_members_settled :
    (json : Json) (resolve : List ℕ → Option (List ℕ)) (s : Mirror) (values : List (List ℕ))
    → ((k : Key) → lookup k (current_members json resolve values []) ≡ lookup k s.members)
    → ((get_members json resolve s values).1.add ≡ [])
      × ((get_members json resolve s values).1.remove ≡ [])
unfolding get_members
get_members_settled json resolve s values e =
    let current = current_members json resolve values [] in
    (
      absent_of-found s s.members current
          (AllPairs-same current s.members current e (AllPairs-own current)),
      absent_of-found s current s.members
          (AllPairs-same s.members current s.members (λ k. sym (e k)) (AllPairs-own s.members)),
    )
