-- ===== src/Membership/Node.antt =====
-- What a node of a membership is read back as.
use clustergo.Membership.{NodeInfo, addr_failed, Json, marshal, unmarshal}
use clustergo.Addr.{LogicAddr, invalid_type, cluster, type, string, make_addr}
use clustergo.Addr.Parse.{make_logic_addr-string, make_logic_addr_refuses_harbor}
use clustergo.Common.{ℕ, ◌^◌, ◌<◌, ◌≡◌, ◌≢◌, refl, List, Option, some, ok, err}

-- The JSON package reads back what it has written for `n`.
abbrev pub ReadsBack : Json → NodeInfo → Type 0
ReadsBack json n =
    json.unmarshal (marshal json n)
    ≡ some (record {
      export = n.export;
      available = n.available;
      logic_addr = string n.addr;
      net_addr = n.net_addr;
    })

-- A node whose address is not a harbor's and names a cluster and a type.
pub record IsOrdinary (a : LogicAddr) : Type 0 where
  pub fits : a < 2 ^ 32
  pub cluster_set : cluster a ≢ 0
  pub type_set : type a ≢ 0
  pub no_harbor : type a ≢ 255

module _ (json : Json) (resolve : List ℕ → Option (List ℕ)) where
  -- A node that is not a harbor, and whose net address resolves to itself, is read back from what
  -- `Marshal` has written for it as the same node.
  pub unmarshal-marshal_node :
      (n : NodeInfo)
      → ReadsBack json n
      → resolve n.net_addr ≡ some n.net_addr
      → IsOrdinary n.addr
      → unmarshal json resolve (marshal json n) ≡ ok n
  unfolding unmarshal make_addr
  unmarshal-marshal_node n back found o =
      rw (back, make_logic_addr-string n.addr o.fits o.cluster_set o.type_set o.no_harbor, found)
        refl

  -- What `Marshal` writes for a harbor that names a cluster is not read back, whatever its net address:
  -- `Unmarshal` fails with the error of an invalid type.
  pub unmarshal-marshal_harbor :
      (n : NodeInfo)
      → ReadsBack json n
      → n.addr < 2 ^ 32
      → cluster n.addr ≢ 0
      → type n.addr ≡ 255
      → unmarshal json resolve (marshal json n) ≡ err (addr_failed invalid_type)
  unfolding unmarshal make_addr
  unmarshal-marshal_harbor n back fits c t =
      rw (back, make_logic_addr_refuses_harbor n.addr fits c t) refl
