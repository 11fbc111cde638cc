-- ===== src/Membership.antt =====
-- membership/membership.go: what a membership tells its subscribers. A net address is its text.
pub mod Node
pub mod Redis
pub mod Etcd
use clustergo.Common.{Bool, List, ℕ, Outcome, ok, err, panic, ◌>>=◌, Option, none, some, or_fail}
use clustergo.Addr.{LogicAddr, AddrError, string, make_addr}

pub record NodeInfo : Type 0 where
  pub addr : LogicAddr
  pub net_addr : List ℕ
  pub export : Bool
  pub available : Bool

pub record MemberInfo : Type 0 where
  pub add : List NodeInfo
  pub remove : List NodeInfo
  pub update : List NodeInfo

pub record NodeJson : Type 0 where
  pub logic_addr : List ℕ
  pub net_addr : List ℕ
  pub export : Bool
  pub available : Bool

pub data NodeError : Type 0 where
  json_failed : NodeError
  addr_failed : AddrError → NodeError

-- Package `encoding/json` on a `nodeJson`: a parameter. `none` is the error of `json.Unmarshal`.
pub record Json : Type 0 where
  pub marshal : NodeJson → List ℕ
  pub unmarshal : List ℕ → Option NodeJson

module _ (json : Json) where
  unfoldable pub marshal : NodeInfo → List ℕ
  marshal n = json.marshal (record {
    export = n.export;
    available = n.available;
    logic_addr = string n.addr;
    net_addr = n.net_addr;
  })

addr_fault : {A : Type 0} → Outcome AddrError A → Outcome NodeError A
addr_fault (ok a) = ok a
addr_fault (err e) = err (addr_failed e)
addr_fault panic = panic

-- `resolve` is `net.ResolveTCPAddr`, up to the text of the address that it finds.
module _ (json : Json) (resolve : List ℕ → Option (List ℕ)) where
  unfoldable pub unmarshal : List ℕ → Outcome NodeError NodeInfo
  unfolding addr_fault
  unmarshal bs = do
    j ← or_fail (json.unmarshal bs) json_failed
    a ← addr_fault (make_addr resolve j.logic_addr j.net_addr)
    ok (record { addr = a.0; net_addr = a.1; export = j.export; available = j.available })
