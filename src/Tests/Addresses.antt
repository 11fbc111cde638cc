-- ===== src/Tests/Addresses.antt =====
-- addr/addr.go.
use clustergo.Addr.{
  LogicAddr, cluster, type, server, string, split, atoi, pack, decimal, make_logic_addr,
  make_harbor_logic_addr, make_parts, make_harbor_parts,
}
use clustergo.Addr.Parse.{make_logic_addr-string, make_logic_addr_wraps}
use clustergo.Common.{◌*◌, ◌^◌, ◌≡◌, refl, arith, ◌∷◌, ◌++◌, ok}
use clustergo.Common.Int.{to_u32}
use clustergo.Common.Text.{codes}

-- Cluster 1, type 2, server 3.
abbrev node_123 : LogicAddr
node_123 = 264195

node_123_text : string node_123 ≡ codes "1.2.3"
unfolding string decimal cluster type server
node_123_text = refl

parsed_123 : make_logic_addr (codes "1.2.3") ≡ ok node_123
unfolding make_logic_addr make_parts split atoi to_u32 pack
parsed_123 = refl

parsed_harbor : make_harbor_logic_addr (codes "1.255.3") ≡ ok 523267
unfolding make_harbor_logic_addr make_harbor_parts split atoi to_u32 pack
parsed_harbor = refl

wrapped_cluster : make_logic_addr (codes "4294967296.2.3") ≡ ok 2051
unfolding make_logic_addr make_parts split atoi to_u32 pack
wrapped_cluster = refl

make_logic_addr-string_example : make_logic_addr (string node_123) ≡ ok node_123
unfolding cluster type
make_logic_addr-string_example =
    make_logic_addr-string node_123 (omega arith) (omega arith) (omega arith) (omega arith)

make_logic_addr_wraps_example :
    make_logic_addr (decimal (1 * 2 ^ 32) ++ (b'.' ∷ (decimal 2 ++ (b'.' ∷ decimal 3))))
    ≡ ok (pack 0 2 3)
make_logic_addr_wraps_example =
    make_logic_addr_wraps 1 2 3 (omega arith) (omega arith) (omega arith) (omega arith)
      (omega arith)
