-- ===== src/Addr.antt =====
-- addr/addr.go: logical addresses, 14 bits of cluster, 8 of type and 10 of server in a uint32.
-- A string is the list of its bytes; `strconv.Atoi`, `strings.Split` and `%d` are written out.
pub mod Fields
pub mod Decimal
pub mod Parse
use clustergo.Common.{
  ℕ, zero, suc, ◌+◌, ◌-◌, ◌*◌, ◌/◌, ◌%◌, ◌^◌, bit_and, bit_or, Bool, ◌||◌, ◌&&◌, not, List, [], ◌∷◌,
  ◌++◌, Option, none, some, ltb, leb, ◌==◌, if◌then◌else◌, Outcome, ok, err, ◌>>=◌, ◌>>◌, reject,
  or_fail,
}
use clustergo.Common.Int.{ℤ, pos, negsuc, to_u32, is_zero}

abbrev pub cluster_mask : ℕ
cluster_mask = 0xFFFC0000

abbrev pub type_mask : ℕ
type_mask = 0x0003FC00

abbrev pub server_mask : ℕ
server_mask = 0x000003FF

abbrev pub harbor_type : ℕ
harbor_type = 255

pub data AddrError : Type 0 where
  invalid_fmt harbor_type_error invalid_type invalid_cluster invalid_server : AddrError
  resolve_failed : List ℕ → AddrError

-- A `LogicAddr` is a uint32.
abbrev pub LogicAddr : Type 0
LogicAddr = ℕ

unfoldable pub cluster : LogicAddr → ℕ
cluster a = bit_and a cluster_mask / 2 ^ 18

unfoldable pub type : LogicAddr → ℕ
type a = bit_and a type_mask / 2 ^ 10

unfoldable pub server : LogicAddr → ℕ
server a = bit_and a server_mask

-- `%d` of an unsigned number: there are fewer digits than rounds.
unfoldable pub decimal_loop : ℕ → ℕ → List ℕ
decimal_loop zero n = []
decimal_loop (suc f) n =
    let front = decimal_loop f (n / 10) in
    if ltb n 10 then (b'0' + n) ∷ [] else front ++ ((b'0' + n % 10) ∷ [])

unfoldable pub decimal : ℕ → List ℕ
unfolding decimal_loop
decimal n = decimal_loop (suc n) n

-- `String`: `%d.%d.%d`.
unfoldable pub string : LogicAddr → List ℕ
string a = decimal (cluster a) ++ (b'.' ∷ (decimal (type a) ++ (b'.' ∷ decimal (server a))))

push_front : ℕ → List (List ℕ) → List (List ℕ)
push_front c [] = (c ∷ []) ∷ []
push_front c (p ∷ ps) = (c ∷ p) ∷ ps

-- `strings.Split(s, ".")`: the pieces between the dots.
unfoldable pub split : List ℕ → List (List ℕ)
unfolding push_front
split [] = [] ∷ []
split (c ∷ s) = let more = split s in if c == b'.' then [] ∷ more else push_front c more

parse_digits : List ℕ → ℕ → Option ℕ
parse_digits [] acc = some acc
parse_digits (c ∷ s) acc =
    let more = parse_digits s (acc * 10 + (c - b'0')) in
    if leb b'0' c && leb c b'9' then more else none

unsigned : List ℕ → Option ℕ
unfolding parse_digits
unsigned [] = none
unsigned (c ∷ s) = parse_digits (c ∷ s) 0

positive : Option ℕ → Option ℤ
positive none = none
positive (some n) = if ltb n (2 ^ 63) then some (pos n) else none

negative : Option ℕ → Option ℤ
negative none = none
negative (some zero) = some (pos 0)
negative (some (suc n)) = if ltb n (2 ^ 63) then some (negsuc n) else none

-- `strconv.Atoi`: an optional sign, digits, and the range of a 64-bit int.
unfoldable pub atoi : List ℕ → Option ℤ
unfolding unsigned positive negative
atoi [] = none
atoi (c ∷ s) =
    if c == b'-'
    then negative (unsigned s)
    else if c == b'+'
    then positive (unsigned s)
    else positive (unsigned (c ∷ s))

-- `0 | (tt << 10) | (cluster << 18) | server`, in uint32.
unfoldable pub pack : ℕ → ℕ → ℕ → LogicAddr
pack c t s = bit_or (bit_or (bit_or 0 (t * 2 ^ 10 % 2 ^ 32)) (c * 2 ^ 18 % 2 ^ 32)) s

-- The parts of `MakeLogicAddr` behind the split.
unfoldable pub make_parts : List (List ℕ) → Outcome AddrError LogicAddr
make_parts (c ∷ t ∷ s ∷ []) = do
  cl ← or_fail (atoi c) invalid_cluster
  reject (is_zero cl || ltb (cluster_mask / 2 ^ 18) (to_u32 cl)) invalid_cluster
  tt' ← or_fail (atoi t) invalid_type
  reject (is_zero tt' || ltb (type_mask / 2 ^ 10 - 1) (to_u32 tt')) invalid_type
  sv ← or_fail (atoi s) invalid_server
  reject (ltb server_mask (to_u32 sv)) invalid_server
  ok (pack (to_u32 cl) (to_u32 tt') (to_u32 sv))
make_parts _ = err invalid_fmt

unfoldable pub make_logic_addr : List ℕ → Outcome AddrError LogicAddr
make_logic_addr addr = make_parts (split addr)

unfoldable pub make_harbor_parts : List (List ℕ) → Outcome AddrError LogicAddr
make_harbor_parts (c ∷ t ∷ s ∷ []) = do
  cl ← or_fail (atoi c) invalid_cluster
  reject (is_zero cl || ltb (cluster_mask / 2 ^ 18) (to_u32 cl)) invalid_cluster
  tt' ← or_fail (atoi t) invalid_type
  reject (not (to_u32 tt' == 255)) harbor_type_error
  sv ← or_fail (atoi s) invalid_server
  reject (ltb server_mask (to_u32 sv)) invalid_server
  ok (pack (to_u32 cl) (to_u32 tt') (to_u32 sv))
make_harbor_parts _ = err invalid_fmt

unfoldable pub make_harbor_logic_addr : List ℕ → Outcome AddrError LogicAddr
make_harbor_logic_addr addr = make_harbor_parts (split addr)

-- `net.ResolveTCPAddr` looks names up: a parameter, `none` for its error.
module _ {NetAddr : Type 0} (resolve : List ℕ → Option NetAddr) where
  unfoldable pub make_addr : List ℕ → List ℕ → Outcome AddrError (LogicAddr × NetAddr)
  make_addr logic tcp_addr = do
    logic_addr ← make_logic_addr logic
    net_addr ← or_fail (resolve tcp_addr) (resolve_failed tcp_addr)
    ok (logic_addr, net_addr)

  unfoldable pub make_harbor_addr : List ℕ → List ℕ → Outcome AddrError (LogicAddr × NetAddr)
  make_harbor_addr logic tcp_addr = do
    logic_addr ← make_harbor_logic_addr logic
    net_addr ← or_fail (resolve tcp_addr) (resolve_failed tcp_addr)
    ok (logic_addr, net_addr)
