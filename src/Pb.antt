-- ===== src/Pb.antt =====
-- codec/pb/pb.go: the registry of message types by id, and marshalling through it.
-- `T` stands for `reflect.Type`, `P` for the messages; protobuf and reflection are the parameter `Proto`.
pub mod Registry
pub mod Marshal
use clustergo.Common.{
  ℕ, zero, suc, ◌+◌, ◌*◌, ◌<◌, ◌≤◌, Bool, List, [], ◌∷◌, ◌++◌, Option, none, some, ltb, leb,
  if◌then◌else◌, Outcome, ok, err, panic, ◌>>=◌, length, set, get_or, replicate, drop,
}
use clustergo.Common.Table.{Table, lookup, insert, bytes_eq, nat_eq}

pub data PbError : Type 0 where
  already_registered unregistered_type : List ℕ → PbError
  invalid_id : ℕ → PbError
  proto_failed : List ℕ → PbError

-- What the registry uses of reflection and of google.golang.org/protobuf.
pub record Proto (T : Type 0) (P : Type 0) : Type 0 where
  pub type_of : P → T
  pub type_name : T → List ℕ
  pub new : T → P
  pub marshal_append : List ℕ → P → Outcome PbError (List ℕ)
  pub unmarshal : List ℕ → P → Outcome PbError P

abbrev pub max_array_size : ℕ
max_array_size = 65536

-- `for i := 1; i <= 64; i++`, with the rounds left.
unfoldable pub array_size_loop : ℕ → ℕ → ℕ → ℕ
array_size_loop zero i id = 0
array_size_loop (suc rounds) i id =
    let more = array_size_loop rounds (i + 1) id in if ltb id (i * 1024) then i * 1024 else more

unfoldable pub get_array_size : ℕ → ℕ
get_array_size id = array_size_loop 64 1 id

-- A nil entry of the array is `none`.
pub record PbMeta (T : Type 0) : Type 0 where
  pub namespace : List ℕ
  pub name_to_id : Table (List ℕ) ℕ
  pub id_to_meta : Table ℕ T
  pub meta_array : List (Option T)

module _ {T : Type 0} where
  abbrev pub empty_meta : List ℕ → PbMeta T
  empty_meta namespace = record {
    namespace = namespace;
    name_to_id = [];
    id_to_meta = [];
    meta_array = [];
  }

  -- `make([]reflect.Type, n)` and the copy of the old array to its front.
  unfoldable pub grow : ℕ → List (Option T) → List (Option T)
  grow n old = old ++ drop (length old) (replicate n none)

  unfoldable pub store_type : PbMeta T → ℕ → T → PbMeta T
  unfolding grow
  store_type m id tt' =
      if ltb id max_array_size
      then (let array =
            if leb (length m.meta_array) id
            then grow (get_array_size id) m.meta_array
            else m.meta_array in
          record m { meta_array = set array id (some tt') })
      else record m { id_to_meta = insert id tt' m.id_to_meta }

  -- The type that `newMessage` finds for an id.
  unfoldable pub type_at : PbMeta T → ℕ → Option T
  type_at m id =
      if ltb id (length m.meta_array) then get_or m.meta_array id none else lookup id m.id_to_meta

module _ {T P : Type 0} (proto : Proto T P) where
  unfoldable pub register : PbMeta T → P → ℕ → Outcome PbError (PbMeta T)
  register m msg id =
      let tt' = proto.type_of msg in
      let name = proto.type_name tt' in
      elim (lookup name m.name_to_id) [
        | some _ ↦ err (already_registered name)
        | none ↦ ok (store_type (record m { name_to_id = insert name id m.name_to_id }) id tt')
      ]

  unfoldable pub new_message : PbMeta T → ℕ → Outcome PbError P
  new_message m id = elim (type_at m id) [
    | none ↦ err (invalid_id id)
    | some tt' ↦ ok (proto.new tt')
  ]

  -- The buffer and the id; the buffer that Go returns beside an error is the old one.
  unfoldable pub marshal : PbMeta T → List ℕ → P → Outcome PbError (List ℕ × ℕ)
  marshal m dst o =
      let name = proto.type_name (proto.type_of o) in
      elim (lookup name m.name_to_id) [
        | none ↦ err (unregistered_type name)
        | some id ↦ (do b ← proto.marshal_append dst o; ok (b, id))
      ]

  unfoldable pub unmarshal : PbMeta T → ℕ → List ℕ → Outcome PbError P
  unmarshal m id buff = do
    msg ← new_message m id
    if ltb 0 (length buff) then proto.unmarshal buff msg else ok msg

  -- The global map of namespaces. `Register` adds a namespace before it registers in it.
  unfoldable pub register_in :
      Table (List ℕ) (PbMeta T)
      → List ℕ
      → P
      → ℕ
      → Outcome PbError (Unit {0}) × Table (List ℕ) (PbMeta T)
  register_in spaces namespace msg id =
      let ns : PbMeta T = elim (lookup namespace spaces) [
        | none ↦ empty_meta namespace
        | some m ↦ m
      ] in
      elim (register ns msg id) [
        | ok m ↦ (ok tt, insert namespace m spaces)
        | err e ↦ (err e, insert namespace ns spaces)
        | panic ↦ (panic, insert namespace ns spaces)
      ]

  -- 0 for a namespace or a type that is not registered.
  unfoldable pub get_cmd : Table (List ℕ) (PbMeta T) → List ℕ → P → ℕ
  get_cmd spaces namespace o = elim (lookup namespace spaces) [
    | none ↦ 0
    | some m ↦ elim (lookup (proto.type_name (proto.type_of o)) m.name_to_id) [
      | none ↦ 0
      | some id ↦ id
    ]
  ]

  unfoldable pub get_meta : Table (List ℕ) (PbMeta T) → List ℕ → Option (PbMeta T)
  get_meta spaces namespace = lookup namespace spaces
