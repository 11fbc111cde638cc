-- ===== src/Pb/Marshal.antt =====
-- Marshalling through the registry.
use clustergo.Pb.{Proto, PbMeta, type_at, register, new_message, marshal, unmarshal}
use clustergo.Pb.Registry.{IsValid, register-type_at}
use clustergo.Common.{ℕ, ◌≡◌, refl, arith, List, [], ◌∷◌, ◌++◌, some, ok}
use clustergo.Common.Table.{lookup, bytes_eq}

module _ {T P : Type 0} (proto : Proto T P) where
  -- What protobuf documents of one message: its bytes are appended to the buffer, and reading them
  -- into a fresh message of its type gives the message; a message without bytes is the fresh one.
  pub record IsWire (o : P) (body : List ℕ) : Type 0 where
    pub appends : (dst : List ℕ) → proto.marshal_append dst o ≡ ok (dst ++ body)
    pub reads : proto.unmarshal body (proto.new (proto.type_of o)) ≡ ok o
    pub fresh : body ≡ [] → proto.new (proto.type_of o) ≡ o

  pub unmarshal-body :
      (m : PbMeta T) (id : ℕ) (o : P) (body : List ℕ)
      → type_at m id ≡ some (proto.type_of o)
      → IsWire o body
      → unmarshal proto m id body ≡ ok o
  unfolding unmarshal new_message
  unmarshal-body m id o [] e w = ground (arith, e, w.fresh refl)
  unmarshal-body m id o (b ∷ body) e w = ground (arith, e, w.reads)

  pub marshal-body :
      (m : PbMeta T) (id : ℕ) (o : P) (body dst : List ℕ)
      → lookup (proto.type_name (proto.type_of o)) m.name_to_id ≡ some id
      → IsWire o body
      → marshal proto m dst o ≡ ok (dst ++ body, id)
  unfolding marshal
  marshal-body m id o body dst e w = ground (arith, e, w.appends dst)

  -- After a successful registration in a valid registry, `Marshal` of that message appends its bytes
  -- and hands out the registered id, and `Unmarshal` of these bytes under that id gives the message.
  pub unmarshal-marshal :
      (m m' : PbMeta T) (o : P) (id : ℕ) (body dst : List ℕ)
      → IsValid m
      → register proto m o id ≡ ok m'
      → IsWire o body
      → (marshal proto m' dst o ≡ ok (dst ++ body, id)) × (unmarshal proto m' id body ≡ ok o)
  unmarshal-marshal m m' o id body dst v e w =
      let (_, stands, named) = register-type_at proto m m' o id id v e in
      (
        marshal-body m' id o body dst named w,
        unmarshal-body m' id o body (ground (arith, stands)) w,
      )
