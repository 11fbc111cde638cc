-- ===== src/Tests/Registries.antt =====
-- codec/pb/pb.go, with messages of two types, 0 and 1, that are their own bytes.
use clustergo.Pb.{
  PbError, Proto, PbMeta, empty_meta, register, store_type, type_at, get_array_size,
  array_size_loop, grow,
}
use clustergo.Pb.Registry.{IsValid, empty-IsValid, register-type_at}
use clustergo.Pb.Marshal.{IsWire}
use clustergo.Common.{ℕ, ◌≡◌, refl, List, [], ◌∷◌, ◌++◌, some, ◌==◌, if◌then◌else◌, Outcome, ok}
use clustergo.Common.Table.{lookup, insert, bytes_eq}

-- A message: its type and its one byte; a fresh one has byte 0.
pub record Note : Type 0 where
  pub kind : ℕ
  pub byte : ℕ

abbrev pub note_unmarshal : List ℕ → Note → Outcome PbError Note
note_unmarshal [] n = ok n
note_unmarshal (b ∷ bs) n = ok (record n { byte = b })

abbrev pub notes : Proto ℕ Note
notes = record {
  type_of = λ n. n.kind;
  type_name = λ t. t ∷ [];
  new = λ t. record { kind = t; byte = 0 };
  marshal_append = λ dst n. ok (dst ++ (n.byte ∷ []));
  unmarshal = note_unmarshal;
}

abbrev pub note_7 : Note
note_7 = record { kind = 1; byte = 7 }

pub note_7-IsWire : IsWire notes note_7 (7 ∷ [])
note_7-IsWire = record { appends = λ dst. refl; reads = refl; fresh = λ e. cc }

abbrev no_types : PbMeta ℕ
no_types = empty_meta []

unfoldable pub one_type : PbMeta ℕ
unfolding store_type grow get_array_size array_size_loop
one_type = store_type (record no_types { name_to_id = (1 ∷ [], 3) ∷ [] }) 3 1

pub registered : register notes no_types note_7 3 ≡ ok one_type
unfolding register lookup insert one_type
registered = refl

register-type_at_example :
    IsValid one_type
    × (type_at one_type 5 ≡ (if 3 == 5 then some 1 else type_at no_types 5))
    × (lookup (1 ∷ []) one_type.name_to_id ≡ some 3)
register-type_at_example =
    register-type_at notes no_types one_type note_7 3 5 (empty-IsValid []) registered
