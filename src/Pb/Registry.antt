-- ===== src/Pb/Registry.antt =====
-- The array with its overflow table behaves as one map from ids to types.
use clustergo.Pb.{
  Proto, PbMeta, array_size_loop, get_array_size, max_array_size, grow, store_type, type_at,
  register, empty_meta,
}
use clustergo.Common.{
  ℕ, zero, suc, ◌+◌, ◌-◌, ◌*◌, ◌<◌, ◌≤◌, ◌≡◌, refl, ap, ◌∙◌, arith, List, [], ◌∷◌, ◌++◌, Option,
  none, some, ltb, leb, ◌==◌, if◌then◌else◌, ok, length, length-append, length-drop,
  length-replicate, length-set, set, get_or, replicate, drop, Bool-cases, inl, inr, Option-cases,
  lt→ltb, ltb→lt, le→ltb_false,
}
use clustergo.Common.Table.{lookup, insert, lookup-insert, bytes_eq, nat_eq}

array_size_loop_bounds :
    (rounds i id : ℕ)
    → 1024 * (i - 1) ≤ id
    → 0 < i
    → id < 1024 * (i + rounds - 1)
    → (id < array_size_loop rounds i id)
      × (array_size_loop rounds i id ≤ id + 1024)
      × (array_size_loop rounds i id ≤ 1024 * (i + rounds - 1))
unfolding array_size_loop
array_size_loop_bounds zero i id lo p hi = absurd (omega arith)
array_size_loop_bounds (suc rounds) i id lo p hi =
    ground (arith, array_size_loop_bounds rounds (i + 1) id)

-- For an id that goes into the array, `getArraySize` has room for it and at most 1024 slots more.
pub get_array_size_bounds :
    (id : ℕ)
    → id < max_array_size
    → (id < get_array_size id)
      × (get_array_size id ≤ id + 1024)
      × (get_array_size id ≤ max_array_size)
unfolding get_array_size
get_array_size_bounds id h =
    array_size_loop_bounds 64 1 id (omega arith) (omega arith) (omega arith)

module _ {T : Type 0} where
  abbrev slot : List (Option T) → ℕ → Option T
  slot xs i = get_or xs i none

  slot_beyond : (xs : List (Option T)) (i : ℕ) → length xs ≤ i → slot xs i ≡ none
  slot_beyond [] i h = refl
  slot_beyond (x ∷ xs) zero h = absurd (omega arith)
  slot_beyond (x ∷ xs) (suc i) h = slot_beyond xs i (omega arith)

  slot-set :
      (xs : List (Option T)) (i j : ℕ) (v : Option T)
      → i < length xs
      → slot (set xs i v) j ≡ (if i == j then v else slot xs j)
  slot-set [] i j v h = absurd (omega arith)
  slot-set (x ∷ xs) zero zero v h = refl
  slot-set (x ∷ xs) zero (suc j) v h = ground arith
  slot-set (x ∷ xs) (suc i) zero v h = ground arith
  slot-set (x ∷ xs) (suc i) (suc j) v h = ground (arith, slot-set xs i j v)

  slot-replicate : (n k i : ℕ) → slot (drop k (replicate n none)) i ≡ none
  slot-replicate zero zero i = refl
  slot-replicate zero (suc k) i = refl
  slot-replicate (suc n) zero zero = refl
  slot-replicate (suc n) zero (suc i) = slot-replicate n zero i
  slot-replicate (suc n) (suc k) i = slot-replicate n k i

  slot-append_none :
      (xs ys : List (Option T)) (i : ℕ)
      → ((j : ℕ) → slot ys j ≡ none)
      → slot (xs ++ ys) i ≡ slot xs i
  slot-append_none [] ys i h = h i
  slot-append_none (x ∷ xs) ys zero h = refl
  slot-append_none (x ∷ xs) ys (suc i) h = slot-append_none xs ys i h

  slot-grow : (n : ℕ) (xs : List (Option T)) (i : ℕ) → slot (grow n xs) i ≡ slot xs i
  unfolding grow
  slot-grow n xs i = slot-append_none xs _ i (slot-replicate n (length xs))

  length-grow : (n : ℕ) (xs : List (Option T)) → length xs ≤ n → length (grow n xs) ≡ n
  unfolding grow
  length-grow n xs h = omega (
    arith,
    length-append xs (drop (length xs) (replicate n none)),
    length-drop (length xs) (replicate {A = Option T} n none),
    length-replicate {A = Option T} n none,
  )

  -- The array ends at 65536, and the table has no id below that.
  pub record IsValid (m : PbMeta T) : Type 0 where
    pub array_fits : length m.meta_array ≤ max_array_size
    pub table_high : (id : ℕ) → id < max_array_size → lookup id m.id_to_meta ≡ none

  pub empty-IsValid : (namespace : List ℕ) → IsValid (empty_meta namespace)
  empty-IsValid namespace = record {
    array_fits = omega arith;
    table_high = λ id h. unfold lookup in refl;
  }

  -- `type_at` as one map.
  type_at-parts :
      (m : PbMeta T) (id : ℕ)
      → IsValid m
      → type_at m id
        ≡ (if ltb id max_array_size then slot m.meta_array id else lookup id m.id_to_meta)
  unfolding type_at
  type_at-parts m id v = ground (arith, v.array_fits, v.table_high id, slot_beyond m.meta_array id)

  -- The array that an id below the limit is written to.
  abbrev room : PbMeta T → ℕ → List (Option T)
  room m id =
      if leb (length m.meta_array) id then grow (get_array_size id) m.meta_array else m.meta_array

  room-length :
      (m : PbMeta T) (id : ℕ)
      → IsValid m
      → id < max_array_size
      → (id < length (room m id)) × (length (room m id) ≤ max_array_size)
  room-length m id v h =
      let s = get_array_size_bounds id h in
      ground (arith, s, v.array_fits, length-grow (get_array_size id) m.meta_array)

  room-slot : (m : PbMeta T) (id j : ℕ) → slot (room m id) j ≡ slot m.meta_array j
  room-slot m id j = ground (arith, slot-grow (get_array_size id) m.meta_array j)

  store_low :
      (m : PbMeta T) (id : ℕ) (t : T)
      → id < max_array_size
      → store_type m id t ≡ record m { meta_array = set (room m id) id (some t) }
  unfolding store_type
  store_low m id t h = rw (lt→ltb id max_array_size h)

  store_high :
      (m : PbMeta T) (id : ℕ) (t : T)
      → max_array_size ≤ id
      → store_type m id t ≡ record m { id_to_meta = insert id t m.id_to_meta }
  unfolding store_type
  store_high m id t h = rw (le→ltb_false id max_array_size h)

  pub store_type-IsValid : (m : PbMeta T) (id : ℕ) (t : T) → IsValid m → IsValid (store_type m id t)
  store_type-IsValid m id t v = elim (Bool-cases (ltb id max_array_size)) [
    | inl low ↦
        let h = ltb→lt id max_array_size low in
        rw (store_low m id t h) (record {
          array_fits = omega (arith, room-length m id v h, length-set (room m id) id (some t));
          table_high = v.table_high;
        })
    | inr high ↦ rw (store_high m id t (ground arith)) (record {
      array_fits = v.array_fits;
      table_high = λ j h. ground (arith, lookup-insert id j t m.id_to_meta, v.table_high j h);
    })
  ]

  pub store_type-type_at :
      (m : PbMeta T) (id j : ℕ) (t : T)
      → IsValid m
      → type_at (store_type m id t) j ≡ (if id == j then some t else type_at m j)
  store_type-type_at m id j t v =
      let after = type_at-parts (store_type m id t) j (store_type-IsValid m id t v) in
      elim (Bool-cases (ltb id max_array_size)) [
        | inl low ↦
            let h = ltb→lt id max_array_size low in
            ground (
              arith,
              after,
              type_at-parts m j v,
              store_low m id t h,
              room-slot m id j,
              slot-set (room m id) id j (some t) (room-length m id v h).0,
            )
        | inr high ↦ ground (
          arith,
          after,
          type_at-parts m j v,
          store_high m id t,
          lookup-insert id j t m.id_to_meta,
        )
      ]

module _ {T : Type 0} where
  names-store_type : (m : PbMeta T) (id : ℕ) (t : T) → (store_type m id t).name_to_id ≡ m.name_to_id
  unfolding store_type
  names-store_type m id t = ground arith

  abbrev named : PbMeta T → List ℕ → ℕ → PbMeta T
  named m name id = record m { name_to_id = insert name id m.name_to_id }

  type_at-named :
      (m : PbMeta T) (name : List ℕ) (id j : ℕ) → type_at (named m name id) j ≡ type_at m j
  unfolding type_at
  type_at-named m name id j = refl

  named-IsValid : (m : PbMeta T) (name : List ℕ) (id : ℕ) → IsValid m → IsValid (named m name id)
  named-IsValid m name id v = record { array_fits = v.array_fits; table_high = v.table_high }

module _ {T P : Type 0} (proto : Proto T P) where
  -- A registration that succeeds in a valid registry leaves it valid. Afterwards the id stands for the
  -- message's type, and every other id for what it stood for before, on either side of the array's
  -- end and whether or not the array had to grow; and the type's name stands for the id.
  pub register-type_at :
      (m m' : PbMeta T) (msg : P) (id j : ℕ)
      → IsValid m
      → register proto m msg id ≡ ok m'
      → IsValid m'
        × (type_at m' j ≡ (if id == j then some (proto.type_of msg) else type_at m j))
        × (lookup (proto.type_name (proto.type_of msg)) m'.name_to_id ≡ some id)
  unfolding register
  register-type_at m m' msg id j v e = elim (Option-cases (lookup name m.name_to_id)) [
    | inl new ↦
        let stored : store_type (named m name id) id t ≡ m' = ground arith in
        let v' = named-IsValid m name id v in
        rw (← stored) (
          store_type-IsValid (named m name id) id t v',
          store_type-type_at (named m name id) id j t v'
              ∙ ap (λ x. if id == j then some t else x) (type_at-named m name id j),
          rw (names-store_type (named m name id) id t)
              (ground (arith, lookup-insert name name id m.name_to_id, bytes_eq.beq_iff name name)),
        )
    | inr (k, old) ↦ absurd (ground arith)
  ]
    where
      t : T
      t = proto.type_of msg

      name : List ℕ
      name = proto.type_name t
