-- ===== src/Addr/Parse.antt =====
-- `MakeLogicAddr` and `MakeHarborLogicAddr`: what they accept, and that they read back `String`.
use clustergo.Addr.{
  LogicAddr, harbor_type, cluster, type, server, string, split, pack, decimal, atoi, make_parts,
  make_logic_addr, make_harbor_parts, make_harbor_logic_addr, invalid_type,
}
use clustergo.Addr.Fields.{fields_sum, fields-pack, cluster_div, type_div, server_mod, pack_sum}
use clustergo.Addr.Decimal.{decimal-IsDigit, atoi-decimal, split-last, split-join}
use clustergo.Common.{
  ℕ, zero, suc, ◌*◌, ◌^◌, ◌≤◌, ◌<◌, ◌≡◌, ◌≢◌, refl, ap, ◌∙◌, arith, List, [], ◌∷◌, ◌++◌, some, ok,
  Option-cases, inl, inr, false, err,
}
use clustergo.Common.Int.{ℤ, pos, to_u32, is_zero}

split-string :
    (a : LogicAddr)
    → split (string a) ≡ decimal (cluster a) ∷ decimal (type a) ∷ decimal (server a) ∷ []
unfolding string
split-string a = rw (
  split-join (decimal (cluster a)) _ (decimal-IsDigit _),
  split-join (decimal (type a)) _ (decimal-IsDigit _),
  split-last (decimal (server a)) (decimal-IsDigit _),
)

field_bounds :
    (a : LogicAddr) → a < 2 ^ 32 → (cluster a < 2 ^ 14) × (type a < 2 ^ 8) × (server a < 2 ^ 10)
field_bounds a h = omega (arith, cluster_div a h, type_div a, server_mod a)

repack : (a : LogicAddr) → a < 2 ^ 32 → pack (cluster a) (type a) (server a) ≡ a
repack a h =
    let (c, t, s) = field_bounds a h in
    omega (arith, fields_sum a h, pack_sum (cluster a) (type a) (server a) c t s)

module _ (c t s : List ℕ) where
  make_parts_accepts :
      (cl tv sv : ℤ)
      → atoi c ≡ some cl
      → atoi t ≡ some tv
      → atoi s ≡ some sv
      → is_zero cl ≡ false
      → to_u32 cl ≤ 0x3fff
      → is_zero tv ≡ false
      → to_u32 tv ≤ 254
      → to_u32 sv ≤ 0x3ff
      → make_parts (c ∷ t ∷ s ∷ []) ≡ ok (pack (to_u32 cl) (to_u32 tv) (to_u32 sv))
  unfolding make_parts
  make_parts_accepts cl tv sv ec et es zc bc zt bt bs = ground arith

  make_parts_refuses_harbor :
      (cl tv : ℤ)
      → atoi c ≡ some cl
      → atoi t ≡ some tv
      → is_zero cl ≡ false
      → to_u32 cl ≤ 0x3fff
      → to_u32 tv ≡ 255
      → make_parts (c ∷ t ∷ s ∷ []) ≡ err invalid_type
  unfolding make_parts
  make_parts_refuses_harbor cl tv ec et zc bc bt = ground arith

  -- What was accepted is a packing of fields in range.
  make_parts_ok :
      (a : LogicAddr)
      → make_parts (c ∷ t ∷ s ∷ []) ≡ ok a
      → (u v w : ℕ) × (u < 2 ^ 14) × (v ≤ 254) × (w < 2 ^ 10) × (a ≡ pack u v w)
  unfolding make_parts
  make_parts_ok a h = elim (Option-cases (atoi c)) [
    | inl e ↦ ground arith
    | inr (cl, ec) ↦ elim (Option-cases (atoi t)) [
      | inl e ↦ ground arith
      | inr (tv, et) ↦ elim (Option-cases (atoi s)) [
        | inl e ↦ ground arith
        | inr (sv, es) ↦ (
          to_u32 cl,
          to_u32 tv,
          to_u32 sv,
          ground arith,
          ground arith,
          ground arith,
          ground arith,
        )
      ]
    ]
  ]

  make_harbor_parts_ok :
      (a : LogicAddr)
      → make_harbor_parts (c ∷ t ∷ s ∷ []) ≡ ok a
      → (u w : ℕ) × (u < 2 ^ 14) × (w < 2 ^ 10) × (a ≡ pack u 255 w)
  unfolding make_harbor_parts
  make_harbor_parts_ok a h = elim (Option-cases (atoi c)) [
    | inl e ↦ ground arith
    | inr (cl, ec) ↦ elim (Option-cases (atoi t)) [
      | inl e ↦ ground arith
      | inr (tv, et) ↦ elim (Option-cases (atoi s)) [
        | inl e ↦ ground arith
        | inr (sv, es) ↦ (to_u32 cl, to_u32 sv, ground arith, ground arith, ground arith)
      ]
    ]
  ]

parts_type :
    (ps : List (List ℕ)) (a : LogicAddr) → make_parts ps ≡ ok a → (a < 2 ^ 32) × (type a ≢ 255)
parts_type (c ∷ t ∷ s ∷ []) a h =
    let (u, v, w, bu, bv, bw, e) = make_parts_ok c t s a h in
    let (_, ft, _, fits) = fields-pack u v w bu (omega arith) bw in rw e (fits, omega (arith, ft))
parts_type [] a h = unfold make_parts in cc
parts_type (c ∷ []) a h = unfold make_parts in cc
parts_type (c ∷ t ∷ []) a h = unfold make_parts in cc
parts_type (c ∷ t ∷ s ∷ x ∷ r) a h = unfold make_parts in cc

harbor_parts_type :
    (ps : List (List ℕ)) (a : LogicAddr)
    → make_harbor_parts ps ≡ ok a
    → (a < 2 ^ 32) × (type a ≡ 255)
harbor_parts_type (c ∷ t ∷ s ∷ []) a h =
    let (u, w, bu, bw, e) = make_harbor_parts_ok c t s a h in
    let (_, ft, _, fits) = fields-pack u 255 w bu (omega arith) bw in rw e (fits, ft)
harbor_parts_type [] a h = unfold make_harbor_parts in cc
harbor_parts_type (c ∷ []) a h = unfold make_harbor_parts in cc
harbor_parts_type (c ∷ t ∷ []) a h = unfold make_harbor_parts in cc
harbor_parts_type (c ∷ t ∷ s ∷ x ∷ r) a h = unfold make_harbor_parts in cc

-- Whatever the text, an address that `MakeLogicAddr` accepts is a uint32 whose type is not the
-- harbors' 255.
pub make_logic_addr-ne-harbor :
    (addr : List ℕ) (a : LogicAddr)
    → make_logic_addr addr ≡ ok a
    → (a < 2 ^ 32) × (type a ≢ harbor_type)
unfolding make_logic_addr
make_logic_addr-ne-harbor addr a h = parts_type (split addr) a h

-- Whatever the text, an address that `MakeHarborLogicAddr` accepts is a uint32 of type 255.
pub make_harbor_logic_addr-harbor :
    (addr : List ℕ) (a : LogicAddr)
    → make_harbor_logic_addr addr ≡ ok a
    → (a < 2 ^ 32) × (type a ≡ harbor_type)
unfolding make_harbor_logic_addr
make_harbor_logic_addr-harbor addr a h = harbor_parts_type (split addr) a h

u32_pos : (n : ℕ) → n < 2 ^ 32 → to_u32 (pos n) ≡ n
unfolding to_u32
u32_pos n h = omega arith

is_zero_pos : (n : ℕ) → n ≢ 0 → is_zero (pos n) ≡ false
is_zero_pos zero h = absurd (h refl)
is_zero_pos (suc n) h = refl

-- `MakeLogicAddr` reads back what `String` writes, for every uint32 address whose cluster is not 0
-- and whose type is neither 0 nor the harbors' 255.
pub make_logic_addr-string :
    (a : LogicAddr)
    → a < 2 ^ 32
    → cluster a ≢ 0
    → type a ≢ 0
    → type a ≢ 255
    → make_logic_addr (string a) ≡ ok a
unfolding make_logic_addr
make_logic_addr-string a h c0 t0 t255 =
    let (c, t, s) = field_bounds a h in
    let uc = u32_pos (cluster a) (omega arith) in
    let ut = u32_pos (type a) (omega arith) in
    let us = u32_pos (server a) (omega arith) in
    rw (split-string a) (
      make_parts_accepts _ _ _ (pos (cluster a)) (pos (type a)) (pos (server a))
        (atoi-decimal _ (omega arith)) (atoi-decimal _ (omega arith)) (atoi-decimal _ (omega arith))
        (is_zero_pos _ c0) (omega (arith, uc)) (is_zero_pos _ t0) (omega (arith, ut))
        (omega (arith, us))
      ∙ rw (uc, ut, us) (ap ok (repack a h)))

-- `MakeLogicAddr` refuses what `String` writes for a harbor, by its type.
pub make_logic_addr_refuses_harbor :
    (a : LogicAddr)
    → a < 2 ^ 32
    → cluster a ≢ 0
    → type a ≡ 255
    → make_logic_addr (string a) ≡ err invalid_type
unfolding make_logic_addr
make_logic_addr_refuses_harbor a h c0 t255 =
    let (c, t, s) = field_bounds a h in
    let uc = u32_pos (cluster a) (omega arith) in
    let ut = u32_pos (type a) (omega arith) in
    rw (split-string a) (
      make_parts_refuses_harbor _ _ _ (pos (cluster a)) (pos (type a))
        (atoi-decimal _ (omega arith)) (atoi-decimal _ (omega arith)) (is_zero_pos _ c0)
        (omega (arith, uc)) (ut ∙ t255))

-- The range check of `MakeLogicAddr` looks at the uint32 conversion: a cluster that is a positive
-- multiple of 2^32 within int64 passes, and the address has cluster 0, which the check is to refuse.
pub make_logic_addr_wraps :
    (k t s : ℕ)
    → 0 < k
    → k < 2 ^ 31
    → 0 < t
    → t ≤ 254
    → s < 2 ^ 10
    → make_logic_addr (decimal (k * 2 ^ 32) ++ (b'.' ∷ (decimal t ++ (b'.' ∷ decimal s))))
      ≡ ok (pack 0 t s)
unfolding make_logic_addr
make_logic_addr_wraps k t s k0 k1 t0 t1 s1 =
    let uc : to_u32 (pos (k * 2 ^ 32)) ≡ 0 = unfold to_u32 in omega arith in
    let ut = u32_pos t (omega arith) in
    let us = u32_pos s (omega arith) in
    rw
      (
        split-join (decimal (k * 2 ^ 32)) _ (decimal-IsDigit _),
        split-join (decimal t) _ (decimal-IsDigit _),
        split-last (decimal s) (decimal-IsDigit _),
      )
      (make_parts_accepts _ _ _ (pos (k * 2 ^ 32)) (pos t) (pos s) (atoi-decimal _ (omega arith))
          (atoi-decimal _ (omega arith)) (atoi-decimal _ (omega arith))
          (is_zero_pos _ (omega arith)) (omega (arith, uc)) (is_zero_pos _ (omega arith))
          (omega (arith, ut)) (omega (arith, us))
        ∙ rw (uc, ut, us) refl)
