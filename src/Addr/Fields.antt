-- ===== src/Addr/Fields.antt =====
-- The masks and shifts of a logical address as arithmetic, and packing.
use clustergo.Addr.{cluster, type, server, pack}
use clustergo.Common.{ℕ, ◌+◌, ◌*◌, ◌/◌, ◌%◌, ◌^◌, ◌<◌, ◌≡◌, refl, ◌∙◌, arith}
use clustergo.Common.Bits.{and_low, and_high, or_fields, or_fields', zero-or}

pub cluster_div : (a : ℕ) → a < 2 ^ 32 → cluster a ≡ a / 2 ^ 18
unfolding cluster
cluster_div a h = omega (arith, and_high 18 a 0x3fff, and_low 14 (a / 2 ^ 18) 0x3fff refl)

pub type_div : (a : ℕ) → type a ≡ a / 2 ^ 10 % 2 ^ 8
unfolding type
type_div a = omega (arith, and_high 10 a 0xff, and_low 8 (a / 2 ^ 10) 0xff refl)

pub server_mod : (a : ℕ) → server a ≡ a % 2 ^ 10
unfolding server
server_mod a = and_low 10 a 0x3ff refl

-- Every uint32 is the packing of its three fields.
pub fields_sum : (a : ℕ) → a < 2 ^ 32 → a ≡ cluster a * 2 ^ 18 + type a * 2 ^ 10 + server a
fields_sum a h = omega (arith, cluster_div a h, type_div a, server_mod a)

pub pack_sum :
    (c t s : ℕ) → c < 2 ^ 14 → t < 2 ^ 8 → s < 2 ^ 10 → pack c t s ≡ c * 2 ^ 18 + t * 2 ^ 10 + s
unfolding pack
pack_sum c t s hc ht hs =
    let tw : t * 2 ^ 10 % 2 ^ 32 ≡ t * 2 ^ 10 = omega arith in
    let cw : c * 2 ^ 18 % 2 ^ 32 ≡ c * 2 ^ 18 = omega arith in
    let sum : c * 2 ^ 18 + t * 2 ^ 10 ≡ (c * 2 ^ 8 + t) * 2 ^ 10 = omega arith in
    rw (tw, cw, zero-or, or_fields 18 (t * 2 ^ 10) c (omega arith), sum)
      (or_fields' 10 s (c * 2 ^ 8 + t) hs ∙ omega arith)

-- The fields of a packed address.
pub fields-pack :
    (c t s : ℕ)
    → c < 2 ^ 14
    → t < 2 ^ 8
    → s < 2 ^ 10
    → (cluster (pack c t s) ≡ c)
      × (type (pack c t s) ≡ t)
      × (server (pack c t s) ≡ s)
      × (pack c t s < 2 ^ 32)
fields-pack c t s hc ht hs =
    let sum = pack_sum c t s hc ht hs in
    let fits : pack c t s < 2 ^ 32 = omega (arith, sum) in
    (
      omega (arith, sum, cluster_div (pack c t s) fits),
      omega (arith, sum, type_div (pack c t s)),
      omega (arith, sum, server_mod (pack c t s)),
      fits,
    )
