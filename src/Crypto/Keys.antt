-- ===== src/Crypto/Keys.antt =====
-- The sizes of keys.
use clustergo.Crypto.{
  Cipher, key_size_error, fix_key, key_size, load_key, aes_cbc_encrypt, aes_cbc_decrypter,
}
use clustergo.Common.{
  ℕ, ◌+◌, ◌-◌, ◌≡◌, ◌≢◌, ◌⊎◌, inl, inr, refl, ◌∙◌, arith, Bool-cases, List, ◌++◌, Option, none,
  some, ltb, leb, ◌==◌, if◌then◌else◌, length, length-append, length-take, length-replicate, take,
  replicate, err,
}

-- The sizes that AES has.
abbrev pub IsKeySize : ℕ → Type 0
IsKeySize n = (n ≡ 16) ⊎ ((n ≡ 24) ⊎ (n ≡ 32))

padded : (key : List ℕ) (n b : ℕ) → length (key ++ replicate n b) ≡ length key + n
padded key n b = omega (arith, length-append key (replicate n b), length-replicate n b)

length-pad : (key : List ℕ) (n b m : ℕ) → length key + n ≡ m → length (key ++ replicate n b) ≡ m
length-pad key n b m h = padded key n b ∙ h

-- `fixKey` brings a key of any length but 32 to a size that AES has; one of 32 bytes, which AES has
-- already, comes out with 64.
pub fix_key-length :
    (key : List ℕ)
    → ((length key ≢ 32) × IsKeySize (length (fix_key key)))
      ⊎ ((length key ≡ 32) × (length (fix_key key) ≡ 64))
unfolding fix_key key_size
fix_key-length key = elim (Bool-cases (ltb 32 (length key))) [
  | inl long ↦
      rw long (inl (ground (arith, long), inr (inr (ground (arith, long, length-take 32 key)))))
  | inr short ↦ elim (Bool-cases (ltb (length key) 16)) [
    | inl a ↦
        rw (short, a) (inl (ground (arith, a), inl (length-pad key _ _ 16 (ground (arith, a)))))
    | inr a ↦ elim (Bool-cases (ltb (length key) 24)) [
      | inl b ↦
          rw (short, a, b)
            (inl (ground (arith, b), inr (inl (length-pad key _ _ 24 (ground (arith, a, b))))))
      | inr b ↦ elim (Bool-cases (length key == 32)) [
        | inl c ↦
            rw (short, a, b) (inr (ground (arith, c), length-pad key _ _ 64 (ground (arith, c))))
        | inr c ↦
            rw (short, a, b)
              (inl (
                ground (arith, c),
                inr (inr (length-pad key _ _ 32 (ground (arith, short, b, c)))),
              ))
      ]
    ]
  ]
]

-- Whatever the environment and the default, `LoadKey` gives a key of 32 bytes.
pub load_key-length : (env : Option (List ℕ)) (def : List ℕ) → length (load_key env def) ≡ 32
unfolding load_key
load_key-length env def = fit (elim env [ none ↦ def | some v ↦ if length v == 0 then def else v ])
  where
    fit :
        (raw : List ℕ)
        → length (
            if leb 32 (length raw)
            then (if ltb 32 (length raw) then take 32 raw else raw)
            else raw ++ replicate (32 - length raw) 0)
          ≡ 32
    fit raw = elim (Bool-cases (leb 32 (length raw))) [
      | inl a ↦ elim (Bool-cases (ltb 32 (length raw))) [
        | inl b ↦ rw (a, b) (ground (arith, b, length-take 32 raw))
        | inr b ↦ rw (a, b) (ground (arith, a, b))
      ]
      | inr a ↦ rw a (length-pad raw _ _ 32 (ground (arith, a)))
    ]

-- Under a library that refuses keys of 64 bytes, whatever the environment and the default: a key that
-- `LoadKey` gives fits neither direction of CBC, and both calls fail with the error of the key's size.
pub aes_cbc-load_key :
    {B : Type 0} (cipher : Cipher B) (env : Option (List ℕ)) (def data_bytes iv spare : List ℕ)
    → ((k : List ℕ) → length k ≡ 64 → cipher.new_cipher k ≡ none)
    → (aes_cbc_encrypt cipher (load_key env def) data_bytes iv ≡ err key_size_error)
      × (aes_cbc_decrypter cipher (load_key env def) data_bytes spare ≡ err key_size_error)
unfolding aes_cbc_encrypt aes_cbc_decrypter
aes_cbc-load_key cipher env def data_bytes iv spare refuses =
    let h : cipher.new_cipher (fix_key (load_key env def)) ≡ none =
      refuses (fix_key (load_key env def)) (elim (fix_key-length (load_key env def)) [
        | inl p ↦ absurd (p.0 (load_key-length env def))
        | inr p ↦ p.1
      ]) in
    (rw h refl, rw h refl)
