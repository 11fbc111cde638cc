-- ===== src/Crypto.antt =====
-- pkg/crypto/aes.go: keys, padding, and the two modes of AES. The block cipher and its modes are of Go's
-- library, and a parameter; what `rand.Reader` gives is an argument.
pub mod Keys
pub mod RoundTrip
use clustergo.Common.{
  ℕ, ◌+◌, ◌-◌, ◌%◌, ◌^◌, List, [], ◌∷◌, ◌++◌, Option, none, some, ltb, leb, ◌==◌, not,
  if◌then◌else◌, length, take, drop, replicate, Outcome, ok, err, panic, ◌>>=◌, ◌>>◌, or_fail,
  reject,
}
use clustergo.Endian.{big_endian, put, value}

pub data CryptoError : Type 0 where
  key_size_error ciphertext_too_short not_a_multiple authentication_failed : CryptoError

-- `aes.NewCipher`, with `none` for its error; `Seal` and `Open` of GCM with its usual nonce of 12 bytes;
-- `CryptBlocks` of CBC. `B` stands for blocks.
pub record Cipher (B : Type 0) : Type 0 where
  pub new_cipher : List ℕ → Option B
  pub seal : B → List ℕ → List ℕ → List ℕ
  pub open_sealed : B → List ℕ → List ℕ → Option (List ℕ)
  pub cbc_encrypt : B → List ℕ → List ℕ → List ℕ
  pub cbc_decrypt : B → List ℕ → List ℕ → List ℕ

abbrev pub min_key_size : ℕ
min_key_size = 32

abbrev pub block_size : ℕ
block_size = 16

abbrev pub nonce_size : ℕ
nonce_size = 12

unfoldable pub key_size : ℕ → ℕ
key_size n = if ltb n 16 then 16 else if ltb n 24 then 24 else 32

unfoldable pub fix_key : List ℕ → List ℕ
fix_key key =
    if ltb 32 (length key)
    then take 32 key
    else (let size = key_size (length key) in
        let padding = size - length key % size in key ++ replicate padding (padding % 2 ^ 8))

-- The first `paddingSize` is a capacity only.
unfoldable pub padding_data : List ℕ → ℕ → List ℕ
padding_data ciphertext size =
    let ret = put big_endian 4 (length ciphertext % 2 ^ 32) ++ ciphertext in
    let padding = size - length ret % size in ret ++ replicate padding (padding % 2 ^ 8)

-- A key of the environment, if it is set and not empty, else `def`.
unfoldable pub load_key : Option (List ℕ) → List ℕ → List ℕ
load_key env def =
    let raw : List ℕ = elim env [ none ↦ def | some v ↦ if length v == 0 then def else v ] in
    if leb min_key_size (length raw)
    then (if ltb 32 (length raw) then take 32 raw else raw)
    else raw ++ replicate (min_key_size - length raw) 0

module _ {B : Type 0} (cipher : Cipher B) where
  unfoldable pub aes_cbc_encrypt : List ℕ → List ℕ → List ℕ → Outcome CryptoError (List ℕ)
  aes_cbc_encrypt key plain iv = do
    block ← or_fail (cipher.new_cipher (fix_key key)) key_size_error
    ok (iv ++ cipher.cbc_encrypt block iv (padding_data plain block_size))

  -- The size that was decrypted is believed; `spare` are the bytes between the ciphertext's length and its
  -- capacity, which Go's slices reach.
  unfoldable pub plain_of : List ℕ → Outcome CryptoError (List ℕ)
  plain_of b =
      if ltb (length b) 4
      then panic
      else (let size = value big_endian (take 4 b) in
          if ltb (length b) (4 + size) then panic else ok (take size (drop 4 b)))

  unfoldable pub aes_cbc_decrypter : List ℕ → List ℕ → List ℕ → Outcome CryptoError (List ℕ)
  aes_cbc_decrypter key cipherbyte spare = do
    block ← or_fail (cipher.new_cipher (fix_key key)) key_size_error
    reject (ltb (length cipherbyte) block_size) ciphertext_too_short
    reject (not (length (drop block_size cipherbyte) % block_size == 0)) not_a_multiple
    plain_of (
        cipher.cbc_decrypt block (take block_size cipherbyte) (drop block_size cipherbyte) ++ spare)

  unfoldable pub aes_encrypt : List ℕ → List ℕ → List ℕ → Outcome CryptoError (List ℕ)
  aes_encrypt key plain nonce = do
    block ← or_fail (cipher.new_cipher key) key_size_error
    ok (nonce ++ cipher.seal block nonce plain)

  unfoldable pub aes_decrypt : List ℕ → List ℕ → Outcome CryptoError (List ℕ)
  aes_decrypt key b = do
    block ← or_fail (cipher.new_cipher key) key_size_error
    reject (ltb (length b) nonce_size) ciphertext_too_short
    or_fail (cipher.open_sealed block (take nonce_size b) (drop nonce_size b)) authentication_failed
