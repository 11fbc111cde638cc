-- ===== src/Crypto/RoundTrip.antt =====
-- Decryption undoes encryption, for a cipher that undoes itself.
use clustergo.Crypto.{
  Cipher, fix_key, padding_data, block_size, nonce_size, aes_encrypt, aes_decrypt, aes_cbc_encrypt,
  aes_cbc_decrypter, plain_of,
}
use clustergo.Endian.{big_endian, put, value, length-put, value-put}
use clustergo.Common.{
  ℕ, ◌+◌, ◌-◌, ◌%◌, ◌^◌, ◌<◌, ◌≡◌, refl, ap, ◌∙◌, arith, true, false, List, ◌++◌, some, ltb, ◌==◌,
  length, length-append, length-replicate, take, replicate, take-append_left, drop-append_left,
  append_assoc, ok,
}

module _ {B : Type 0} (cipher : Cipher B) where
  -- Under a library whose `Open` gives back what `Seal` was handed for a block and a nonce, and with a key
  -- that it accepts: `AESDecrypt` gives back what `AESEncrypt` was handed, for every nonce of 12 bytes.
  pub aes_decrypt-aes_encrypt :
      (key plain nonce : List ℕ) (block : B)
      → cipher.new_cipher key ≡ some block
      → ((n p : List ℕ) → cipher.open_sealed block n (cipher.seal block n p) ≡ some p)
      → length nonce ≡ nonce_size
      → (sealed : List ℕ) × (aes_encrypt cipher key plain nonce ≡ ok sealed)
        × (aes_decrypt cipher key sealed ≡ ok plain)
  unfolding aes_encrypt aes_decrypt
  aes_decrypt-aes_encrypt key plain nonce block accepted opens size =
      let sealed = nonce ++ cipher.seal block nonce plain in
      let long : ltb (length sealed) nonce_size ≡ false =
        ground (arith, size, length-append nonce (cipher.seal block nonce plain)) in
      let front = take-append_left nonce_size nonce (cipher.seal block nonce plain) size in
      let back = drop-append_left nonce_size nonce (cipher.seal block nonce plain) size in
      (sealed, rw accepted refl, rw (accepted, long, front, back, opens nonce plain) refl)

padding_data-length : (b : List ℕ) → length (padding_data b 16) % 16 ≡ 0
unfolding padding_data
padding_data-length b =
    let ret = put big_endian 4 (length b % 2 ^ 32) ++ b in
    let padding = 16 - length ret % 16 in
    omega (
      arith,
      length-append ret (replicate padding (padding % 2 ^ 8)),
      length-replicate padding (padding % 2 ^ 8),
    )

-- The size in front of the padded bytes gives the bytes back, whatever follows.
plain_of-padding_data :
    {B : Type 0} (cipher : Cipher B) (b spare : List ℕ)
    → length b < 2 ^ 32
    → plain_of cipher (padding_data b 16 ++ spare) ≡ ok b
unfolding plain_of padding_data
plain_of-padding_data cipher b spare fits =
    let head = put big_endian 4 (length b % 2 ^ 32) in
    let padding = 16 - length (head ++ b) % 16 in
    let tail = replicate padding (padding % 2 ^ 8) ++ spare in
    let four = length-put big_endian 4 (length b % 2 ^ 32) in
    let whole : ((head ++ b) ++ replicate padding (padding % 2 ^ 8)) ++ spare
        ≡ head ++ (b ++ tail) =
      simp append_assoc in
    let size : value big_endian (take 4 (head ++ (b ++ tail))) ≡ length b =
      ap (value big_endian) (take-append_left 4 head (b ++ tail) four)
      ∙ value-put big_endian 4 (length b % 2 ^ 32) (omega arith)
      ∙ omega (arith, fits) in
    let lens = length-append head (b ++ tail) in
    let lens' = length-append b tail in
    let long : ltb (length (head ++ (b ++ tail))) 4 ≡ false = ground (arith, lens, four) in
    let enough : ltb (length (head ++ (b ++ tail))) (4 + length b) ≡ false =
      ground (arith, lens, lens', four) in
    rw
      (
        whole,
        long,
        size,
        enough,
        drop-append_left 4 head (b ++ tail) four,
        take-append_left (length b) b tail refl,
      )
      refl

module _ {B : Type 0} (cipher : Cipher B) where
  -- Under a library whose CBC decryption undoes its encryption and whose encryption keeps the length, on
  -- whole blocks, and with a key that it accepts behind `fixKey`: `AESCBCDecrypter` gives back what
  -- `AESCBCEncrypt` was handed, of fewer than 2^32 bytes, for every iv of 16 bytes and whatever lies in
  -- the buffer behind the ciphertext.
  pub aes_cbc_decrypter-aes_cbc_encrypt :
      (key plain iv spare : List ℕ) (block : B)
      → cipher.new_cipher (fix_key key) ≡ some block
      → ((v p : List ℕ)
          → length p % 16 ≡ 0
          → cipher.cbc_decrypt block v (cipher.cbc_encrypt block v p) ≡ p)
      → ((v p : List ℕ) → length p % 16 ≡ 0 → length (cipher.cbc_encrypt block v p) ≡ length p)
      → length iv ≡ block_size
      → length plain < 2 ^ 32
      → (secret : List ℕ) × (aes_cbc_encrypt cipher key plain iv ≡ ok secret)
        × (aes_cbc_decrypter cipher key secret spare ≡ ok plain)
  unfolding aes_cbc_encrypt aes_cbc_decrypter
  aes_cbc_decrypter-aes_cbc_encrypt key plain iv spare block accepted undoes keeps size fits =
      let padded = padding_data plain 16 in
      let body = cipher.cbc_encrypt block iv padded in
      let blocks = padding_data-length plain in
      let long : ltb (length (iv ++ body)) block_size ≡ false =
        ground (arith, size, length-append iv body) in
      let front = take-append_left block_size iv body size in
      let back = drop-append_left block_size iv body size in
      let multiple : (length body % 16 == 0) ≡ true =
        ground (arith, keeps iv padded blocks, blocks) in
      (
        iv ++ body,
        rw accepted refl,
        rw (accepted, long, front, back, multiple, undoes iv padded blocks)
            (plain_of-padding_data cipher plain spare fits),
      )
