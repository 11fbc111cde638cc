-- ===== src/Tests/Ciphers.antt =====
-- pkg/crypto/aes.go and the handshake, with a cipher that puts a byte in front.
use clustergo.Crypto.{
  Cipher, key_size_error, fix_key, key_size, load_key, aes_cbc_encrypt, aes_cbc_decrypter,
}
use clustergo.Crypto.Keys.{aes_cbc-load_key}
use clustergo.Crypto.RoundTrip.{aes_cbc_decrypter-aes_cbc_encrypt}
use clustergo.Cluster.Handshake.{
  Handshake, HandshakeJson, Site, listens, handshake, on_new_connection,
  on_new_connection-handshake,
}
use clustergo.Cluster.Cache.{
  get_node_by_logic_addr, add_one, add_node, enlist, is_visible, new_object,
}
use clustergo.Cluster.Groups.{add_to}
use clustergo.Cluster.Queue.Bounds.{empty_queue}
use clustergo.Addr.{cluster, type}
use clustergo.Tests.Caches.{one_cache, peer_object}
use clustergo.Common.{
  ℕ, ◌≡◌, refl, arith, true, false, List, [], ◌∷◌, ◌++◌, Option, none, some, ◌==◌, if◌then◌else◌,
  length, replicate, ok, err,
}
use clustergo.Common.Table.{lookup, insert, nat_eq}

abbrev open_byte : List ℕ → Option (List ℕ)
open_byte [] = none
open_byte (x ∷ p) = some p

abbrev byte_cipher : Cipher (Unit {0})
byte_cipher = record {
  new_cipher = λ k. if length k == 64 then none else some tt;
  seal = λ b v p. 7 ∷ p;
  open_sealed = λ b v p. open_byte p;
  cbc_encrypt = λ b v p. p;
  cbc_decrypt = λ b v p. p;
}

abbrev key : List ℕ
key = replicate 32 1

abbrev nonce : List ℕ
nonce = replicate 12 2

aes_cbc_decrypter-aes_cbc_encrypt_example :
    (secret : List ℕ) × (aes_cbc_encrypt byte_cipher (5 ∷ []) (1 ∷ 2 ∷ []) (replicate 16 3)
      ≡ ok secret)
    × (aes_cbc_decrypter byte_cipher (5 ∷ []) secret (9 ∷ []) ≡ ok (1 ∷ 2 ∷ []))
unfolding fix_key key_size
aes_cbc_decrypter-aes_cbc_encrypt_example =
    aes_cbc_decrypter-aes_cbc_encrypt byte_cipher (5 ∷ []) (1 ∷ 2 ∷ []) (replicate 16 3) (9 ∷ []) tt
      refl (λ v p h. refl) (λ v p h. refl) refl (omega arith)

refuses_64 : (k : List ℕ) → length k ≡ 64 → byte_cipher.new_cipher k ≡ none
refuses_64 k h = ground (arith, h)

aes_cbc-load_key_example :
    (aes_cbc_encrypt byte_cipher (load_key none (1 ∷ [])) (1 ∷ []) [] ≡ err key_size_error)
    × (aes_cbc_decrypter byte_cipher (load_key none (1 ∷ [])) (1 ∷ []) [] ≡ err key_size_error)
aes_cbc-load_key_example = aes_cbc-load_key byte_cipher none (1 ∷ []) (1 ∷ []) [] [] refuses_64

-- Node 1.2.4 makes itself known to node 1.2.3.
abbrev hello : Handshake
hello = record { logic_addr = 264196; net_addr = b'p' ∷ []; is_stream = true }

abbrev parse_hello : List ℕ → Option Handshake
parse_hello [] = none
parse_hello (a ∷ net) = some (record { logic_addr = a; net_addr = net; is_stream = true })

abbrev hello_json : HandshakeJson
hello_json = record { marshal = λ h. h.logic_addr ∷ h.net_addr; unmarshal = parse_hello }

peer_known : get_node_by_logic_addr one_cache 264196 ≡ some 0
unfolding get_node_by_logic_addr one_cache add_one lookup insert is_visible enlist add_node add_to
    new_object cluster type
peer_known = refl

peer_there : lookup 0 one_cache.objects ≡ some peer_object
unfolding one_cache add_one lookup insert is_visible enlist add_node add_to new_object cluster type
peer_there = refl

-- A stream handler is set, and no node has a connection.
abbrev open_site : Site ℕ
open_site = record {
  has_stream_handler = true;
  reply_written = true;
  smux_starts = true;
  now = 100;
  done = λ c. false;
  queues = λ p. empty_queue;
}

on_new_connection-handshake_example :
    (sent : List ℕ) × (handshake byte_cipher hello_json key hello nonce ≡ ok sent)
    × (on_new_connection byte_cipher hello_json key open_site one_cache (sent ++ (9 ∷ []))
        ≡ ok (0, listens))
on_new_connection-handshake_example =
    on_new_connection-handshake byte_cipher hello_json key open_site one_cache hello nonce (9 ∷ [])
      tt 0 peer_object refl (λ v x. refl) refl refl (omega arith) peer_known peer_there refl
      (refl, refl, refl)
