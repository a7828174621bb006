-- ===== src/Packet/Tests.antt =====
-- Packets of the stand-in crypto: runs, and the theorems of Packet at them.
use peernet_core.Prelude.{
  ℕ, ◌+◌, ◌≡◌, ◌≢◌, ◌≤◌, ◌<◌, ◌⊎◌, ◌↔◌, ◌^◌, ◌%◌, refl, List, [], ◌∷◌, ◌++◌, arith, take, length,
  zeros, replicate, length-zeros, ok, panic, some, copy_at, slice, minus, ◌-◌,
}
use peernet_core.Fixtures.{toy_crypto, toy_rand}
use peernet_core.Packet.{
  PacketRaw, packet_length_min, packet_encrypt, packet_decrypt, hash_data, packet_garbage, fill,
  nonce_of, read_fields,
}
use peernet_core.Packet.RoundTrip.{decrypt-encrypt, packet_encrypt-panic_iff, decrypt-encrypt_long}
use peernet_core.Packet.Decoding.{packet_decrypt-accepted, signature_of}
use peernet_core.Packet.Encrypt.{signed, stream, packet_encrypt-signed}

abbrev hello : PacketRaw
hello = record { protocol = 0; command = 10; payload = 104 ∷ 105 ∷ [] }

-- The packet for `hello` from key 7 to key 9, with three bytes of garbage.
abbrev wire : List ℕ
wire = 4 ∷ 3 ∷ 2 ∷ 1 ∷ 255 ∷ 245 ∷ 253 ∷ 255 ∷ 151 ∷ 150 ∷ 255 ∷ 255 ∷ 255 ∷ 248 ∷ replicate 64 255

made : packet_encrypt toy_crypto toy_rand 7 9 hello ≡ ok wire
unfolding packet_encrypt packet_garbage fill nonce_of copy_at
made = refl

decrypt-encrypt_example : packet_decrypt toy_crypto wire 9 ≡ ok (hello, 7)
decrypt-encrypt_example = decrypt-encrypt toy_crypto toy_rand hello 7 9 wire made (omega arith)

packet_encrypt-panic_iff_example :
    (packet_encrypt toy_crypto toy_rand 7 9 (record hello { payload = zeros 420 }) ≡ panic) ↔ (
      ((489 ≤ packet_length_min + length (zeros 420))
        × (packet_length_min + length (zeros 420) < 508))
      ⊎ ((1453 ≤ packet_length_min + length (zeros 420))
          × (packet_length_min + length (zeros 420) < 1472)))
packet_encrypt-panic_iff_example =
    packet_encrypt-panic_iff toy_crypto toy_rand (record hello { payload = zeros 420 }) 7 9

opened : packet_decrypt toy_crypto wire 9 ≡ ok (hello, 7)
unfolding packet_decrypt read_fields nonce_of copy_at slice minus
opened = refl

packet_decrypt-accepted_example :
    (toy_crypto.recover_compact
        (signature_of toy_crypto wire 9)
        (hash_data toy_crypto (take (length wire - 65) wire))
      ≡ some 7)
    × (packet_length_min + 2 ≤ length wire)
packet_decrypt-accepted_example =
    packet_decrypt-accepted toy_crypto wire 9 hello 7 (omega arith) opened

-- A payload of 65536 bytes.
large : PacketRaw
large = record { protocol = 0; command = 10; payload = zeros 65536 }

length-large : length large.payload ≡ 65536
unfolding large
length-large = length-zeros 65536

large_garbage : packet_garbage toy_rand (packet_length_min + length large.payload) ≡ ok (zeros 3)
unfolding packet_garbage
large_garbage = rw length-large refl

decrypt-encrypt_long_example :
    (packet_decrypt toy_crypto
        (signed toy_crypto toy_rand large (zeros 3) 9
          ++ stream toy_crypto toy_rand large (zeros 3) 9 (7 ∷ zeros 64))
        9
      ≡ ok (record large { payload = take (length large.payload % 2 ^ 16) large.payload }, 7))
    × (take (length large.payload % 2 ^ 16) large.payload ≢ large.payload)
decrypt-encrypt_long_example =
    decrypt-encrypt_long toy_crypto toy_rand large 7 9 _
      (packet_encrypt-signed toy_crypto toy_rand large (zeros 3) 7 9 (7 ∷ zeros 64) large_garbage
        refl)
      (omega (arith, length-large))
