-- ===== src/Packet/RoundTrip.antt =====
-- Packet Encoding.go: `PacketDecrypt` after `PacketEncrypt`, and what `PacketEncrypt` returns.
use peernet_core.Prelude.{
  ℕ, ◌+◌, ◌-◌, ◌/◌, ◌%◌, ◌^◌, ◌≡◌, ◌≢◌, ◌≤◌, ◌<◌, ◌⊎◌, ◌↔◌, inl, inr, refl, sym, ap, ◌∙◌, List,
  ◌++◌, arith, length, take, zeros, copy_at-all, take-append, drop-append, length-append,
  length-take, length-zeros, some, ok, panic, Option-cases, take-append_le, take-all, slice_ok,
  minus_ok, le→ltb,
}
use peernet_core.Crypto.{Crypto, Rand}
use peernet_core.Packet.{
  PacketRaw, packet_length_min, packet_garbage, packet_encrypt, packet_decrypt, read_fields,
  hash_data, uint16_of,
}
use peernet_core.Packet.Layout.{plain}
use peernet_core.Packet.Encrypt.{
  stream, signed, length-plain, length-signed, packet_encrypt-signed, packet_encrypt-unsigned,
}
use peernet_core.Packet.Garbage.{IsNearLimit, IsFitting, packet_garbage-cases, packet_garbage_near}

-- The packet that arrives: a payload too long for its 16-bit size field is cut.
pub delivered : PacketRaw → PacketRaw
delivered p = record p { payload = take (length p.payload % 2 ^ 16) p.payload }

read_size : (n : ℕ) → n < 2 ^ 16 → uint16_of (n % 256) (n / 256 % 256) ≡ n
read_size n h = omega arith

read_fields-plain : (p : PacketRaw) (g : List ℕ) → read_fields (plain p g) ≡ ok (delivered p)
unfolding read_fields delivered
read_fields-plain p g =
    let long : 4 ≤ length (plain p g) = omega (arith, length-plain p g) in
    rw
      (
        slice_ok (plain p g) 2 4 (omega arith) long,
        le→ltb (uint16_of (length p.payload % 2 ^ 16 % 256) (length p.payload % 2 ^ 16 / 256 % 256))
            (length (plain p g) - 4) (omega (arith, length-plain p g)),
      )
      (ap (λ q. ok (record p { payload = q }))
        (rw (read_size (length p.payload % 2 ^ 16) (omega arith))
          (take-append_le (length p.payload % 2 ^ 16) p.payload g (omega arith))))

module _ (c : Crypto) (r : Rand) (p : PacketRaw) (g : List ℕ) where
  open c use {PrivateKey, PublicKey, sign_compact, pub_key}

  decrypt-signed :
      (sender : PrivateKey) (receiver : PublicKey) (s : List ℕ)
      → sign_compact sender (hash_data c (signed c r p g receiver)) ≡ some s
      → packet_decrypt c (signed c r p g receiver ++ stream c r p g receiver s) receiver
        ≡ ok (delivered p, pub_key sender)
  unfolding packet_decrypt
  decrypt-signed sender receiver s hs =
      let body = signed c r p g receiver in
      let sig = stream c r p g receiver s in
      let raw = body ++ sig in
      let n : length sig ≡ 65 =
        c.length-xor_key_stream _ _ s ∙ c.length-sign_compact sender _ s hs in
      let m = length-signed c r p g receiver in
      let total : length raw ≡ length body + length sig = length-append body sig in
      rw
        (
          slice_ok raw 0 4 (omega arith) (omega arith),
          minus_ok (length raw) 65 (omega arith),
          take-append body sig (length raw - 65) (omega arith),
          drop-append body sig (length raw - 65) (omega arith),
          copy_at-all sig (zeros 65) (n ∙ sym (length-zeros 65)),
          c.xor_key_stream_twice _ _ s,
          c.recover-sign sender _ s hs,
          minus_ok (length raw - 65) 4 (omega arith),
          take-append (stream c r p g receiver (plain p g)) sig (length raw - 65 - 4) (omega arith),
          c.xor_key_stream_twice _ _ (plain p g),
          copy_at-all (plain p g) (zeros (length raw - 65 - 4))
              (omega (arith, length-zeros (length raw - 65 - 4), length-plain p g)),
          read_fields-plain p g,
        )
        refl

module _ (c : Crypto) (r : Rand) (p : PacketRaw) where
  open c use {PrivateKey, PublicKey, sign_compact, pub_key}

  abbrev pub full_length : ℕ
  full_length = packet_length_min + length p.payload

  packet_encrypt_near :
      (sender : PrivateKey) (receiver : PublicKey)
      → packet_garbage r full_length ≡ panic
      → packet_encrypt c r sender receiver p ≡ panic
  unfolding packet_encrypt
  packet_encrypt_near sender receiver e = rw e refl

  -- A packet that was made has its garbage and its signature.
  pub packet_encrypt-inv :
      (sender : PrivateKey) (receiver : PublicKey) (raw : List ℕ)
      → packet_encrypt c r sender receiver p ≡ ok raw
      → (g : List ℕ) × (s : List ℕ) × (packet_garbage r full_length ≡ ok g)
        × IsFitting r full_length g
        × (sign_compact sender (hash_data c (signed c r p g receiver)) ≡ some s)
        × (raw ≡ signed c r p g receiver ++ stream c r p g receiver s)
  packet_encrypt-inv sender receiver raw h = elim (packet_garbage-cases r full_length) [
    | inl (near, e) ↦ absurd (cc (packet_encrypt_near sender receiver e))
    | inr (far, (g, e, fit)) ↦
        elim (Option-cases (sign_compact sender (hash_data c (signed c r p g receiver)))) [
          | inl hs ↦ absurd (cc (packet_encrypt-unsigned c r p g sender receiver e hs))
          | inr (s, hs) ↦
              (g, s, e, fit, hs, cc (packet_encrypt-signed c r p g sender receiver s e hs))
        ]
  ]

  -- A packet that `PacketEncrypt` makes, of a payload under 65536 bytes, is decrypted by
  -- `PacketDecrypt` at the receiver's key to the same packet, with the sender's public key.
  pub decrypt-encrypt :
      (sender : PrivateKey) (receiver : PublicKey) (raw : List ℕ)
      → packet_encrypt c r sender receiver p ≡ ok raw
      → length p.payload < 2 ^ 16
      → packet_decrypt c raw receiver ≡ ok (p, pub_key sender)
  unfolding delivered
  decrypt-encrypt sender receiver raw h small =
      let (g, s, _, _, hs, e) = packet_encrypt-inv sender receiver raw h in
      rw (e, decrypt-signed c r p g sender receiver s hs)
        (ap (λ q. ok (record p { payload = q }, pub_key sender))
          (take-all (length p.payload % 2 ^ 16) p.payload (omega arith)))

  -- A payload of 65536 bytes or more arrives cut to its length modulo 65536, and so never whole.
  pub decrypt-encrypt_long :
      (sender : PrivateKey) (receiver : PublicKey) (raw : List ℕ)
      → packet_encrypt c r sender receiver p ≡ ok raw
      → 2 ^ 16 ≤ length p.payload
      → (packet_decrypt c raw receiver
          ≡ ok (record p { payload = take (length p.payload % 2 ^ 16) p.payload }, pub_key sender))
        × (take (length p.payload % 2 ^ 16) p.payload ≢ p.payload)
  unfolding delivered
  decrypt-encrypt_long sender receiver raw h long =
      let (g, s, _, _, hs, e) = packet_encrypt-inv sender receiver raw h in
      (
        rw e (decrypt-signed c r p g sender receiver s hs),
        λ whole. omega (arith, ap length whole, length-take (length p.payload % 2 ^ 16) p.payload),
      )

  not_panic :
      (sender : PrivateKey) (receiver : PublicKey)
      → packet_encrypt c r sender receiver p ≡ panic
      → IsNearLimit full_length
  not_panic sender receiver h = elim (packet_garbage-cases r full_length) [
    | inl (near, e) ↦ near
    | inr (far, (g, e, fit)) ↦
        elim (Option-cases (sign_compact sender (hash_data c (signed c r p g receiver)))) [
          | inl hs ↦ absurd (cc (packet_encrypt-unsigned c r p g sender receiver e hs))
          | inr (s, hs) ↦ absurd (cc (packet_encrypt-signed c r p g sender receiver s e hs))
        ]
  ]

  -- `PacketEncrypt` panics exactly at the packet lengths just below 508 and 1472 bytes.
  pub packet_encrypt-panic_iff :
      (sender : PrivateKey) (receiver : PublicKey)
      → (packet_encrypt c r sender receiver p ≡ panic) ↔ (
          ((489 ≤ packet_length_min + length p.payload)
            × (packet_length_min + length p.payload < 508))
          ⊎ ((1453 ≤ packet_length_min + length p.payload)
              × (packet_length_min + length p.payload < 1472)))
  packet_encrypt-panic_iff sender receiver = (
    not_panic sender receiver,
    λ near. packet_encrypt_near sender receiver (packet_garbage_near r full_length near),
  )
