-- ===== src/Packet/Encrypt.antt =====
-- Packet Encoding.go, `PacketEncrypt`: the packet that comes out, field by field.
use peernet_core.Prelude.{
  ℕ, ◌+◌, ◌-◌, ◌≡◌, refl, ap, ◌∙◌, subst, List, [], ◌++◌, arith, length, take, drop, zeros, copy_at,
  copy_at-middle, length-append, append-nil, take-append, some, none, ok, err,
}
use peernet_core.Crypto.{Crypto, Rand}
use peernet_core.Packet.{
  PacketRaw, packet_length_min, fill, nonce_of, packet_garbage, packet_encrypt, hash_data,
  public_key_to_salsa20_key,
}
use peernet_core.Packet.Layout.{nonce_bytes, plain, fill_lem}

pub length-plain :
    (p : PacketRaw) (g : List ℕ) → length (plain p g) ≡ 4 + length p.payload + length g
length-plain p g = omega (arith, length-append p.payload g)

module _ (c : Crypto) (r : Rand) (p : PacketRaw) (g : List ℕ) where
  open c use {PrivateKey, PublicKey, sign_compact, xor_key_stream}

  -- What is encrypted to `receiver`, and the part of the packet that the signature covers.
  abbrev pub stream : PublicKey → List ℕ → List ℕ
  stream receiver =
      xor_key_stream (nonce_of (nonce_bytes r.uint32)) (public_key_to_salsa20_key c receiver)

  abbrev pub signed : PublicKey → List ℕ
  signed receiver = nonce_bytes r.uint32 ++ stream receiver (plain p g)

  body :
      (receiver : PublicKey)
      → copy_at 4
          (stream receiver (
            take
              (8 + length p.payload + length g - 4)
              (drop 4 (fill (nonce_of (nonce_bytes r.uint32)) p g))))
          (fill (nonce_of (nonce_bytes r.uint32)) p g)
        ≡ signed receiver ++ zeros 65
  body receiver =
      rw
        (
          fill_lem r.uint32 p g,
          take-append (plain p g) (zeros 65) (8 + length p.payload + length g - 4)
              (omega (arith, length-plain p g)),
          copy_at-middle (nonce_bytes r.uint32) (plain p g) (zeros 65) (stream receiver (plain p g))
              4 refl (c.length-xor_key_stream _ _ (plain p g)),
        )
        refl

  pub length-signed :
      (receiver : PublicKey) → length (signed receiver) ≡ 8 + length p.payload + length g
  length-signed receiver = omega (
    arith,
    c.length-xor_key_stream (nonce_of (nonce_bytes r.uint32)) (public_key_to_salsa20_key c receiver)
        (plain p g),
    length-plain p g,
  )

  signed_part :
      (receiver : PublicKey)
      → take (length (signed receiver ++ zeros 65) - 65) (signed receiver ++ zeros 65)
        ≡ signed receiver
  signed_part receiver =
      take-append (signed receiver) (zeros 65) (length (signed receiver ++ zeros 65) - 65)
        (omega (arith, length-append (signed receiver) (zeros 65)))

  sealed :
      (receiver : PublicKey) (s : List ℕ)
      → length s ≡ 65
      → copy_at (length (signed receiver ++ zeros 65) - 65) s (signed receiver ++ zeros 65)
        ≡ signed receiver ++ s
  sealed receiver s h =
      subst
        (λ z.
          copy_at (length (signed receiver ++ zeros 65) - 65) s (signed receiver ++ z)
          ≡ signed receiver ++ s)
        (append-nil (zeros 65))
        (copy_at-middle (signed receiver) (zeros 65) [] s _
            (omega (arith, length-append (signed receiver) (zeros 65))) h
          ∙ ap (◌++◌ (signed receiver)) (append-nil s))

  -- The packet is the nonce, the encrypted part and the encrypted signature over both.
  pub packet_encrypt-signed :
      (sender : PrivateKey) (receiver : PublicKey) (s : List ℕ)
      → packet_garbage r (packet_length_min + length p.payload) ≡ ok g
      → sign_compact sender (hash_data c (signed receiver)) ≡ some s
      → packet_encrypt c r sender receiver p ≡ ok (signed receiver ++ stream receiver s)
  unfolding packet_encrypt
  packet_encrypt-signed sender receiver s hg hs =
      rw
        (
          hg,
          body receiver,
          signed_part receiver,
          hs,
          sealed receiver (stream receiver s)
              (c.length-xor_key_stream _ _ s ∙ c.length-sign_compact sender _ s hs),
        )
        refl

  -- A signature that cannot be made is the only error.
  pub packet_encrypt-unsigned :
      (sender : PrivateKey) (receiver : PublicKey)
      → packet_garbage r (packet_length_min + length p.payload) ≡ ok g
      → sign_compact sender (hash_data c (signed receiver)) ≡ none
      → packet_encrypt c r sender receiver p ≡ err "signing failed"
  unfolding packet_encrypt
  packet_encrypt-unsigned sender receiver hg hs =
      rw (hg, body receiver, signed_part receiver, hs) refl
