-- ===== src/Packet/Decoding.antt =====
-- Packet Encoding.go, `PacketDecrypt`: no panic, and what holds of any packet that it accepts.
use peernet_core.Prelude.{
  ℕ, ◌+◌, ◌-◌, ◌≡◌, ◌≢◌, ◌≤◌, refl, sym, ap, ◌∙◌, List, [], ◌∷◌, arith, length, take, drop, zeros,
  copy_at, copy_at-all, length-zeros, length-take, length-drop, Option, none, some, Outcome, ok,
  err, panic, ◌>>=◌, or_fail, slice_ok, slice_panic, minus_ok,
}
use peernet_core.Crypto.{Crypto}
use peernet_core.Packet.{
  PacketRaw, packet_length_min, signature_size, packet_decrypt, read_fields, hash_data,
  public_key_to_salsa20_key, nonce_of, uint16_of,
}

-- Four bytes are enough for the fields.
read_fields-panic_free : (buffer : List ℕ) → 4 ≤ length buffer → read_fields buffer ≢ panic
unfolding read_fields
read_fields-panic_free [] h = absurd (omega arith)
read_fields-panic_free (a ∷ []) h = absurd (omega arith)
read_fields-panic_free (a ∷ b ∷ []) h = absurd (omega arith)
read_fields-panic_free (a ∷ b ∷ d ∷ []) h = absurd (omega arith)
read_fields-panic_free (a ∷ b ∷ d ∷ e ∷ l) h =
    rw (slice_ok (a ∷ b ∷ d ∷ e ∷ l) 2 4 (omega arith) (omega arith)) (λ e. ground arith)

read_fields_bounds :
    (buffer : List ℕ) (p : PacketRaw)
    → read_fields buffer ≡ ok p
    → length p.payload + 4 ≤ length buffer
unfolding read_fields
read_fields_bounds [] p h = absurd (cc)
read_fields_bounds (a ∷ []) p h = absurd (cc)
read_fields_bounds (a ∷ b ∷ []) p h = absurd (cc (slice_panic (a ∷ b ∷ []) 2 4 (omega arith)))
read_fields_bounds (a ∷ b ∷ d ∷ []) p h =
    absurd (cc (slice_panic (a ∷ b ∷ d ∷ []) 2 4 (omega arith)))
read_fields_bounds (a ∷ b ∷ d ∷ e ∷ l) p h = ground (
  arith,
  slice_ok (a ∷ b ∷ d ∷ e ∷ l) 2 4 (omega arith) (omega arith),
  length-take (uint16_of d e) l,
)

-- The end of `packet_decrypt`: the sender, then the fields.
abbrev finish {ℓ} : {K : Type ℓ} → Option K → Outcome PacketRaw → Outcome (PacketRaw × K)
finish o q = do sender ← or_fail o "invalid signature"; packet ← q; ok (packet, sender)

finish-panic_free {ℓ} :
    {K : Type ℓ} (o : Option K) (q : Outcome PacketRaw) → q ≢ panic → finish o q ≢ panic
finish-panic_free none q h e = cc
finish-panic_free (some k) (ok p) h e = cc
finish-panic_free (some k) (err x) h e = cc
finish-panic_free (some k) panic h e = h refl

finish-inv {ℓ} :
    {K : Type ℓ} (o : Option K) (q : Outcome PacketRaw) (p : PacketRaw) (k : K)
    → finish o q ≡ ok (p, k)
    → (o ≡ some k) × (q ≡ ok p)
finish-inv none q p k e = absurd (cc)
finish-inv (some j) (ok q) p k e = ground arith
finish-inv (some j) (err x) p k e = absurd (cc)
finish-inv (some j) panic p k e = absurd (cc)

module _ (c : Crypto) (raw : List ℕ) where
  open c use {PublicKey, recover_compact, xor_key_stream}

  -- The decrypted signature, and the decrypted bytes before it.
  abbrev pub signature_of : PublicKey → List ℕ
  signature_of receiver =
      xor_key_stream (nonce_of (take 4 raw)) (public_key_to_salsa20_key c receiver)
        (copy_at 0 (drop (length raw - 65) raw) (zeros signature_size))

  abbrev opened : PublicKey → List ℕ
  opened receiver =
      copy_at 0
        (xor_key_stream (nonce_of (take 4 raw)) (public_key_to_salsa20_key c receiver)
          (take (length raw - 65 - 4) (drop 4 raw)))
        (zeros (length raw - 65 - 4))

  abbrev recovered : PublicKey → Option PublicKey
  recovered receiver =
      recover_compact (signature_of receiver) (hash_data c (take (length raw - 65) raw))

  decrypt-finish :
      (receiver : PublicKey)
      → packet_length_min ≤ length raw
      → packet_decrypt c raw receiver ≡ finish (recovered receiver) (read_fields (opened receiver))
  unfolding packet_decrypt
  decrypt-finish receiver h =
      rw
        (
          slice_ok raw 0 4 (omega arith) (omega arith),
          minus_ok (length raw) 65 (omega arith),
          minus_ok (length raw - 65) 4 (omega arith),
        )
        refl

  length-opened :
      (receiver : PublicKey)
      → packet_length_min ≤ length raw
      → length (opened receiver) ≡ length raw - 69
  length-opened receiver h =
      let n = length raw - 65 - 4 in
      let x =
        xor_key_stream (nonce_of (take 4 raw)) (public_key_to_salsa20_key c receiver)
          (take n (drop 4 raw)) in
      let e : length x ≡ n = omega (
        arith,
        c.length-xor_key_stream (nonce_of (take 4 raw)) (public_key_to_salsa20_key c receiver)
            (take n (drop 4 raw)),
        length-take n (drop 4 raw),
        length-drop 4 raw,
      ) in
      omega (arith, ap length (copy_at-all x (zeros n) (e ∙ sym (length-zeros n))))

  pub packet_decrypt-panic_free :
      (receiver : PublicKey)
      → packet_length_min ≤ length raw
      → packet_decrypt c raw receiver ≢ panic
  packet_decrypt-panic_free receiver h =
      rw (decrypt-finish receiver h)
        (finish-panic_free _ _ (read_fields-panic_free _ (omega (arith, length-opened receiver h))))

  -- A packet of at least the minimum length that `PacketDecrypt` accepts carries a signature over
  -- all its other bytes from which the returned sender is recovered, and its payload fits between
  -- the header and the signature.
  pub packet_decrypt-accepted :
      (receiver : PublicKey) (p : PacketRaw) (sender : PublicKey)
      → packet_length_min ≤ length raw
      → packet_decrypt c raw receiver ≡ ok (p, sender)
      → (recover_compact (signature_of receiver) (hash_data c (take (length raw - 65) raw))
          ≡ some sender)
        × (packet_length_min + length p.payload ≤ length raw)
  packet_decrypt-accepted receiver p sender h e =
      let (signer, fields) = finish-inv _ _ p sender (sym (decrypt-finish receiver h) ∙ e) in
      (signer, omega (arith, read_fields_bounds _ p fields, length-opened receiver h))
