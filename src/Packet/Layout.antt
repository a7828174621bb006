-- ===== src/Packet/Layout.antt =====
-- Packet Encoding.go, `PacketEncrypt`: where each field of the packet lands in the buffer.
use peernet_core.Prelude.{
  ℕ, suc, ◌+◌, ◌%◌, ◌^◌, ◌≡◌, refl, sym, List, [], ◌∷◌, ◌++◌, arith, append_assoc, length, zeros,
  zeros-add, copy_at, copy_at-middle, length-zeros,
}
use peernet_core.Packet.{
  PacketRaw, packet_length_min, fill, nonce_of, little_endian16, little_endian32,
}

-- The four bytes that open a packet.
abbrev pub nonce_bytes : ℕ → List ℕ
nonce_bytes v = little_endian32 v

-- The part of a packet that is encrypted: header without nonce, payload and garbage.
abbrev pub plain : PacketRaw → List ℕ → List ℕ
plain p garbage =
    p.protocol ∷ p.command ∷ (little_endian16 (length p.payload % 2 ^ 16) ++ (p.payload ++ garbage))

blank :
    (s g : ℕ)
    → zeros (packet_length_min + s + g)
      ≡ 0 ∷ 0 ∷ 0 ∷ 0 ∷ 0 ∷ 0 ∷ 0 ∷ 0 ∷ (zeros s ++ (zeros g ++ zeros 65))
blank s g =
    let e : packet_length_min + s + g
        ≡ suc (suc (suc (suc (suc (suc (suc (suc (s + (g + 65))))))))) =
      omega arith in
    rw (e, zeros-add s (g + 65), zeros-add g 65) refl

pub nonce_of_lem : (v : ℕ) → nonce_of (nonce_bytes v) ≡ nonce_bytes v ++ nonce_bytes v
unfolding nonce_of copy_at
nonce_of_lem v = refl

module _ (v : ℕ) (p : PacketRaw) (garbage : List ℕ) where
  -- The six bytes before the length field.
  abbrev head : List ℕ
  head = nonce_bytes v ++ p.protocol ∷ p.command ∷ []

  abbrev size_field : List ℕ
  size_field = little_endian16 (length p.payload % 2 ^ 16)

  -- Every field lands behind the one before it, and the signature's place stays blank.
  pub fill_lem :
      fill (nonce_of (nonce_bytes v)) p garbage ≡ nonce_bytes v ++ (plain p garbage ++ zeros 65)
  unfolding fill
  fill_lem =
      let zs = zeros (length p.payload) in
      let zg = zeros (length garbage) in
      let end = zeros 65 in
      rw
        (
          nonce_of_lem v,
          blank (length p.payload) (length garbage),
          copy_at-middle [] (0 ∷ 0 ∷ 0 ∷ 0 ∷ []) (0 ∷ 0 ∷ 0 ∷ 0 ∷ (zs ++ (zg ++ end)))
              (nonce_bytes v) 0 refl refl,
          copy_at-middle head (0 ∷ 0 ∷ []) (zs ++ (zg ++ end)) size_field 6 refl refl,
          copy_at-middle (head ++ size_field) zs (zg ++ end) p.payload 8 refl
              (sym (length-zeros (length p.payload))),
          copy_at-middle ((head ++ size_field) ++ p.payload) zg end garbage (8 + length p.payload)
              (omega arith) (sym (length-zeros (length garbage))),
          append_assoc p.payload garbage end,
        )
        refl
