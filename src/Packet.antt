-- ===== src/Packet.antt =====
-- Packet Encoding.go: the wire format, its encryption and its signature. Bytes are numbers, and
-- a slice's capacity is its length. "signing failed" and "invalid signature" stand for the texts of
-- the library's errors.
pub mod Layout
pub mod Garbage
pub mod Encrypt
pub mod RoundTrip
pub mod Decoding
mod Tests
use peernet_core.Prelude.{
  ℕ, suc, ◌+◌, ◌-◌, ◌*◌, ◌/◌, ◌%◌, ◌^◌, ◌&&◌, List, [], ◌∷◌, ◌++◌, length, take, drop, set, zeros,
  copy_at, Outcome, ok, err, panic, ◌>>=◌, or_fail, slice, index, minus, Option, none, some,
  if◌then◌else◌, ltb, ◌==◌,
}
use peernet_core.Prelude.Int.{ℤ, pos, negsuc, sub_ℕ}
use peernet_core.Crypto.{Crypto, Rand, intn}

pub record PacketRaw : Type 0 where
  pub protocol : ℕ
  pub command : ℕ
  pub payload : List ℕ

abbrev pub signature_size : ℕ
signature_size = 65

abbrev pub packet_length_min : ℕ
packet_length_min = 8 + signature_size

abbrev pub max_random_garbage : ℕ
max_random_garbage = 20

-- `binary.LittleEndian.PutUint16` and `PutUint32` as the bytes that they put.
abbrev pub little_endian16 : ℕ → List ℕ
little_endian16 n = n % 256 ∷ n / 256 % 256 ∷ []

abbrev pub little_endian32 : ℕ → List ℕ
little_endian32 n = n % 256 ∷ n / 256 % 256 ∷ n / 65536 % 256 ∷ n / 16777216 % 256 ∷ []

-- `binary.LittleEndian.Uint16`
abbrev pub uint16_of : ℕ → ℕ → ℕ
uint16_of b0 b1 = b0 + b1 * 256

-- The bound that `packetGarbage` hands to `rand.Intn`; `none` is the early `return nil`.
pub garbage_bound : ℕ → Option ℤ
garbage_bound packet_length =
    if packet_length == 508
    then none
    else if packet_length == 1472
    then none
    else if ltb packet_length 508 && ltb (508 - packet_length) max_random_garbage
    then some (sub_ℕ packet_length 508)
    else if ltb packet_length 1472 && ltb (1472 - packet_length) max_random_garbage
    then some (sub_ℕ packet_length 1472)
    else some (pos max_random_garbage)

abbrev read_garbage : Rand → ℕ → List ℕ
read_garbage r n = elim (r.read n) [ none ↦ [] | some b ↦ b ]

unfoldable pub packet_garbage : Rand → ℕ → Outcome (List ℕ)
unfolding garbage_bound
packet_garbage r packet_length = elim (garbage_bound packet_length) [
  | none ↦ ok []
  | some max_length ↦ do n ← intn r max_length; ok (read_garbage r n)
]

-- The eight bytes of the Salsa20 nonce: the four of the packet, twice.
unfoldable pub nonce_of : List ℕ → List ℕ
nonce_of bytes = copy_at 4 bytes (copy_at 0 bytes (zeros 8))

-- The buffer before encryption: nonce, header, payload and garbage are copied in one by one.
unfoldable pub fill : List ℕ → PacketRaw → List ℕ → List ℕ
fill nonce packet garbage =
    let size = length packet.payload in
    let raw = zeros (packet_length_min + size + length garbage) in
    let raw = copy_at 0 (take 4 nonce) raw in
    let raw = set raw 4 packet.protocol in
    let raw = set raw 5 packet.command in
    let raw = copy_at 6 (little_endian16 (size % 2 ^ 16)) raw in
    let raw = copy_at 8 packet.payload raw in copy_at (8 + size) garbage raw

-- Header and payload out of the decrypted bytes.
unfoldable pub read_fields : List ℕ → Outcome PacketRaw
read_fields buffer = do
  protocol ← index buffer 0
  command ← index buffer 1
  field ← slice buffer 2 4
  b0 ← index field 0
  b1 ← index field 1
  let size_payload = uint16_of b0 b1
  if ltb (length buffer - 4) size_payload
      then err "invalid length field"
      else ok (record {
        protocol = protocol;
        command = command;
        payload = take size_payload (drop 4 buffer);
      })

module _ (c : Crypto) where
  open c use {
    PrivateKey, PublicKey, serialize_compressed, sign_compact, recover_compact, xor_key_stream,
    sum256,
  }

  pub public_key_to_salsa20_key : PublicKey → List ℕ
  public_key_to_salsa20_key k = copy_at 0 (drop 1 (serialize_compressed k)) (zeros 32)

  pub hash_data : List ℕ → List ℕ
  hash_data d = sum256 d

  unfoldable pub packet_encrypt : Rand → PrivateKey → PublicKey → PacketRaw → Outcome (List ℕ)
  packet_encrypt r sender receiver packet = do
    garbage ← packet_garbage r (packet_length_min + length packet.payload)
    let nonce = nonce_of (little_endian32 r.uint32)
    let raw = fill nonce packet garbage
    let key = public_key_to_salsa20_key receiver
    let end = 8 + length packet.payload + length garbage
    let raw = copy_at 4 (xor_key_stream nonce key (take (end - 4) (drop 4 raw))) raw
    signature ←
        or_fail (sign_compact sender (hash_data (take (length raw - signature_size) raw)))
          "signing failed"
    ok (copy_at (length raw - signature_size) (xor_key_stream nonce key signature) raw)

  unfoldable pub packet_decrypt : List ℕ → PublicKey → Outcome (PacketRaw × PublicKey)
  packet_decrypt raw receiver = do
    prefix ← slice raw 0 4
    let nonce = nonce_of prefix
    start ← minus (length raw) signature_size
    let key = public_key_to_salsa20_key receiver
    let signature = xor_key_stream nonce key (copy_at 0 (drop start raw) (zeros signature_size))
    sender ← or_fail (recover_compact signature (hash_data (take start raw))) "invalid signature"
    size ← minus start 4
    let buffer = copy_at 0 (xor_key_stream nonce key (take size (drop 4 raw))) (zeros size)
    packet ← read_fields buffer
    ok (packet, sender)
