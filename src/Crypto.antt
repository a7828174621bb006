-- ===== src/Crypto.antt =====
-- The third-party code that Packet Encoding.go and Peer ID.go call: btcec, salsa20, blake3 and
-- math/rand. None of it is under the repository, so it is a parameter with documented behaviour.
use peernet_core.Prelude.{
  ℕ, suc, ◌<◌, ◌≡◌, Bool, true, Option, some, List, length, ◌↔◌, Outcome, ok, panic,
}
use peernet_core.Prelude.Int.{ℤ, pos}

pub record Crypto : Type 1 where
  pub PrivateKey : Type 0
  pub PublicKey : Type 0
  -- `PrivateKey.PubKey`
  pub pub_key : PrivateKey → PublicKey
  -- `btcec.PrivKeyFromBytes` takes any bytes
  pub priv_key_from_bytes : List ℕ → PrivateKey
  -- `PublicKey.IsEqual`
  pub is_equal : PublicKey → PublicKey → Bool
  pub is_equal_iff : (a b : PublicKey) → (is_equal a b ≡ true) ↔ (a ≡ b)
  -- `PublicKey.SerializeCompressed`, `PubKeyBytesLenCompressed` bytes
  pub serialize_compressed : PublicKey → List ℕ
  pub length-serialize_compressed : (k : PublicKey) → length (serialize_compressed k) ≡ 33
  -- `btcec.ParsePubKey`
  pub parse_pub_key : List ℕ → Option PublicKey
  pub parse-serialize_compressed : (k : PublicKey) → parse_pub_key (serialize_compressed k) ≡ some k
  -- `btcec.SignCompact` and `btcec.RecoverCompact`
  pub sign_compact : PrivateKey → List ℕ → Option (List ℕ)
  pub length-sign_compact :
      (k : PrivateKey) (hash s : List ℕ) → sign_compact k hash ≡ some s → length s ≡ 65
  pub recover_compact : List ℕ → List ℕ → Option PublicKey
  pub recover-sign :
      (k : PrivateKey) (hash s : List ℕ)
      → sign_compact k hash ≡ some s
      → recover_compact s hash ≡ some (pub_key k)
  -- `salsa20.XORKeyStream`: a stream that nonce and key determine is XORed to the data
  pub xor_key_stream : List ℕ → List ℕ → List ℕ → List ℕ
  pub length-xor_key_stream :
      (nonce key d : List ℕ) → length (xor_key_stream nonce key d) ≡ length d
  pub xor_key_stream_twice :
      (nonce key d : List ℕ) → xor_key_stream nonce key (xor_key_stream nonce key d) ≡ d
  -- `blake3.Sum256`
  pub sum256 : List ℕ → List ℕ

-- What math/rand hands out during one call: `Uint32`, `Intn` at a positive bound, and `Read`
-- into a buffer.
pub record Rand : Type 0 where
  pub uint32 : ℕ
  pub below : ℕ → ℕ
  pub below-lt : (n : ℕ) → below (suc n) < suc n
  pub read : ℕ → Option (List ℕ)
  pub length-read : (n : ℕ) (b : List ℕ) → read n ≡ some b → length b ≡ n

-- `rand.Intn` panics where its argument is not positive.
abbrev pub intn : Rand → ℤ → Outcome ℕ
intn r (pos (suc n)) = ok (r.below (suc n))
intn r _ = panic
