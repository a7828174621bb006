-- ===== src/Fixtures.antt =====
-- Concrete stand-ins for the third-party code, at which the theorems are tried.
use peernet_core.Prelude.{
  ℕ, suc, ◌+◌, ◌-◌, ◌≡◌, ◌<◌, refl, ap, subst, List, [], ◌∷◌, length, zeros, length-zeros, Option,
  none, some, arith, ◌==◌, ==_iff, if◌then◌else◌, ltb,
}
use mathlib.Core.Path.{ap₂}
use peernet_core.Crypto.{Crypto, Rand}

abbrev pub flip : ℕ → ℕ
flip x = if ltb x 256 then 255 - x else x

flip_twice : (x : ℕ) → flip (flip x) ≡ x
flip_twice x = ground arith

abbrev pub flip_all : List ℕ → List ℕ
flip_all [] = []
flip_all (x ∷ xs) = flip x ∷ flip_all xs

pub length-flip_all : (xs : List ℕ) → length (flip_all xs) ≡ length xs
length-flip_all [] = refl
length-flip_all (x ∷ xs) = ap suc (length-flip_all xs)

pub flip_all_twice : (xs : List ℕ) → flip_all (flip_all xs) ≡ xs
flip_all_twice [] = refl
flip_all_twice (x ∷ xs) = ap₂ ◌∷◌ (flip_twice x) (flip_all_twice xs)

abbrev pub recover_head : List ℕ → Option ℕ
recover_head [] = none
recover_head (k ∷ _) = some k

pub sign_length : (k : ℕ) (s : List ℕ) → some (k ∷ zeros 64) ≡ some s → length s ≡ 65
sign_length k s e = let h : k ∷ zeros 64 ≡ s = cc in subst (λ z. length z ≡ 65) h refl

pub recover_signed : (k : ℕ) (s : List ℕ) → some (k ∷ zeros 64) ≡ some s → recover_head s ≡ some k
recover_signed k s e = let h : k ∷ zeros 64 ≡ s = cc in subst (λ z. recover_head z ≡ some k) h refl

-- Bytes make a key that is none of those of which they are the serialized form.
abbrev pub key_of : List ℕ → ℕ
key_of [] = 0
key_of (x ∷ xs) = x + 1

-- A key signs by its own number, and the cipher turns every byte round.
abbrev pub toy_crypto : Crypto
toy_crypto = record {
  PrivateKey = ℕ;
  PublicKey = ℕ;
  pub_key = λ k. k;
  priv_key_from_bytes = key_of;
  is_equal = ◌==◌;
  is_equal_iff = ==_iff;
  serialize_compressed = λ k. k ∷ zeros 32;
  length-serialize_compressed = λ k. refl;
  parse_pub_key = recover_head;
  parse-serialize_compressed = λ k. refl;
  sign_compact = λ k hash. some (k ∷ zeros 64);
  length-sign_compact = λ k hash s e. sign_length k s e;
  recover_compact = λ s hash. recover_head s;
  recover-sign = λ k hash s e. recover_signed k s e;
  xor_key_stream = λ nonce key d. flip_all d;
  length-xor_key_stream = λ nonce key d. length-flip_all d;
  xor_key_stream_twice = λ nonce key d. flip_all_twice d;
  sum256 = λ d. d;
}

abbrev pub few : ℕ → ℕ
few n = if ltb 3 n then 3 else 0

pub few-lt : (n : ℕ) → few (suc n) < suc n
few-lt n = ground arith

pub length-read_zeros : (n : ℕ) (b : List ℕ) → some (zeros n) ≡ some b → length b ≡ n
length-read_zeros n b e = let h : zeros n ≡ b = cc in subst (λ z. length z ≡ n) h (length-zeros n)

-- Three bytes of garbage at most.
abbrev pub toy_rand : Rand
toy_rand = record {
  uint32 = 0x01020304;
  below = few;
  below-lt = few-lt;
  read = λ n. some (zeros n);
  length-read = λ n b e. length-read_zeros n b e;
}
