-- ===== src/Text/Hex/Laws.antt =====
-- encoding/hex: the round trip.
use peernet_core.Prelude.{length, ℕ, ◌+◌, ◌*◌, ◌/◌, ◌%◌, ◌<◌, ◌≡◌, refl, [], ◌∷◌, some, arith}
use peernet_core.Ip.{Bytes, AreBytes}
use peernet_core.Text.Hex.{hex_digit, from_hex_char, encode_to_string, decode_string}

from_hex_char-hex_digit : (n : ℕ) → n < 16 → from_hex_char (hex_digit n) ≡ some n
from_hex_char-hex_digit n h = ground arith

pub decode-encode : (bs : Bytes) → AreBytes bs → decode_string (encode_to_string bs) ≡ some bs
unfolding decode_string encode_to_string
decode-encode [] h = refl
decode-encode (b ∷ bs) h =
    let high = from_hex_char-hex_digit (b / 16) (omega (arith, h.0)) in
    let low = from_hex_char-hex_digit (b % 16) (omega (arith, h.0)) in
    let whole : b / 16 * 16 + b % 16 ≡ b = omega arith in
    rw (high, low, decode-encode bs h.1, whole) refl

pub length-encode : (bs : Bytes) → length (encode_to_string bs) ≡ 2 * length bs
unfolding encode_to_string
length-encode [] = refl
length-encode (b ∷ bs) = omega (arith, length-encode bs)
