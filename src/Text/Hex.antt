-- ===== src/Text/Hex.antt =====
-- encoding/hex: `EncodeToString` and `DecodeString`.
pub mod Laws
use peernet_core.Prelude.{
  ℕ, ◌+◌, ◌-◌, ◌*◌, ◌/◌, ◌%◌, Bool, true, false, ◌&&◌, List, [], ◌∷◌, Option, none, some,
  if◌then◌else◌, ltb, leb,
}
use peernet_core.Ip.{Bytes}
use peernet_core.Text.{Text}

-- A digit of the table "0123456789abcdef".
abbrev pub hex_digit : ℕ → ℕ
hex_digit n = if ltb n 10 then b'0' + n else b'a' + (n - 10)

unfoldable pub encode_to_string : Bytes → Text
encode_to_string [] = []
encode_to_string (b ∷ bs) = hex_digit (b / 16) ∷ hex_digit (b % 16) ∷ encode_to_string bs

-- `fromHexChar`
abbrev pub from_hex_char : ℕ → Option ℕ
from_hex_char c =
    if leb b'0' c && leb c b'9'
    then some (c - b'0')
    else if leb b'a' c && leb c b'f'
    then some (c - b'a' + 10)
    else if leb b'A' c && leb c b'F'
    then some (c - b'A' + 10)
    else none

-- Two digits in front of the rest.
abbrev pub decoded : Option ℕ → Option ℕ → Option Bytes → Option Bytes
decoded none low rest = none
decoded (some high) none rest = none
decoded (some high) (some low) none = none
decoded (some high) (some low) (some bs) = some ((high * 16 + low) ∷ bs)

-- `DecodeString`; an odd length is an error, as is any other character.
unfoldable pub decode_string : Text → Option Bytes
decode_string [] = some []
decode_string (x ∷ []) = none
decode_string (x ∷ y ∷ s) = decoded (from_hex_char x) (from_hex_char y) (decode_string s)
