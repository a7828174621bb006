-- ===== src/Text/Number.antt =====
-- strconv: `Atoi`.
use peernet_core.Prelude.{
  ℕ, ◌+◌, ◌-◌, ◌*◌, ◌^◌, Bool, true, false, ◌&&◌, [], ◌∷◌, if◌then◌else◌, ltb, leb, ◌==◌,
}
use peernet_core.Prelude.Int.{ℤ, pos, negsuc}
use peernet_core.Text.{Text}

abbrev pub is_digit : ℕ → Bool
is_digit c = leb b'0' c && leb c b'9'

-- A number, a syntax error (with the value 0), or a number out of range (with the nearest value).
pub data Parsed (A : Type 0) : Type 0 where
  parsed : A → Parsed A
  syntax_error : Parsed A
  range_error : A → Parsed A

-- `ParseUint` in base 10, from the value of the digits before: it stops where the number no longer
-- fits 64 bits, or at a character that is no digit.
unfoldable pub parse_digits : ℕ → Text → Parsed ℕ
parse_digits n [] = parsed n
parse_digits n (x ∷ s) =
    let m = n * 10 + (x - b'0') in
    let rest = parse_digits m s in
    if not_digit x then syntax_error else if leb (2 ^ 64) m then range_error (2 ^ 64 - 1) else rest
  where
    not_digit : ℕ → Bool
    not_digit c = if is_digit c then false else true

-- -n
abbrev negative : ℕ → ℤ
negative n = if n == 0 then pos 0 else negsuc (n - 1)

abbrev largest : Bool → ℤ
largest true = negative (2 ^ 63)
largest false = pos (2 ^ 63 - 1)

-- `ParseInt` of what follows the sign.
abbrev signed : Bool → Parsed ℕ → Parsed ℤ
signed negated syntax_error = syntax_error
signed negated (range_error n) = range_error (largest negated)
signed true (parsed n) = if ltb (2 ^ 63) n then range_error (largest true) else parsed (negative n)
signed false (parsed n) = if leb (2 ^ 63) n then range_error (largest false) else parsed (pos n)

abbrev unsigned : Text → Parsed ℕ
unsigned [] = syntax_error
unsigned (x ∷ s) = parse_digits 0 (x ∷ s)

-- `Atoi`
unfoldable pub atoi : Text → Parsed ℤ
atoi [] = syntax_error
atoi (x ∷ s) =
    if x == b'-'
    then signed true (unsigned s)
    else if x == b'+'
    then signed false (unsigned s)
    else signed false (unsigned (x ∷ s))

-- The value that it returns in each case.
abbrev pub value : Parsed ℤ → ℤ
value (parsed n) = n
value syntax_error = pos 0
value (range_error n) = n
