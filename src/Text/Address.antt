-- ===== src/Text/Address.antt =====
-- net: `ParseIP`, as of Go 1.16, and Bootstrap.go: `parseAddress`.
pub mod Length
pub mod Laws
use peernet_core.Prelude.{
  ℕ, zero, suc, ◌+◌, ◌-◌, ◌*◌, ◌/◌, ◌%◌, ◌≤◌, Bool, true, false, ◌&&◌, ◌||◌, not, List, [], ◌∷◌,
  ◌++◌, length, take, drop, zeros, Option, none, some, Outcome, ok, err, panic, if◌then◌else◌,
  is_some, ltb, leb, ◌==◌,
}
use peernet_core.Prelude.Int.{ℤ, pos, negsuc}
use peernet_core.Ip.{Bytes, v4_in_v6_prefix}
use peernet_core.Connection.{UdpAddr}
use peernet_core.Text.{Text}
use peernet_core.Text.Hex.{from_hex_char}
use peernet_core.Text.Number.{Parsed, parsed, syntax_error, range_error, is_digit, atoi}
use peernet_core.Text.HostPort.{HostPort, host_port, bad_address, split_host_port}

-- A number at the start of a text and what follows it. Numbers from `big` on are refused.
abbrev big : ℕ
big = 0xffffff

-- `dtoi` and `xtoi`, behind the first digit, with the number so far.
unfoldable pub more_digits : (ℕ → Option ℕ) → ℕ → ℕ → Text → Option (ℕ × Text)
more_digits digit base n [] = some (n, [])
more_digits digit base n (x ∷ s) = elim (digit x) [
  | none ↦ some (n, x ∷ s)
  | some d ↦ if leb big (n * base + d) then none else more_digits digit base (n * base + d) s
]

-- There must be a digit.
unfoldable pub read_number : (ℕ → Option ℕ) → ℕ → Text → Option (ℕ × Text)
read_number digit base [] = none
read_number digit base (x ∷ s) = elim (digit x) [
  | none ↦ none
  | some d ↦ more_digits digit base 0 (x ∷ s)
]

abbrev from_decimal : ℕ → Option ℕ
from_decimal c = if is_digit c then some (c - b'0') else none

abbrev pub dtoi : Text → Option (ℕ × Text)
dtoi s = read_number from_decimal 10 s

abbrev pub xtoi : Text → Option (ℕ × Text)
xtoi s = read_number from_hex_char 16 s

-- A byte in front of what is read of the rest.
abbrev pub cons_byte : ℕ → Option Bytes → Option Bytes
cons_byte n none = none
cons_byte n (some bs) = some (n ∷ bs)

-- A number of a dotted address that was read, and `count` more, each behind a dot.
unfoldable pub dotted : ℕ → Option (ℕ × Text) → Option Bytes
dotted count none = none
dotted zero (some (n, [])) = if ltb 255 n then none else some (n ∷ [])
dotted zero (some (n, x ∷ s)) = none
dotted (suc count) (some (n, [])) = none
dotted (suc count) (some (n, x ∷ s)) =
    let rest = dotted count (dtoi s) in
    if ltb 255 n then none else if x == b'.' then cons_byte n rest else none

-- `parseIPv4`, its four bytes; the program's IP has them behind the prefix.
unfoldable pub parse_ipv4 : Text → Option Bytes
parse_ipv4 s = dotted 3 (dtoi s)

-- What `parseIPv6` has read: the bytes, and the place of the ellipsis.
abbrev pub Read : Type 0
Read = Bytes × Option ℕ

abbrev pub append_ipv4 : Bytes → Option ℕ → Option Bytes → Option Read
append_ipv4 acc ellipsis none = none
append_ipv4 acc ellipsis (some ip4) = some (acc ++ ip4, ellipsis)

-- The IPv4 address at the end: there must be room for its four bytes, and it must be at the end of
-- the address if there is no ellipsis.
unfoldable pub trailing_ipv4 : Bytes → Option ℕ → Text → Option Read
trailing_ipv4 acc ellipsis s =
    if (not (is_some ellipsis) && not (length acc == 12)) || ltb 16 (length acc + 4)
    then none
    else append_ipv4 acc ellipsis (parse_ipv4 s)

-- A round of the loop of `parseIPv6` ends it, or goes on with the bytes so far, the ellipsis and the
-- rest of the text.
pub data Step : Type 0 where
  stop : Option Read → Step
  go_on : Bytes → Option ℕ → Text → Step

-- Behind a second colon: the only ellipsis, which may be at the end.
unfoldable pub after_ellipsis : Bytes → Option ℕ → Text → Step
after_ellipsis acc (some _) s = stop none
after_ellipsis acc none [] = stop (some (acc, some (length acc)))
after_ellipsis acc none (x ∷ s) = go_on acc (some (length acc)) (x ∷ s)

-- What follows a group of which `acc` are the bytes so far: the end, or a colon and more.
unfoldable pub after_group : Bytes → Option ℕ → Text → Step
after_group acc ellipsis [] = stop (some (acc, ellipsis))
after_group acc ellipsis (x ∷ []) = stop none
after_group acc ellipsis (x ∷ y ∷ s) =
    if not (x == b':')
    then stop none
    else if y == b':'
    then after_ellipsis acc ellipsis s
    else go_on acc ellipsis (y ∷ s)

abbrev pub starts_with_dot : Text → Bool
starts_with_dot [] = false
starts_with_dot (x ∷ s) = x == b'.'

-- A group of two bytes that was read, or the IPv4 address that starts with it.
unfoldable pub read_group : Bytes → Option ℕ → Text → Option (ℕ × Text) → Step
read_group acc ellipsis s none = stop none
read_group acc ellipsis s (some (n, rest)) =
    if ltb 0xffff n
    then stop none
    else if starts_with_dot rest
    then stop (trailing_ipv4 acc ellipsis s)
    else after_group (acc ++ n / 256 ∷ n % 256 ∷ []) ellipsis rest

-- The loop of `parseIPv6`, for at most so many more groups.
unfoldable pub groups : ℕ → Bytes → Option ℕ → Text → Option Read
groups zero acc ellipsis [] = some (acc, ellipsis)
groups zero acc ellipsis (x ∷ s) = none
groups (suc more) acc ellipsis s = elim (read_group acc ellipsis s (xtoi s)) [
  | stop r ↦ r
  | go_on acc' ellipsis' next ↦ groups more acc' ellipsis' next
]

-- The ellipsis stands for at least one group of zeros.
unfoldable pub expand : Option Read → Option Bytes
expand none = none
expand (some (acc, none)) = if ltb (length acc) 16 then none else some acc
expand (some (acc, some at)) =
    if ltb (length acc) 16
    then some (take at acc ++ (zeros (16 - length acc) ++ drop at acc))
    else none

-- `parseIPv6`
unfoldable pub parse_ipv6 : Text → Option Bytes
parse_ipv6 [] = expand (groups 8 [] none [])
parse_ipv6 (x ∷ []) = expand (groups 8 [] none (x ∷ []))
parse_ipv6 (x ∷ y ∷ s) =
    if (x == b':') && (y == b':')
    then elim s [ [] ↦ some (zeros 16) | z ∷ t ↦ expand (groups 8 [] (some 0) (z ∷ t)) ]
    else expand (groups 8 [] none (x ∷ y ∷ s))

-- `ParseIP`: the first dot or colon tells the kind.
abbrev pub in_v6 : Option Bytes → Option Bytes
in_v6 none = none
in_v6 (some ip4) = some (v4_in_v6_prefix ++ ip4)

unfoldable pub parse_kind : Text → Text → Option Bytes
parse_kind s [] = none
parse_kind s (x ∷ t) =
    let rest = parse_kind s t in
    if x == b'.' then in_v6 (parse_ipv4 s) else if x == b':' then parse_ipv6 s else rest

unfoldable pub parse_ip : Text → Option Bytes
parse_ip s = parse_kind s s

-- `parseAddress`, from the IP on, and from the port on.
unfoldable pub with_ip : ℕ → Option Bytes → Outcome UdpAddr
with_ip port none = err "invalid input IP"
with_ip port (some ip) = ok (record { ip = ip; port = port })

unfoldable pub with_port : Text → Parsed ℤ → Outcome UdpAddr
with_port host syntax_error = err "invalid syntax"
with_port host (range_error _) = err "value out of range"
with_port host (parsed (negsuc _)) = err "invalid port number"
with_port host (parsed (pos port)) =
    if (port == 0) || ltb 65535 port
    then err "invalid port number"
    else with_ip port (parse_ip host)

unfoldable pub with_host : HostPort → Outcome UdpAddr
with_host (bad_address why) = err why
with_host (host_port host port) = with_port host (atoi port)

-- `parseAddress`
unfoldable pub parse_address : Text → Outcome UdpAddr
parse_address s = with_host (split_host_port s)
