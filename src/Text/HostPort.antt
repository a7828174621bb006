-- ===== src/Text/HostPort.antt =====
-- net: `SplitHostPort`.
use peernet_core.Prelude.{
  ℕ, suc, ◌-◌, [], ◌∷◌, ◌++◌, length, take, drop, Option, none, some, String, if◌then◌else◌, ◌==◌,
  get_elem?, is_some,
}
use peernet_core.Text.{Text, codes}

-- The first and the last place of a byte.
unfoldable pub index_byte : ℕ → Text → Option ℕ
index_byte c [] = none
index_byte c (x ∷ s) =
    let rest = index_byte c s in
    if x == c then some 0 else elim rest [ none ↦ none | some i ↦ some (suc i) ]

unfoldable pub last_byte : ℕ → Text → Option ℕ
last_byte c [] = none
last_byte c (x ∷ s) =
    let rest = last_byte c s in
    elim rest [ some i ↦ some (suc i) | none ↦ if x == c then some 0 else none ]

-- Host and port, or the reason of an `AddrError`.
pub data HostPort : Type 0 where
  host_port : Text → Text → HostPort
  bad_address : String → HostPort

abbrev pub missing_port : String
missing_port = "missing port in address"

abbrev too_many_colons : String
too_many_colons = "too many colons in address"

-- The brackets that must not be there, from j and from k on, and the port behind place i.
pub check_brackets : Text → Text → ℕ → ℕ → ℕ → HostPort
check_brackets s host i j k =
    if is_some (index_byte b'[' (drop j s))
    then bad_address "unexpected '[' in address"
    else if is_some (index_byte b']' (drop k s))
    then bad_address "unexpected ']' in address"
    else host_port host (drop (suc i) s)

-- A text that starts with a bracket, whose last colon is at i and whose closing bracket is at the
-- place `end`.
pub split_brackets : Text → ℕ → Option ℕ → HostPort
split_brackets s i none = bad_address "missing ']' in address"
split_brackets s i (some end) =
    if suc end == length s
    then bad_address missing_port
    else if suc end == i
    then check_brackets s (take (end - 1) (drop 1 s)) i 1 (suc end)
    else elim (get_elem? s (suc end)) [
      | none ↦ bad_address missing_port
      | some x ↦ if x == b':' then bad_address too_many_colons else bad_address missing_port
    ]

pub split_at : Text → ℕ → HostPort
split_at [] i = bad_address missing_port
split_at (x ∷ s) i =
    if x == b'['
    then split_brackets (x ∷ s) i (index_byte b']' (x ∷ s))
    else if is_some (index_byte b':' (take i (x ∷ s)))
    then bad_address too_many_colons
    else check_brackets (x ∷ s) (take i (x ∷ s)) i 0 0

-- `SplitHostPort`
unfoldable pub split_host_port : Text → HostPort
split_host_port s = elim (last_byte b':' s) [
  | none ↦ bad_address missing_port
  | some i ↦ split_at s i
]

-- The text of the error.
abbrev pub error_text : Text → String → Text
error_text [] why = codes why
error_text (x ∷ s) why = codes "address " ++ (x ∷ s ++ (codes ": " ++ codes why))
