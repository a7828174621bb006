-- ===== src/Text.antt =====
-- Go's texts as their bytes, and what the program uses of encoding/hex, strconv, strings and net to
-- read them.
pub mod Hex
pub mod Number
pub mod HostPort
pub mod Address
mod Tests
use Prim.Native.Char.{code}
use Prim.Native.String.{String}
use peernet_core.Prelude.{ℕ, Bool, true, false, ◌&&◌, ◌||◌, List, [], ◌∷◌, if◌then◌else◌, ◌==◌}

abbrev pub Text : Type 0
Text = List ℕ

-- The bytes of an ASCII text.
abbrev pub codes : String → Text
codes String.[] = []
codes (String.◌∷◌ c s) = code c ∷ codes s

-- `strings.HasPrefix` and `strings.Contains`
unfoldable pub has_prefix : Text → Text → Bool
has_prefix s [] = true
has_prefix [] (p ∷ ps) = false
has_prefix (x ∷ s) (p ∷ ps) = (x == p) && has_prefix s ps

unfoldable pub contains_text : Text → Text → Bool
contains_text [] part = has_prefix [] part
contains_text (x ∷ s) part = has_prefix (x ∷ s) part || contains_text s part
