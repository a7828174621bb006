-- ===== src/Prelude/Text.antt =====
-- Strings.
use Prim.Native.String.{String}
use mathlib.Core.Bool.{Bool}
use text.Mathlib.Text.{◌==◌}

abbrev pub same_text : String → String → Bool
same_text s t = s == t
