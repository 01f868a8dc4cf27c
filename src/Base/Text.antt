-- ===== src/Base/Text.antt =====
-- Go's strings as native texts, compared as wholes.
use Prim.Native.String.{String}
use mathlib.Core.Bool.{Bool, true, false}

-- `s == ""`
abbrev pub is_empty : String → Bool
is_empty String.[] = true
is_empty (String.◌∷◌ c s) = false
