-- ===== src/Prelude/Text.antt =====
-- Text literals of the source as the bytes of their ASCII characters.
use Prim.Native.String.{String}
use Prim.Native.Char.{code}
use mathlib.Core.List.{[], ◌∷◌}
use obrs.Prelude.Bytes.{Bytes}

abbrev pub codes : String → Bytes
codes String.[] = []
codes (String.◌∷◌ c s) = code c ∷ codes s
