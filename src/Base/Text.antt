-- ===== src/Base/Text.antt =====
-- String literals of the source as bytes: they are all ASCII.
use Prim.Native.Char.{code}
use Prim.Native.String.{String}
use golang_db.Base.Bytes.{Bytes}
use mathlib.Core.List.{[], ◌∷◌}

abbrev pub codes : String → Bytes
codes String.[] = []
codes (String.◌∷◌ c s) = code c ∷ codes s
