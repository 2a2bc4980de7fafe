-- ===== src/Common/Texts.antt =====
-- A text as the list of its code points, for the code that walks it.
use Prim.Native.Char.{code}
use Prim.Native.Nat.{ℕ}
use Prim.Native.String.{String}
use mathlib.Core.List.{List, [], ◌∷◌}

abbrev pub CodePoints : Type 0
CodePoints = List ℕ

abbrev pub codes : String → CodePoints
codes String.[] = []
codes (String.◌∷◌ c s) = code c ∷ codes s
