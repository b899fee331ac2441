-- ===== src/Base/Text.antt =====
-- A text as the list of its code points, which are its bytes where it is ASCII.
use Prim.Native.Nat.{ℕ}
use Prim.Native.Char.{code}
use Prim.Native.String.{String}
use mathlib.Core.List.{List, [], ◌∷◌}
use mathlib.Core.Bool.{Bool, true, false, ◌&&◌}
use tobira.Base.Tests.{◌==◌}

abbrev pub codes : String → List ℕ
codes String.[] = []
codes (String.◌∷◌ c s) = code c ∷ codes s

-- Equality of two texts by their code points.
abbrev pub code_eq : List ℕ → List ℕ → Bool
code_eq [] [] = true
code_eq [] (b ∷ bs) = false
code_eq (a ∷ rest) [] = false
code_eq (a ∷ rest) (b ∷ bs) = (a == b) && code_eq rest bs
