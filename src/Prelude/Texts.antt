-- ===== src/Prelude/Texts.antt =====
-- Concatenation of texts, and the lines of a text that a program prints.
use mathlib.Core.List.{List, [], ◌∷◌}
use Prim.Native.String.{String, ◌++◌}

infixr 5 ◌<>◌
abbrev pub ◌<>◌ : String → String → String
s <> t = s ++ t

-- Each line after a line break.
unfoldable pub more_lines : List String → String
more_lines [] = ""
more_lines (s ∷ ss) = "\n" ++ s ++ more_lines ss

-- `"\n".join(lines)`
unfoldable pub join_lines : List String → String
join_lines [] = ""
join_lines (s ∷ ss) = s ++ more_lines ss
