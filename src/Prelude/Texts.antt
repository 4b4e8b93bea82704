-- ===== src/Prelude/Texts.antt =====
-- Python's `str`: its code points, and two strings joined.
use Prim.Native.Char.{code}
use Prim.Native.Nat.{ℕ}
use Prim.Native.String.{String}
use mathlib.Core.Bool.{Bool, true, false}
use mathlib.Core.List.{List, [], ◌∷◌}
use mathlib.Core.Option.{Option, none, some}
use bazaar_compute_node.Prelude.Tests.{if◌then◌else◌}

-- The code points of a text.
abbrev pub codes : String → List ℕ
codes String.[] = []
codes (String.◌∷◌ c s) = code c ∷ codes s

-- `s + t`
unfoldable pub append : String → String → String
append String.[] t = t
append (String.◌∷◌ c s) t = String.◌∷◌ c (append s t)

abbrev pub is_blank : Option String → Bool
is_blank none = true
is_blank (some String.[]) = true
is_blank (some (String.◌∷◌ c s)) = false

-- `new or old`
unfoldable pub or_keep : Option String → Option String → Option String
or_keep new old = if is_blank new then old else new
