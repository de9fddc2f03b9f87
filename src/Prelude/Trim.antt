-- ===== src/Prelude/Trim.antt =====
-- `str::trim` and `is_empty` of the standard library.
use Prim.Native.Nat.{ℕ}
use Prim.Native.Char.{Char, code}
use Prim.Native.String.{String, [], ◌∷◌}
use mathlib.Core.Bool.{Bool, true, false, ◌&&◌, ◌||◌}
use sim_core.Prelude.Tests.{leb, ◌==◌, if◌then◌else◌}

abbrev pub between : ℕ → ℕ → ℕ → Bool
between first last n = leb first n && leb n last

-- `char::is_whitespace`: Unicode's `White_Space`.
unfoldable pub is_whitespace : Char → Bool
is_whitespace c =
    let n = code c in
    between 9 13 n
    || n == 32
    || n == 133
    || n == 160
    || n == 5760
    || between 8192 8202 n
    || between 8232 8233 n
    || n == 8239
    || n == 8287
    || n == 12288

trim_start : String → String
unfolding is_whitespace
trim_start [] = []
trim_start (c ∷ s) = let rest = trim_start s in if is_whitespace c then rest else c ∷ s

-- A character in front of the text that is left of the rest.
before_rest : Char → String → String
unfolding is_whitespace
before_rest c [] = if is_whitespace c then [] else c ∷ []
before_rest c (d ∷ s) = c ∷ d ∷ s

trim_end : String → String
unfolding before_rest
trim_end [] = []
trim_end (c ∷ s) = before_rest c (trim_end s)

unfoldable pub trim : String → String
unfolding trim_start trim_end
trim s = trim_end (trim_start s)

abbrev pub is_empty : String → Bool
is_empty [] = true
is_empty (c ∷ s) = false
