-- ===== src/Prelude/Scan.antt =====
-- `split_once`, `rfind`, `strip_prefix`, `ends_with` and `parse` of the standard library.
use Prim.Native.Nat.{ℕ, ◌+◌, ◌*◌, ◌-◌}
use Prim.Native.Char.{code}
use Prim.Native.String.{String, [], ◌∷◌}
use mathlib.Core.Bool.{Bool, true, ◌&&◌}
use mathlib.Core.Option.{Option, none, some}
use sim_core.Prelude.Ascii.{is_digit}
use sim_core.Prelude.Tests.{leb, ◌==◌, if◌then◌else◌}

-- The text before and after the first character with a code.
unfoldable pub split_once : ℕ → String → Option (String × String)
split_once at [] = none
split_once at (c ∷ s) =
    let later = split_once at s in
    if code c == at
    then some ([], s)
    else elim later [ none ↦ none | some (before, after) ↦ some (c ∷ before, after) ]

-- The text before and after the last character with a code.
unfoldable pub split_last : ℕ → String → Option (String × String)
split_last at [] = none
split_last at (c ∷ s) = elim (split_last at s) [
  | some (before, after) ↦ some (c ∷ before, after)
  | none ↦ if code c == at then some ([], s) else none
]

-- The text before a last character with a code, if it ends so.
unfoldable pub strip_last : ℕ → String → Option String
strip_last at [] = none
strip_last at (c ∷ []) = if code c == at then some [] else none
strip_last at (c ∷ d ∷ s) = elim (strip_last at (d ∷ s)) [
  | none ↦ none
  | some rest ↦ some (c ∷ rest)
]

unfoldable pub strip_prefix : String → String → Option String
strip_prefix [] s = some s
strip_prefix (p ∷ prefix) [] = none
strip_prefix (p ∷ prefix) (c ∷ s) =
    let rest = strip_prefix prefix s in if code p == code c then rest else none

all_digits : String → Bool
all_digits [] = true
all_digits (c ∷ s) = is_digit (code c) && all_digits s

decimal_value : ℕ → String → ℕ
decimal_value value [] = value
decimal_value value (c ∷ s) = decimal_value (10 * value + (code c - 48)) s

parse_digits : ℕ → String → Option ℕ
unfolding all_digits decimal_value
parse_digits greatest [] = none
parse_digits greatest (c ∷ s) =
    if all_digits (c ∷ s) && leb (decimal_value 0 (c ∷ s)) greatest
    then some (decimal_value 0 (c ∷ s))
    else none

-- `parse` of an unsigned type with a greatest value: digits, with a plus sign before them or none.
unfoldable pub parse_unsigned : ℕ → String → Option ℕ
unfolding parse_digits
parse_unsigned greatest [] = none
parse_unsigned greatest (c ∷ s) =
    if code c == 43 then parse_digits greatest s else parse_digits greatest (c ∷ s)
