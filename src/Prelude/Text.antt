-- ===== src/Prelude/Text.antt =====
-- `format!("{a}{b}")` of two texts, and of a text with an index.
use Prim.Native.Nat.{ℕ}
use Prim.Native.String.{String, ◌++◌}
use sim_core.Prelude.Decimal.{numbered}

unfoldable pub prefixed : String → String → String
prefixed a b = a ++ b

-- `format!("{path}[{index}]")`.
unfoldable pub indexed : String → ℕ → String
unfolding numbered
indexed path index = numbered (path ++ "[") index ++ "]"
