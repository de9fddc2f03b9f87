-- ===== src/Prelude/Ascii.antt =====
-- ASCII tests on characters, and `to_ascii_lowercase`.
use Prim.Native.Nat.{ℕ, ◌+◌}
use Prim.Native.Char.{code}
use Prim.Native.String.{String, [], ◌∷◌}
use mathlib.Core.Bool.{Bool, true, false, ◌&&◌, ◌||◌}
use sim_core.Prelude.Tests.{◌==◌, if◌then◌else◌}
use sim_core.Prelude.Trim.{between}

abbrev pub is_upper : ℕ → Bool
is_upper = between b'A' b'Z'

abbrev pub is_digit : ℕ → Bool
is_digit = between b'0' b'9'

-- `is_ascii_alphabetic` and `is_ascii_alphanumeric`.
abbrev pub is_alphabetic : ℕ → Bool
is_alphabetic n = is_upper n || between b'a' b'z' n

abbrev pub is_alphanumeric : ℕ → Bool
is_alphanumeric n = is_alphabetic n || is_digit n

lower : ℕ → ℕ
lower n = if is_upper n then n + 32 else n

-- `s.to_ascii_lowercase() == t`.
unfoldable pub lowers_to : String → String → Bool
unfolding lower
lowers_to [] [] = true
lowers_to (c ∷ s) (d ∷ t) = (lower (code c) == code d) && lowers_to s t
lowers_to _ _ = false
