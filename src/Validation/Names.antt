-- ===== src/Validation/Names.antt =====
-- The names of src/validation.rs: `is_mcu_gpio_mapping`, `is_hdl_port_reference` and identifiers.
use Prim.Native.Char.{code}
use Prim.Native.String as Text
use sim_core.Prelude.{
  ℕ, ◌-◌, ◌^◌, String, Bool, true, false, ◌&&◌, ◌||◌, Option, none, some, is_some, ◌==◌,
}
use sim_core.Prelude.Ascii.{is_alphabetic, is_alphanumeric}
use sim_core.Prelude.Scan.{split_once, split_last, strip_last, parse_unsigned}

-- `chars.all(..)` over the characters' numbers.
all_codes : (ℕ → Bool) → String → Bool
all_codes p Text.[] = true
all_codes p (Text.◌∷◌ c s) = p (code c) && all_codes p s

-- An identifier: what its first character and the others may be.
identifier : (ℕ → Bool) → (ℕ → Bool) → String → Bool
unfolding all_codes
identifier first others Text.[] = false
identifier first others (Text.◌∷◌ c s) = first (code c) && all_codes others s

starts : ℕ → Bool
starts n = n == b'_' || is_alphabetic n

unfoldable pub is_renode_identifier : String → Bool
unfolding identifier starts
is_renode_identifier = identifier starts (λ n. n == b'_' || is_alphanumeric n)

unfoldable pub is_hdl_identifier : String → Bool
unfolding identifier starts
is_hdl_identifier = identifier starts (λ n. n == b'_' || n == b'$' || is_alphanumeric n)

gpio_parts : Option (String × String) → Bool
unfolding is_renode_identifier parse_unsigned
gpio_parts none = false
gpio_parts (some (peripheral, pin)) =
    is_renode_identifier peripheral && is_some (parse_unsigned (2 ^ 32 - 1) pin)

unfoldable pub is_mcu_gpio_mapping : String → Bool
unfolding gpio_parts split_once
is_mcu_gpio_mapping s = gpio_parts (split_once b'@' s)

-- The bit of `port[bit]`, up to the closing bracket.
bit_part : Option String → Bool
unfolding parse_unsigned
bit_part none = false
bit_part (some bit) = is_some (parse_unsigned (2 ^ 64 - 1) bit)

port_parts : Option (String × String) → Bool
unfolding bit_part strip_last is_hdl_identifier
port_parts none = false
port_parts (some (port, rest)) = is_hdl_identifier port && bit_part (strip_last b']' rest)

unfoldable pub is_hdl_port_reference : String → Bool
unfolding port_parts split_last is_hdl_identifier
is_hdl_port_reference s = is_hdl_identifier s || port_parts (split_last b'[' s)
