-- ===== src/Primitive/Hold.antt =====
-- When the clocked primitives of src/digital.rs keep what they store, and when they are reset.
use sim_core.Prelude.{ℕ, true, false, ◌≡◌, Option, none, some, List, arith, replicate, ◌⊎◌}
use sim_core.Logic.{LogicValue, low, high, logic_buffer, EdgeKind}
use sim_core.Bus.{increment_bits}
use sim_core.Primitive.{
  DigitalPrimitive, d_latch, sr_latch, d_flip_flop, jk_flip_flop, t_flip_flop, sr_flip_flop,
  register, counter, RuntimeState, Inputs, async_set_reset, set_reset, evaluate_inputs,
  clocked_vector, data_bits,
}

-- The clock edge that a clocked primitive waits for.
abbrev pub edge_of : {F : Type 0} → DigitalPrimitive F → Option EdgeKind
edge_of (d_flip_flop edge) = some edge
edge_of (jk_flip_flop edge) = some edge
edge_of (t_flip_flop edge) = some edge
edge_of (sr_flip_flop edge) = some edge
edge_of (register width edge) = some edge
edge_of (counter width edge) = some edge
edge_of _ = none

abbrev pub Held : RuntimeState → LogicValue → RuntimeState → Type 0
Held before clk after =
    (logic_buffer after.q ≡ logic_buffer before.q)
    × (after.bits ≡ before.bits)
    × (after.previous_clock ≡ clk)

-- What a primitive that stores something holds after a reset.
abbrev pub IsReset : {F : Type 0} → DigitalPrimitive F → RuntimeState → Type 0
IsReset d_latch after = after.q ≡ low
IsReset sr_latch after = after.q ≡ low
IsReset (d_flip_flop edge) after = after.q ≡ low
IsReset (jk_flip_flop edge) after = after.q ≡ low
IsReset (t_flip_flop edge) after = after.q ≡ low
IsReset (sr_flip_flop edge) after = after.q ≡ low
IsReset (register width edge) after = after.bits ≡ replicate width low
IsReset (counter width edge) after = after.bits ≡ replicate width low
IsReset _ after = Unit

reset_only :
    (i : Inputs)
    → i.connected "reset" ≡ true
    → i.read "reset" ≡ high
    → (i.connected "set" ≡ false) ⊎ (i.read "set" ≡ low)
    → async_set_reset i ≡ some low
unfolding async_set_reset set_reset logic_buffer
reset_only i c r s = ground arith

vector-reset :
    (width : ℕ) (edge : EdgeKind) (i : Inputs) (state : RuntimeState) (loaded : List LogicValue)
    → i.connected "reset" ≡ true
    → i.read "reset" ≡ high
    → clocked_vector width edge i state loaded ≡ replicate width low
unfolding clocked_vector
vector-reset width edge i state loaded c r = ground arith

-- A reset that is high while no set acts clears whatever a primitive stores, on any clock.
pub evaluate_inputs-IsReset :
    {F : Type 0} (p : DigitalPrimitive F) (outputs : ℕ) (i : Inputs) (state : RuntimeState)
    → i.connected "reset" ≡ true
    → i.read "reset" ≡ high
    → (i.connected "set" ≡ false) ⊎ (i.read "set" ≡ low)
    → IsReset p (evaluate_inputs p outputs i state).1
unfolding evaluate_inputs
evaluate_inputs-IsReset (register width e) outputs i state c r s =
    vector-reset width e i state (data_bits i 0 width) c r
evaluate_inputs-IsReset (counter width e) outputs i state c r s =
    vector-reset width e i state (increment_bits state.bits) c r
evaluate_inputs-IsReset _ outputs i state c r s = ground (arith, reset_only i c r s)
