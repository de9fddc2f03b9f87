-- ===== src/Primitive/Count.antt =====
-- The counter of src/digital.rs over whole clock pulses.
use native.Mathlib.Nat.{add-zero, mod-add-mod, mod-eq_of_lt}
use sim_core.Prelude.{
  ℕ, zero, suc, ◌+◌, ◌%◌, ◌^◌, ◌≤◌, ◌<◌, false, ◌≡◌, sym, ◌∙◌, ap, some, arith, or_default, length,
  ◌⊎◌,
}
use sim_core.Logic.{LogicValue, low, high, EdgeKind, rising, falling, is_edge, logic_buffer}
use sim_core.Bus.{increment_bits, to_u64}
use sim_core.Bus.Number.{AllKnown, number, to_u64-some, to_u64-number, number-lt}
use sim_core.Bus.Increment.{increment_bits-number, length-increment_bits}
use sim_core.Primitive.{
  DigitalPrimitive, counter, RuntimeState, Inputs, evaluate_inputs, clocked_vector, enabled,
}

-- Inputs of a counter that is enabled and not reset, with its clock at `level`.
pub record Counting (level : LogicValue) (i : Inputs) : Type 0 where
  pub clock_at : i.read "clk" ≡ level
  pub no_reset : i.connected "reset" ≡ false
  pub enable : (i.connected "enable" ≡ false) ⊎ (i.read "enable" ≡ high)

count_none : (x m : ℕ) → x < m → x ≡ (x + 0) % m
count_none x m h = rw add-zero (sym (mod-eq_of_lt h))

count_on : (x n m : ℕ) → ((x + 1) % m + n) % m ≡ (x + suc n) % m
count_on x n m = mod-add-mod (x + 1) m n ∙ ap (λ t. t % m) (omega arith)

-- The levels of the clock before and after the edge at which the counter counts.
abbrev pub before_edge : EdgeKind → LogicValue
before_edge rising = low
before_edge falling = high

abbrev pub after_edge : EdgeKind → LogicValue
after_edge rising = high
after_edge falling = low

module _ (F : Type 0) (outputs : ℕ) where
  -- The clock goes to the level before the edge, and over the edge.
  abbrev pub pulse : ℕ → EdgeKind → Inputs → Inputs → RuntimeState → RuntimeState
  pulse width edge before after state =
      let p : DigitalPrimitive F = counter width edge in
      (evaluate_inputs p outputs after (evaluate_inputs p outputs before state).1).1

  abbrev pub pulses : ℕ → EdgeKind → Inputs → Inputs → ℕ → RuntimeState → RuntimeState
  pulses width edge before after zero state = state
  pulses width edge before after (suc n) state =
      pulses width edge before after n (pulse width edge before after state)

  pulse-bits :
      (width : ℕ) (edge : EdgeKind) (before after : Inputs) (state : RuntimeState)
      → Counting (before_edge edge) before
      → Counting (after_edge edge) after
      → (pulse width edge before after state).bits ≡ increment_bits state.bits
  unfolding evaluate_inputs clocked_vector enabled is_edge logic_buffer
  pulse-bits width rising before after state d u = ground arith
  pulse-bits width falling before after state d u = ground arith

  -- After `n` clock pulses, each to the level before the counter's edge and over it, a counter of either
  -- edge, of at most 64 bits, all of them levels, which is enabled and whose reset is not connected, holds
  -- its number plus `n` modulo 2 ^ its number of bits, whatever its clock was before.
  pub pulses-number :
      (width : ℕ) (edge : EdgeKind) (before after : Inputs) (n : ℕ) (state : RuntimeState)
      → Counting (before_edge edge) before
      → Counting (after_edge edge) after
      → AllKnown state.bits
      → length state.bits ≤ 64
      → to_u64 (pulses width edge before after n state).bits
        ≡ some ((number state.bits + n) % 2 ^ length state.bits)
  pulses-number width edge before after zero state d u k h =
      to_u64-number state.bits k h
      ∙ ap some (count_none (number state.bits) _ (number-lt state.bits))
  pulses-number width edge before after (suc n) state d u k h =
      let next = pulse width edge before after state in
      let bits : next.bits ≡ increment_bits state.bits =
        pulse-bits width edge before after state d u in
      let counted = increment_bits-number state.bits k h in
      let (known, short) = to_u64-some (increment_bits state.bits) counted in
      let value : number (increment_bits state.bits)
          ≡ (number state.bits + 1) % 2 ^ length state.bits =
        ap (λ o. or_default o 0)
          (sym (to_u64-number (increment_bits state.bits) known short) ∙ counted) in
      pulses-number width edge before after n next d u (rw bits known) (rw bits short)
      ∙ rw (bits, length-increment_bits state.bits, value)
          (ap some (count_on (number state.bits) n (2 ^ length state.bits)))
