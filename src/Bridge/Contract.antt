-- ===== src/Bridge/Contract.antt =====
-- The converters of src/cosim_bridge.rs keep the contract of the scheduler's participants.
use sim_core.Prelude.{
  ◌≡◌, refl, Bool, true, false, not, ltb, str_eq, arith, inl, inr, Bool-cases, if◌then◌else◌,
}
use sim_core.Prelude.Result.{Ensures, Ensures-after, Ensures-guard}
use sim_core.CoSim.{CoSimulationValue, digital, analog}
use sim_core.CoSim.Lawful.{Lawful}
use sim_core.Float.{Float}
use sim_core.Logic.{LogicValue, low, high, is_known, logic_eq}
use sim_core.Bridge.{
  check_control, require_current_time, Dac, Adc, initialize_dac, advance_dac, take_level, write_dac,
  dac_backend, classify_adc, initialize_adc, advance_adc, take_voltage, write_adc, adc_backend,
}

not-false : {b : Bool} → not b ≡ false → b ≡ true
not-false {b} h = ground arith

module _ (fl : Float) where
  open fl use {F, zero_time, le}

  -- The output of a converter is that of its input.
  pub record Converts (p : Dac fl) : Type 0 where
    pub known : is_known p.input ≡ true
    pub driven : p.output ≡ (if logic_eq p.input high then p.high_voltage else p.low_voltage)

  pub record Decides (p : Adc fl) : Type 0 where
    pub known : is_known p.output ≡ true
    pub below : le p.input p.low_threshold ≡ true → p.output ≡ low
    pub above :
        le p.input p.low_threshold ≡ false → le p.high_threshold p.input ≡ true → p.output ≡ high

  take_level-Converts :
      (value : CoSimulationValue F) (p : Dac fl)
      → Converts p
      → Ensures (λ r. Converts r.0 × (r.0.current_time ≡ p.current_time)) (take_level fl value p)
  unfolding take_level
  take_level-Converts (analog x) p c = tt
  take_level-Converts (digital value) p c =
      let Good : Dac fl × Bool → Type 0 = λ r. Converts r.0 × (r.0.current_time ≡ p.current_time) in
      Ensures-guard Good (not (is_known value)) "dac_cosim_two_state_input" _ (λ two_state.
        elim (Bool-cases (logic_eq value p.input)) [
          | inl same ↦ rw same (c, refl)
          | inr new ↦ rw new (record { known = not-false two_state; driven = refl }, refl)
        ])

  dac_backend-Lawful : Lawful fl (dac_backend fl) Converts
  unfolding initialize_dac advance_dac write_dac
  dac_backend-Lawful = record {
    starts = λ control instant p.
        Ensures-after _ (check_control control instant) _
          (λ u on. (record { known = unfold is_known in refl; driven = refl }, refl));
    advances = λ control instant target p live.
        Ensures-after _ (check_control control instant) _ (λ u on.
          Ensures-guard _ (ltb target p.current_time) "dac_cosim_time_invalid" _
            (λ later. (record { known = live.known; driven = live.driven }, refl)));
    writes = λ control instant port time value p live.
        Ensures-after _ (check_control control instant) _ (λ u on.
          Ensures-guard _ (not (str_eq port "digital_in")) "dac_cosim_port_missing" _ (λ found.
            Ensures-after _ (require_current_time p.current_time time "dac_cosim_time_invalid") _
              (λ v now. take_level-Converts value p live)));
    announces = λ p live w e. cc;
  }

  classify_adc-known :
      (x lo hi : F) (previous : LogicValue)
      → is_known previous ≡ true
      → is_known (classify_adc fl x previous lo hi) ≡ true
  unfolding classify_adc is_known
  classify_adc-known x lo hi previous known = ground arith

  classify_adc-low :
      (x lo hi : F) (previous : LogicValue)
      → le x lo ≡ true
      → classify_adc fl x previous lo hi ≡ low
  unfolding classify_adc
  classify_adc-low x lo hi previous below = rw below refl

  classify_adc-high :
      (x lo hi : F) (previous : LogicValue)
      → le x lo ≡ false
      → le hi x ≡ true
      → classify_adc fl x previous lo hi ≡ high
  unfolding classify_adc
  classify_adc-high x lo hi previous off above = rw (off, above) refl

  pub take_voltage-Decides :
      (value : CoSimulationValue F) (p : Adc fl)
      → Decides p
      → Ensures (λ r. Decides r.0 × (r.0.current_time ≡ p.current_time)) (take_voltage fl value p)
  unfolding take_voltage
  take_voltage-Decides (digital v) p d = tt
  take_voltage-Decides (analog x) p d =
      let Good : Adc fl × Bool → Type 0 = λ r. Decides r.0 × (r.0.current_time ≡ p.current_time) in
      Ensures-guard Good (not (fl.is_finite x)) "adc_cosim_value_invalid" _ (λ finite.
        elim (Bool-cases (fl.same_bits p.input x)) [
          | inl same ↦ rw same (d, refl)
          | inr new ↦ rw new (
            record {
              known = classify_adc-known x p.low_threshold p.high_threshold p.output d.known;
              below = classify_adc-low x p.low_threshold p.high_threshold p.output;
              above = classify_adc-high x p.low_threshold p.high_threshold p.output;
            },
            refl,
          )
        ])

  adc_backend-Lawful : Lawful fl (adc_backend fl) Decides
  unfolding initialize_adc advance_adc write_adc
  adc_backend-Lawful = record {
    starts = λ control instant p. Ensures-after _ (check_control control instant) _ (λ u on. (
      record {
        known =
            classify_adc-known zero_time p.low_threshold p.high_threshold low
              (unfold is_known in refl);
        below = classify_adc-low zero_time p.low_threshold p.high_threshold low;
        above = classify_adc-high zero_time p.low_threshold p.high_threshold low;
      },
      refl,
    ));
    advances = λ control instant target p live.
        Ensures-after _ (check_control control instant) _ (λ u on.
          Ensures-guard _ (ltb target p.current_time) "adc_cosim_time_invalid" _ (λ later.
            (record { known = live.known; below = live.below; above = live.above }, refl)));
    writes = λ control instant port time value p live.
        Ensures-after _ (check_control control instant) _ (λ u on.
          Ensures-guard _ (not (str_eq port "analog_in")) "adc_cosim_port_missing" _ (λ found.
            Ensures-after _ (require_current_time p.current_time time "adc_cosim_time_invalid") _
              (λ v now. take_voltage-Decides value p live)));
    announces = λ p live w e. cc;
  }

  -- Both converters keep the contract of a participant: they start at time zero, advance to the time
  -- asked for, and take values without moving in time. The output of the one from levels to voltages is
  -- the high voltage for a high input, and else the low one. The output of the one from voltages to
  -- levels is known, low for an input up to the low threshold, and high for one above it from the high
  -- threshold on.
  pub converters-Lawful : Lawful fl (dac_backend fl) Converts × Lawful fl (adc_backend fl) Decides
  converters-Lawful = (dac_backend-Lawful, adc_backend-Lawful)
