-- ===== src/Bridge/Schmitt.antt =====
-- The hysteresis of the converter from voltages to levels of src/cosim_bridge.rs.
use sim_core.Prelude.{
  ◌≡◌, refl, ◌∙◌, subst, Bool, true, false, List, [], ◌∷◌, ◌++◌, or_default, All, if◌then◌else◌,
  arith, inl, inr, Bool-cases,
}
use sim_core.Prelude.Result.{Result, ok, Ensures-ok, ◌>>=◌}
use sim_core.CoSim.{analog}
use sim_core.Float.{Float}
use sim_core.Logic.{LogicValue, low, high}
use sim_core.Waveform.{last}
use sim_core.Bridge.{Adc, classify_adc, take_voltage}
use sim_core.Bridge.Contract.{Decides, take_voltage-Decides}

module _ (fl : Float) where
  open fl use {F, le, same_bits, is_finite}

  -- The voltages that a converter takes in turn.
  unfoldable pub take_voltages : List F → Adc fl → Result (Adc fl)
  take_voltages [] p = ok p
  take_voltages (x ∷ xs) p = do taken ← take_voltage fl (analog x) p; take_voltages xs taken.0

  -- The levels of the voltages that are outside of the window between the thresholds.
  unfoldable pub outside : F → F → List F → List LogicValue
  outside lower upper [] = []
  outside lower upper (x ∷ xs) =
      (if le x lower then low ∷ [] else if le upper x then high ∷ [] else [])
      ++ outside lower upper xs

  -- The last level of a list, or `previous`.
  abbrev last_or : LogicValue → List LogicValue → LogicValue
  last_or previous levels = or_default (last levels) previous

  last_or-any :
      (u v w : LogicValue) (levels : List LogicValue)
      → last_or u (w ∷ levels) ≡ last_or v (w ∷ levels)
  last_or-any u v w [] = refl
  last_or-any u v w (x ∷ levels) = last_or-any u v x levels

  last_or-cons :
      (u v : LogicValue) (levels : List LogicValue) → last_or v levels ≡ last_or u (v ∷ levels)
  last_or-cons u v [] = refl
  last_or-cons u v (w ∷ levels) = last_or-any v u w levels

  classify_adc-outside :
      (x lower upper : F) (previous : LogicValue) (xs : List F)
      → last_or (classify_adc fl x previous lower upper) (outside lower upper xs)
        ≡ last_or previous (outside lower upper (x ∷ xs))
  unfolding classify_adc outside
  classify_adc-outside x lower upper previous xs = elim (Bool-cases (le x lower)) [
    | inl below ↦ rw below (last_or-cons previous low (outside lower upper xs))
    | inr off ↦ elim (Bool-cases (le upper x)) [
      | inl above ↦ rw (off, above) (last_or-cons previous high (outside lower upper xs))
      | inr between ↦ rw (off, between) refl
    ]
  ]

  -- A voltage that is taken: the output is reclassified, and the thresholds stay.
  pub record Taken (x : F) (p q : Adc fl) : Type 0 where
    pub reclassified : q.output ≡ classify_adc fl x p.output p.low_threshold p.high_threshold
    pub same_low : q.low_threshold ≡ p.low_threshold
    pub same_high : q.high_threshold ≡ p.high_threshold
    pub decides : Decides fl q

  Decides-reclassified :
      (p : Adc fl)
      → Decides fl p
      → p.output ≡ classify_adc fl p.input p.output p.low_threshold p.high_threshold
  unfolding classify_adc
  Decides-reclassified p d = ground (arith, d.below, d.above)

  module _ (bits : (a b : F) → same_bits a b ≡ true → a ≡ b) where
    take_voltage-Taken :
        (x : F) (p : Adc fl)
        → is_finite x ≡ true
        → Decides fl p
        → (r : Adc fl × Bool) × (take_voltage fl (analog x) p ≡ ok r) × Taken x p r.0
    unfolding take_voltage
    take_voltage-Taken x p finite d = elim (Bool-cases (same_bits p.input x)) [
      | inl same ↦
          let e = bits p.input x same in
          (
            (p, false),
            rw (finite, same) refl,
            record {
              reclassified =
                  subst
                    (λ y. p.output ≡ classify_adc fl y p.output p.low_threshold p.high_threshold) e
                    (Decides-reclassified p d);
              same_low = refl;
              same_high = refl;
              decides = d;
            },
          )
      | inr new ↦
          let q = record p {
            input = x;
            output = classify_adc fl x p.output p.low_threshold p.high_threshold;
          } in
          let step : take_voltage fl (analog x) p ≡ ok (q, true) = rw (finite, new) refl in
          (
            (q, true),
            step,
            record {
              reclassified = refl;
              same_low = refl;
              same_high = refl;
              decides =
                  (Ensures-ok _ (take_voltage fl (analog x) p) step
                    (take_voltage-Decides fl (analog x) p d)).0;
            },
          )
    ]

    -- Where equal bits are equal numbers, a converter from voltages to levels takes every list of finite
    -- voltages. Its output is then the level of the last of them outside of the window between the
    -- thresholds, or, if all are inside of it, what it was.
    pub take_voltages-outside :
        (xs : List F) (p : Adc fl)
        → All (λ x. is_finite x ≡ true) xs
        → Decides fl p
        → (q : Adc fl) × (take_voltages xs p ≡ ok q)
          × (q.output ≡ or_default (last (outside p.low_threshold p.high_threshold xs)) p.output)
    unfolding take_voltages outside
    take_voltages-outside [] p finite d = (p, refl, refl)
    take_voltages-outside (x ∷ xs) p finite d =
        let (r, taken, t) = take_voltage-Taken x p finite.0 d in
        let moved : last_or r.0.output (outside r.0.low_threshold r.0.high_threshold xs)
            ≡ last_or (classify_adc fl x p.output p.low_threshold p.high_threshold)
                (outside p.low_threshold p.high_threshold xs) =
          rw (t.same_low, t.same_high, t.reclassified) refl in
        let (q, rest, last_of) = take_voltages-outside xs r.0 finite.1 t.decides in
        (
          q,
          rw taken rest,
          last_of ∙ moved ∙ classify_adc-outside x p.low_threshold p.high_threshold p.output xs,
        )
