-- ===== src/Examples/Bridges.antt =====
-- The converters of src/cosim_bridge.rs at concrete inputs.
use sim_core.Prelude.{◌≡◌, refl, ==_iff, [], ◌∷◌, or_default}
use sim_core.Prelude.Result.{ok}
use sim_core.CoSim.Lawful.{Lawful}
use sim_core.Logic.{low, is_known}
use sim_core.Waveform.{last}
use sim_core.Bridge.{Adc, dac_backend, adc_backend}
use sim_core.Bridge.Contract.{Converts, Decides, converters-Lawful}
use sim_core.Bridge.Schmitt.{take_voltages, outside, take_voltages-outside}
use sim_core.Examples.Digital.{halves}

converters-Lawful_example :
    Lawful halves (dac_backend halves) (Converts halves)
    × Lawful halves (adc_backend halves) (Decides halves)
converters-Lawful_example = converters-Lawful halves

-- Thresholds of 2 and 6.
abbrev trigger : Adc halves
trigger = record {
  id = "adc";
  ports = [];
  current_time = 0;
  low_threshold = 2;
  high_threshold = 6;
  input = 0;
  output = low;
}

trigger-Decides : Decides halves trigger
trigger-Decides = record {
  known = unfold is_known in refl;
  below = λ h. refl;
  above = λ off on. cc;
}

-- A pulse that falls back into the window keeps the high level.
take_voltages-outside_example :
    (q : Adc halves) × (take_voltages halves (3 ∷ 7 ∷ 4 ∷ []) trigger ≡ ok q)
    × (q.output ≡ or_default (last (outside halves 2 6 (3 ∷ 7 ∷ 4 ∷ []))) low)
take_voltages-outside_example =
    take_voltages-outside halves (λ a b. (==_iff a b).0) (3 ∷ 7 ∷ 4 ∷ []) trigger
      (refl, (refl, (refl, tt))) trigger-Decides
