-- ===== src/Program.antt =====
-- `DigitalProgram` of src/digital.rs: a circuit in the form that the engine runs.
pub mod Parameters
pub mod Design
pub mod Compile
use sim_core.Prelude.{ℕ, String, List, [], get_elem?, or_default}
use sim_core.Prelude.Map.{lookup, string_key}
use sim_core.Prelude.Result.{Result, ok, ok_or, ◌>>=◌}
use sim_core.Logic.Resolve.{DriverKey}
use sim_core.Primitive.{CompiledDigitalComponent}

pub record CompiledProbe : Type 0 where
  pub signal : String
  pub net : String

pub record DigitalProgram (F : Type 0) : Type 0 where
  pub components : List (CompiledDigitalComponent F)
  pub dependents : List (String × List ℕ)
  pub net_drivers : List (String × List DriverKey)
  pub nets : List String
  pub probes : List CompiledProbe

module _ {F : Type 0} (program : DigitalProgram F) where
  -- `net_drivers.get(net)`, or no drivers; and `dependents.get(net)`.
  abbrev pub drivers_of : String → List DriverKey
  drivers_of net = or_default (lookup net program.net_drivers) []

  abbrev pub dependents_of : String → List ℕ
  dependents_of net = or_default (lookup net program.dependents) []

  -- `components[driver.component].output_nets[driver.output].1`, which panics out of range.
  unfoldable pub output_net : DriverKey → Result String
  output_net driver = do
    component ← ok_or (get_elem? program.components driver.component) "panic"
    output ← ok_or (get_elem? component.output_nets driver.output) "panic"
    ok output.1
