-- ===== src/Program/Parameters/Calm.antt =====
-- The readers of parameters of src/digital.rs do not panic.
use sim_core.Prelude.{ℕ, String, Option, none, some}
use sim_core.Prelude.Int.{pos}
use sim_core.Prelude.Result.{Result}
use sim_core.Prelude.Safe.{Calm, value, Calm-bind, calm}
use sim_core.Prelude.Trim.{trim}
use sim_core.Float.{Float, Casts}
use sim_core.Circuit.{
  UnitOf, second, dimensionless, Quantity, ParameterValue, integer, number, text, quantity,
  Component,
}
use sim_core.Bus.{validate_width, from_u64}
use sim_core.Program.Parameters.{
  parameter, logic_text, logic_of, optionally, optional_logic_value, required_logic_value,
  edge_text, edge_of, edge_kind, width_of, component_width, bits_of, initial_vector, seconds_in,
  seconds_of, finite_seconds, optional_seconds, required_positive_seconds,
  optional_non_negative_seconds, ratio_in, ratio_of, duty_of, duty_cycle,
}

logic_text-Calm : (s : String) → Calm (logic_text s)
unfolding logic_text
logic_text-Calm s = search calm

logic_of-Calm : {F : Type 0} (v : ParameterValue F) → Calm (logic_of v)
unfolding logic_of
logic_of-Calm (integer (pos n)) = search calm
logic_of-Calm (text s) = logic_text-Calm (trim s)
logic_of-Calm _ = search calm

edge_text-Calm : (s : String) → Calm (edge_text s)
unfolding edge_text
edge_text-Calm s = search calm

edge_of-Calm : {F : Type 0} (o : Option (ParameterValue F)) → Calm (edge_of o)
unfolding edge_of
edge_of-Calm none = search calm
edge_of-Calm (some (text s)) = edge_text-Calm (trim s)
edge_of-Calm (some _) = search calm

optionally-Calm :
    {A V : Type 0} (read : V → Result A) (o : Option V)
    → ((v : V) → Calm (read v))
    → Calm (optionally read o)
unfolding optionally
optionally-Calm read none h = search calm
optionally-Calm read (some v) h = Calm-bind (h v) (λ a. value (some a))

from_u64-Calm : (width n : ℕ) → Calm (from_u64 width n)
unfolding from_u64 validate_width
from_u64-Calm width n = search calm

module _ {F : Type 0} (c : Component F) where
  pub optional_logic_value-Calm : (key : String) → Calm (optional_logic_value c key)
  unfolding optional_logic_value
  optional_logic_value-Calm key = optionally-Calm logic_of (parameter c key) logic_of-Calm

  pub required_logic_value-Calm : (key : String) → Calm (required_logic_value c key)
  unfolding required_logic_value
  required_logic_value-Calm key = search (calm, optional_logic_value-Calm)

  pub edge_kind-Calm : Calm (edge_kind c)
  unfolding edge_kind
  edge_kind-Calm = edge_of-Calm (parameter c "edge")

module _ {fl : Float} (casts : Casts fl) where
  open fl use {F}

  width_of-Calm : (o : Option (ParameterValue F)) → Calm (width_of casts o)
  unfolding width_of
  width_of-Calm none = search calm
  width_of-Calm (some (integer (pos n))) = search calm
  width_of-Calm (some _) = search calm

  bits_of-Calm : (width : ℕ) (o : Option (ParameterValue F)) → Calm (bits_of casts width o)
  unfolding bits_of
  bits_of-Calm width none = search calm
  bits_of-Calm width (some (integer (pos n))) = from_u64-Calm width n
  bits_of-Calm width (some (number x)) = search (calm, from_u64-Calm)
  bits_of-Calm width (some _) = search calm

  seconds_in-Calm : (q : Quantity F) (u : UnitOf) → Calm (seconds_in casts q u)
  unfolding seconds_in
  seconds_in-Calm q second = search calm
  seconds_in-Calm q _ = search calm

  seconds_of-Calm : (v : ParameterValue F) → Calm (seconds_of casts v)
  unfolding seconds_of
  seconds_of-Calm (quantity q) = seconds_in-Calm q q.unit
  seconds_of-Calm _ = search calm

  finite_seconds-Calm : (v : ParameterValue F) → Calm (finite_seconds casts v)
  unfolding finite_seconds
  finite_seconds-Calm v = search (calm, seconds_of-Calm)

  ratio_in-Calm : (q : Quantity F) (u : UnitOf) → Calm (ratio_in casts q u)
  unfolding ratio_in
  ratio_in-Calm q dimensionless = search calm
  ratio_in-Calm q _ = search calm

  ratio_of-Calm : (v : ParameterValue F) → Calm (ratio_of casts v)
  unfolding ratio_of
  ratio_of-Calm (quantity q) = ratio_in-Calm q q.unit
  ratio_of-Calm _ = search calm

  duty_of-Calm : (o : Option (ParameterValue F)) → Calm (duty_of casts o)
  unfolding duty_of
  duty_of-Calm none = search calm
  duty_of-Calm (some v) = search (calm, ratio_of-Calm)

  module _ (c : Component F) where
    pub component_width-Calm : Calm (component_width casts c)
    unfolding component_width validate_width
    component_width-Calm = search (calm, width_of-Calm)

    pub initial_vector-Calm : (width : ℕ) → Calm (initial_vector casts c width)
    unfolding initial_vector
    initial_vector-Calm width = bits_of-Calm width (parameter c "initial")

    optional_seconds-Calm : (key : String) → Calm (optional_seconds casts c key)
    unfolding optional_seconds
    optional_seconds-Calm key =
        optionally-Calm (finite_seconds casts) (parameter c key) finite_seconds-Calm

    pub required_positive_seconds-Calm :
        (key : String) → Calm (required_positive_seconds casts c key)
    unfolding required_positive_seconds
    required_positive_seconds-Calm key = search (calm, optional_seconds-Calm)

    pub optional_non_negative_seconds-Calm :
        (key : String) → Calm (optional_non_negative_seconds casts c key)
    unfolding optional_non_negative_seconds
    optional_non_negative_seconds-Calm key = search (calm, optional_seconds-Calm)

    pub duty_cycle-Calm : Calm (duty_cycle casts c)
    unfolding duty_cycle
    duty_cycle-Calm = duty_of-Calm (parameter c "duty_cycle")
