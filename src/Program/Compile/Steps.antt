-- ===== src/Program/Compile/Steps.antt =====
-- The steps of a compilation by `DigitalProgram::compile` of src/digital.rs, and its wiring.
use sim_core.Prelude.{◌≡◌, refl, sym, ap, ◌∙◌, false, not, ◌||◌}
use sim_core.Prelude.Result.{ok, reject, reject-ok, >>=-eq-ok, ok-eq-ok}
use sim_core.Float.{Float, Casts}
use sim_core.Analysis.{Analysis, SimulationRequest}
use sim_core.Program.{DigitalProgram}
use sim_core.Program.Compile.{
  EndpointNets, Wiring, no_wiring, wire_all, compile, compile_as, compile_until, endpoint_net_map,
  compile_probes, net_ids, no_nets,
}
use sim_core.Program.Compile.Wired.{IsWired, EachCompiled, wire_all-IsWiring, no_wiring-IsWiring}

module _ {fl : Float} (casts : Casts fl) where
  open fl use {F, zero_time, le, is_finite}

  -- The steps of a compilation that succeeds.
  pub record Steps (request : SimulationRequest F) (program : DigitalProgram F) : Type 0 where
    pub stop : F
    pub digital : request.analysis ≡ Analysis.digital_transient stop
    pub endpoint_net : EndpointNets
    pub mapped : endpoint_net_map request.circuit ≡ ok endpoint_net
    pub wiring : Wiring F
    pub wired : wire_all casts endpoint_net request.circuit.components no_wiring ≡ ok wiring
    pub some_net : no_nets (net_ids request.circuit) ≡ false
    pub probed : compile_probes request.probes request.circuit endpoint_net ≡ ok program.probes
    pub components_of : program.components ≡ wiring.components
    pub dependents_of_program : program.dependents ≡ wiring.dependents
    pub drivers_of_program : program.net_drivers ≡ wiring.net_drivers
    pub nets_of : program.nets ≡ net_ids request.circuit

  compile_until-Steps :
      (stop : F) (request : SimulationRequest F) {program : DigitalProgram F}
      → request.analysis ≡ Analysis.digital_transient stop
      → compile_until casts stop request ≡ ok program
      → Steps request program
  unfolding compile_until
  compile_until-Steps stop request {program} a h =
      let (u, checked, rest) =
        >>=-eq-ok (reject (not (is_finite stop) || le stop zero_time) "digital_invalid_analysis") _
          h in
      let (en, mapped, rest) = >>=-eq-ok (endpoint_net_map request.circuit) _ rest in
      let (w, wired, rest) =
        >>=-eq-ok (wire_all casts en request.circuit.components no_wiring) _ rest in
      let (u, some_net, rest) =
        >>=-eq-ok (reject (no_nets (net_ids request.circuit)) "digital_no_nets") _ rest in
      let (probes, probed, rest) =
        >>=-eq-ok (compile_probes request.probes request.circuit en) _ rest in
      let e = ok-eq-ok _ program rest in
      record {
        stop = stop;
        digital = a;
        endpoint_net = en;
        mapped = mapped;
        wiring = w;
        wired = wired;
        some_net = (reject-ok (no_nets (net_ids request.circuit)) "digital_no_nets").0 some_net;
        probed = probed ∙ ap (λ p. ok (p.probes)) e;
        components_of = sym (ap (λ p. p.components) e);
        dependents_of_program = sym (ap (λ p. p.dependents) e);
        drivers_of_program = sym (ap (λ p. p.net_drivers) e);
        nets_of = sym (ap (λ p. p.nets) e);
      }

  compile_as-Steps :
      (analysis : Analysis F) (request : SimulationRequest F) {program : DigitalProgram F}
      → request.analysis ≡ analysis
      → compile_as casts analysis request ≡ ok program
      → Steps request program
  unfolding compile_as
  compile_as-Steps (Analysis.digital_transient stop) request a h =
      compile_until-Steps stop request a h
  compile_as-Steps _ request a h = cc

  pub compile-Steps :
      (request : SimulationRequest F) {program : DigitalProgram F}
      → compile casts request ≡ ok program
      → Steps request program
  unfolding compile
  compile-Steps request h = compile_as-Steps request.analysis request refl h

  -- A compiled program has a component for each component of the circuit, in order, as `compile_component`
  -- makes it with the nets of the endpoints; its nets are those of the circuit, one at least; and each
  -- net has exactly the drivers that the component outputs on it give, in order, and exactly the
  -- dependents that the component inputs on it give.
  pub compile-IsWired :
      (request : SimulationRequest F) {program : DigitalProgram F}
      → compile casts request ≡ ok program
      → IsWired program.components program.dependents program.net_drivers
        × (program.nets ≡ net_ids request.circuit)
        × (no_nets program.nets ≡ false)
        × ((en : EndpointNets) × (endpoint_net_map request.circuit ≡ ok en)
            × EachCompiled casts en request.circuit.components program.components)
  compile-IsWired request {program} h =
      let s = compile-Steps request h in
      let (i, (ds, shape, each)) =
        wire_all-IsWiring casts s.endpoint_net request.circuit.components no_wiring
          no_wiring-IsWiring s.wired in
      (
        rw (s.components_of, s.dependents_of_program, s.drivers_of_program) i,
        s.nets_of,
        rw s.nets_of s.some_net,
        (s.endpoint_net, s.mapped, rw (s.components_of, shape) each),
      )
