-- ===== src/Program/Compile/Probes.antt =====
-- The probes of a program that `DigitalProgram::compile` of src/digital.rs makes.
use sim_core.Prelude.{
  ℕ, suc, ◌≡◌, refl, ap, String, true, List, [], ◌∷◌, length, length-map, map, All, inl, inr,
  Option-cases,
}
use sim_core.Prelude.Map.{lookup, contains, string_key, pair_key, lookup-AllValues}
use sim_core.Prelude.Result.{ok, Ensures, Ensures-bind, Ensures-ok}
use sim_core.Float.{Float, Casts}
use sim_core.Analysis.{Probe, SimulationRequest}
use sim_core.Circuit.{Circuit, Net}
use sim_core.Program.{CompiledProbe, DigitalProgram}
use sim_core.Program.Compile.{
  EndpointNets, endpoint_of, compile, compile_probe, compile_probes, compile_each, net_probe,
  net_ids, endpoint_net_map,
}
use sim_core.Program.Compile.Shape.{Known}
use sim_core.Program.Compile.Sound.{all_ids, endpoint_net_map-Known}
use sim_core.Program.Compile.Steps.{compile-Steps}

-- The number of signals: one for each probe, or for each net if no probe is given.
unfoldable pub signals_of : {F : Type 0} → Circuit F → List Probe → ℕ
signals_of circuit [] = length circuit.nets
signals_of circuit (probe ∷ probes) = length (probe ∷ probes)

-- Probes of the nets, a number of them.
abbrev pub Probed : List String → ℕ → List CompiledProbe → Type 0
Probed nets count probes = All (λ p. contains p.net nets ≡ true) probes × (length probes ≡ count)

compile_probe-on :
    (nets : List String) (endpoint_net : EndpointNets) (probe : Probe)
    → Known nets endpoint_net
    → Ensures (λ p. contains p.net nets ≡ true) (compile_probe probe endpoint_net)
unfolding compile_probe
compile_probe-on nets endpoint_net probe known =
    elim (Option-cases (lookup (endpoint_of probe.endpoint) endpoint_net)) [
      | inl missing ↦ rw missing tt
      | inr (net, found) ↦ rw found (
          lookup-AllValues (λ n. contains n nets ≡ true) (endpoint_of probe.endpoint) endpoint_net
            known found)
    ]

compile_each-Probed :
    (nets : List String) (endpoint_net : EndpointNets) (probes : List Probe)
    → Known nets endpoint_net
    → Ensures (Probed nets (length probes)) (compile_each probes endpoint_net)
unfolding compile_each
compile_each-Probed nets endpoint_net [] known = (tt, refl)
compile_each-Probed nets endpoint_net (probe ∷ probes) known =
    let Good = Probed nets (length (probe ∷ probes)) in
    Ensures-bind (λ p. contains p.net nets ≡ true) Good (compile_probe probe endpoint_net) _
      (compile_probe-on nets endpoint_net probe known)
      (λ p on.
        Ensures-bind (Probed nets (length probes)) Good (compile_each probes endpoint_net) _
          (compile_each-Probed nets endpoint_net probes known) (λ rest h. ((on, h.0), ap suc h.1)))

net_probes-on :
    (ids : List String) (nets : List Net)
    → All (λ net. contains net.id ids ≡ true) nets
    → All (λ p. contains p.net ids ≡ true) (map net_probe nets)
unfolding net_probe
net_probes-on ids [] h = tt
net_probes-on ids (net ∷ nets) h = (h.0, net_probes-on ids nets h.1)

compile_probes-Probed :
    {F : Type 0} (circuit : Circuit F) (endpoint_net : EndpointNets) (probes : List Probe)
    → Known (net_ids circuit) endpoint_net
    → Ensures
        (Probed (net_ids circuit) (signals_of circuit probes))
        (compile_probes probes circuit endpoint_net)
unfolding compile_probes signals_of
compile_probes-Probed circuit endpoint_net [] known = (
  net_probes-on (net_ids circuit) circuit.nets (all_ids circuit.nets),
  length-map net_probe circuit.nets,
)
compile_probes-Probed circuit endpoint_net (probe ∷ probes) known =
    compile_each-Probed (net_ids circuit) endpoint_net (probe ∷ probes) known

-- The probes of a compiled program are on its nets.
pub compile-Probed :
    {fl : Float} (casts : Casts fl) (request : SimulationRequest fl.F)
    {program : DigitalProgram fl.F}
    → compile casts request ≡ ok program
    → Probed program.nets (signals_of request.circuit request.probes) program.probes
compile-Probed casts request {program} h =
    let s = compile-Steps casts request h in
    let known =
      Ensures-ok (Known (net_ids request.circuit)) (endpoint_net_map request.circuit) s.mapped
        (endpoint_net_map-Known request.circuit) in
    rw s.nets_of (
      Ensures-ok (Probed (net_ids request.circuit) (signals_of request.circuit request.probes))
        (compile_probes request.probes request.circuit s.endpoint_net) s.probed
        (compile_probes-Probed request.circuit s.endpoint_net request.probes known))
