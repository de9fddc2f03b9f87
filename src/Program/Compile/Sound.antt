-- ===== src/Program/Compile/Sound.antt =====
-- A compiled program of src/digital.rs refers to its own components and nets alone.
use sim_core.Prelude.{
  ℕ, suc, ◌+◌, ◌<◌, ◌≡◌, refl, sym, subst, ap, String, true, List, [], ◌∷◌, some, length, get_elem?,
  get_elem?-lt, map, All, All-imp, All-append, arith, inl, inr, Bool-cases,
}
use sim_core.Prelude.Map.{
  insert, contains, same, same_eq, same_refl, values, string_key, pair_key, insert-AllValues,
}
use sim_core.Prelude.Result.{ok, Ensures, Ensures-bind, Ensures-ok, Ensures-guard}
use sim_core.Float.{Float, Casts}
use sim_core.Analysis.{SimulationRequest}
use sim_core.Circuit.{Component, NetEndpoint, Net, Circuit}
use sim_core.Logic.Resolve.{DriverKey}
use sim_core.Primitive.{CompiledDigitalComponent}
use sim_core.Program.{DigitalProgram, drivers_of, dependents_of, output_net}
use sim_core.Program.Compile.{
  EndpointNets, endpoint_of, join_endpoints, join_nets, endpoint_net_map, net_ids, compile,
  compile_component,
}
use sim_core.Program.Compile.Wired.{each_from, outputs_on, inputs_on, IsWired, EachCompiled}
use sim_core.Program.Compile.Steps.{compile-IsWired}
use sim_core.Program.Compile.Shape.{IsShaped, Known, compile_component-IsShaped}

module _ (ids : List String) where
  abbrev IsId : String → Type 0
  IsId net = contains net ids ≡ true

  join_endpoints-Known :
      (net : String) (endpoints : List NetEndpoint) (m : EndpointNets)
      → IsId net
      → Known ids m
      → Ensures (Known ids) (join_endpoints net endpoints m)
  unfolding join_endpoints
  join_endpoints-Known net [] m is_id known = known
  join_endpoints-Known net (e ∷ endpoints) m is_id known =
      Ensures-guard (Known ids) _ "digital_endpoint_on_multiple_nets" _ (λ fresh.
        join_endpoints-Known net endpoints (insert (endpoint_of e) net m) is_id
          (insert-AllValues IsId (endpoint_of e) net m is_id known))

  join_nets-Known :
      (nets : List Net) (m : EndpointNets)
      → All (λ net. IsId net.id) nets
      → Known ids m
      → Ensures (Known ids) (join_nets nets m)
  unfolding join_nets
  join_nets-Known [] m all known = known
  join_nets-Known (net ∷ nets) m all known =
      Ensures-bind (Known ids) (Known ids) (join_endpoints net.id net.endpoints m) _
        (join_endpoints-Known net.id net.endpoints m all.0 known)
        (λ m' known'. join_nets-Known nets m' all.1 known')

contains-cons : (a b : String) (s : List String) → contains a s ≡ true → contains a (b ∷ s) ≡ true
unfolding contains
contains-cons a b s h = ground arith

pub all_ids : (nets : List Net) → All (λ net. contains net.id (map (λ n. n.id) nets) ≡ true) nets
unfolding contains
all_ids [] = tt
all_ids (net ∷ nets) = (
  ground (arith, same_refl net.id),
  All-imp _ _ (λ n h. contains-cons n.id net.id (map (λ k. k.id) nets) h) nets (all_ids nets),
)

pub endpoint_net_map-Known :
    {F : Type 0} (circuit : Circuit F)
    → Ensures (Known (net_ids circuit)) (endpoint_net_map circuit)
unfolding endpoint_net_map
endpoint_net_map-Known circuit =
    join_nets-Known (net_ids circuit) circuit.nets [] (all_ids circuit.nets) tt

EachCompiled-All :
    {fl : Float} (casts : Casts fl) (endpoint_net : EndpointNets)
    (P : CompiledDigitalComponent fl.F → Type 0)
    → ((c : Component fl.F) → Ensures P (compile_component casts c endpoint_net))
    → (cs : List (Component fl.F)) (ds : List (CompiledDigitalComponent fl.F))
    → EachCompiled casts endpoint_net cs ds
    → All P ds
EachCompiled-All casts endpoint_net P f [] [] h = tt
EachCompiled-All casts endpoint_net P f (c ∷ cs) (d ∷ ds) h =
    (Ensures-ok P _ h.0 (f c), EachCompiled-All casts endpoint_net P f cs ds h.1)
EachCompiled-All casts endpoint_net P f [] (d ∷ ds) h = absurd h
EachCompiled-All casts endpoint_net P f (c ∷ cs) [] h = absurd h

each_from-All :
    {C A : Type 0} (P : A → Type 0) (f : ℕ → C → List A) (index : ℕ) (cs : List C)
    → ((i : ℕ) (c : C) → get_elem? cs i ≡ some c → All P (f (index + i) c))
    → All P (each_from f index cs)
unfolding each_from
each_from-All P f index [] h = tt
each_from-All P f index (c ∷ cs) h =
    let here : index + 0 ≡ index = omega arith in
    All-append P (f index c) (each_from f (suc index) cs)
      (subst (λ n. All P (f n c)) here (h 0 c refl))
      (each_from-All P f (suc index) cs (λ i d found.
        let there : index + suc i ≡ suc index + i = omega arith in
        subst (λ n. All P (f n d)) there (h (suc i) d found)))

module _ (P : DriverKey → Type 0) (net : String) (index : ℕ) where
  outputs_on-All :
      (output : ℕ) (outputs : List (String × String))
      → ((k : ℕ) (pin : String)
          → get_elem? outputs k ≡ some (pin, net)
          → P (record { component = index; output = output + k }))
      → All P (outputs_on net index output outputs)
  unfolding outputs_on
  outputs_on-All output [] h = tt
  outputs_on-All output ((pin, n) ∷ outputs) h =
      let rest = outputs_on-All (suc output) outputs (λ k p found.
        let there : output + suc k ≡ suc output + k = omega arith in
        subst (λ j. P (record { component = index; output = j })) there (h (suc k) p found)) in
      elim (Bool-cases (same net n)) [
        | inl on ↦
            let here : output + 0 ≡ output = omega arith in
            rw on (
              subst (λ j. P (record { component = index; output = j })) here
                  (h 0 pin (ap (λ m. some (pin, m)) (sym (same_eq net n on)))),
              rest,
            )
        | inr off ↦ rw off rest
      ]

inputs_on-All :
    (P : ℕ → Type 0) (net : String) (index : ℕ) (nets : List String)
    → P index
    → All P (inputs_on net index nets)
unfolding inputs_on
inputs_on-All P net index [] p = tt
inputs_on-All P net index (n ∷ nets) p = elim (Bool-cases (same net n)) [
  | inl on ↦ rw on (p, inputs_on-All P net index nets p)
  | inr off ↦ rw off (inputs_on-All P net index nets p)
]

-- A program whose components have the outputs and the stored bits of their primitives and are on its
-- nets, whose drivers are outputs on their nets, and whose dependents are components.
pub record IsSound {F : Type 0} (program : DigitalProgram F) : Type 0 where
  pub shaped : All (IsShaped program.nets) program.components
  pub driven : (net : String) → All (λ d. output_net program d ≡ ok net) (drivers_of program net)
  pub read : (net : String) → All (λ i. i < length program.components) (dependents_of program net)

module _ {F : Type 0} (program : DigitalProgram F)
    (wired : IsWired program.components program.dependents program.net_drivers) where
  drivers_of-Driven :
      (net : String) → All (λ d. output_net program d ≡ ok net) (drivers_of program net)
  unfolding output_net
  drivers_of-Driven net =
      let Drives : DriverKey → Type 0 = λ d. output_net program d ≡ ok net in
      subst (All Drives) (sym (wired.drivers_on net)) (
        each_from-All Drives (λ i c. outputs_on net i 0 c.output_nets) 0 program.components
          (λ i c found. outputs_on-All Drives net (0 + i) 0 c.output_nets (λ k pin is_output.
            let index : 0 + i ≡ i = omega arith in
            let output : 0 + k ≡ k = omega arith in rw (index, output, found, is_output) refl)))

  dependents_of-Read :
      (net : String) → All (λ i. i < length program.components) (dependents_of program net)
  dependents_of-Read net =
      let Within : ℕ → Type 0 = λ i. i < length program.components in
      subst (All Within) (sym (wired.dependents_on net)) (
        each_from-All Within (λ i c. inputs_on net i (values c.input_nets)) 0 program.components
          (λ i c found.
            inputs_on-All Within net (0 + i) (values c.input_nets)
              (omega (arith, get_elem?-lt program.components i found))))

-- Every program that `DigitalProgram::compile` gives is sound: each component has as many outputs and
-- stored bits as its primitive, on nets of the program; each driver of a net is an output on that net; and
-- each dependent is a component. In particular no driver of a net is out of range.
pub compile-IsSound :
    {fl : Float} (casts : Casts fl) (request : SimulationRequest fl.F)
    {program : DigitalProgram fl.F}
    → compile casts request ≡ ok program
    → IsSound program
compile-IsSound casts request {program} h =
    let (wired, nets, _, (en, mapped, each)) = compile-IsWired casts request h in
    let known =
      Ensures-ok (Known (net_ids request.circuit)) (endpoint_net_map request.circuit) mapped
        (endpoint_net_map-Known request.circuit) in
    record {
      shaped =
          EachCompiled-All casts en (IsShaped program.nets)
            (λ c. compile_component-IsShaped casts program.nets c en (rw nets known))
            request.circuit.components program.components each;
      driven = drivers_of-Driven program wired;
      read = dependents_of-Read program wired;
    }
