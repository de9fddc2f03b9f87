-- ===== src/Adapter/Offered.antt =====
-- The ports that a digital participant of src/digital.rs offers are ports that src/cosim.rs accepts.
use sim_core.Prelude.{
  String, true, false, ◌≡◌, ◌≢◌, refl, List, [], ◌∷◌, ◌++◌, is_some, All, All-append, All-imp,
  arith, Bool-cases, inl, inr,
}
use sim_core.Prelude.Map.{lookup, insert, string_key, lookup-insert}
use sim_core.Prelude.Result.{ok, Ensures, Ensures-bind, Ensures-guard, Ensures-after}
use sim_core.Prelude.Trim.{trim, is_empty}
use sim_core.Program.{DigitalProgram}
use sim_core.CoSim.{CoSimulationPort}
use sim_core.CoSim.Ports.Valid.{ValidPort, ValidPorts, DistinctNames}
use sim_core.Adapter.{
  DigitalCoSimulationBinding, DigitalCoSimulationParticipant, Bound, check_binding, bind_all,
  no_ports, new_participant,
}

abbrev Named : List (String × DigitalCoSimulationBinding) → CoSimulationPort → Type 0
Named by_name port = is_some (lookup port.name by_name) ≡ true

-- What the loop over the bindings keeps: each port is valid and has an entry, and no two share a name.
record Offered (bound : Bound) : Type 0 where
  valid : All ValidPort bound.0
  distinct : DistinctNames bound.0
  entered : All (Named bound.1) bound.0

DistinctNames-append :
    (ports : List CoSimulationPort) (port : CoSimulationPort)
    → All (λ other. port.name ≢ other.name) ports
    → DistinctNames ports
    → DistinctNames (ports ++ port ∷ [])
DistinctNames-append [] port h d = (tt, tt)
DistinctNames-append (first ∷ ports) port h d =
    (All-append _ ports (port ∷ []) d.0 (h.0, tt), DistinctNames-append ports port h.1 d.1)

offer-Offered :
    (bound : Bound) (b : DigitalCoSimulationBinding) (port : CoSimulationPort)
    → port.name ≡ b.port
    → ValidPort port
    → is_some (lookup b.port bound.1) ≡ false
    → Offered bound
    → Offered (bound.0 ++ port ∷ [], insert b.port b bound.1)
offer-Offered bound b port name v free o =
    let at = λ (other : String). lookup-insert b.port other b bound.1 in
    record {
      valid = All-append ValidPort bound.0 (port ∷ []) o.valid (v, tt);
      distinct =
          DistinctNames-append bound.0 port
            (All-imp (Named bound.1) (λ other. port.name ≢ other.name) (λ other h e. cc) bound.0
              o.entered)
            o.distinct;
      entered =
          All-append _ bound.0 (port ∷ [])
            (All-imp (Named bound.1) (Named (insert b.port b bound.1))
              (λ other h. ground (arith, at other.name, h)) bound.0 o.entered)
            (ground (arith, at port.name, string_key.order_refl b.port, name), tt);
    }

check_binding-named :
    {F : Type 0} (program : DigitalProgram F) (b : DigitalCoSimulationBinding) {u : Unit {0}}
    → check_binding program b ≡ ok u
    → is_empty (trim b.port) ≡ false
unfolding check_binding
check_binding-named program b h = elim (Bool-cases (is_empty (trim b.port))) [
  | inr named ↦ named
  | inl blank ↦ absurd (ground arith)
]

bind_all-Offered :
    {F : Type 0} (program : DigitalProgram F) (bindings : List DigitalCoSimulationBinding)
    (bound : Bound)
    → Offered bound
    → Ensures Offered (bind_all program bindings bound)
unfolding bind_all
bind_all-Offered program [] bound o = o
bind_all-Offered program (b ∷ bindings) bound o =
    Ensures-after Offered (check_binding program b) _ (λ u checked.
      Ensures-guard Offered (is_some (lookup b.port bound.1)) "digital_cosim_binding_duplicate" _
        (λ free.
          bind_all-Offered program bindings _
            (offer-Offered bound b _ refl (check_binding-named program b checked, tt) free o)))

-- The ports of a new digital participant are ones that the scheduler accepts, and its id is not blank.
pub new_participant-ValidPorts :
    {F : Type 0} (id : String) (program : DigitalProgram F) (stop : F)
    (bindings : List DigitalCoSimulationBinding)
    → Ensures
        (λ p. ValidPorts p.ports × (is_empty (trim p.id) ≡ false))
        (new_participant id program stop bindings)
unfolding new_participant no_ports
new_participant-ValidPorts {F} id program stop bindings =
    let Good : DigitalCoSimulationParticipant F → Type 0 =
      λ p. ValidPorts p.ports × (is_empty (trim p.id) ≡ false) in
    Ensures-guard Good (is_empty (trim id)) "digital_cosim_participant_invalid" _ (λ named.
      Ensures-bind Offered Good (bind_all program bindings ([], [])) _
        (bind_all-Offered program bindings ([], [])
          (record { valid = tt; distinct = tt; entered = tt }))
        (λ bound o.
          Ensures-guard Good (no_ports bound.0) "digital_cosim_binding_missing" _
            (λ some_there. ((some_port bound.0 some_there, o.valid, o.distinct), named))))
  where
    some_port : (ports : List CoSimulationPort) → no_ports ports ≡ false → ports ≢ []
    some_port [] h e = cc
    some_port (p ∷ ps) h e = cc
