-- ===== src/Program/Compile/Wired.antt =====
-- The drivers and dependents of the program that `DigitalProgram::compile` of src/digital.rs makes.
use sim_core.Prelude.{
  ℕ, suc, ◌+◌, ◌++◌, ◌≡◌, refl, sym, ◌∙◌, ap, subst, String, List, [], ◌∷◌, length, if◌then◌else◌,
  or_default, arith, Bool-cases, inl, inr,
}
use sim_core.Prelude.Map.{lookup, lookup-insert, same, same_eq, values, string_key}
use sim_core.Prelude.Result.{ok, >>=-eq-ok, ok-eq-ok}
use sim_core.Float.{Float, Casts}
use sim_core.Circuit.{Component}
use sim_core.Logic.Resolve.{DriverKey}
use sim_core.Primitive.{CompiledDigitalComponent}
use sim_core.Program.Compile.{
  EndpointNets, push_entry, add_dependents, add_drivers, Wiring, no_wiring, wire, wire_all,
  compile_component,
}

-- The outputs on a net from output `output` of component `index` on, in their order.
unfoldable pub outputs_on : String → ℕ → ℕ → List (String × String) → List DriverKey
outputs_on net index output [] = []
outputs_on net index output ((pin, n) ∷ outputs) =
    (if same net n then record { component = index; output = output } ∷ [] else [])
    ++ outputs_on net index (suc output) outputs

-- A component once for each of its inputs on a net.
unfoldable pub inputs_on : String → ℕ → List String → List ℕ
inputs_on net index [] = []
inputs_on net index (n ∷ nets) = (if same net n then index ∷ [] else []) ++ inputs_on net index nets

-- What each component gives, with its index, from `index` on.
unfoldable pub each_from : {C A : Type 0} → (ℕ → C → List A) → ℕ → List C → List A
each_from f index [] = []
each_from f index (c ∷ cs) = f index c ++ each_from f (suc index) cs

module _ {F : Type 0} (components : List (CompiledDigitalComponent F)) where
  abbrev pub all_outputs_on : String → List DriverKey
  all_outputs_on net = each_from (λ index c. outputs_on net index 0 c.output_nets) 0 components

  abbrev pub all_inputs_on : String → List ℕ
  all_inputs_on net = each_from (λ index c. inputs_on net index (values c.input_nets)) 0 components

append_assoc : {A : Type 0} (xs ys zs : List A) → (xs ++ ys) ++ zs ≡ xs ++ (ys ++ zs)
append_assoc [] ys zs = refl
append_assoc (x ∷ xs) ys zs = ap (λ r. x ∷ r) (append_assoc xs ys zs)

append_nil : {A : Type 0} (xs : List A) → xs ++ [] ≡ xs
append_nil [] = refl
append_nil (x ∷ xs) = ap (λ r. x ∷ r) (append_nil xs)

module _ {A : Type 0} where
  abbrev pub entry : String → List (String × List A) → List A
  entry net m = or_default (lookup net m) []

  entry-push_entry :
      (net n : String) (x : A) (m : List (String × List A))
      → entry net (push_entry n x m) ≡ entry net m ++ (if same net n then x ∷ [] else [])
  unfolding push_entry
  entry-push_entry net n x m = elim (Bool-cases (same net n)) [
    | inl here ↦
        rw (lookup-insert n net (or_default (lookup n m) [] ++ x ∷ []) m, here, same_eq net n here)
          refl
    | inr there ↦
        rw
          (
            lookup-insert n net (or_default (lookup n m) [] ++ x ∷ []) m,
            there,
            append_nil (or_default (lookup net m) []),
          )
          refl
  ]

entry-add_dependents :
    (net : String) (index : ℕ) (nets : List String) (m : List (String × List ℕ))
    → entry net (add_dependents index nets m) ≡ entry net m ++ inputs_on net index nets
unfolding add_dependents inputs_on
entry-add_dependents net index [] m = sym (append_nil (entry net m))
entry-add_dependents net index (n ∷ nets) m =
    entry-add_dependents net index nets (push_entry n index m)
    ∙ ap (λ r. r ++ inputs_on net index nets) (entry-push_entry net n index m)
    ∙ append_assoc (entry net m) (if same net n then index ∷ [] else []) (inputs_on net index nets)

entry-add_drivers :
    (net : String) (index output : ℕ) (outputs : List (String × String))
    (m : List (String × List DriverKey))
    → entry net (add_drivers index output outputs m)
      ≡ entry net m ++ outputs_on net index output outputs
unfolding add_drivers outputs_on
entry-add_drivers net index output [] m = sym (append_nil (entry net m))
entry-add_drivers net index output ((pin, n) ∷ outputs) m =
    let key : DriverKey = record { component = index; output = output } in
    entry-add_drivers net index (suc output) outputs (push_entry n key m)
    ∙ ap (λ r. r ++ outputs_on net index (suc output) outputs) (entry-push_entry net n key m)
    ∙ append_assoc (entry net m) (if same net n then key ∷ [] else [])
        (outputs_on net index (suc output) outputs)

each_from-append :
    {C A : Type 0} (f : ℕ → C → List A) (index : ℕ) (done : List C) (c : C)
    → each_from f index (done ++ c ∷ []) ≡ each_from f index done ++ f (index + length done) c
unfolding each_from
each_from-append f index [] c =
    let at : index + 0 ≡ index = omega arith in rw (append_nil (f index c), at) refl
each_from-append f index (d ∷ done) c =
    let at : suc index + length done ≡ index + suc (length done) = omega arith in
    rw
      (
        each_from-append f (suc index) done c,
        at,
        append_assoc (f index d) (each_from f (suc index) done) (f (index + suc (length done)) c),
      )
      refl

each_from-append_zero :
    {C A : Type 0} (f : ℕ → C → List A) (done : List C) (c : C)
    → each_from f 0 (done ++ c ∷ []) ≡ each_from f 0 done ++ f (length done) c
each_from-append_zero f done c =
    let at : 0 + length done ≡ length done = omega arith in
    each_from-append f 0 done c ∙ ap (λ n. each_from f 0 done ++ f n c) at

-- A program whose drivers and dependents are those of its components: a net is driven by the outputs
-- on it and read by the components with an input on it, in the order of the components.
pub record IsWired {F : Type 0} (components : List (CompiledDigitalComponent F))
    (dependents : List (String × List ℕ)) (net_drivers : List (String × List DriverKey))
    : Type 0 where
  pub drivers_on : (net : String) → entry net net_drivers ≡ all_outputs_on components net
  pub dependents_on : (net : String) → entry net dependents ≡ all_inputs_on components net

module _ {F : Type 0} where
  abbrev pub IsWiring : Wiring F → Type 0
  IsWiring w = IsWired w.components w.dependents w.net_drivers

  wire-IsWiring : (c : CompiledDigitalComponent F) (w : Wiring F) → IsWiring w → IsWiring (wire c w)
  unfolding wire
  wire-IsWiring c w i = record {
    drivers_on = λ net.
        entry-add_drivers net (length w.components) 0 c.output_nets w.net_drivers
        ∙ ap (λ r. r ++ outputs_on net (length w.components) 0 c.output_nets) (i.drivers_on net)
        ∙ sym (
            each_from-append_zero (λ index d. outputs_on net index 0 d.output_nets) w.components c);
    dependents_on = λ net.
        entry-add_dependents net (length w.components) (values c.input_nets) w.dependents
        ∙ ap (λ r. r ++ inputs_on net (length w.components) (values c.input_nets))
            (i.dependents_on net)
        ∙ sym (
            each_from-append_zero (λ index d. inputs_on net index (values d.input_nets))
              w.components c);
  }

  pub no_wiring-IsWiring : IsWiring (no_wiring {F = F})
  unfolding each_from lookup
  no_wiring-IsWiring = record { drivers_on = λ net. refl; dependents_on = λ net. refl }

-- What `compile_component` gives for each component in turn.
abbrev pub EachCompiled :
    {fl : Float}
    → Casts fl
    → EndpointNets
    → List (Component fl.F)
    → List (CompiledDigitalComponent fl.F)
    → Type 0
EachCompiled casts endpoint_net [] [] = Unit
EachCompiled casts endpoint_net (c ∷ cs) (d ∷ ds) =
    (compile_component casts c endpoint_net ≡ ok d) × EachCompiled casts endpoint_net cs ds
EachCompiled casts endpoint_net _ _ = ⊥

module _ {fl : Float} (casts : Casts fl) (endpoint_net : EndpointNets) where
  open fl use {F}

  pub wire_all-IsWiring :
      (cs : List (Component F)) (w : Wiring F) {w' : Wiring F}
      → IsWiring w
      → wire_all casts endpoint_net cs w ≡ ok w'
      → IsWiring w'
        × ((ds : List (CompiledDigitalComponent F)) × (w'.components ≡ w.components ++ ds)
            × EachCompiled casts endpoint_net cs ds)
  unfolding wire_all wire
  wire_all-IsWiring [] w {w'} i h =
      let same_w : w ≡ w' = ok-eq-ok w w' h in
      (
        subst IsWiring same_w i,
        ([], sym (ap (λ v. v.components) same_w) ∙ sym (append_nil w.components), tt),
      )
  wire_all-IsWiring (c ∷ cs) w i h =
      let (d, compiled, rest) = >>=-eq-ok (compile_component casts c endpoint_net) _ h in
      let (i', (ds, shape, each)) = wire_all-IsWiring cs (wire d w) (wire-IsWiring d w i) rest in
      (i', (d ∷ ds, shape ∙ append_assoc w.components (d ∷ []) ds, (compiled, each)))
