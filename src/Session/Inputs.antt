-- ===== src/Session/Inputs.antt =====
-- The external inputs that a session of src/digital.rs accepts for a compiled program are driven by none of
-- its components.
use sim_core.Prelude.{
  ℕ, zero, suc, ◌+◌, ◌≡◌, refl, sym, ◌∙◌, ap, subst, String, false, List, [], ◌∷◌, ◌++◌, some,
  get_elem?, if◌then◌else◌, Bool-cases, inl, inr, arith,
}
use mathlib.Core.Option.{some-injective}
use sim_core.Prelude.Map.{same, same-false, string_key}
use sim_core.Prelude.Result.{ok, ok_or, >>=-eq-ok, ok_or-eq-ok, ok-eq-ok}
use sim_core.Logic.Resolve.{DriverKey}
use sim_core.Primitive.{CompiledDigitalComponent}
use sim_core.Program.{DigitalProgram, drivers_of, output_net}
use sim_core.Program.Compile.Wired.{outputs_on, each_from, all_outputs_on, IsWired}
use sim_core.Session.Batch.{Undriven}

append_empty : {A : Type 0} (xs ys : List A) → xs ++ ys ≡ [] → (xs ≡ []) × (ys ≡ [])
append_empty [] ys h = (refl, h)
append_empty (x ∷ xs) ys h = cc

not_empty : {A : Type 0} {x : A} {xs : List A} → ¬ (x ∷ xs ≡ [])
not_empty h = cc

-- If no output of a component is on a net, none of its outputs names the net.
outputs_on-empty :
    (net : String) (index first k : ℕ) (outputs : List (String × String)) {found : String × String}
    → outputs_on net index first outputs ≡ []
    → get_elem? outputs k ≡ some found
    → same net found.1 ≡ false
unfolding outputs_on
outputs_on-empty net index first k [] h e = cc
outputs_on-empty net index first zero ((pin, n) ∷ outputs) {found} h e =
    let there : n ≡ found.1 = ap (λ x. x.1) (some-injective (pin, n) found e) in
    elim (Bool-cases (same net n)) [
      | inl on ↦ absurd (not_empty (rw on at h))
      | inr off ↦ subst (λ m. same net m ≡ false) there off
    ]
outputs_on-empty net index first (suc k) ((pin, n) ∷ outputs) h e =
    outputs_on-empty net index (suc first) k outputs
      (append_empty (if same net n then record { component = index; output = first } ∷ [] else [])
        (outputs_on net index (suc first) outputs) h).1
      e

each_from-empty :
    {C A : Type 0} (f : ℕ → C → List A) (first k : ℕ) (cs : List C) {c : C}
    → each_from f first cs ≡ []
    → get_elem? cs k ≡ some c
    → f (first + k) c ≡ []
unfolding each_from
each_from-empty f first k [] h e = cc
each_from-empty f first zero (d ∷ cs) {c} h e =
    let here = append_empty (f first d) (each_from f (suc first) cs) h in
    let at : first ≡ first + zero = omega arith in
    subst (λ n. f n c ≡ []) at (subst (λ x. f first x ≡ []) (some-injective d c e) here.0)
each_from-empty f first (suc k) (d ∷ cs) {c} h e =
    let at : suc first + k ≡ first + suc k = omega arith in
    subst (λ n. f n c ≡ []) at
      (each_from-empty f (suc first) k cs
        (append_empty (f first d) (each_from f (suc first) cs) h).1 e)

module _ {F : Type 0} (program : DigitalProgram F) where
  -- The component and the output of a driver of a net.
  output_net-parts :
      (d : DriverKey) {net : String}
      → output_net program d ≡ ok net
      → (component : CompiledDigitalComponent F) × (output : String × String) × (get_elem?
            program.components d.component
          ≡ some component)
        × (get_elem? component.output_nets d.output ≡ some output)
        × (output.1 ≡ net)
  unfolding output_net
  output_net-parts d {net} e =
      let c = >>=-eq-ok (ok_or (get_elem? program.components d.component) "panic") _ e in
      let o = >>=-eq-ok (ok_or (get_elem? (c.0).output_nets d.output) "panic") _ c.2 in
      (
        c.0,
        o.0,
        ok_or-eq-ok (get_elem? program.components d.component) "panic" c.1,
        ok_or-eq-ok (get_elem? (c.0).output_nets d.output) "panic" o.1,
        ok-eq-ok _ net o.2,
      )

  -- In a program whose drivers are those of its components, a net without a driver is undriven.
  pub drivers_of-Undriven :
      (net : String)
      → IsWired program.components program.dependents program.net_drivers
      → drivers_of program net ≡ []
      → Undriven program net
  drivers_of-Undriven net wired none_there d e =
      let (component, output, c, o, is_net) = output_net-parts d e in
      let none_on : all_outputs_on program.components net ≡ [] =
        sym (wired.drivers_on net) ∙ none_there in
      let empty =
        each_from-empty (λ index c. outputs_on net index 0 c.output_nets) 0 d.component
          program.components none_on c in
      let off = outputs_on-empty net (0 + d.component) 0 d.output component.output_nets empty o in
      same-false net output.1 off (sym is_net)
