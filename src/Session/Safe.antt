-- ===== src/Session/Safe.antt =====
-- The steps of a session of src/digital.rs on a sound program do not panic.
use sim_core.Prelude.{
  ℕ, suc, ◌+◌, ◌<◌, ◌≡◌, refl, ◌∙◌, String, true, List, [], ◌∷◌, Option, none, some, length,
  length-set, get_elem?, get_elem?-some, set, leb, leb→lt, ltb, not, ◌&&◌, ◌||◌, All, All-get_elem?,
  or_default, arith, inl, inr, Bool-cases,
}
use sim_core.Prelude.Map.{lookup, insert, insert_key-All, contains, string_key}
use sim_core.Prelude.Result.{ok}
use sim_core.Prelude.Safe.{Safe, Safe-bind, Safe-guard, Safe-reject}
use sim_core.Control.{ExecutionControl, check_execution}
use sim_core.Float.{Float}
use sim_core.Logic.{LogicValue, high_impedance, logic_eq}
use sim_core.Logic.Resolve.{DriverKey, driver_key}
use sim_core.Primitive.{CompiledDigitalComponent, RuntimeState, NetValues, evaluate}
use sim_core.Events.{ScheduledEvent, Agenda, schedule_output, max_digital_events}
use sim_core.Events.Ledger.{push-All}
use sim_core.Program.{DigitalProgram, output_net}
use sim_core.Program.Compile.Shape.{IsShaped}
use sim_core.Program.Compile.Sound.{IsSound}
use sim_core.Session.{
  DriverValues, mark_net, apply_events, schedule_values, schedule_outputs, evaluate_all,
}

pub check_execution-Safe :
    (control : ExecutionControl) (instant : ℕ) → Safe (λ u. Unit) (check_execution control instant)
unfolding check_execution
check_execution-Safe control instant =
    Safe-guard (λ u. Unit) (control.is_cancelled instant) "execution_cancelled" _ refl
      (λ on.
        Safe-reject
          (ltb 0 control.policy.timeout_ms
            && leb control.policy.timeout_ms (control.elapsed_ms instant))
          "execution_timeout" refl)

module _ {F : Type 0} (program : DigitalProgram F) where
  abbrev pub IsNet : String → Type 0
  IsNet net = contains net program.nets ≡ true

  -- A driver of the program: an output on one of its nets.
  abbrev pub Drives : DriverKey → Type 0
  Drives d = (net : String) × (output_net program d ≡ ok net) × IsNet net

  abbrev pub Fires : List (ScheduledEvent F) → Type 0
  Fires = All λ e. Drives e.driver

  -- A state for each component.
  abbrev pub HasStates : List RuntimeState → Type 0
  HasStates states = length states ≡ length program.components

  abbrev pub InRange : ℕ → Type 0
  InRange i = i < length program.components

  pub Drives-of_output :
      (sound : IsSound program) (i j : ℕ) {c : CompiledDigitalComponent F}
      → get_elem? program.components i ≡ some c
      → j < length c.output_nets
      → Drives (record { component = i; output = j })
  unfolding output_net
  Drives-of_output sound i j {c} found within =
      let (pin, is_output) = get_elem?-some c.output_nets j within in
      let shape : IsShaped program.nets c =
        All-get_elem? (IsShaped program.nets) program.components i sound.shaped found in
      (
        pin.1,
        rw (found, is_output) refl,
        All-get_elem? (λ p. contains p.1 program.nets ≡ true) c.output_nets j shape.outputs_on_nets
            is_output,
      )

  mark_net-Safe :
      (previous : LogicValue) (e : ScheduledEvent F) (affected : List String)
      → Drives e.driver
      → All IsNet affected
      → Safe (All IsNet) (mark_net program previous e affected)
  unfolding mark_net
  mark_net-Safe previous e affected (net, drives, is_net) h =
      elim (Bool-cases (logic_eq previous e.value)) [
        | inl same ↦ rw same h
        | inr changed ↦ rw (changed, drives) (insert_key-All IsNet net affected is_net h)
      ]

  -- The nets that a batch affects are nets of the program.
  pub apply_events-Safe :
      (batch : List (ScheduledEvent F)) (values : DriverValues) (affected : List String)
      → Fires batch
      → All IsNet affected
      → Safe (λ r. All IsNet r.1) (apply_events program batch values affected)
  unfolding apply_events
  apply_events-Safe [] values affected f h = h
  apply_events-Safe (e ∷ batch) values affected f h =
      let previous = or_default (lookup e.driver values) high_impedance in
      Safe-bind (All IsNet) (λ r. All IsNet r.1) (mark_net program previous e affected) _
        (mark_net-Safe previous e affected f.0 h)
        (λ affected' h'. apply_events-Safe batch (insert e.driver e.value values) affected' f.1 h')

module _ (fl : Float) (program : DigitalProgram fl.F) where
  open fl use {F, zero_time, add, le, lt, is_finite}

  abbrev pub Armed : Agenda F → Type 0
  Armed a = Fires program a.queue

  pub schedule_output-Safe :
      (time : F) (component output : ℕ) (value : LogicValue) (a : Agenda F)
      → Drives program (record { component = component; output = output })
      → Armed a
      → Safe Armed (schedule_output fl time component output value a)
  unfolding schedule_output
  schedule_output-Safe time component output value a d h =
      Safe-guard Armed (not (is_finite time) || lt time zero_time) "digital_invalid_event_time" _
        refl
        (λ valid.
          Safe-guard Armed (ltb max_digital_events (a.scheduled_events + 1))
            "execution_resource_limit" _ refl
            (λ room. push-All fl (λ e. Drives program e.driver) _ a.queue d h))

  schedule_values-Safe :
      (stop time : F) (component outputs output : ℕ) (values : List LogicValue) (a : Agenda F)
      → ((j : ℕ) → j < outputs → Drives program (record { component = component; output = j }))
      → Armed a
      → Safe Armed (schedule_values fl stop time component outputs output values a)
  unfolding schedule_values
  schedule_values-Safe stop time c n o [] a d h = h
  schedule_values-Safe stop time c n o (v ∷ vs) a d h = elim (Bool-cases (leb n o)) [
    | inl last ↦ rw last h
    | inr more ↦ elim (Bool-cases (le time stop)) [
      | inl now ↦
          rw (more, now)
            (Safe-bind Armed Armed (schedule_output fl time c o v a) _
              (schedule_output-Safe time c o v a (d o (leb→lt n o more)) h)
              (λ a' h'. schedule_values-Safe stop time c n (suc o) vs a' d h'))
      | inr late ↦ rw (more, late) (schedule_values-Safe stop time c n (suc o) vs a d h)
    ]
  ]

  schedule_outputs-Safe :
      (stop time : F) (index : ℕ) (c : CompiledDigitalComponent F)
      (values : Option (List LogicValue)) (a : Agenda F)
      → IsSound program
      → get_elem? program.components index ≡ some c
      → Armed a
      → Safe Armed (schedule_outputs fl stop time index c values a)
  unfolding schedule_outputs
  schedule_outputs-Safe stop time index c none a sound found h = h
  schedule_outputs-Safe stop time index c (some values) a sound found h =
      schedule_values-Safe stop (add time c.delay) index (length c.output_nets) 0 values a
        (λ j within. Drives-of_output program sound index j found within) h

  abbrev pub Evaluated : List RuntimeState × Agenda F → Type 0
  Evaluated r = HasStates program r.0 × Armed r.1

  -- Evaluating components of a sound program finds every component and its state, and schedules events
  -- of drivers of the program.
  pub evaluate_all-Safe :
      (stop time : F) (net_values : NetValues) (indices : List ℕ) (states : List RuntimeState)
      (a : Agenda F)
      → IsSound program
      → All (InRange program) indices
      → HasStates program states
      → Armed a
      → Safe Evaluated (evaluate_all fl program stop time net_values indices states a)
  unfolding evaluate_all
  evaluate_all-Safe stop time nv [] states a sound within has h = (has, h)
  evaluate_all-Safe stop time nv (i ∷ more) states a sound within has h =
      let (component, found) = get_elem?-some program.components i within.0 in
      let (state, at) = get_elem?-some states i (omega (arith, within.0, has)) in
      let evaluation = evaluate component nv state in
      rw (found, at)
        (Safe-bind Armed Evaluated (schedule_outputs fl stop time i component evaluation.0 a) _
          (schedule_outputs-Safe stop time i component evaluation.0 a sound found h)
          (λ a' h'.
            evaluate_all-Safe stop time nv more (set states i evaluation.1) a' sound within.1
              (length-set states i evaluation.1 ∙ has) h'))
