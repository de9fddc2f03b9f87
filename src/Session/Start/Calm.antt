-- ===== src/Session/Start/Calm.antt =====
-- The first events of a sound program of src/digital.rs are scheduled without a panic.
use mathlib.Core.Option
use sim_core.Prelude.{
  ℕ, zero, suc, ◌+◌, ◌≤◌, ◌<◌, ◌≡◌, refl, sym, subst, ap, not, List, [], ◌∷◌, Option, none, some,
  length, get_elem?, get_elem?-map, map, All-get_elem?, or_default, if◌then◌else◌, arith, inl, inr,
  Bool-cases,
}
use sim_core.Prelude.Result.{Result, ok, err}
use sim_core.Prelude.Safe.{Safe, SafeRun, InRound, Safe-bind, Safe-guard, loop-SafeRun}
use sim_core.Control.{ExecutionControl, check_execution}
use sim_core.Float.{Float}
use sim_core.Logic.{LogicValue, low, high, logic_eq, is_known, q_outputs}
use sim_core.Primitive.{
  DigitalPrimitive, constant, clock, d_latch, sr_latch, d_flip_flop, jk_flip_flop, t_flip_flop,
  sr_flip_flop, register, counter, CompiledDigitalComponent, RuntimeState, for_component,
  initial_outputs,
}
use sim_core.Events.{Agenda, schedule_output}
use sim_core.Program.{DigitalProgram}
use sim_core.Program.Compile.Shape.{IsShaped, OutputsOf, StoredBy}
use sim_core.Program.Compile.Sound.{IsSound}
use sim_core.Session.Safe.{
  Drives, Drives-of_output, Armed, schedule_output-Safe, check_execution-Safe,
}
use sim_core.Session.Start.{
  ClockState, clock_round, clock_from, first_level, schedule_clock, schedule_each, Started,
  at_instant, clock_started, schedule_component, schedule_initial,
}

module _ (fl : Float) (program : DigitalProgram fl.F) where
  open fl use {F, zero_time, lt, add, mul, one_minus}

  abbrev Clocked : ClockState F → Type 0
  Clocked c = Armed fl program c.agenda

  module _ (component : ℕ)
      (drives : Drives program (record { component = component; output = 0 })) where
    clock_round-Safe :
        (control : ExecutionControl) (stop high_duration low_duration : F) (c : ClockState F)
        → Clocked c
        → Safe
            (InRound Clocked)
            (clock_round fl control component stop high_duration low_duration c)
    unfolding clock_round
    clock_round-Safe control stop high_duration low_duration c h =
        elim (Bool-cases (lt c.time stop)) [
          | inr over ↦ rw over h
          | inl running ↦
              let time =
                add c.time (if logic_eq c.value high then high_duration else low_duration) in
              let value = if logic_eq c.value high then low else high in
              rw running (
                Safe-bind (λ u. Unit) (InRound Clocked) (check_execution control c.instant) _
                  (check_execution-Safe control c.instant)
                  (λ u on. elim (Bool-cases (lt stop time)) [
                    | inl late ↦ rw late h
                    | inr due ↦ rw due (
                        Safe-bind (Armed fl program) (InRound Clocked)
                          (schedule_output fl time component 0 value c.agenda) _
                          (schedule_output-Safe fl program time component 0 value c.agenda drives h)
                          (λ a h'. h'))
                  ]))
        ]

    first_level-Safe :
        (initial : LogicValue) (a : Agenda F)
        → Armed fl program a
        → Safe (Armed fl program) (first_level fl component initial a)
    unfolding first_level
    first_level-Safe initial a h =
        Safe-guard (Armed fl program) (not (is_known initial)) "digital_invalid_clock" _ refl
          (λ known. schedule_output-Safe fl program zero_time component 0 initial a drives h)

    clock_from-Safe :
        (fuel : ℕ) (control : ExecutionControl) (stop high_duration low_duration : F)
        (initial : LogicValue) (instant : ℕ) (r : Result (Agenda F))
        → Safe (Armed fl program) r
        → SafeRun Clocked
            (clock_from fl fuel control component stop high_duration low_duration initial instant r)
    unfolding clock_from
    clock_from-Safe fuel control stop hd ld initial instant (err e) h = h
    clock_from-Safe fuel control stop hd ld initial instant (ok a) h =
        loop-SafeRun Clocked (clock_round fl control component stop hd ld)
          (clock_round-Safe control stop hd ld) fuel _ h

    schedule_clock-Safe :
        (fuel : ℕ) (control : ExecutionControl) (stop period duty : F) (initial : LogicValue)
        (a : Agenda F) (instant : ℕ)
        → Armed fl program a
        → SafeRun Clocked
            (schedule_clock fl fuel control component stop period duty initial a instant)
    unfolding schedule_clock
    schedule_clock-Safe fuel control stop period duty initial a instant h =
        clock_from-Safe fuel control stop (mul period duty) (mul period (one_minus duty)) initial
          instant (first_level fl component initial a) (first_level-Safe initial a h)

  schedule_each-Safe :
      (component outputs output : ℕ) (values : List LogicValue) (a : Agenda F)
      → ((j : ℕ) → j < outputs → Drives program (record { component = component; output = j }))
      → output + length values ≤ outputs
      → Armed fl program a
      → Safe (Armed fl program) (schedule_each fl component output values a)
  unfolding schedule_each
  schedule_each-Safe component outputs output [] a d room h = h
  schedule_each-Safe component outputs output (v ∷ values) a d room h =
      Safe-bind (Armed fl program) (Armed fl program)
        (schedule_output fl zero_time component output v a) _
        (schedule_output-Safe fl program zero_time component output v a (d output (omega arith)) h)
        (λ a' h'. schedule_each-Safe component outputs (suc output) values a' d (omega arith) h')

length-q_outputs : (q : LogicValue) (n : ℕ) → length (q_outputs q n) ≤ n
unfolding q_outputs
length-q_outputs q zero = omega arith
length-q_outputs q (suc zero) = omega arith
length-q_outputs q (suc (suc n)) = omega arith

-- A component puts out no more initial levels than it has outputs.
initial_outputs-le :
    {F : Type 0} (p : DigitalPrimitive F) (n : ℕ) (state : RuntimeState)
    → OutputsOf p n
    → StoredBy p state.bits
    → length (initial_outputs p n state) ≤ n
unfolding initial_outputs
initial_outputs-le (register width edge) n state o b = omega (arith, o.0, b)
initial_outputs-le (counter width edge) n state o b = omega (arith, o.0, b)
initial_outputs-le d_latch n state o b = length-q_outputs state.q n
initial_outputs-le sr_latch n state o b = length-q_outputs state.q n
initial_outputs-le (d_flip_flop edge) n state o b = length-q_outputs state.q n
initial_outputs-le (jk_flip_flop edge) n state o b = length-q_outputs state.q n
initial_outputs-le (t_flip_flop edge) n state o b = length-q_outputs state.q n
initial_outputs-le (sr_flip_flop edge) n state o b = length-q_outputs state.q n
initial_outputs-le _ n state o b = omega arith

module _ (fl : Float) (program : DigitalProgram fl.F) where
  open fl use {F, zero_time}

  abbrev pub Primed : Started fl → Type 0
  Primed started = Armed fl program started.0

  at_instant-Safe :
      (instant : ℕ) (r : Result (Agenda F))
      → Safe (Armed fl program) r
      → SafeRun Primed (at_instant fl instant r)
  unfolding at_instant
  at_instant-Safe instant (ok a) h = h
  at_instant-Safe instant (err e) h = h

  clock_started-Safe :
      (o : Option (Result (ClockState F)))
      → SafeRun (Clocked fl program) o
      → SafeRun Primed (Option.map (clock_started fl) o)
  unfolding clock_started
  clock_started-Safe none h = tt
  clock_started-Safe (some (ok c)) h = h
  clock_started-Safe (some (err e)) h = h

  schedule_component-Safe :
      (fuel : ℕ) (control : ExecutionControl) (stop : F) (index outputs : ℕ) (state : RuntimeState)
      (p : DigitalPrimitive F) (started : Started fl)
      → OutputsOf p outputs
      → StoredBy p state.bits
      → ((j : ℕ) → j < outputs → Drives program (record { component = index; output = j }))
      → Primed started
      → SafeRun Primed (schedule_component fl fuel control stop index outputs state p started)
  unfolding schedule_component
  schedule_component-Safe fuel control stop index n state (constant value) (a, instant) o b d h =
      at_instant-Safe instant (schedule_output fl zero_time index 0 value a)
        (schedule_output-Safe fl program zero_time index 0 value a (d 0 (omega arith)) h)
  schedule_component-Safe fuel control stop index n state (clock period duty initial) (a, instant) o
        b d h =
      clock_started-Safe (schedule_clock fl fuel control index stop period duty initial a instant) (
        schedule_clock-Safe fl program index (d 0 (omega arith)) fuel control stop period duty
          initial a instant h)
  schedule_component-Safe fuel control stop index n state p (a, instant) o b d h =
      at_instant-Safe instant (schedule_each fl index 0 (initial_outputs p n state) a) (
        schedule_each-Safe fl program index n 0 (initial_outputs p n state) a d
          (omega (arith, initial_outputs-le p n state o b)) h)

  -- The first events of a sound program are scheduled without a panic, for drivers of the program.
  pub schedule_initial-Safe :
      (fuel : ℕ) (control : ExecutionControl) (stop : F) (index : ℕ)
      (components : List (CompiledDigitalComponent F)) (started : Started fl)
      → IsSound program
      → ((i : ℕ) (c : CompiledDigitalComponent F)
          → get_elem? components i ≡ some c
          → get_elem? program.components (index + i) ≡ some c)
      → Primed started
      → SafeRun Primed (
          schedule_initial fl fuel control stop index components
            (map for_component program.components)
            started)
  unfolding schedule_initial
  schedule_initial-Safe fuel control stop index [] started sound suffix h = h
  schedule_initial-Safe fuel control stop index (c ∷ components) started sound suffix h =
      let at : index + 0 ≡ index = omega arith in
      let found : get_elem? program.components index ≡ some c =
        subst (λ n. get_elem? program.components n ≡ some c) at (suffix 0 c refl) in
      let shape : IsShaped program.nets c =
        All-get_elem? (IsShaped program.nets) program.components index sound.shaped found in
      let states = map for_component program.components in
      let state = or_default (get_elem? states index) (for_component c) in
      let kept : for_component c ≡ state = sym (
        ap (λ o. or_default o (for_component c))
          (get_elem?-map for_component program.components index found)) in
      let first : StoredBy c.primitive (for_component c).bits =
        unfold for_component in shape.stored in
      go
        (schedule_component fl fuel control stop index (length c.output_nets) state c.primitive
          started)
        (schedule_component-Safe fuel control stop index (length c.output_nets) state c.primitive
          started shape.outputs
          (subst (λ (r : RuntimeState). StoredBy c.primitive r.bits) kept first)
          (λ j within. Drives-of_output program sound index j found within) h)
        (λ started' h'.
          schedule_initial-Safe fuel control stop (suc index) components started' sound
            (λ i d is.
              let next : index + suc i ≡ suc index + i = omega arith in
              subst (λ n. get_elem? program.components n ≡ some d) next (suffix (suc i) d is))
            h')
    where
      go :
          (o : Option (Result (Started fl)))
          → SafeRun Primed o
          → ((started' : Started fl)
              → Primed started'
              → SafeRun Primed (
                  schedule_initial fl fuel control stop
                    (suc index)
                    components
                    (map for_component program.components)
                    started'))
          → SafeRun Primed (elim o [
            | none ↦ none
            | some (err e) ↦ some (err e)
            | some (ok started') ↦
                schedule_initial fl fuel control stop
                  (suc index)
                  components
                  (map for_component program.components)
                  started'
          ])
      go none h rest = tt
      go (some (err e)) h rest = h
      go (some (ok started')) h rest = rest started' h
