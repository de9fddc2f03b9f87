-- ===== src/Session/Start/Queue.antt =====
-- The queue of a new session of src/digital.rs, with whatever `schedule_output` keeps of it.
use mathlib.Core.Option
use sim_core.Prelude.{
  ℕ, suc, ◌+◌, ◌-◌, ◌<◌, ◌≡◌, refl, String, not, inl, inr, List, [], ◌∷◌, Option, none, some, arith,
  length, map, Bool-cases, if◌then◌else◌, get_elem?, or_default,
}
use sim_core.Prelude.Loop.{Turn, Returns, loop-Returns}
use sim_core.Prelude.Result.{Result, ok, err, Ensures, Ensures-bind, Ensures-and, Result-cases}
use sim_core.Control.{ExecutionControl, check_execution}
use sim_core.Float.{Float}
use sim_core.Logic.{LogicValue, low, high, logic_eq, is_known}
use sim_core.Events.{Agenda, max_digital_events, schedule_output}
use sim_core.Events.Ledger.{Balanced, schedule_output-Entered, schedule_output-Balanced}
use sim_core.Primitive.{
  DigitalPrimitive, CompiledDigitalComponent, RuntimeState, constant, clock, for_component,
  initial_outputs,
}
use sim_core.Program.{DigitalProgram}
use sim_core.Session.Start.{
  ClockState, clock_round, clock_from, first_level, schedule_clock, schedule_each, Started,
  at_instant, clock_started, schedule_component, schedule_initial, check_inputs, begin, new,
  empty_agenda,
}

module _ (fl : Float) (Q : Agenda fl.F → Type 0)
    (keep : (time : fl.F) (component output : ℕ) (value : LogicValue) (a : Agenda fl.F)
      → Unit {0}
      → Q a
      → Ensures Q (schedule_output fl time component output value a)) where
  open fl use {F, zero_time, lt, add, mul, one_minus}

  -- Balanced books, before anything is processed, with what else scheduling an event keeps.
  abbrev pub Good : Agenda F → Type 0
  Good a = Balanced 0 a × Q a

  entered :
      (time : F) (component output : ℕ) (value : LogicValue) (a : Agenda F)
      → Good a
      → Ensures
          (λ a'. (Balanced 0 a' × (a'.scheduled_events ≡ a.scheduled_events + 1)) × Q a')
          (schedule_output fl time component output value a)
  entered time component output value a g =
      Ensures-and (λ a'. Balanced 0 a' × (a'.scheduled_events ≡ a.scheduled_events + 1)) Q
        (schedule_output fl time component output value a)
        (schedule_output-Entered fl time component output value a 0 g.0)
        (keep time component output value a tt g.1)

  schedule_output-Good :
      (time : F) (component output : ℕ) (value : LogicValue) (a : Agenda F)
      → Good a
      → Ensures Good (schedule_output fl time component output value a)
  schedule_output-Good time component output value a g =
      Ensures-and (Balanced 0) Q (schedule_output fl time component output value a)
        (schedule_output-Balanced fl time component output value a 0 g.0)
        (keep time component output value a tt g.1)

  abbrev room_left : ClockState F → ℕ
  room_left c = max_digital_events - (c.agenda).scheduled_events

  clock_round-Turn :
      (control : ExecutionControl) (component : ℕ) (stop high_duration low_duration : F)
      (c : ClockState F)
      → Good c.agenda
      → Ensures
          (Turn (λ d. Good d.agenda) (λ d. Good d.agenda) room_left c)
          (clock_round fl control component stop high_duration low_duration c)
  unfolding clock_round
  clock_round-Turn control component stop high_duration low_duration c b =
      elim (Bool-cases (lt c.time stop)) [
        | inr over ↦ rw over b
        | inl running ↦ elim (Result-cases (check_execution control c.instant)) [
          | inr (e, stopped) ↦ rw (running, stopped) tt
          | inl (u, on) ↦
              let time =
                add c.time (if logic_eq c.value high then high_duration else low_duration) in
              let value = if logic_eq c.value high then low else high in
              elim (Bool-cases (lt stop time)) [
                | inl late ↦ rw (running, on, late) b
                | inr due ↦
                    rw (running, on, due)
                      (Ensures-bind _ _ (schedule_output fl time component 0 value c.agenda) _
                        (entered time component 0 value c.agenda b)
                        (λ a h. ((h.0.0, h.1), omega (arith, h.0.0.limited, h.0.1))))
              ]
        ]
      ]

  first_level-Balanced :
      (component : ℕ) (initial : LogicValue) (a : Agenda F)
      → Good a
      → Ensures Good (first_level fl component initial a)
  unfolding first_level
  first_level-Balanced component initial a b = elim (Bool-cases (not (is_known initial))) [
    | inl bad ↦ rw bad tt
    | inr level ↦ rw level (schedule_output-Good zero_time component 0 initial a b)
  ]

  clock_from-Returns :
      (fuel : ℕ) (control : ExecutionControl) (component : ℕ) (stop high_duration low_duration : F)
      (initial : LogicValue) (instant : ℕ) (m : Result (Agenda F))
      → max_digital_events < fuel
      → Ensures Good m
      → Returns
          (λ c. Good c.agenda)
          (clock_from fl fuel control component stop high_duration low_duration initial instant m)
  unfolding clock_from
  clock_from-Returns fuel control component stop up_for down_for initial instant (err e) enough b =
      tt
  clock_from-Returns fuel control component stop up_for down_for initial instant (ok a) enough b =
      loop-Returns (λ d. Good d.agenda) (λ d. Good d.agenda) room_left
        (clock_round fl control component stop up_for down_for)
        (clock_round-Turn control component stop up_for down_for) fuel _ b (omega arith)

  -- With fuel for the event limit, scheduling a clock returns an error or a state whose queue is as
  -- good as it was.
  schedule_clock-Returns :
      (fuel : ℕ) (control : ExecutionControl) (component : ℕ) (stop period duty_cycle : F)
      (initial : LogicValue) (a : Agenda F) (instant : ℕ)
      → max_digital_events < fuel
      → Good a
      → Returns
          (λ c. Good c.agenda)
          (schedule_clock fl fuel control component stop period duty_cycle initial a instant)
  unfolding schedule_clock
  schedule_clock-Returns fuel control component stop period duty_cycle initial a instant enough b =
      clock_from-Returns fuel control component stop (mul period duty_cycle)
        (mul period (one_minus duty_cycle)) initial instant (first_level fl component initial a)
        enough (first_level-Balanced component initial a b)

  schedule_each-Balanced :
      (component output : ℕ) (values : List LogicValue) (a : Agenda F)
      → Good a
      → Ensures Good (schedule_each fl component output values a)
  unfolding schedule_each
  schedule_each-Balanced component output [] a b = b
  schedule_each-Balanced component output (v ∷ vs) a b =
      Ensures-bind Good Good (schedule_output fl zero_time component output v a) _
        (schedule_output-Good zero_time component output v a b)
        (λ a' b'. schedule_each-Balanced component (suc output) vs a' b')

  abbrev pub Begun : Started fl → Type 0
  Begun s = Good s.0

  at_instant-Returns :
      (instant : ℕ) (m : Result (Agenda F))
      → Ensures Good m
      → Returns Begun (at_instant fl instant m)
  unfolding at_instant
  at_instant-Returns instant (ok a) h = h
  at_instant-Returns instant (err e) h = tt

  clock_started-Returns :
      (o : Option (Result (ClockState F)))
      → Returns (λ c. Good c.agenda) o
      → Returns Begun (Option.map (clock_started fl) o)
  unfolding clock_started
  clock_started-Returns none h = h
  clock_started-Returns (some (ok c)) h = h
  clock_started-Returns (some (err e)) h = tt

  schedule_component-Returns :
      (fuel : ℕ) (control : ExecutionControl) (stop : F) (index outputs : ℕ) (state : RuntimeState)
      (primitive : DigitalPrimitive F) (started : Started fl)
      → max_digital_events < fuel
      → Begun started
      → Returns Begun
          (schedule_component fl fuel control stop index outputs state primitive started)
  unfolding schedule_component
  schedule_component-Returns fuel control stop index outputs state (constant value) (a, instant) h
        b =
      at_instant-Returns instant (schedule_output fl zero_time index 0 value a)
        (schedule_output-Good zero_time index 0 value a b)
  schedule_component-Returns fuel control stop index outputs state (clock period duty initial)
        (a, instant) h b =
      clock_started-Returns
        (schedule_clock fl fuel control index stop period duty initial a instant)
        (schedule_clock-Returns fuel control index stop period duty initial a instant h b)
  schedule_component-Returns fuel control stop index outputs state p (a, instant) h b =
      at_instant-Returns instant (schedule_each fl index 0 (initial_outputs p outputs state) a)
        (schedule_each-Balanced index 0 (initial_outputs p outputs state) a b)

  pub schedule_initial-Good :
      (fuel : ℕ) (control : ExecutionControl) (stop : F) (index : ℕ)
      (components : List (CompiledDigitalComponent F)) (states : List RuntimeState)
      (started : Started fl)
      → max_digital_events < fuel
      → Begun started
      → Returns Begun (schedule_initial fl fuel control stop index components states started)
  unfolding schedule_initial
  schedule_initial-Good fuel control stop index [] states started h b = b
  schedule_initial-Good fuel control stop index (c ∷ components) states started h b =
      let state = or_default (get_elem? states index) (for_component c) in
      go
        (schedule_component fl fuel control stop index (length c.output_nets) state c.primitive
          started)
        (schedule_component-Returns fuel control stop index (length c.output_nets) state c.primitive
          started h b)
        (λ s b'. schedule_initial-Good fuel control stop (suc index) components states s h b')
    where
      go :
          (o : Option (Result (Started fl)))
          → Returns Begun o
          → ((s : Started fl)
              → Begun s
              → Returns Begun
                  (schedule_initial fl fuel control stop (suc index) components states s))
          → Returns Begun (elim o [
            | none ↦ none
            | some (err e) ↦ some (err e)
            | some (ok s) ↦ schedule_initial fl fuel control stop (suc index) components states s
          ])
      go none r rest = r
      go (some (err e)) r rest = tt
      go (some (ok s)) r rest = rest s r

  begin-Good :
      (program : DigitalProgram F) (stop : F) (inputs : List String)
      (o : Option (Result (Started fl)))
      → Returns Begun o
      → Returns
          (λ s. Good s.agenda × (s.processed_events ≡ 0))
          (Option.map (begin fl program stop inputs) o)
  unfolding begin
  begin-Good program stop inputs none h = h
  begin-Good program stop inputs (some (err e)) h = tt
  begin-Good program stop inputs (some (ok (a, instant))) h = (h, refl)

  empty-Balanced : Balanced 0 (empty_agenda fl)
  empty-Balanced = record { counted = refl; numbered = refl; limited = omega arith; fresh = tt }

  pub new-Good :
      (fuel : ℕ) (control : ExecutionControl) (program : DigitalProgram F) (stop : F)
      (inputs : List String)
      → max_digital_events < fuel
      → Q (empty_agenda fl)
      → Returns
          (λ s. Good s.agenda × (s.processed_events ≡ 0))
          (new fl fuel control program stop inputs)
  unfolding new
  new-Good fuel control program stop inputs h q =
      elim (Result-cases (check_inputs fl program inputs)) [
        | inr (e, bad) ↦ rw (bad, new) tt
        | inl (u, good) ↦
            rw (good, new)
              (begin-Good program stop inputs _ (
                schedule_initial-Good fuel control stop 0 program.components
                  (map for_component program.components) (empty_agenda fl, 0) h
                  (empty-Balanced, q)))
      ]
