-- ===== src/Engine/Calm.antt =====
-- A run of the digital engine of src/digital.rs on a sound program does not panic.
use mathlib.Core.Bool.{false≢true}
use sim_core.Prelude.{
  ℕ, ◌+◌, ◌≡◌, refl, sym, ap, ◌∙◌, subst, String, true, ◌||◌, List, [], ◌∷◌, ◌++◌, Option, none,
  some, length, length-map, map, is_some, ltb, All, All-append_left, All-append_right, arith, inl,
  inr, Bool-cases, Option-cases, ◌==◌,
}
use sim_core.Prelude.Map.{
  lookup, insert, replace, contains, extend-All, string_key, nat_key, lookup-insert, lookup-replace,
}
use sim_core.Prelude.Loop.{loop}
use sim_core.Prelude.Result.{Result, ok, err}
use sim_core.Prelude.Safe.{Safe, SafeRun, InRound, Safe-bind, Safe-guard, Safe-reject, loop-SafeRun}
use sim_core.Control.{ExecutionControl, check_execution, validate_policy}
use sim_core.Float.{Float}
use sim_core.Logic.{LogicValue, unknown}
use sim_core.Waveform.{DigitalTransition}
use sim_core.Primitive.{for_component}
use sim_core.Events.{ScheduledEvent, Agenda, max_digital_events, take_same}
use sim_core.Events.Ledger.{take_same-append}
use sim_core.Program.{DigitalProgram, dependents_of}
use sim_core.Program.Compile.Sound.{IsSound}
use sim_core.Session.{DriverValues, apply_events, net_change, evaluate_all}
use sim_core.Session.Safe.{
  IsNet, Drives, Fires, InRange, HasStates, Armed, Evaluated, apply_events-Safe, evaluate_all-Safe,
  check_execution-Safe,
}
use sim_core.Session.Start.{schedule_initial, empty_agenda, Started}
use sim_core.Session.Start.Calm.{Primed, schedule_initial-Safe}
use sim_core.Engine.{
  Histories, EngineState, enforce_transition_budget, push_transition, Settling, record_net,
  record_nets, engine_batch, serve_event, engine_round, initial_histories, engine_start,
  engine_allowed, run_engine,
}

pub engine_allowed-Safe :
    (fl : Float) (control : ExecutionControl) → Safe (λ u. Unit) (engine_allowed fl control)
unfolding engine_allowed validate_policy
engine_allowed-Safe fl control =
    Safe-guard (λ u. Unit) (control.policy.poll_interval_ms == 0) "execution_policy_invalid" _ refl
      (λ valid. Safe-reject (control.is_cancelled 0) "execution_cancelled" refl)

module _ (fl : Float) (program : DigitalProgram fl.F) (sound : IsSound program) where
  open fl use {F, zero_time, lt}

  -- Every net of the program has a history.
  abbrev Kept : Histories F → Type 0
  Kept histories = (net : String) → IsNet program net → is_some (lookup net histories) ≡ true

  abbrev Settles : Settling fl → Type 0
  Settles s = Kept s.1 × All (InRange program) s.2

  replace-Kept :
      (net : String) (old new : List (DigitalTransition F)) (histories : Histories F)
      → lookup net histories ≡ some old
      → Kept histories
      → Kept (replace net new histories)
  replace-Kept net old new histories found kept other is_net =
      ground (arith, lookup-replace net other new old histories found, kept other)

  enforce-Safe :
      (histories : Histories F) (control : ExecutionControl)
      → Safe (λ u. Unit) (enforce_transition_budget histories control)
  unfolding enforce_transition_budget
  enforce-Safe histories control = Safe-reject _ "execution_resource_limit" refl

  record_net-Safe :
      (control : ExecutionControl) (time : F) (net : String) (value : Option LogicValue)
      (s : Settling fl)
      → IsNet program net
      → Settles s
      → Safe Settles (record_net fl control program time net value s)
  unfolding record_net
  record_net-Safe control time net none s is_net h = h
  record_net-Safe control time net (some value) (nets, histories, affected) is_net (kept, range) =
      elim (Option-cases (lookup net histories)) [
        | inl missing ↦ absurd (false≢true (ap is_some (sym missing) ∙ kept net is_net))
        | inr (history, found) ↦
            let pushed = push_transition fl history time value in
            rw found (
              Safe-bind (λ u. Unit) Settles
                (enforce_transition_budget (replace net pushed histories) control) _
                (enforce-Safe (replace net pushed histories) control)
                (λ u within. (
                  replace-Kept net history pushed histories found kept,
                  extend-All (InRange program) (dependents_of program net) affected (sound.read net)
                      range,
                )))
      ]

  record_nets-Safe :
      (control : ExecutionControl) (time : F) (values : DriverValues) (nets : List String)
      (s : Settling fl)
      → All (IsNet program) nets
      → Settles s
      → Safe Settles (record_nets fl control program time values nets s)
  unfolding record_nets
  record_nets-Safe control time values [] s all h = h
  record_nets-Safe control time values (net ∷ nets) s all h =
      let change = net_change program values s.0 net in
      Safe-bind Settles Settles (record_net fl control program time net change s) _
        (record_net-Safe control time net change s all.0 h)
        (λ s' h'. record_nets-Safe control time values nets s' all.1 h')

  -- What holds between the events of a run.
  pub record Steady (s : EngineState F) : Type 0 where
    pub kept : Kept s.histories
    pub states : HasStates program s.runtime_states
    pub armed : Armed fl program s.agenda

  engine_batch-Safe :
      (control : ExecutionControl) (stop : F) (first : ScheduledEvent F)
      (queue : List (ScheduledEvent F)) (s : EngineState F)
      → Fires program (first ∷ queue)
      → Steady s
      → Safe Steady (engine_batch fl control program stop first queue s)
  unfolding engine_batch
  engine_batch-Safe control stop first queue s fires steady =
      let taken = take_same fl first.time queue in
      let batch = first ∷ taken.0 in
      let both : Fires program (taken.0 ++ taken.1) =
        subst (Fires program) (sym (take_same-append fl first.time queue)) fires.1 in
      Safe-guard Steady (ltb max_digital_events (s.processed_events + length batch))
        "execution_resource_limit" _ refl
        (λ room.
          Safe-bind (λ r. All (IsNet program) r.1) Steady
            (apply_events program batch s.driver_values []) _
            (apply_events-Safe program batch s.driver_values []
              (fires.0, All-append_left (λ e. Drives program e.driver) taken.0 taken.1 both) tt)
            (λ applied nets.
              Safe-bind Settles Steady
                (record_nets fl control program first.time applied.0 applied.1
                  (s.net_values, s.histories, []))
                _
                (record_nets-Safe control first.time applied.0 applied.1
                  (s.net_values, s.histories, []) nets (steady.kept, tt))
                (λ settled h.
                  let agenda = record (s.agenda) { queue = taken.1 } in
                  Safe-bind (Evaluated fl program) Steady
                    (evaluate_all fl program stop first.time settled.0 settled.2 s.runtime_states
                      agenda)
                    _
                    (evaluate_all-Safe fl program stop first.time settled.0 settled.2
                      s.runtime_states agenda sound h.1 steady.states
                      (All-append_right (λ e. Drives program e.driver) taken.0 taken.1 both))
                    (λ r e. record { kept = h.0; states = e.0; armed = e.1 }))))

  serve_event-Safe :
      (control : ExecutionControl) (stop : F) (queue : List (ScheduledEvent F)) (s : EngineState F)
      → Fires program queue
      → Steady s
      → Safe (InRound Steady) (serve_event fl control program stop queue s)
  unfolding serve_event
  serve_event-Safe control stop [] s fires steady = steady
  serve_event-Safe control stop (first ∷ queue) s fires steady =
      Safe-bind (λ u. Unit) (InRound Steady) (check_execution control s.instant) _
        (check_execution-Safe control s.instant)
        (λ u on. elim (Bool-cases (lt stop first.time)) [
          | inl late ↦
              rw late (record { kept = steady.kept; states = steady.states; armed = fires.1 })
          | inr due ↦
              let now = record s { instant = s.instant + 1 } in
              rw due (
                Safe-bind Steady (InRound Steady)
                  (engine_batch fl control program stop first queue now) _
                  (engine_batch-Safe control stop first queue now fires
                    (record { kept = steady.kept; states = steady.states; armed = steady.armed }))
                  (λ s' h. h))
        ])

  engine_round-Safe :
      (control : ExecutionControl) (stop : F) (s : EngineState F)
      → Steady s
      → Safe (InRound Steady) (engine_round fl control program stop s)
  unfolding engine_round
  engine_round-Safe control stop s steady =
      serve_event-Safe control stop s.agenda.queue s steady.armed steady

  initial_histories-has :
      (nets : List String) (histories : Histories F) (net : String)
      → (contains net nets || is_some (lookup net histories)) ≡ true
      → is_some (lookup net (initial_histories fl nets histories)) ≡ true
  unfolding initial_histories contains
  initial_histories-has [] histories net h = h
  initial_histories-has (n ∷ nets) histories net h =
      let start : List (DigitalTransition F) = record { time = zero_time; value = unknown } ∷ [] in
      initial_histories-has nets (insert n start histories) net
        (ground (arith, lookup-insert n net start histories))

  engine_start-Steady :
      (agenda : Agenda F) (instant : ℕ)
      → Armed fl program agenda
      → Steady (engine_start fl program agenda instant)
  unfolding engine_start
  engine_start-Steady agenda instant armed = record {
    kept = λ net is_net. initial_histories-has program.nets [] net (ground (arith, is_net));
    states = length-map for_component program.components;
    armed = armed;
  }

  -- A run on a sound program does not panic.
  pub run_engine-Safe :
      (fuel : ℕ) (control : ExecutionControl) (stop : F)
      → SafeRun Steady (run_engine fl fuel control program stop)
  unfolding run_engine
  run_engine-Safe fuel control stop =
      start (engine_allowed fl control) (engine_allowed-Safe fl control)
    where
      started :
          (o : Option (Result (Started fl)))
          → SafeRun (Primed fl program) o
          → SafeRun Steady (elim o [
            | none ↦ none
            | some (err e) ↦ some (err e)
            | some (ok (agenda, instant)) ↦
                loop fuel
                  (engine_round fl control program stop)
                  (engine_start fl program agenda instant)
          ])
      started none h = tt
      started (some (err e)) h = h
      started (some (ok (agenda, instant))) h =
          loop-SafeRun Steady (engine_round fl control program stop)
            (engine_round-Safe control stop) fuel (engine_start fl program agenda instant)
            (engine_start-Steady agenda instant h)

      start :
          (r : Result (Unit {0}))
          → Safe (λ u. Unit) r
          → SafeRun Steady (elim r [
            | err e ↦ some (err e)
            | ok u ↦
                elim (schedule_initial fl fuel control stop 0 program.components
                  (map for_component program.components)
                  (empty_agenda fl, 1)) [
                    | none ↦ none
                    | some (err e) ↦ some (err e)
                    | some (ok (agenda, instant)) ↦
                        loop fuel
                          (engine_round fl control program stop)
                          (engine_start fl program agenda instant)
                  ]
          ])
      start (err e) h = h
      start (ok u) h =
          started
            (schedule_initial fl fuel control stop 0 program.components
              (map for_component program.components) (empty_agenda fl, 1))
            (schedule_initial-Safe fl program fuel control stop 0 program.components
              (empty_agenda fl, 1) sound
              (λ i c found. let at : 0 + i ≡ i = omega arith in rw at found) tt)
